-- ===== src/Examples/Machines.antt =====
-- Runs of the machines of src/feelies/core/state_machine.py at concrete calls.
use feelies.Kit.{ℕ, ◌+◌, ◌%◌, String, ◌≡◌, refl, ◌⊎◌, Option, none, some, List, [], ◌∷◌}
use feelies.Machine.{StateMachine, Call, err, illegal_transition, create, notify, transition}
use feelies.Machine.Laws.{Edge, record_of, Interrupted, Committed, transition_outcome}
use feelies.Machine.Trail.{Request, to, back, serve, IsTrail, create-serve-IsTrail}
use feelies.Machine.Trace.{drive}
use feelies.Lifecycle.Orders
use feelies.Lifecycle.Orders.{
  OrderState, OrderState_Eq, created, submitted, acknowledged, partially_filled, filled, rejected,
  create_order_state_machine,
}
use feelies.Lifecycle.Macro
use feelies.Lifecycle.Macro.{MacroState, MacroState_Eq, create_macro_state_machine}
use feelies.Lifecycle.Micro
use feelies.Lifecycle.Micro.{MicroState, MicroState_Eq, create_micro_state_machine}
use feelies.Lifecycle.Escalation
use feelies.Lifecycle.Escalation.{RiskLevel, RiskLevel_Eq, create_risk_escalation_machine}
use feelies.Lifecycle.Integrity
use feelies.Lifecycle.Integrity.{DataHealth, DataHealth_Eq}
use feelies.Lifecycle.Gates.{order_submit_checked}
use feelies.Lifecycle.Levels.{climb, escalation_ladder}

abbrev call : ℕ → Call
call t = record {
  trigger = "test";
  correlation_id = "c";
  metadata = none;
  now_ns = t;
  elapsed_ns = 0;
}

-- The machine of order 7, with a callback that counts the records and refuses a fill.
abbrev order : StateMachine OrderState ℕ String
order = record {
  name = "order:7";
  initial_state = created;
  state = created;
  transitions = Orders.transitions;
  history_limit = none;
  history = [];
  callbacks = (λ r w. (w + 1, none)) ∷ [];
  timing_sink = none;
  timing_key = none;
}

abbrev plain :
    {S : Type 0}
    → String
    → S
    → List (S × List S)
    → Option ℕ
    → Option String
    → StateMachine S ℕ String
plain name s table limit key = record {
  name = name;
  initial_state = s;
  state = s;
  transitions = table;
  history_limit = limit;
  history = [];
  callbacks = [];
  timing_sink = none;
  timing_key = key;
}

transition_outcome_example :
    let out = transition Orders.enum order (call 5) submitted 0 in
    let r = record_of Orders.enum order (call 5) submitted [] in
    ((¬ Edge Orders.transitions created submitted)
      × (out ≡ (order, 0, err (illegal_transition "order:7" created submitted "test"))))
    ⊎ (Edge Orders.transitions created submitted
        × (Interrupted order r 0 out ⊎ Committed order r submitted 0 out))
transition_outcome_example = transition_outcome Orders.enum order (call 5) submitted 0

abbrev micro : StateMachine MicroState ℕ String
micro =
    plain "tick_pipeline" Micro.waiting_for_market_event Micro.transitions (some 256)
      (some "sm_transition_ns")

abbrev tick : List (MicroState × Call)
tick =
    (Micro.market_event_received, call 1)
    ∷ (Micro.order_submit, call 2)
    ∷ (Micro.state_update, call 3)
    ∷ (Micro.feature_compute, call 4)
    ∷ (Micro.signal_evaluate, call 5)
    ∷ (Micro.risk_check, call 6)
    ∷ (Micro.order_decision, call 7)
    ∷ (Micro.order_submit, call 8)
    ∷ []

create-serve-IsTrail_example :
    IsTrail Orders.enum
      (serve Orders.enum
        ((to submitted, call 1) ∷ (to filled, call 2) ∷ (back, call 3) ∷ [])
        (plain "order:7" created Orders.transitions none none)
        0).0
unfolding create
create-serve-IsTrail_example =
    create-serve-IsTrail Orders.enum "order:7" created Orders.transitions none none
      ((to submitted, call 1) ∷ (to filled, call 2) ∷ (back, call 3) ∷ []) 0 refl

order_submit_checked_example :
    (earlier : List MicroState) × ((drive Micro.enum tick micro 0 []).1
      ≡ Micro.order_submit ∷ Micro.order_decision ∷ Micro.risk_check ∷ earlier)
unfolding create_micro_state_machine create transition notify
order_submit_checked_example = order_submit_checked {W = ℕ} {E = String} tick 0 refl refl

abbrev lockdown : List (MacroState × Call)
lockdown =
    (Macro.data_sync, call 1)
    ∷ (Macro.ready, call 2)
    ∷ (Macro.paper_trading_mode, call 3)
    ∷ (Macro.risk_lockdown, call 4)
    ∷ []

abbrev stack : StateMachine MacroState ℕ String
stack = plain "global_stack" Macro.init Macro.transitions (some 64) none

abbrev levels : StateMachine RiskLevel ℕ String
levels = plain "risk_escalation" Escalation.normal Escalation.transitions none none

-- Up one rung, a skip that is refused, up one, back down, and up again.
abbrev levels_asked : List (Request RiskLevel × Call)
levels_asked =
    (to Escalation.warning, call 1)
    ∷ (to Escalation.locked, call 2)
    ∷ (to Escalation.breach_detected, call 3)
    ∷ (back, call 4)
    ∷ (to Escalation.warning, call 5)
    ∷ []

escalation_ladder_example :
    let (m, n) = climb levels_asked levels 0 0 in Escalation.value m.state ≡ n % 5
unfolding create_risk_escalation_machine create
escalation_ladder_example = escalation_ladder levels_asked 0 refl

abbrev fills : List (OrderState × Call)
fills =
    (submitted, call 1)
    ∷ (acknowledged, call 2)
    ∷ (partially_filled, call 3)
    ∷ (rejected, call 4)
    ∷ []

abbrev stream : StateMachine DataHealth ℕ String
stream = plain "data_integrity:A" Integrity.corrupted Integrity.transitions none none
