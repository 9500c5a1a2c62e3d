-- ===== src/Lifecycle/Gates.antt =====
-- What must have happened before a state is reached, on every run of a machine that
-- src/feelies/kernel/micro.py, src/feelies/kernel/macro.py, src/feelies/core/escalation.py or
-- src/feelies/core/order_state.py creates.
use feelies.Kit.{◌≡◌, refl, inl, inr, Bool, true, false, List, [], ◌∷◌, arith, Eq}
use mathlib.Core.Path.{subst}
use mathlib.Core.Logic.{◌≢◌}
use feelies.Kit.Dict.{Dict}
use feelies.Machine.{Enum, StateMachine, Call, ok, contains, allowed, create}
use feelies.Machine.Trace.{Walk, here, step, drive, drive-Walk, Walk-gate}
use feelies.Lifecycle.Orders.{OrderState_Eq}
use feelies.Lifecycle.Macro
use feelies.Lifecycle.Macro.{MacroState, MacroState_Eq, create_macro_state_machine}
use feelies.Lifecycle.Micro
use feelies.Lifecycle.Micro.{MicroState, MicroState_Eq, create_micro_state_machine}
use feelies.Lifecycle.Escalation.{RiskLevel_Eq}

-- A run of a machine as it was created is a path from its first state.
pub run-Walk :
    {S W E : Type 0} ⦃eq : Eq S⦄ (enum : Enum S) (table : Dict S (List S)) (s : S)
    (m : StateMachine S W E) (calls : List (S × Call)) (w : W)
    → m.transitions ≡ table
    → m.state ≡ s
    → let (m', vs) = drive enum calls m w [] in Walk table s vs m'.state
run-Walk enum table s m calls w p q = drive-Walk enum table s calls m w [] p (rw q here)

micro-Walk :
    {W E : Type 0} {m : StateMachine MicroState W E} (calls : List (MicroState × Call)) (w : W)
    → create_micro_state_machine ≡ ok m
    → let (m', vs) = drive Micro.enum calls m w [] in
      Walk Micro.transitions Micro.waiting_for_market_event vs m'.state
unfolding create_micro_state_machine create
micro-Walk {m = m} calls w h =
    run-Walk Micro.enum Micro.transitions Micro.waiting_for_market_event m calls w (ground arith)
      (ground arith)

module _ {S : Type 0} ⦃eq : Eq S⦄ {table : Dict S (List S)} {s : S} where
  -- A state with a single predecessor is reached by way of it.
  arrive :
      {vs : List S} {t : S} (q : S)
      → Walk table s vs t
      → s ≢ t
      → ((p : S) → allowed table p t ≡ true → p ≡ q)
      → (vs' : List S) × (vs ≡ t ∷ vs') × Walk table s vs' q
  arrive q here ne only = absurd (ne refl)
  arrive q (step {vs = vs'} {t = p} u path edge) ne only =
      (vs', refl, subst (λ x. Walk table s vs' x) (only p edge) path)

before_submit :
    (t : MicroState)
    → allowed Micro.transitions t Micro.order_submit ≡ true
    → t ≡ Micro.order_decision
before_submit Micro.order_decision h = refl
before_submit _ h = cc

before_decision :
    (t : MicroState)
    → allowed Micro.transitions t Micro.order_decision ≡ true
    → t ≡ Micro.risk_check
before_decision Micro.risk_check h = refl
before_decision _ h = cc

submit-Walk :
    {vs : List MicroState}
    → Walk Micro.transitions Micro.waiting_for_market_event vs Micro.order_submit
    → (earlier : List MicroState) × (vs
        ≡ Micro.order_submit ∷ Micro.order_decision ∷ Micro.risk_check ∷ earlier)
submit-Walk path =
    let (vs₁, e₁, p₁) = arrive Micro.order_decision path (λ e. cc) before_submit in
    let (vs₂, e₂, p₂) = arrive Micro.risk_check p₁ (λ e. cc) before_decision in
    let (vs₃, e₃) = ends p₂ in (vs₃, cc)
  where
    ends :
        {vs : List MicroState}
        → Walk Micro.transitions Micro.waiting_for_market_event vs Micro.risk_check
        → (earlier : List MicroState) × (vs ≡ Micro.risk_check ∷ earlier)
    ends (step {vs = vs'} u path edge) = (vs', refl)

-- Whenever the tick pipeline stands at ORDER_SUBMIT, the two states that it visited just before
-- are ORDER_DECISION and, before that, RISK_CHECK: no order is submitted on a risk check of an
-- earlier order or of an earlier tick, whatever sequence of transitions was asked for.
pub order_submit_checked :
    {W E : Type 0} {m : StateMachine MicroState W E} (calls : List (MicroState × Call)) (w : W)
    → create_micro_state_machine ≡ ok m
    → (drive Micro.enum calls m w []).0.state ≡ Micro.order_submit
    → (earlier : List MicroState) × ((drive Micro.enum calls m w []).1
        ≡ Micro.order_submit ∷ Micro.order_decision ∷ Micro.risk_check ∷ earlier)
order_submit_checked {m = m} calls w h e =
    let (m', vs) = drive Micro.enum calls m w [] in
    submit-Walk (
      subst (λ t. Walk Micro.transitions Micro.waiting_for_market_event vs t) e
        (micro-Walk calls w h))

before_lockdown :
    (t : MacroState)
    → allowed Macro.transitions t Macro.risk_lockdown ≡ true
    → t ≡ Macro.paper_trading_mode
before_lockdown Macro.paper_trading_mode h = refl
before_lockdown _ h = cc

before_paper :
    (t : MacroState) → allowed Macro.transitions t Macro.paper_trading_mode ≡ true → t ≡ Macro.ready
before_paper Macro.ready h = refl
before_paper _ h = cc

unsynced : MacroState → Bool
unsynced Macro.init = true
unsynced Macro.shutdown = true
unsynced _ = false

synced_first :
    {vs : List MacroState}
    → Walk Macro.transitions Macro.init vs Macro.ready
    → contains Macro.data_sync vs ≡ true
unfolding unsynced
synced_first path =
    elim (Walk-gate unsynced Macro.data_sync Macro.transitions Macro.init _ Macro.ready refl refl
      path) [ inl inside ↦ cc | inr passed ↦ passed ]

lockdown-Walk :
    {vs : List MacroState}
    → Walk Macro.transitions Macro.init vs Macro.risk_lockdown
    → (earlier : List MacroState) × (vs ≡ Macro.risk_lockdown ∷ Macro.paper_trading_mode ∷ earlier)
      × (contains Macro.data_sync earlier ≡ true)
lockdown-Walk path =
    let (vs₁, e₁, p₁) = arrive Macro.paper_trading_mode path (λ e. cc) before_lockdown in
    let (vs₂, e₂, p₂) = arrive Macro.ready p₁ (λ e. cc) before_paper in (vs₂, cc, synced_first p₂)

-- A risk lockdown comes straight out of paper trading, never out of a backtest, and a stack that
-- was locked down had synchronised its data before it went into paper trading.
pub lockdown_from_paper :
    {W E : Type 0} {m : StateMachine MacroState W E} (calls : List (MacroState × Call)) (w : W)
    → create_macro_state_machine ≡ ok m
    → (drive Macro.enum calls m w []).0.state ≡ Macro.risk_lockdown
    → (earlier : List MacroState) × ((drive Macro.enum calls m w []).1
        ≡ Macro.risk_lockdown ∷ Macro.paper_trading_mode ∷ earlier)
      × (contains Macro.data_sync earlier ≡ true)
unfolding create_macro_state_machine create
lockdown_from_paper {m = m} calls w h e =
    let (m', vs) = drive Macro.enum calls m w [] in
    lockdown-Walk (
      subst (λ t. Walk Macro.transitions Macro.init vs t) e
        (run-Walk Macro.enum Macro.transitions Macro.init m calls w (ground arith) (ground arith)))
