-- ===== src/Lifecycle/Micro.antt =====
-- src/feelies/kernel/micro.py: the steps of one tick.
use feelies.Kit.{ℕ, String, ◌≡◌, refl, some, List, [], ◌∷◌, Eq}
use feelies.Kit.Dict.{Dict}
use feelies.Kit.Members.{get_elem?, by_value}
use feelies.Machine.{Enum, StateMachine, Fault, Result, create}

pub data MicroState : Type 0 where
  waiting_for_market_event market_event_received state_update sensor_update horizon_check
        horizon_aggregate signal_gate cross_sectional feature_compute signal_evaluate risk_check
        order_decision order_submit order_ack position_update log_and_metrics :
      MicroState

abbrev pub members : List MicroState
members =
    waiting_for_market_event ∷ market_event_received ∷ state_update ∷ sensor_update ∷ horizon_check
    ∷ horizon_aggregate ∷ signal_gate ∷ cross_sectional ∷ feature_compute ∷ signal_evaluate
    ∷ risk_check ∷ order_decision ∷ order_submit ∷ order_ack ∷ position_update ∷ log_and_metrics
    ∷ []

abbrev pub name : MicroState → String
name waiting_for_market_event = "WAITING_FOR_MARKET_EVENT"
name market_event_received = "MARKET_EVENT_RECEIVED"
name state_update = "STATE_UPDATE"
name sensor_update = "SENSOR_UPDATE"
name horizon_check = "HORIZON_CHECK"
name horizon_aggregate = "HORIZON_AGGREGATE"
name signal_gate = "SIGNAL_GATE"
name cross_sectional = "CROSS_SECTIONAL"
name feature_compute = "FEATURE_COMPUTE"
name signal_evaluate = "SIGNAL_EVALUATE"
name risk_check = "RISK_CHECK"
name order_decision = "ORDER_DECISION"
name order_submit = "ORDER_SUBMIT"
name order_ack = "ORDER_ACK"
name position_update = "POSITION_UPDATE"
name log_and_metrics = "LOG_AND_METRICS"

-- The value that `auto()` gives, less one.
abbrev pub value : MicroState → ℕ
value waiting_for_market_event = 0
value market_event_received = 1
value state_update = 2
value sensor_update = 3
value horizon_check = 4
value horizon_aggregate = 5
value signal_gate = 6
value cross_sectional = 7
value feature_compute = 8
value signal_evaluate = 9
value risk_check = 10
value order_decision = 11
value order_submit = 12
value order_ack = 13
value position_update = 14
value log_and_metrics = 15

pub found : (s : MicroState) → get_elem? members (value s) ≡ some s
found waiting_for_market_event = refl
found market_event_received = refl
found state_update = refl
found sensor_update = refl
found horizon_check = refl
found horizon_aggregate = refl
found signal_gate = refl
found cross_sectional = refl
found feature_compute = refl
found signal_evaluate = refl
found risk_check = refl
found order_decision = refl
found order_submit = refl
found order_ack = refl
found position_update = refl
found log_and_metrics = refl

instance abbrev pub MicroState_Eq : Eq MicroState
MicroState_Eq = by_value members value found

abbrev pub enum : Enum MicroState
enum = record { members = members; name = name }

abbrev pub transitions : Dict MicroState (List MicroState)
transitions =
    (waiting_for_market_event, market_event_received ∷ [])
    ∷ (market_event_received, state_update ∷ [])
    ∷ (state_update, sensor_update ∷ feature_compute ∷ [])
    ∷ (sensor_update, horizon_check ∷ [])
    ∷ (horizon_check, horizon_aggregate ∷ feature_compute ∷ [])
    ∷ (horizon_aggregate, signal_gate ∷ cross_sectional ∷ feature_compute ∷ [])
    ∷ (signal_gate, cross_sectional ∷ feature_compute ∷ [])
    ∷ (cross_sectional, feature_compute ∷ risk_check ∷ [])
    ∷ (feature_compute, signal_evaluate ∷ [])
    ∷ (signal_evaluate, risk_check ∷ log_and_metrics ∷ [])
    ∷ (risk_check, order_decision ∷ log_and_metrics ∷ [])
    ∷ (order_decision, order_submit ∷ log_and_metrics ∷ [])
    ∷ (order_submit, order_ack ∷ [])
    ∷ (order_ack, position_update ∷ [])
    ∷ (position_update, log_and_metrics ∷ [])
    ∷ (log_and_metrics, waiting_for_market_event ∷ risk_check ∷ feature_compute ∷ [])
    ∷ []

module _ {W E : Type 0} where
  -- `create_micro_state_machine`
  unfoldable pub create_micro_state_machine :
      Result (Fault MicroState E) (StateMachine MicroState W E)
  create_micro_state_machine =
      create enum "tick_pipeline" waiting_for_market_event transitions (some 256)
        (some "sm_transition_ns")
