-- ===== src/Lifecycle/Macro.antt =====
-- src/feelies/kernel/macro.py: the state of the whole stack.
use feelies.Kit.{ℕ, String, ◌≡◌, refl, none, some, List, [], ◌∷◌, Eq}
use feelies.Kit.Dict.{Dict}
use feelies.Kit.Members.{get_elem?, by_value}
use feelies.Machine.{Enum, StateMachine, Fault, Result, create}

pub data MacroState : Type 0 where
  init data_sync ready backtest_mode paper_trading_mode degraded risk_lockdown shutdown : MacroState

abbrev pub members : List MacroState
members =
    init ∷ data_sync ∷ ready ∷ backtest_mode ∷ paper_trading_mode ∷ degraded ∷ risk_lockdown
    ∷ shutdown ∷ []

abbrev pub name : MacroState → String
name init = "INIT"
name data_sync = "DATA_SYNC"
name ready = "READY"
name backtest_mode = "BACKTEST_MODE"
name paper_trading_mode = "PAPER_TRADING_MODE"
name degraded = "DEGRADED"
name risk_lockdown = "RISK_LOCKDOWN"
name shutdown = "SHUTDOWN"

-- The value that `auto()` gives, less one.
abbrev pub value : MacroState → ℕ
value init = 0
value data_sync = 1
value ready = 2
value backtest_mode = 3
value paper_trading_mode = 4
value degraded = 5
value risk_lockdown = 6
value shutdown = 7

pub found : (s : MacroState) → get_elem? members (value s) ≡ some s
found init = refl
found data_sync = refl
found ready = refl
found backtest_mode = refl
found paper_trading_mode = refl
found degraded = refl
found risk_lockdown = refl
found shutdown = refl

instance abbrev pub MacroState_Eq : Eq MacroState
MacroState_Eq = by_value members value found

abbrev pub enum : Enum MacroState
enum = record { members = members; name = name }

abbrev pub transitions : Dict MacroState (List MacroState)
transitions =
    (init, data_sync ∷ shutdown ∷ [])
    ∷ (data_sync, ready ∷ degraded ∷ [])
    ∷ (ready, backtest_mode ∷ paper_trading_mode ∷ shutdown ∷ [])
    ∷ (backtest_mode, ready ∷ degraded ∷ [])
    ∷ (paper_trading_mode, ready ∷ risk_lockdown ∷ degraded ∷ [])
    ∷ (degraded, ready ∷ shutdown ∷ [])
    ∷ (risk_lockdown, ready ∷ shutdown ∷ [])
    ∷ (shutdown, [])
    ∷ []

module _ {W E : Type 0} where
  -- `create_macro_state_machine`
  unfoldable pub create_macro_state_machine :
      Result (Fault MacroState E) (StateMachine MacroState W E)
  create_macro_state_machine = create enum "global_stack" init transitions (some 64) none
