-- ===== src/Examples/Halting.antt =====
-- Halts of src/feelies/core/data_health.py at concrete inputs.
use feelies.Kit.{ℕ, arith, ◌≡◌, refl, true, some, none, [], ◌∷◌}
use feelies.Machine.{StateMachine, transition, notify}
use feelies.Lifecycle.Integrity.{DataHealth, healthy, halted, transitions}
use feelies.Halts.{
  HaltTradeability, create_halts, classify_halt_status, sync_halt_store_and_health, in_blackout,
  move,
}
use feelies.Halts.Sync.{Quiet, aligned, sync-Quiet, sync-aligned}

abbrev store : HaltTradeability
store = record create_halts { on_codes = 1 ∷ []; off_codes = 2 ∷ []; blackout_ns = 50 }

abbrev in_halt : HaltTradeability
in_halt = record store { halted_symbols = "AAPL" ∷ [] }

abbrev machine : StateMachine DataHealth ℕ ℕ
machine = record {
  name = "data_integrity:AAPL:trade";
  initial_state = healthy;
  state = halted;
  transitions = transitions;
  history_limit = none;
  history = [];
  callbacks = [];
  timing_sink = none;
  timing_key = none;
}

halt_ends :
    in_blackout
      (sync_halt_store_and_health in_halt (some machine) 0 "AAPL" (7 ∷ 2 ∷ []) (some 100) (3, 1)).1
      "AAPL"
      149
    ≡ true
unfolding in_blackout sync_halt_store_and_health classify_halt_status move
halt_ends = refl

sync-Quiet_example :
    Quiet
      (sync_halt_store_and_health in_halt (some machine) 0 "AAPL" (7 ∷ 2 ∷ []) (some 100) (3, 1)).1
sync-Quiet_example =
    sync-Quiet in_halt (some machine) 0 "AAPL" (7 ∷ 2 ∷ []) (some 100) (3, 1) nothing_black
  where
    nothing_black : Quiet in_halt
    nothing_black s = ground arith

sync-aligned_example :
    aligned
      (sync_halt_store_and_health in_halt (some machine) 0 "AAPL" (2 ∷ []) (some 100) (3, 1)).1
      (sync_halt_store_and_health in_halt (some machine) 0 "AAPL" (2 ∷ []) (some 100) (3, 1)).2.0
      "AAPL"
    ≡ true
unfolding classify_halt_status move transition notify sync_halt_store_and_health
sync-aligned_example =
    sync-aligned in_halt machine 0 "AAPL" (2 ∷ []) (some 100) (3, 1) refl refl refl
