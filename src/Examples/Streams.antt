-- ===== src/Examples/Streams.antt =====
-- The event log, the horizon scheduler and the synchronizer at concrete inputs
-- (src/feelies/storage/memory_event_log.py, src/feelies/sensors/horizon_scheduler.py,
-- src/feelies/composition/synchronizer.py).
use feelies.Kit.{
  ℕ, arith, nat_Eq, string_Eq, pair_Eq, String, ◌≡◌, refl, true, ◌⊎◌, none, some, List, [], ◌∷◌,
  ◌++◌, map,
}
use feelies.Kit.Int.{ℤ}
use feelies.Kit.Dict.{lookup}
use feelies.Sequence.{create_sequence}
use feelies.EventLog
use feelies.EventLog.{
  MarketEvent, nbbo_quote, trade, Event, market, other, EventLog, append_batch,
  stabilize_market_slice, resequence_event_list, replay,
}
use feelies.EventLog.Batches.{append_batch-whole, resequenced-appends}
use feelies.EventLog.Replay.{selected, replay-selected}
use feelies.Scheduler
use feelies.Scheduler.{HorizonScheduler, HorizonTick, universe_scope}
use feelies.Scheduler.Rising.{Rises, boundaries, end_of, run, run-Rises}
use feelies.Synchronizer.{Synchronizer, FeederSignal, Context, max_age_ns}
use feelies.Synchronizer.Emission.{on_tick, emit_context}
use feelies.Synchronizer.Causal.{IsCausal, on_tick-IsCausal}
use feelies.Examples.Toy.{toy}

abbrev event : ℕ → String → ℕ → MarketEvent ℕ
event ts symbol n = record {
  kind = trade;
  exchange_timestamp_ns = ts;
  symbol = symbol;
  sequence = n;
  correlation_id = "c";
  payload = 0;
}

-- Two events of the market in the wrong order, and another one between them.
abbrev batch : List (Event ℕ)
batch = market (event 9 "AAPL" 4) ∷ other 5 0 ∷ market (event 7 "MSFT" 6) ∷ []

abbrev log : EventLog ℕ
log = record {
  events = market (event 5 "AAPL" 1) ∷ market (event 6 "AAPL" 3) ∷ market (event 6 "MSFT" 8) ∷ [];
  last_market_key = some (6, "MSFT", 1, 8);
  enforce_market_order_enabled = true;
}

append_batch-whole_example :
    ((append_batch batch log).0 ≡ none)
      × ((append_batch batch log).1.events ≡ log.events ++ stabilize_market_slice batch)
    ⊎ ((append_batch batch log).1 ≡ log)
append_batch-whole_example = append_batch-whole batch log

abbrev unordered : List (MarketEvent ℕ)
unordered = event 9 "AAPL" 4 ∷ event 7 "MSFT" 6 ∷ event 7 "AAPL" 8 ∷ []

resequenced-appends_example :
    ((append_batch (map market (resequence_event_list unordered)) (EventLog.create true)).0 ≡ none)
    × ((append_batch (map market (resequence_event_list unordered)) (EventLog.create true)).1.events
        ≡ map market (resequence_event_list unordered))
resequenced-appends_example = resequenced-appends unordered true

replay-selected_example : replay 2 (some 8) log ≡ selected 2 (some 8) log.events
replay-selected_example =
    replay-selected log 2 (some 8) (omega arith, (omega arith, (omega arith, tt)))

abbrev scheduler : HorizonScheduler
scheduler = Scheduler.create (30 ∷ []) "day" ("AAPL" ∷ []) (some 0) (create_sequence 0) none

run-Rises_example :
    Rises none (
      boundaries
        (30, "AAPL")
        (run (30_000_000_000 ∷ 31_000_000_000 ∷ 60_000_000_000 ∷ []) scheduler).1)
    × (lookup
          (30, "AAPL")
          (run
            (30_000_000_000 ∷ 31_000_000_000 ∷ 60_000_000_000 ∷ [])
            scheduler).0.last_boundary_symbol
        ≡ end_of none (
            boundaries
              (30, "AAPL")
              (run (30_000_000_000 ∷ 31_000_000_000 ∷ 60_000_000_000 ∷ []) scheduler).1))
unfolding Scheduler.create
run-Rises_example =
    run-Rises (30_000_000_000 ∷ 31_000_000_000 ∷ 60_000_000_000 ∷ []) scheduler (30, "AAPL")

abbrev sig : FeederSignal
sig = record {
  timestamp_ns = 50;
  symbol = "AAPL";
  strategy_id = "s";
  horizon_seconds = 30;
  layer = "SIGNAL";
}

abbrev synchronizer : Synchronizer
synchronizer = record {
  universe = record { symbols = "AAPL" ∷ []; members = "AAPL" ∷ [] };
  context_horizons = 30 ∷ [];
  signal_horizons = 30 ∷ [];
  upstream_strategy_ids = "s" ∷ [];
  ctx_seq = create_sequence 0;
  snapshot_cache = [];
  signal_cache = (((30, "AAPL"), "s"), sig) ∷ [];
  emitted = [];
  attached = true;
  signal_max_age_seconds = none;
}

abbrev tick : HorizonTick
tick = record {
  timestamp_ns = 60;
  correlation_id = "c";
  sequence = 3;
  horizon_seconds = 30;
  boundary_index = 2;
  boundary_ts_ns = 60;
  session_id = "day";
  scope = universe_scope;
  symbol = none;
}

abbrev context : Context ℤ
context = (emit_context toy tick (record synchronizer { emitted = (30, 2) ∷ [] })).1

on_tick_publishes : (on_tick toy tick synchronizer).1 ≡ some context
unfolding on_tick
on_tick_publishes = refl

on_tick-IsCausal_example :
    IsCausal (max_age_ns synchronizer 30) context × (context.timestamp_ns ≡ 60)
on_tick-IsCausal_example = on_tick-IsCausal toy tick synchronizer on_tick_publishes
