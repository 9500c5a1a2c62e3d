-- ===== src/Lib.antt =====
-- feelies: an intraday trading platform in Python (src/feelies). This library models its decision
-- and accounting core and proves what makes it correct.
--
-- The parts and how they interact. The kernel drives five state machines, all instances of one
-- framework; a tick goes from market data to a signal, a sized target, an order intent, an order
-- and its fills. A signal becomes a desired position, which the planner turns into child orders and
-- back into the intent that risk and routing read. A fill updates the average-cost book and the FIFO
-- lot ledger of its symbol, and is split among the alphas that wanted it.
--
-- Which file models what:
--   Machine       src/feelies/core/state_machine.py, class StateMachine: its fields as a record, one
--                 function per method. Clock readings are arguments; a callback acts on a world of
--                 its own and may raise, but cannot call back into the machine. Children: one
--                 transition (Laws), the history (Trail), the states of a run (Trace).
--   Lifecycle     the tables and factories of src/feelies/core/order_state.py, kernel/macro.py,
--                 kernel/micro.py, core/escalation.py, ingestion/data_integrity.py and the enum of
--                 core/data_health.py, one file each; Terminal, Gates and Levels prove what any run
--                 of them does.
--   Lots          src/feelies/core/lot_ledger.py, class LotLedger: Lot, apply_fill (`fill_lots` is
--                 its work on one symbol, `reduce` its loop) and the queries. Children: one fill
--                 (Conserve, Sides), any number of fills (Accounts, Runs).
--   Market        the records of src/feelies/core/events.py and src/feelies/core/position.py that
--                 the parts below read.
--   Intent        src/feelies/core/intent.py, class SignalPositionTranslator.
--   Plan          src/feelies/core/position_manager.py: plans, `desired_from_signal`,
--                 `order_intent_from_plan`.
--   Planner       src/feelies/execution/position_manager.py: LegacyPositionManager.plan and, in
--                 Compare, `compare_plan_to_intent`. Agreement and Shadow set it beside the
--                 translator; Reaches says what its orders do to the position. Target is
--                 TargetPositionManager, with the gates of core/position_manager.py; Trims says what
--                 its orders do.
--   Book          src/feelies/portfolio/memory_position_store.py, class MemoryPositionStore. Match
--                 sets it beside the lot ledger; Carried is about one fill, Episodes about the age
--                 of a position.
--   Halts         src/feelies/core/data_health.py: halted symbols and blackouts; Sync sets them beside
--                 the health machine of the trade feed.
--   Strategies    src/feelies/portfolio/strategy_position_store.py, class StrategyPositionStore: a book
--                 for each strategy. Aggregate sets their sum beside one lot ledger.
--   Attribution   src/feelies/core/fill_attribution.py, and in Ledger the class
--                 FillAttributionLedger of src/feelies/portfolio/fill_attribution.py. Sums, Fees and
--                 Partial prove that nothing is lost.
--   Costs         src/feelies/core/cost_model.py: the estimates that those gates read; Policy is
--                 core/min_cost_policy.py, the choice of a passive or an aggressive order.
--   Sequence      src/feelies/core/identifiers.py.
--   Exits         src/feelies/risk: stop_exit.py (Stop), hazard_exit.py (Hazard), deferral_cap.py
--                 (Deferral) and exit_composer.py (Composer). Closes, Once, Deadline and Composed
--                 say what they publish, and when.
--   Admission     src/feelies/core/order_admission.py; Exposure sets it beside the translator.
--   Netting       src/feelies/core/portfolio_netter.py.
--   SizedIntent   src/feelies/risk/sized_intent_orders.py.
--   DayTrades     src/feelies/execution/regulatory/pdt_constraint.py.
--   EventLog      src/feelies/storage/event_resequence.py and memory_event_log.py; Order, Batches,
--                 Search and Replay are about its order, its batches and its binary search.
--   Scheduler     src/feelies/sensors/horizon_scheduler.py.
--   Synchronizer  src/feelies/composition/synchronizer.py; Emission makes the context of a boundary,
--                 Causal says how old its signals are.
--   Regimes       src/feelies/services/regime_hazard_detector.py.
--   Kit           shared helpers: integers, dicts, float interface, lists, results.
--   Examples      tests, and the theorems at concrete inputs.
--
-- Numbers. Python integers are unbounded, so ℤ has no width. A `Decimal` price or amount is an
-- integer number of the smallest unit in play: sums and products of them are exact here, as they
-- are in the source as long as they fit the context's precision of 28 digits. The two quotients that
-- round are parameters: the average price of the book (`div`) and the fee of a part (`share`).
-- Floats are an interface with no laws (Kit.Floats); where a result depends on their accuracy, that
-- is a hypothesis. Two loops have fuel: the digits of a number, which are no more than it is, and
-- the binary search of the event log, whose fuel is the length of the log, which
-- EventLog.Search shows to be enough. Every other loop is a structural recursion over its list.
--
-- A dict is an association list in the order of insertion. An exception is a constructor of a result
-- type, or `none` where only its presence matters.
--
-- A controller or handler that publishes on the bus is given the bus as a function on a world, or
-- returns what it publishes. Code behind a protocol of the source (position stores, the cost model,
-- the check of an order) is a parameter, as are the hash, the time zone database and the rounding
-- of `Decimal`s.
--
-- Not modelled: the orchestrator that wires the parts, the limits of the risk engine and its
-- sizers, the routers and the default cost model, the optimisers of composition, features and
-- sensors, the regime and signal engines, ingestion, promotion, alpha loading, configuration, the
-- rest of storage, the broker, reports and research. Most of the numeric parts are floating-point
-- estimators, and most of the rest is I/O or wiring.
--
pub mod Kit
pub mod Machine
pub mod Lifecycle
pub mod Lots
pub mod Market
pub mod Intent
pub mod Plan
pub mod Planner
pub mod Book
pub mod Halts
pub mod Strategies
pub mod Attribution
pub mod Sequence
pub mod Exits
pub mod Costs
pub mod Admission
pub mod Netting
pub mod SizedIntent
pub mod DayTrades
pub mod EventLog
pub mod Scheduler
pub mod Synchronizer
pub mod Regimes
mod Examples
