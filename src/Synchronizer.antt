-- ===== src/Synchronizer.antt =====
-- src/feelies/composition/synchronizer.py: `UniverseSynchronizer`, which gathers the signals and
-- snapshots of a universe into one context at each boundary. A set is a list; the bus's
-- subscriptions are values, and a published context is returned. Times are natural numbers.
pub mod Emission
pub mod Causal
use feelies.Kit.{
  ℕ, zero, suc, ◌+◌, ◌-◌, ◌*◌, String, Bool, true, false, not, ◌&&◌, ◌||◌, Option, none, some, List,
  [], ◌∷◌, ◌++◌, map, Result, ok, err, Eq, ltb, leb, nat_eq, nat_Eq, if◌then◌else◌, string_Eq,
  pair_Eq, length,
}
use Prim.Native.String.{◌++◌ as append}
use feelies.Kit.Int.{ℤ, pos}
use feelies.Kit.Floats.{Floats}
use feelies.Kit.Dict.{Dict, lookup, insert}
use feelies.Kit.Sort.{sorted, str_ltb}
use feelies.Sequence
use feelies.Sequence.{SequenceGenerator, next, decimal}
use feelies.Scheduler.{HorizonTick, Scope, symbol_scope, universe_scope}
use feelies.Exits.{listed}

-- The fields of a `HorizonFeatureSnapshot` and of a `Signal` that the synchronizer reads.
pub record Snapshot : Type 0 where
  pub timestamp_ns : ℕ
  pub symbol : String
  pub horizon_seconds : ℕ
  pub boundary_index : ℕ

pub record FeederSignal : Type 0 where
  pub timestamp_ns : ℕ
  pub symbol : String
  pub strategy_id : String
  pub horizon_seconds : ℕ
  pub layer : String

-- The universe's symbols in order, and its members.
pub record Universe : Type 0 where
  pub symbols : List String
  pub members : List String

-- `(horizon, symbol, strategy_id)`, as a pair of pairs
abbrev pub SignalKey : Type 0
SignalKey = (ℕ × String) × String

pub record Context (R : Type 0) : Type 0 where
  pub timestamp_ns : ℕ
  pub sequence : ℕ
  pub correlation_id : String
  pub horizon_seconds : ℕ
  pub boundary_index : ℕ
  pub universe : List String
  pub signals_by_symbol : Dict String (Option FeederSignal)
  pub signals_by_strategy_by_symbol : Dict String (Dict String (Option FeederSignal))
  pub snapshots_by_symbol : Dict String (Option Snapshot)
  pub completeness : R

pub record Synchronizer : Type 0 where
  pub universe : Universe
  pub context_horizons : List ℕ
  pub signal_horizons : List ℕ
  pub upstream_strategy_ids : List String
  pub ctx_seq : SequenceGenerator
  pub snapshot_cache : Dict (ℕ × String) Snapshot
  pub signal_cache : Dict SignalKey FeederSignal
  pub emitted : List (ℕ × ℕ)
  pub attached : Bool
  pub signal_max_age_seconds : Option ℕ

pub data SynchronizerError : Type 0 where
  bad_horizon bad_signal_horizon bad_max_age : SynchronizerError

-- `sorted(set(xs))`
abbrev distinct : List String → List String
distinct [] = []
distinct (x ∷ xs) = let rest = distinct xs in if listed x rest then rest else x ∷ rest

-- The universe of an iterable of symbols.
abbrev pub universe_of : List String → Universe
universe_of input =
    let symbols = sorted str_ltb (distinct input) in record { symbols = symbols; members = symbols }

abbrev is_zero_ : Option ℕ → Bool
is_zero_ none = false
is_zero_ (some n) = nat_eq n 0

abbrev or_horizons : Option (List ℕ) → List ℕ → List ℕ
or_horizons none horizons = horizons
or_horizons (some hs) horizons = hs

unfoldable pub create :
    Universe
    → List ℕ
    → SequenceGenerator
    → Option (List ℕ)
    → List String
    → Option ℕ
    → Result SynchronizerError Synchronizer
create universe horizons seq signal_horizons upstream max_age =
    if listed 0 horizons
    then err bad_horizon
    else if listed 0 (or_horizons signal_horizons horizons)
    then err bad_signal_horizon
    else if is_zero_ max_age
    then err bad_max_age
    else ok (record {
      universe = universe;
      context_horizons = horizons;
      signal_horizons = or_horizons signal_horizons horizons;
      upstream_strategy_ids = sorted str_ltb (distinct upstream);
      ctx_seq = seq;
      snapshot_cache = [];
      signal_cache = [];
      emitted = [];
      attached = false;
      signal_max_age_seconds = max_age;
    })

unfoldable pub reset : Synchronizer → Synchronizer
reset s = record s {
  snapshot_cache = [];
  signal_cache = [];
  emitted = [];
  ctx_seq = Sequence.reset s.ctx_seq;
}

abbrev pub is_nil : {A : Type 0} → List A → Bool
is_nil [] = true
is_nil (x ∷ xs) = false

abbrev pub is_empty : Synchronizer → Bool
is_empty s = is_nil s.universe.symbols || is_nil s.context_horizons

unfoldable pub attach : Synchronizer → Synchronizer × List String
attach s =
    if s.attached || is_empty s
    then (s, [])
    else (record s { attached = true }, "HorizonFeatureSnapshot" ∷ "Signal" ∷ "HorizonTick" ∷ [])

-- `prev is not None and a < prev.field`
abbrev older : {A : Type 0} → (A → ℕ) → ℕ → Option A → Bool
older field n none = false
older field n (some prev) = ltb n (field prev)

unfoldable pub on_snapshot : Snapshot → Synchronizer → Synchronizer
on_snapshot snap s =
    let key : ℕ × String = (snap.horizon_seconds, snap.symbol) in
    if not (listed snap.horizon_seconds s.context_horizons)
    then s
    else if not (listed snap.symbol s.universe.members)
    then s
    else if older (λ p. p.boundary_index) snap.boundary_index (lookup key s.snapshot_cache)
    then s
    else record s { snapshot_cache = insert key snap s.snapshot_cache }

unfoldable pub on_signal : FeederSignal → Synchronizer → Synchronizer
on_signal sig s =
    let key : SignalKey = ((sig.horizon_seconds, sig.symbol), sig.strategy_id) in
    if not (string_Eq.eqb sig.layer "SIGNAL")
    then s
    else if not (listed sig.horizon_seconds s.signal_horizons)
    then s
    else if not (listed sig.symbol s.universe.members)
    then s
    else if older (λ p. p.timestamp_ns) sig.timestamp_ns (lookup key s.signal_cache)
    then s
    else record s { signal_cache = insert key sig s.signal_cache }

abbrev window_of : Option ℕ → ℕ → ℕ
window_of none horizon = horizon
window_of (some seconds) horizon = seconds

abbrev pub max_age_ns : Synchronizer → ℕ → ℕ
max_age_ns s horizon = window_of s.signal_max_age_seconds horizon * 1_000_000_000

-- Not after the boundary, and not older than the window.
abbrev pub is_fresh : ℕ → ℕ → FeederSignal → Bool
is_fresh ts max_age sig = leb sig.timestamp_ns ts && leb (ts - sig.timestamp_ns) max_age
