-- ===== src/Synchronizer/Emission.antt =====
-- The context of a boundary (src/feelies/composition/synchronizer.py: `_pick_feeder_signal`,
-- `_emit_context` and `_on_tick`). A published context is returned.
use feelies.Kit.{
  ℕ, zero, suc, String, Bool, true, false, not, ◌&&◌, ◌||◌, Option, none, some, List, [], ◌∷◌, map,
  ltb, leb, nat_eq, nat_Eq, if◌then◌else◌, string_Eq, pair_Eq, length,
}
use Prim.Native.String.{◌++◌ as append}
use feelies.Kit.Int.{pos}
use feelies.Kit.Floats.{Floats}
use feelies.Kit.Dict.{Dict, lookup}
use feelies.Kit.Sort.{sorted, str_ltb}
use feelies.Sequence.{next, decimal}
use feelies.Scheduler.{HorizonTick, Scope, symbol_scope, universe_scope}
use feelies.Exits.{listed}
use feelies.Synchronizer.{
  Snapshot, FeederSignal, SignalKey, Context, Synchronizer, is_nil, max_age_ns, is_fresh,
}

abbrev pub keep : {A : Type 0} → (A → Bool) → List A → List A
keep test [] = []
keep test (x ∷ xs) = let rest = keep test xs in if test x then x ∷ rest else rest

-- `max(signals, key=lambda s: s.timestamp_ns)`, the first of the latest.
abbrev pub latest_from : FeederSignal → List FeederSignal → FeederSignal
latest_from best [] = best
latest_from best (x ∷ xs) =
    latest_from (if ltb best.timestamp_ns x.timestamp_ns then x else best) xs

abbrev pub latest : List FeederSignal → Option FeederSignal
latest [] = none
latest (x ∷ xs) = some (latest_from x xs)

abbrev pub or_else : Option FeederSignal → Option FeederSignal → Option FeederSignal
or_else none later = later
or_else (some sig) later = some sig

-- The cached signals of a strategy for a symbol, by the horizons in order.
abbrev pub candidates :
    List ℕ → String → String → Dict SignalKey FeederSignal → List (ℕ × FeederSignal)
candidates [] symbol sid cache = []
candidates (kh ∷ rest) symbol sid cache = elim (lookup ((kh, symbol), sid) cache) [
  | none ↦ candidates rest symbol sid cache
  | some sig ↦ (kh, sig) ∷ candidates rest symbol sid cache
]

-- The signals of the decision's horizon that are not older than its snapshot.
abbrev pub aligned : ℕ → ℕ → Option Snapshot → List (ℕ × FeederSignal) → List FeederSignal
aligned horizon index none found = []
aligned horizon index (some snap) found =
    if leb index snap.boundary_index
    then keep (λ sig. leb snap.timestamp_ns sig.timestamp_ns)
        (map (λ c. c.1) (keep (λ c. nat_eq c.0 horizon) found))
    else []

unfoldable pub pick_feeder_signal :
    Synchronizer → String → String → ℕ → ℕ → Option Snapshot → ℕ → Option FeederSignal
pick_feeder_signal s symbol sid horizon ts snap index =
    let all = candidates (sorted ltb s.signal_horizons) symbol sid s.signal_cache in
    let found = keep (λ c. is_fresh ts (max_age_ns s horizon) c.1) all in
    or_else (latest (aligned horizon index snap found)) (latest (map (λ c. c.1) found))

-- A snapshot of an earlier boundary counts as none.
abbrev current : ℕ → Option Snapshot → Option Snapshot
current index none = none
current index (some snap) = if ltb snap.boundary_index index then none else some snap

abbrev pub snapshot_at : Synchronizer → ℕ → ℕ → String → Option Snapshot
snapshot_at s horizon index symbol = current index (lookup (horizon, symbol) s.snapshot_cache)

abbrev pub Row : Type 0
Row = Dict String (Option FeederSignal)

abbrev pub first_of : Row → Option FeederSignal
first_of [] = none
first_of ((sid, sig) ∷ row) = or_else sig (first_of row)

-- `sorted(self._signal_cache.items())`: the keys differ.
abbrev pub key_before : SignalKey × FeederSignal → SignalKey × FeederSignal → Bool
key_before (((h, sym), sid), a) (((h', sym'), sid'), b) =
    ltb h h' || nat_eq h h' && (str_ltb sym sym' || string_Eq.eqb sym sym' && str_ltb sid sid')

abbrev pub not_before : FeederSignal → Option Snapshot → Bool
not_before sig none = true
not_before sig (some snap) = leb snap.timestamp_ns sig.timestamp_ns

abbrev pub first_fresh :
    ℕ → String → ℕ → ℕ → Option Snapshot → List (SignalKey × FeederSignal) → Option FeederSignal
first_fresh horizon symbol ts max_age snap [] = none
first_fresh horizon symbol ts max_age snap ((((kh, sym), sid), sig) ∷ rest) =
    let later = first_fresh horizon symbol ts max_age snap rest in
    if nat_eq kh horizon
      && (string_Eq.eqb sym symbol && (is_fresh ts max_age sig && not_before sig snap))
    then some sig
    else later

abbrev pub row_of : Synchronizer → ℕ → ℕ → ℕ → String → Row
unfolding pick_feeder_signal
row_of s horizon index ts symbol =
    map
      (λ sid. (
        sid,
        pick_feeder_signal s symbol sid horizon ts (snapshot_at s horizon index symbol) index,
      ))
      s.upstream_strategy_ids

-- The signal of a symbol: that of the first strategy that has one, or the first fresh one.
unfoldable pub choose : Synchronizer → ℕ → ℕ → ℕ → String → Option FeederSignal
unfolding row_of
choose s horizon index ts symbol =
    let by_cache =
      first_fresh horizon symbol ts (max_age_ns s horizon) (snapshot_at s horizon index symbol)
        (sorted key_before s.signal_cache) in
    let by_row = first_of (row_of s horizon index ts symbol) in
    if is_nil s.upstream_strategy_ids then by_cache else by_row

abbrev pub present : List (String × Option FeederSignal) → ℕ
present [] = 0
present ((symbol, none) ∷ rest) = present rest
present ((symbol, some sig) ∷ rest) = suc (present rest)

module _ (fl : Floats) where
  abbrev share : ℕ → ℕ → fl.Float
  share n zero = fl.literal 0 1
  share n (suc m) = fl.over (fl.of_int (pos n)) (fl.of_int (pos (suc m)))

  -- The context of a tick; the universe's symbols are distinct.
  unfoldable pub emit_context : HorizonTick → Synchronizer → Synchronizer × Context fl.Float
  unfolding choose row_of
  emit_context tick s =
      let h = tick.horizon_seconds in
      let bi = tick.boundary_index in
      let ts = tick.timestamp_ns in
      let symbols = s.universe.symbols in
      let signals = map (λ symbol. (symbol, choose s h bi ts symbol)) symbols in
      let rows =
        if is_nil s.upstream_strategy_ids
        then []
        else map (λ symbol. (symbol, row_of s h bi ts symbol)) symbols in
      (
        record s { ctx_seq = (next s.ctx_seq).0 },
        record {
          timestamp_ns = ts;
          sequence = (next s.ctx_seq).1;
          correlation_id = append "xsect:" (append (decimal h) (append ":" (decimal bi)));
          horizon_seconds = h;
          boundary_index = bi;
          universe = symbols;
          signals_by_symbol = signals;
          signals_by_strategy_by_symbol = rows;
          snapshots_by_symbol = map (λ symbol. (symbol, snapshot_at s h bi symbol)) symbols;
          completeness = share (present signals) (length symbols);
        },
      )

  abbrev pub is_universe : Scope → Bool
  is_universe universe_scope = true
  is_universe symbol_scope = false

  abbrev published : Synchronizer × Context fl.Float → Synchronizer × Option (Context fl.Float)
  published (s, context) = (s, some context)

  unfoldable pub on_tick : HorizonTick → Synchronizer → Synchronizer × Option (Context fl.Float)
  unfolding emit_context
  on_tick tick s =
      let key : ℕ × ℕ = (tick.horizon_seconds, tick.boundary_index) in
      if not (is_universe tick.scope)
      then (s, none)
      else if not (listed tick.horizon_seconds s.context_horizons)
      then (s, none)
      else if listed key s.emitted
      then (s, none)
      else published (emit_context tick (record s { emitted = key ∷ s.emitted }))
