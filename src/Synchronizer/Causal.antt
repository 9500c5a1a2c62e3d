-- ===== src/Synchronizer/Causal.antt =====
-- The signals of a context (src/feelies/composition/synchronizer.py).
use feelies.Kit.{
  ℕ, ◌≡◌, refl, String, Bool, true, false, ◌&&◌, Option, none, some, List, [], ◌∷◌, map, arith,
  Bool-cases, inl, inr, All, last_only, not, ltb, leb, nat_eq, nat_Eq, pair_Eq, string_Eq,
  if◌then◌else◌,
}
use feelies.Kit.Floats.{Floats}
use feelies.Kit.Sort.{sorted}
use feelies.Scheduler.{HorizonTick}
use feelies.Synchronizer.{
  FeederSignal, Snapshot, SignalKey, Synchronizer, Context, is_fresh, max_age_ns, is_nil,
}
use feelies.Synchronizer.Emission.{
  Row, keep, latest_from, latest, or_else, candidates, aligned, pick_feeder_signal, first_of,
  first_fresh, row_of, choose, emit_context, on_tick, snapshot_at, not_before, key_before,
  is_universe,
}
use feelies.Exits.{listed}

module _ (ts age : ℕ) where
  abbrev pub Fresh : FeederSignal → Type 0
  Fresh sig = is_fresh ts age sig ≡ true

  abbrev pub FreshIfAny : Option FeederSignal → Type 0
  FreshIfAny none = Unit
  FreshIfAny (some sig) = Fresh sig

  abbrev pub FreshEntry : String × Option FeederSignal → Type 0
  FreshEntry x = FreshIfAny x.1

  abbrev pub FreshRow : String × Row → Type 0
  FreshRow row = All FreshEntry row.1

  kept-Fresh :
      (cs : List (ℕ × FeederSignal))
      → All Fresh (map (λ c. c.1) (keep (λ c. is_fresh ts age c.1) cs))
  kept-Fresh [] = tt
  kept-Fresh (c ∷ cs) = elim (Bool-cases (is_fresh ts age c.1)) [
    | inl fresh ↦ rw fresh (fresh, kept-Fresh cs)
    | inr stale ↦ rw stale (kept-Fresh cs)
  ]

  sub-Fresh :
      {A : Type 0} (signal : A → FeederSignal) (test : A → Bool) (xs : List A)
      → All Fresh (map signal xs)
      → All Fresh (map signal (keep test xs))
  sub-Fresh signal test [] h = tt
  sub-Fresh signal test (x ∷ xs) h = elim (Bool-cases (test x)) [
    | inl stays ↦ rw stays (h.0, sub-Fresh signal test xs h.1)
    | inr goes ↦ rw goes (sub-Fresh signal test xs h.1)
  ]

  keep-Fresh :
      (test : FeederSignal → Bool) (xs : List FeederSignal)
      → All Fresh xs
      → All Fresh (keep test xs)
  keep-Fresh test [] h = tt
  keep-Fresh test (x ∷ xs) h = elim (Bool-cases (test x)) [
    | inl stays ↦ rw stays (h.0, keep-Fresh test xs h.1)
    | inr goes ↦ rw goes (keep-Fresh test xs h.1)
  ]

  aligned-Fresh :
      (horizon index : ℕ) (snap : Option Snapshot) (cs : List (ℕ × FeederSignal))
      → All Fresh (map (λ c. c.1) cs)
      → All Fresh (aligned horizon index snap cs)
  aligned-Fresh horizon index none cs h = tt
  aligned-Fresh horizon index (some snap) cs h = elim (Bool-cases (leb index snap.boundary_index)) [
    | inl now ↦ rw now (
        keep-Fresh (λ sig. leb snap.timestamp_ns sig.timestamp_ns)
          (map (λ c. c.1) (keep (λ c. nat_eq c.0 horizon) cs))
          (sub-Fresh (λ c. c.1) (λ c. nat_eq c.0 horizon) cs h))
    | inr earlier ↦ rw earlier tt
  ]

  choice-Fresh : (b : Bool) (x y : FeederSignal) → Fresh x → Fresh y → Fresh (if b then x else y)
  choice-Fresh true x y hx hy = hx
  choice-Fresh false x y hx hy = hy

  latest_from-Fresh :
      (best : FeederSignal) (xs : List FeederSignal)
      → Fresh best
      → All Fresh xs
      → Fresh (latest_from best xs)
  latest_from-Fresh best [] b h = b
  latest_from-Fresh best (x ∷ xs) b h =
      latest_from-Fresh (if ltb best.timestamp_ns x.timestamp_ns then x else best) xs
        (choice-Fresh (ltb best.timestamp_ns x.timestamp_ns) x best h.0 b) h.1

  latest-Fresh : (xs : List FeederSignal) → All Fresh xs → FreshIfAny (latest xs)
  latest-Fresh [] h = tt
  latest-Fresh (x ∷ xs) h = latest_from-Fresh x xs h.0 h.1

  or_else-Fresh :
      (a b : Option FeederSignal) → FreshIfAny a → FreshIfAny b → FreshIfAny (or_else a b)
  or_else-Fresh none b ha hb = hb
  or_else-Fresh (some sig) b ha hb = ha

  first_fresh-Fresh :
      (horizon : ℕ) (symbol : String) (snap : Option Snapshot)
      (cache : List (SignalKey × FeederSignal))
      → FreshIfAny (first_fresh horizon symbol ts age snap cache)
  first_fresh-Fresh horizon symbol snap [] = tt
  first_fresh-Fresh horizon symbol snap ((((kh, sym), sid), sig) ∷ rest) =
      elim (Bool-cases (
        nat_eq kh horizon
        && (string_Eq.eqb sym symbol && (is_fresh ts age sig && not_before sig snap)))) [
          | inl taken ↦ rw taken (ground (arith, taken))
          | inr passed ↦ rw passed (first_fresh-Fresh horizon symbol snap rest)
        ]

  first_of-Fresh : (row : Row) → All FreshEntry row → FreshIfAny (first_of row)
  first_of-Fresh [] h = tt
  first_of-Fresh ((sid, sig) ∷ row) h =
      or_else-Fresh sig (first_of row) h.0 (first_of-Fresh row h.1)

-- What a map gives holds for each of its values.
All-map :
    {A B : Type 0} (P : B → Type 0) (f : A → B) (xs : List A)
    → ((x : A) → P (f x))
    → All P (map f xs)
All-map P f [] h = tt
All-map P f (x ∷ xs) h = (h x, All-map P f xs h)

module _ (s : Synchronizer) (horizon index ts : ℕ) where
  pick-Fresh :
      (symbol sid : String) (snap : Option Snapshot)
      → FreshIfAny ts (max_age_ns s horizon) (pick_feeder_signal s symbol sid horizon ts snap index)
  unfolding pick_feeder_signal
  pick-Fresh symbol sid snap =
      let age = max_age_ns s horizon in
      let all = candidates (sorted ltb s.signal_horizons) symbol sid s.signal_cache in
      let found = keep (λ c. is_fresh ts age c.1) all in
      or_else-Fresh ts age (latest (aligned horizon index snap found))
        (latest (map (λ c. c.1) found))
        (latest-Fresh ts age (aligned horizon index snap found)
          (aligned-Fresh ts age horizon index snap found (kept-Fresh ts age all)))
        (latest-Fresh ts age (map (λ c. c.1) found) (kept-Fresh ts age all))

  row-Fresh :
      (symbol : String)
      → All (FreshEntry ts (max_age_ns s horizon)) (row_of s horizon index ts symbol)
  unfolding pick_feeder_signal
  row-Fresh symbol =
      All-map (FreshEntry ts (max_age_ns s horizon))
        (λ sid. (
          sid,
          pick_feeder_signal s symbol sid horizon ts (snapshot_at s horizon index symbol) index,
        ))
        s.upstream_strategy_ids (λ sid. pick-Fresh symbol sid (snapshot_at s horizon index symbol))

  choose-Fresh :
      (symbol : String) → FreshIfAny ts (max_age_ns s horizon) (choose s horizon index ts symbol)
  unfolding choose
  choose-Fresh symbol =
      let age = max_age_ns s horizon in
      elim (Bool-cases (is_nil s.upstream_strategy_ids)) [
        | inl legacy ↦ rw legacy (
            first_fresh-Fresh ts age horizon symbol (snapshot_at s horizon index symbol)
              (sorted key_before s.signal_cache))
        | inr rows ↦
            rw rows (first_of-Fresh ts age (row_of s horizon index ts symbol) (row-Fresh symbol))
      ]

-- The signals of a context, for each symbol and for each strategy, are fresh at its time.
abbrev pub IsCausal : {R : Type 0} → ℕ → Context R → Type 0
IsCausal age c =
    All (FreshEntry c.timestamp_ns age) c.signals_by_symbol
    × All (FreshRow c.timestamp_ns age) c.signals_by_strategy_by_symbol

module _ (fl : Floats) where
  rows-Fresh :
      (legacy : Bool) (tick : HorizonTick) (s : Synchronizer)
      → let h = tick.horizon_seconds in
        let ts = tick.timestamp_ns in
        All (FreshRow ts (max_age_ns s h)) (
          if legacy
          then []
          else map
              (λ symbol. (symbol, row_of s h tick.boundary_index ts symbol))
              s.universe.symbols)
  rows-Fresh true tick s = tt
  rows-Fresh false tick s =
      let h = tick.horizon_seconds in
      let ts = tick.timestamp_ns in
      All-map (FreshRow ts (max_age_ns s h))
        (λ symbol. (symbol, row_of s h tick.boundary_index ts symbol)) s.universe.symbols
        (row-Fresh s h tick.boundary_index ts)

  emit-IsCausal :
      (tick : HorizonTick) (s : Synchronizer)
      → IsCausal (max_age_ns s tick.horizon_seconds) (emit_context fl tick s).1
  unfolding emit_context
  emit-IsCausal tick s =
      let h = tick.horizon_seconds in
      let bi = tick.boundary_index in
      let ts = tick.timestamp_ns in
      (
        All-map (FreshEntry ts (max_age_ns s h)) (λ symbol. (symbol, choose s h bi ts symbol))
            s.universe.symbols (choose-Fresh s h bi ts),
        rows-Fresh (is_nil s.upstream_strategy_ids) tick s,
      )

  pub on_tick-IsCausal :
      (tick : HorizonTick) (s : Synchronizer) {context : Context fl.Float}
      → (on_tick fl tick s).1 ≡ some context
      → IsCausal (max_age_ns s tick.horizon_seconds) context
        × (context.timestamp_ns ≡ tick.timestamp_ns)
  unfolding on_tick
  on_tick-IsCausal tick s {context = context} h =
      let key : ℕ × ℕ = (tick.horizon_seconds, tick.boundary_index) in
      let marked = record s { emitted = key ∷ s.emitted } in
      let made = emit_context fl tick marked in
      last_only
        (λ _ context.
          IsCausal (max_age_ns s tick.horizon_seconds) context
          × (context.timestamp_ns ≡ tick.timestamp_ns))
        (not (is_universe fl tick.scope)) (not (listed tick.horizon_seconds s.context_horizons))
        (listed key s.emitted) s made.0 made.1 context (emit-IsCausal tick marked, refl) h
