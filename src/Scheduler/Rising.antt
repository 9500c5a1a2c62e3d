-- ===== src/Scheduler/Rising.antt =====
-- No boundary is emitted twice (src/feelies/sensors/horizon_scheduler.py).
use feelies.Kit.{
  ℕ, String, ◌≡◌, refl, Bool, false, ◌&&◌, Option, none, some, List, [], ◌∷◌, ◌++◌, ap, sym, ltb,
  nat_eq, nat_Eq, string_Eq, pair_Eq, if◌then◌else◌, Bool-cases, inl, inr,
}
use feelies.Kit.Dict.{lookup, lookup-insert}
use feelies.Scheduler.{
  HorizonTick, HorizonScheduler, SymbolKey, Emission, is_done, emit_for_symbol, emit_for_symbols,
  emit_for_universe, emit_for_horizon, emit_for_horizons, bound, on_event, boundary, or_zero,
  is_empty,
}

abbrev is_for : Option String → String → Bool
is_for none symbol = false
is_for (some s) symbol = string_Eq.eqb s symbol

-- The boundaries that ticks announce for a horizon and a symbol.
unfoldable pub boundaries : SymbolKey → List HorizonTick → List ℕ
boundaries key [] = []
boundaries key (t ∷ ts) =
    if nat_eq t.horizon_seconds key.0 && is_for t.symbol key.1
    then t.boundary_index ∷ boundaries key ts
    else boundaries key ts

-- Each boundary is beyond the one before.
abbrev pub Rises : Option ℕ → List ℕ → Type 0
Rises last [] = Unit
Rises last (b ∷ bs) = (is_done last b ≡ false) × Rises (some b) bs

abbrev pub end_of : Option ℕ → List ℕ → Option ℕ
end_of last [] = last
end_of last (b ∷ bs) = end_of (some b) bs

Rises-append :
    (last : Option ℕ) (bs cs : List ℕ)
    → Rises last bs
    → Rises (end_of last bs) cs
    → Rises last (bs ++ cs)
Rises-append last [] cs h k = k
Rises-append last (b ∷ bs) cs h k = (h.0, Rises-append (some b) bs cs h.1 k)

end_of-append :
    (last : Option ℕ) (bs cs : List ℕ) → end_of last (bs ++ cs) ≡ end_of (end_of last bs) cs
end_of-append last [] cs = refl
end_of-append last (b ∷ bs) cs = end_of-append (some b) bs cs

boundaries-append :
    (key : SymbolKey) (ts us : List HorizonTick)
    → boundaries key (ts ++ us) ≡ boundaries key ts ++ boundaries key us
unfolding boundaries
boundaries-append key [] us = refl
boundaries-append key (t ∷ ts) us =
    elim (Bool-cases (nat_eq t.horizon_seconds key.0 && is_for t.symbol key.1)) [
      | inl here ↦ rw here (ap (λ bs. t.boundary_index ∷ bs) (boundaries-append key ts us))
      | inr other ↦ rw other (boundaries-append key ts us)
    ]

-- The boundaries of a step rise from the last one known, and the step remembers the last of them.
abbrev Continues : SymbolKey → HorizonScheduler → Emission → Type 0
Continues key s e =
    let last = lookup key s.last_boundary_symbol in
    let bs = boundaries key e.1 in
    Rises last bs × (lookup key e.0.last_boundary_symbol ≡ end_of last bs)

join :
    (key : SymbolKey) (s s' s'' : HorizonScheduler) (ts us : List HorizonTick)
    → Continues key s (s', ts)
    → Continues key s' (s'', us)
    → Continues key s (s'', ts ++ us)
join key s s' s'' ts us (rise, stop) (rise', stop') =
    let last = lookup key s.last_boundary_symbol in
    let bs = boundaries key ts in
    let cs = boundaries key us in
    rw (boundaries-append key ts us) (
      Rises-append last bs cs rise (rw (← stop) rise'),
      rw (end_of-append last bs cs, ← stop) stop',
    )

nothing : (key : SymbolKey) (s : HorizonScheduler) → Continues key s (s, [])
unfolding boundaries
nothing key s = (tt, refl)

symbol-Continues :
    (key : SymbolKey) (horizon current ts : ℕ) (symbol : String) (s : HorizonScheduler)
    → Continues key s (emit_for_symbol horizon current ts symbol s)
unfolding boundaries
symbol-Continues key horizon current ts symbol s =
    elim (Bool-cases (is_done (lookup (horizon, symbol) s.last_boundary_symbol) current)) [
      | inl done ↦ rw done (tt, refl)
      | inr due ↦
          rw (due, lookup-insert (horizon, symbol) key current s.last_boundary_symbol)
            (elim (Bool-cases (nat_eq horizon key.0 && string_Eq.eqb symbol key.1)) [
              | inl here ↦
                  rw here ((rw (← (pair_Eq.eqb_iff (horizon, symbol) key).0 here) due, tt), refl)
              | inr other ↦ rw other (tt, refl)
            ])
    ]

symbols-Continues :
    (key : SymbolKey) (horizon current ts : ℕ) (symbols : List String) (s : HorizonScheduler)
    → Continues key s (emit_for_symbols horizon current ts symbols s)
unfolding emit_for_symbols
symbols-Continues key horizon current ts [] s = nothing key s
symbols-Continues key horizon current ts (symbol ∷ rest) s =
    let here = emit_for_symbol horizon current ts symbol s in
    let more = emit_for_symbols horizon current ts rest here.0 in
    join key s here.0 more.0 here.1 more.1 (symbol-Continues key horizon current ts symbol s)
      (symbols-Continues key horizon current ts rest here.0)

-- The tick of the universe has no symbol.
universe-Continues :
    (key : SymbolKey) (horizon current ts : ℕ) (s : HorizonScheduler)
    → Continues key s (emit_for_universe horizon current ts s)
unfolding boundaries
universe-Continues key horizon current ts s =
    elim (Bool-cases (is_done (lookup horizon s.last_boundary_universe) current)) [
      | inl done ↦ rw done (tt, refl)
      | inr due ↦ elim (Bool-cases (nat_eq horizon key.0)) [
        | inl same ↦ rw (due, same) (tt, refl)
        | inr other ↦ rw (due, other) (tt, refl)
      ]
    ]

horizon-Continues :
    (key : SymbolKey) (opened ts horizon : ℕ) (s : HorizonScheduler)
    → Continues key s (emit_for_horizon opened ts horizon s)
unfolding emit_for_horizon
horizon-Continues key opened ts horizon s =
    let current = boundary horizon opened ts in
    let each = emit_for_symbols horizon current ts s.symbols_sorted s in
    let all = emit_for_universe horizon current ts each.0 in
    elim (Bool-cases (ltb ts opened)) [
      | inl early ↦ rw early (nothing key s)
      | inr later ↦ rw later (
          join key s each.0 all.0 each.1 all.1
            (symbols-Continues key horizon current ts s.symbols_sorted s)
            (universe-Continues key horizon current ts each.0))
    ]

horizons-Continues :
    (key : SymbolKey) (opened ts : ℕ) (horizons : List ℕ) (s : HorizonScheduler)
    → Continues key s (emit_for_horizons opened ts horizons s)
unfolding emit_for_horizons
horizons-Continues key opened ts [] s = nothing key s
horizons-Continues key opened ts (horizon ∷ rest) s =
    let here = emit_for_horizon opened ts horizon s in
    let more = emit_for_horizons opened ts rest here.0 in
    join key s here.0 more.0 here.1 more.1 (horizon-Continues key opened ts horizon s)
      (horizons-Continues key opened ts rest here.0)

bound-last :
    (ts : ℕ) (s : HorizonScheduler) → (bound ts s).last_boundary_symbol ≡ s.last_boundary_symbol
bound-last ts s = elim (Bool-cases s.session_open_locked) [
  | inl locked ↦ rw locked refl
  | inr free ↦ rw free refl
]

from_same :
    (key : SymbolKey) (s s' : HorizonScheduler) (e : Emission)
    → s.last_boundary_symbol ≡ s'.last_boundary_symbol
    → Continues key s' e
    → Continues key s e
from_same key s s' e same h = rw same h

event-Continues :
    (key : SymbolKey) (ts : ℕ) (s : HorizonScheduler) → Continues key s (on_event ts s)
unfolding on_event
event-Continues key ts s =
    let s' : HorizonScheduler = bound ts s in
    elim (Bool-cases (is_empty s.grid)) [
      | inl empty ↦ rw empty (nothing key s)
      | inr some_horizon ↦ rw some_horizon (
          from_same key s s' (emit_for_horizons (or_zero s'.session_open_ns) ts s'.grid s')
            (sym (bound-last ts s))
            (horizons-Continues key (or_zero s'.session_open_ns) ts s'.grid s'))
    ]

-- The ticks of the events at given times.
unfoldable pub run : List ℕ → HorizonScheduler → Emission
unfolding on_event
run [] s = (s, [])
run (ts ∷ rest) s =
    let (s', ticks) = on_event ts s in let (s'', more) = run rest s' in (s'', ticks ++ more)

run-Continues :
    (key : SymbolKey) (times : List ℕ) (s : HorizonScheduler) → Continues key s (run times s)
unfolding run
run-Continues key [] s = nothing key s
run-Continues key (ts ∷ rest) s =
    let here = on_event ts s in
    let more = run rest here.0 in
    join key s here.0 more.0 here.1 more.1 (event-Continues key ts s)
      (run-Continues key rest here.0)

pub run-Rises :
    (times : List ℕ) (s : HorizonScheduler) (key : SymbolKey)
    → let (s', ticks) = run times s in
      let last = lookup key s.last_boundary_symbol in
      Rises last (boundaries key ticks)
      × (lookup key s'.last_boundary_symbol ≡ end_of last (boundaries key ticks))
run-Rises times s key = run-Continues key times s
