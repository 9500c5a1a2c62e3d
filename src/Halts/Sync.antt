-- ===== src/Halts/Sync.antt =====
-- What a tape event leaves of the halt store and of the trade feed's health machine
-- (src/feelies/core/data_health.py: `_sync_halt_store_and_health`).
use feelies.Kit.{
  ℕ, ◌+◌, String, ◌≡◌, refl, inl, inr, Bool, true, false, not, ◌&&◌, ◌||◌, Option, none, some, List,
  [], ◌∷◌, Result, err, arith, ap, ◌∙◌, sym, string_Eq, Bool-cases,
}
use feelies.Kit.Dict.{lookup, lookup-insert, lookup-erase}
use feelies.Machine.{StateMachine, Call, can_transition, transition, Fault, TransitionRecord}
use feelies.Machine.Laws.{can_transition-Edge, transition_outcome}
use feelies.Lifecycle.Integrity.{DataHealth, healthy, halted, transitions, enum, DataHealth_Eq}
use feelies.Halts.{
  HaltSignal, halt_on, halt_off, HaltTradeability, classify_halt_status, has_symbol, discard, enter,
  leave, respond, in_state, move, fault_of, sync_halt_store_and_health,
}

abbrev is_some : Option ℕ → Bool
is_some none = false
is_some (some t) = true

-- A halted symbol has no blackout: its blackout starts when the halt ends.
abbrev pub Quiet : HaltTradeability → Type 0
Quiet a =
    (s : String) → (has_symbol s a.halted_symbols && is_some (lookup s a.blackout_until_ns)) ≡ false

has_symbol-discard :
    (s t : String) (ts : List String)
    → has_symbol s (discard t ts) ≡ (not (string_Eq.eqb t s) && has_symbol s ts)
has_symbol-discard s t [] = ground arith
has_symbol-discard s t (u ∷ us) = ground (
  arith,
  has_symbol-discard s t us,
  string_Eq.eqb_iff u t,
  string_Eq.eqb_iff u s,
  string_Eq.eqb_iff t s,
)

enter-Quiet : (symbol : String) (a : HaltTradeability) → Quiet a → Quiet (enter symbol a)
enter-Quiet symbol a q s = ground (arith, q s, lookup-erase symbol s a.blackout_until_ns)

leave-Quiet :
    (symbol : String) (was : Bool) (ts : Option ℕ) (a : HaltTradeability)
    → Quiet a
    → Quiet (leave symbol was ts a)
leave-Quiet symbol was none a q s =
    ground (arith, q s, has_symbol-discard s symbol a.halted_symbols)
leave-Quiet symbol was (some t) a q s = ground (
  arith,
  q s,
  has_symbol-discard s symbol a.halted_symbols,
  lookup-insert symbol s (t + a.blackout_ns) a.blackout_until_ns,
)

respond-Quiet :
    {W E : Type 0} (status : Option HaltSignal) (a : HaltTradeability)
    (sm : Option (StateMachine DataHealth W E)) (w : W) (symbol : String) (ts : Option ℕ)
    (clock : ℕ × ℕ)
    → Quiet a
    → Quiet (respond status a sm w symbol ts clock).0
respond-Quiet none a sm w symbol ts clock q = q
respond-Quiet (some halt_on) a sm w symbol ts clock q = enter-Quiet symbol a q
respond-Quiet (some halt_off) a sm w symbol ts clock q = leave-Quiet symbol _ ts a q

-- In a store where no symbol is halted and in a blackout at once, a tape event leaves none that is,
-- whatever its condition codes and whatever becomes of the health machine.
pub sync-Quiet :
    {W E : Type 0} (a : HaltTradeability) (sm : Option (StateMachine DataHealth W E)) (w : W)
    (symbol : String) (conditions : List ℕ) (ts : Option ℕ) (clock : ℕ × ℕ)
    → Quiet a
    → Quiet (sync_halt_store_and_health a sm w symbol conditions ts clock).1
unfolding sync_halt_store_and_health
sync-Quiet a sm w symbol conditions ts clock q =
    respond-Quiet (classify_halt_status conditions a.on_codes a.off_codes).1 a sm w symbol ts clock
      q

-- A machine that says halted has its symbol in the store.
abbrev pub aligned :
    {W E : Type 0} → HaltTradeability → Option (StateMachine DataHealth W E) → String → Bool
aligned a sm symbol = not (in_state halted sm) || has_symbol symbol a.halted_symbols

enter-has :
    (symbol : String) (a : HaltTradeability)
    → has_symbol symbol (enter symbol a).halted_symbols ≡ true
enter-has symbol a = ground (arith, (string_Eq.eqb_iff symbol symbol).1 refl)

no_fault :
    {E A : Type 0} {r : Result (Fault DataHealth E) TransitionRecord} {e : Fault DataHealth E}
    → r ≡ err e
    → fault_of r ≡ none
    → A
no_fault {e = e} p q = let z : some e ≡ none = sym (ap fault_of p) ∙ q in cc

commits :
    {W E : Type 0} (m : StateMachine DataHealth W E) (c : Call) (w : W)
    → can_transition m healthy ≡ true
    → fault_of (transition enum m c healthy w).2 ≡ none
    → (transition enum m c healthy w).0.state ≡ healthy
commits m c w allowed quiet = elim (transition_outcome enum m c healthy w) [
  | inl (no_edge, _) ↦ absurd (no_edge (can_transition-Edge m healthy allowed))
  | inr (_, inl (e, _, _, result)) ↦ no_fault result quiet
  | inr (_, inr (_, _, changed, _)) ↦ ap (λ m. m.state) changed
]

-- A machine of the table that was halted is healthy after the move, unless a callback raised.
recovers :
    {W E : Type 0} (m : StateMachine DataHealth W E) (c : Call) (w : W)
    → m.transitions ≡ transitions
    → (move (some m) (in_state halted (some m)) healthy c w).2 ≡ none
    → in_state halted (move (some m) (in_state halted (some m)) healthy c w).0 ≡ false
unfolding move
recovers m c w table quiet = elim (Bool-cases (in_state halted (some m))) [
  | inl was ↦
      let at : m.state ≡ halted = (DataHealth_Eq.eqb_iff m.state halted).0 was in
      let may : can_transition m healthy ≡ true = rw (table, at) refl in
      rw (was, may, commits m c w may ((rw (was, may) at quiet))) refl
  | inr was_not ↦ rw (was_not, was_not) refl
]

respond-aligned :
    {W E : Type 0} (status : Option HaltSignal) (a : HaltTradeability)
    (m : StateMachine DataHealth W E) (w : W) (symbol : String) (ts : Option ℕ) (clock : ℕ × ℕ)
    → m.transitions ≡ transitions
    → aligned a (some m) symbol ≡ true
    → (respond status a (some m) w symbol ts clock).1.2 ≡ none
    → let (a', moved, result) = respond status a (some m) w symbol ts clock in
      aligned a' moved.0 symbol ≡ true
respond-aligned none a m w symbol ts clock table before quiet = before
respond-aligned (some halt_on) a m w symbol ts clock table before quiet =
    or_right _ _ (enter-has symbol a)
  where
    or_right : (b c : Bool) → c ≡ true → (not b || c) ≡ true
    or_right true c h = h
    or_right false c h = refl
respond-aligned (some halt_off) a m w symbol ts clock table before quiet =
    rw (recovers m _ w table quiet) refl

-- When no exception is raised, a tape event for a symbol keeps its trade feed's machine from being
-- halted while the store says that the symbol trades, provided that it was so before.
pub sync-aligned :
    {W E : Type 0} (a : HaltTradeability) (m : StateMachine DataHealth W E) (w : W)
    (symbol : String) (conditions : List ℕ) (ts : Option ℕ) (clock : ℕ × ℕ)
    → m.transitions ≡ transitions
    → aligned a (some m) symbol ≡ true
    → (sync_halt_store_and_health a (some m) w symbol conditions ts clock).2.2 ≡ none
    → let (v, a', moved, result) =
        sync_halt_store_and_health a (some m) w symbol conditions ts clock in
      aligned a' moved.0 symbol ≡ true
unfolding sync_halt_store_and_health
sync-aligned a m w symbol conditions ts clock table before quiet =
    respond-aligned (classify_halt_status conditions a.on_codes a.off_codes).1 a m w symbol ts clock
      table before quiet
