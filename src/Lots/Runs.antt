-- ===== src/Lots/Runs.antt =====
-- The shape of the book after any fills (src/feelies/core/lot_ledger.py).
use feelies.Kit.{
  ℕ, ◌≤◌, String, ◌≡◌, refl, inl, inr, true, List, [], ◌∷◌, arith, length, string_Eq, Bool-cases,
  nat_eq, All, some,
}
use mathlib.Core.Path.{subst}
use feelies.Kit.Int.{ℤ, pos, is_zero, ◌-ℤ◌, ◌≤ℤ◌, int_laws}
use feelies.Lots.{
  Lot, Fill, LotLedger, empty, net, apply_fill, lots_of, net_quantity, open_lot_count, oldest,
  oldest_open_age_ns,
}
use feelies.Lots.Conserve.{basis}
use feelies.Lots.Accounts.{run, lots-apply_fill, skip_empty}
use feelies.Lots.Sides.{
  OneSided, Aged, Aged-later, fill_lots-OneSided, fill_lots-Aged, net-on, not_zero,
}

-- Every symbol's lots are on one side.
abbrev Tidy : LotLedger → Type 0
Tidy l = (s : String) → OneSided (lots_of l s)

apply_fill-Tidy : (f : Fill) (l : LotLedger) → Tidy l → Tidy (apply_fill f l)
apply_fill-Tidy f l h s = elim (Bool-cases (is_zero f.signed_qty)) [
  | inl z ↦ rw (skip_empty f l z) (h s)
  | inr nz ↦ rw (lots-apply_fill f l s nz) (elim (Bool-cases (string_Eq.eqb f.symbol s)) [
    | inl same ↦ rw same (fill_lots-OneSided f (lots_of l s) nz (h s))
    | inr other ↦ rw other (h s)
  ])
]

run-Tidy : (fs : List Fill) (l : LotLedger) → Tidy l → Tidy (run fs l)
run-Tidy [] l h = h
run-Tidy (f ∷ fs) l h = run-Tidy fs (apply_fill f l) (apply_fill-Tidy f l h)

empty-Tidy : Tidy empty
unfolding lots_of
empty-Tidy s = (true, tt)

flat-lots : (lots : List Lot) → OneSided lots → is_zero (net lots) ≡ nat_eq (length lots) 0
unfolding net
flat-lots [] h = refl
flat-lots (x ∷ xs) (side, h) = rw (not_zero side (net (x ∷ xs)) (net-on side x xs h)) (ground arith)

-- After any fills every symbol's open lots are on one side and not empty, and its net quantity is
-- zero exactly when it has no open lot.
pub run-OneSided :
    (fs : List Fill) (s : String)
    → OneSided (lots_of (run fs empty) s)
      × (is_zero (net_quantity (run fs empty) s) ≡ nat_eq (open_lot_count (run fs empty) s) 0)
unfolding net_quantity open_lot_count
run-OneSided fs s = (run-Tidy fs empty empty-Tidy s, flat-lots _ (run-Tidy fs empty empty-Tidy s))

-- The fills come in the order of time.
abbrev pub InOrder : ℕ → List Fill → Type 0
InOrder now_ns [] = Unit
InOrder now_ns (f ∷ fs) = (now_ns ≤ f.timestamp_ns) × InOrder f.timestamp_ns fs

abbrev end_of : ℕ → List Fill → ℕ
end_of now_ns [] = now_ns
end_of now_ns (f ∷ fs) = end_of f.timestamp_ns fs

apply_fill-Aged :
    (now_ns : ℕ) (f : Fill) (l : LotLedger)
    → now_ns ≤ f.timestamp_ns
    → ((s : String) → Aged now_ns (lots_of l s))
    → (s : String) → Aged f.timestamp_ns (lots_of (apply_fill f l) s)
apply_fill-Aged now_ns f l k h s = elim (Bool-cases (is_zero f.signed_qty)) [
  | inl z ↦ rw (skip_empty f l z) (Aged-later now_ns f.timestamp_ns (lots_of l s) k (h s))
  | inr nz ↦ rw (lots-apply_fill f l s nz) (elim (Bool-cases (string_Eq.eqb f.symbol s)) [
    | inl same ↦ rw same (fill_lots-Aged now_ns f (lots_of l s) k (h s))
    | inr other ↦ rw other (Aged-later now_ns f.timestamp_ns (lots_of l s) k (h s))
  ])
]

run-Aged :
    (now_ns : ℕ) (fs : List Fill) (l : LotLedger)
    → InOrder now_ns fs
    → ((s : String) → Aged now_ns (lots_of l s))
    → (s : String) → Aged (end_of now_ns fs) (lots_of (run fs l) s)
run-Aged now_ns [] l o h = h
run-Aged now_ns (f ∷ fs) l o h =
    run-Aged f.timestamp_ns fs (apply_fill f l) o.1 (apply_fill-Aged now_ns f l o.0 h)

empty-Aged : (s : String) → Aged 0 (lots_of empty s)
unfolding lots_of
empty-Aged s = tt

no_older :
    (now_ns t : ℕ) (x : Lot) (xs : List Lot)
    → All (λ later. x.opened_at_ns ≤ later.opened_at_ns) xs
    → All (λ lot. pos now_ns -ℤ pos lot.opened_at_ns ≤ℤ pos now_ns -ℤ pos x.opened_at_ns) xs
no_older now_ns t x [] h = tt
no_older now_ns t x (y ∷ ys) h = (omega (int_laws, h.0), no_older now_ns t x ys h.1)

-- If fills are applied in the order of their times, the age that is reported as the oldest is at
-- least the age of every open lot.
pub oldest_open_age_ns-run :
    (fs : List Fill) (s : String) (now_ns : ℕ) {age : ℤ}
    → InOrder 0 fs
    → oldest_open_age_ns (run fs empty) s now_ns ≡ some age
    → All (λ lot. pos now_ns -ℤ pos lot.opened_at_ns ≤ℤ age) (lots_of (run fs empty) s)
unfolding oldest_open_age_ns
oldest_open_age_ns-run fs s now_ns {age} o e =
    bounded (lots_of (run fs empty) s) (run-Aged 0 fs empty o empty-Aged s) e
  where
    bounded :
        (lots : List Lot)
        → Aged (end_of 0 fs) lots
        → oldest lots now_ns ≡ some age
        → All (λ lot. pos now_ns -ℤ pos lot.opened_at_ns ≤ℤ age) lots
    bounded [] a e = tt
    bounded (x ∷ xs) a e =
        let same : pos now_ns -ℤ pos x.opened_at_ns ≡ age = cc in
        subst (λ (b : ℤ). All (λ lot. pos now_ns -ℤ pos lot.opened_at_ns ≤ℤ b) (x ∷ xs)) same
          (omega int_laws, no_older now_ns now_ns x xs a.1)

-- A symbol without net shares has no lot that costs anything.
pub flat-basis :
    (fs : List Fill) (s : String)
    → is_zero (net_quantity (run fs empty) s) ≡ true
    → basis (lots_of (run fs empty) s) ≡ pos 0
unfolding net_quantity
flat-basis fs s flat = none_left (lots_of (run fs empty) s) (run-Tidy fs empty empty-Tidy s) flat
  where
    none_left : (lots : List Lot) → OneSided lots → is_zero (net lots) ≡ true → basis lots ≡ pos 0
    none_left [] h z = unfold basis in refl
    none_left (x ∷ xs) (side, h) z = cc (not_zero side (net (x ∷ xs)) (net-on side x xs h))
