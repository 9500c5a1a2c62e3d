-- ===== src/Lots/Sides.antt =====
-- All open lots of a symbol are on one side, none of them is empty, and the front lot is the oldest
-- (src/feelies/core/lot_ledger.py).
use feelies.Kit.{
  ℕ, ◌≤◌, ◌≡◌, refl, ◌⊎◌, inl, inr, Bool, true, false, not, List, [], ◌∷◌, ◌++◌, arith, string_Eq,
  Bool-cases, All, All-append,
}
use feelies.Kit.Int.{ℤ, pos, ◌+ℤ◌, is_pos, is_neg, is_zero}
use feelies.Lots.{
  Lot, Fill, Matched, net, stops, takes_all, extends, opened, reduce, with_residual, fill_lots,
}

-- Long for `true`, short for `false`.
abbrev pub on : Bool → ℤ → Bool
on true q = is_pos q
on false q = is_neg q

abbrev pub AllOn : Bool → List Lot → Type 0
AllOn side lots = All (λ lot. on side lot.quantity ≡ true) lots

-- The lots are on one side, and none is empty.
abbrev pub OneSided : List Lot → Type 0
OneSided lots = (side : Bool) × AllOn side lots

on-add : (side : Bool) (a b : ℤ) → on side a ≡ true → on side b ≡ true → on side (a +ℤ b) ≡ true
unfolding ◌+ℤ◌
on-add true a b h k = ground arith
on-add false a b h k = ground arith

pub net-on :
    (side : Bool) (lot : Lot) (lots : List Lot)
    → AllOn side (lot ∷ lots)
    → on side (net (lot ∷ lots)) ≡ true
unfolding net ◌+ℤ◌
net-on true lot [] h = ground arith
net-on false lot [] h = ground arith
net-on side lot (x ∷ xs) h = on-add side lot.quantity (net (x ∷ xs)) h.0 (net-on side x xs h.1)

-- What the loop leaves of lots on one side, for a fill on the other.
abbrev Left : Bool → Matched → Type 0
Left side m =
    AllOn side m.lots
    × ((is_zero m.to_reduce ≡ true) ⊎ ((m.lots ≡ []) × (on (not side) m.to_reduce ≡ true)))

taken :
    (side : Bool) (a q : ℤ)
    → on side a ≡ true
    → on (not side) q ≡ true
    → takes_all a q ≡ true
    → (is_zero (q +ℤ a) ≡ true) ⊎ (on (not side) (q +ℤ a) ≡ true)
unfolding ◌+ℤ◌
taken true a q h k t = ground arith
taken false a q h k t = ground arith

kept :
    (side : Bool) (a q : ℤ)
    → on side a ≡ true
    → on (not side) q ≡ true
    → takes_all a q ≡ false
    → on side (a +ℤ q) ≡ true
unfolding ◌+ℤ◌
kept true a q h k t = ground arith
kept false a q h k t = ground arith

goes_on : (side : Bool) (a q : ℤ) → on side a ≡ true → on (not side) q ≡ true → stops a q ≡ false
goes_on true a q h k = ground arith
goes_on false a q h k = ground arith

zero_stops : (a q : ℤ) → is_zero q ≡ true → stops a q ≡ true
zero_stops a q h = ground arith

pub not_zero : (side : Bool) (q : ℤ) → on side q ≡ true → is_zero q ≡ false
not_zero true q h = ground arith
not_zero false q h = ground arith

two_sides :
    (side : Bool) (q : ℤ) → is_zero q ≡ false → (on side q ≡ true) ⊎ (on (not side) q ≡ true)
two_sides true q h = ground arith
two_sides false q h = ground arith

adds : (side : Bool) (held q : ℤ) → on side held ≡ true → on side q ≡ true → extends held q ≡ true
adds true held q h k = ground arith
adds false held q h k = ground arith

lessens :
    (side : Bool) (held q : ℤ)
    → on side held ≡ true
    → on (not side) q ≡ true
    → extends held q ≡ false
lessens true held q h k = ground arith
lessens false held q h k = ground arith

reduce-Left :
    (side : Bool) (lots : List Lot) (q price realized : ℤ)
    → AllOn side lots
    → (is_zero q ≡ true) ⊎ (on (not side) q ≡ true)
    → Left side (reduce lots q price realized)
unfolding reduce
reduce-Left side [] q price realized h (inl z) = (tt, inl z)
reduce-Left side [] q price realized h (inr k) = (tt, inr (refl, k))
reduce-Left side (front ∷ rest) q price realized h (inl z) =
    rw (zero_stops front.quantity q z) (h, inl z)
reduce-Left side (front ∷ rest) q price realized h (inr k) =
    rw (goes_on side front.quantity q h.0 k) (elim (Bool-cases (takes_all front.quantity q)) [
      | inl all ↦ rw all (
          reduce-Left side rest (q +ℤ front.quantity) price _ h.1
            (taken side front.quantity q h.0 k all))
      | inr part ↦ rw part ((kept side front.quantity q h.0 k part, h.1), inl refl)
    ])

residual-OneSided :
    (side : Bool) (f : Fill) (m : Matched) → Left side m → OneSided (with_residual f m)
residual-OneSided side f m (h, inl z) = rw z (side, h)
residual-OneSided side f m (h, inr (none_left, k)) =
    rw (not_zero (not side) m.to_reduce k, none_left) (not side, (k, tt))

fill_lots-on :
    (side : Bool) (f : Fill) (lots : List Lot)
    → AllOn side lots
    → (on side f.signed_qty ≡ true) ⊎ (on (not side) f.signed_qty ≡ true)
    → OneSided (fill_lots f lots).0
unfolding fill_lots net
fill_lots-on side f [] h (inl k) = (side, (k, tt))
fill_lots-on side f [] h (inr k) = (not side, (k, tt))
fill_lots-on side f (x ∷ xs) h (inl k) =
    rw (adds side (net (x ∷ xs)) f.signed_qty (net-on side x xs h) k)
      (side, All-append _ (x ∷ xs) (opened f f.signed_qty ∷ []) h (k, tt))
fill_lots-on side f (x ∷ xs) h (inr k) =
    rw (lessens side (net (x ∷ xs)) f.signed_qty (net-on side x xs h) k) (
      residual-OneSided side f (reduce (x ∷ xs) f.signed_qty f.price (pos 0))
        (reduce-Left side (x ∷ xs) f.signed_qty f.price (pos 0) h (inr k)))

-- A fill of a nonzero quantity leaves the lots of its symbol on one side, with no empty lot among
-- them, whether it opens, extends, reduces, closes or crosses through zero.
pub fill_lots-OneSided :
    (f : Fill) (lots : List Lot)
    → is_zero f.signed_qty ≡ false
    → OneSided lots
    → OneSided (fill_lots f lots).0
fill_lots-OneSided f lots nz (side, h) = fill_lots-on side f lots h (two_sides side f.signed_qty nz)

-- The lots from the oldest to the newest, none of them newer than `now_ns`.
abbrev pub Aged : ℕ → List Lot → Type 0
Aged now_ns [] = Unit
Aged now_ns (lot ∷ lots) =
    (lot.opened_at_ns ≤ now_ns)
    × All (λ later. lot.opened_at_ns ≤ later.opened_at_ns) lots
    × Aged now_ns lots

Aged-snoc :
    (now_ns : ℕ) (lots : List Lot) (lot : Lot)
    → Aged now_ns lots
    → now_ns ≤ lot.opened_at_ns
    → Aged lot.opened_at_ns (lots ++ (lot ∷ []))
Aged-snoc now_ns [] lot h k = (omega arith, tt, tt)
Aged-snoc now_ns (x ∷ xs) lot h k = (
  omega (arith, h.0),
  All-append _ xs (lot ∷ []) h.1 (omega (arith, h.0), tt),
  Aged-snoc now_ns xs lot h.2 k,
)

pub Aged-later : (t u : ℕ) (lots : List Lot) → t ≤ u → Aged t lots → Aged u lots
Aged-later t u [] k h = tt
Aged-later t u (x ∷ xs) k h = (omega (arith, h.0), h.1, Aged-later t u xs k h.2)

reduce-Aged :
    (now_ns : ℕ) (lots : List Lot) (q price realized : ℤ)
    → Aged now_ns lots
    → Aged now_ns (reduce lots q price realized).lots
unfolding reduce
reduce-Aged now_ns [] q price realized h = tt
reduce-Aged now_ns (front ∷ rest) q price realized h = elim (Bool-cases (stops front.quantity q)) [
  | inl done ↦ rw done h
  | inr more ↦ elim (Bool-cases (takes_all front.quantity q)) [
    | inl all ↦ rw (more, all) (reduce-Aged now_ns rest (q +ℤ front.quantity) price _ h.2)
    | inr part ↦ rw (more, part) h
  ]
]

-- If no lot is newer than a fill, then after the fill the lots still stand from the oldest to the
-- newest, and none is newer than the fill: the front lot is the oldest open one.
pub fill_lots-Aged :
    (now_ns : ℕ) (f : Fill) (lots : List Lot)
    → now_ns ≤ f.timestamp_ns
    → Aged now_ns lots
    → Aged f.timestamp_ns (fill_lots f lots).0
unfolding fill_lots
fill_lots-Aged now_ns f lots k h = elim (Bool-cases (extends (net lots) f.signed_qty)) [
  | inl more ↦ rw more (Aged-snoc now_ns lots (opened f f.signed_qty) h k)
  | inr less ↦ rw less (
      residual (reduce lots f.signed_qty f.price (pos 0))
        (reduce-Aged now_ns lots f.signed_qty f.price (pos 0) h))
]
  where
    residual : (m : Matched) → Aged now_ns m.lots → Aged f.timestamp_ns (with_residual f m)
    residual m a = elim (Bool-cases (is_zero m.to_reduce)) [
      | inl none_left ↦ rw none_left (Aged-later now_ns f.timestamp_ns m.lots k a)
      | inr left ↦ rw left (Aged-snoc now_ns m.lots (opened f m.to_reduce) a k)
    ]
