-- ===== src/Lots/Conserve.antt =====
-- Fills conserve shares and money (src/feelies/core/lot_ledger.py).
use feelies.Kit.{
  ◌≡◌, refl, true, false, List, [], ◌∷◌, ◌++◌, arith, string_Eq, Bool-cases, inl, inr, ◌∙◌,
}
use feelies.Kit.Int.{ℤ, pos, ◌+ℤ◌, ◌-ℤ◌, ◌*ℤ◌, is_pos, is_zero, abs, minℤ, int_laws}
use feelies.Kit.Ring.{+ℤ-mul, zero-*ℤ, diff-mul, diff-mul_neg, abs_of_pos, abs_of_not_pos}
use feelies.Lots.{
  Lot, extends, stops, takes_all, Fill, Matched, net, reduce, gain, with_residual, fill_lots,
  opened,
}

net-append : (xs : List Lot) (lot : Lot) → net (xs ++ (lot ∷ [])) ≡ net xs +ℤ lot.quantity
unfolding net
net-append [] lot = omega int_laws
net-append (x ∷ xs) lot = rw (net-append xs lot) (omega int_laws)

-- The two lemmas about a round of the loop: the profit so far, and what is still to reduce.
abbrev after : Lot → ℤ → ℤ → ℤ → ℤ
after front q price realized = realized +ℤ gain front price (minℤ (abs front.quantity) (abs q))

net-reduce :
    (lots : List Lot) (q price realized : ℤ)
    → net (reduce lots q price realized).lots +ℤ (reduce lots q price realized).to_reduce
      ≡ net lots +ℤ q
unfolding reduce net
net-reduce [] q price realized = refl
net-reduce (front ∷ rest) q price realized = elim (Bool-cases (stops front.quantity q)) [
  | inl done ↦ rw done
  | inr more ↦ elim (Bool-cases (takes_all front.quantity q)) [
    | inl all ↦
        rw (more, all)
          (net-reduce rest (q +ℤ front.quantity) price (after front q price realized)
            ∙ omega int_laws)
    | inr part ↦ rw (more, part) (omega int_laws)
  ]
]

-- What the open lots cost: money paid for long lots, less money got for short ones.
unfoldable pub basis : List Lot → ℤ
basis [] = pos 0
basis (lot ∷ lots) = lot.quantity *ℤ lot.price +ℤ basis lots

basis-append :
    (xs : List Lot) (lot : Lot) → basis (xs ++ (lot ∷ [])) ≡ basis xs +ℤ lot.quantity *ℤ lot.price
unfolding basis
basis-append [] lot = omega int_laws
basis-append (x ∷ xs) lot = rw (basis-append xs lot) (omega int_laws)

min_all : (a q : ℤ) → takes_all a q ≡ true → minℤ (abs a) (abs q) ≡ abs a
min_all a q h = ground arith

min_part : (a q : ℤ) → takes_all a q ≡ false → minℤ (abs a) (abs q) ≡ abs q
min_part a q h = ground arith

-- A fill that takes a part of a long lot sells, and one that takes a part of a short lot buys.
against : (a q : ℤ) → stops a q ≡ false → takes_all a q ≡ false → is_pos a ≡ true → is_pos q ≡ false
against a q g h l = ground arith

covers : (a q : ℤ) → stops a q ≡ false → takes_all a q ≡ false → is_pos a ≡ false → is_pos q ≡ true
covers a q g h l = ground arith

-- A match realizes the price difference on the shares that it takes, with their sign.
gain_all :
    (front : Lot) (q price : ℤ)
    → takes_all front.quantity q ≡ true
    → gain front price (minℤ (abs front.quantity) (abs q))
      ≡ front.quantity *ℤ price -ℤ front.quantity *ℤ front.price
gain_all front q price h =
    rw (min_all front.quantity q h) (elim (Bool-cases (is_pos front.quantity)) [
      | inl long ↦
          rw (long, abs_of_pos front.quantity long) (diff-mul price front.price front.quantity)
      | inr short ↦
          rw (short, abs_of_not_pos front.quantity short)
            (diff-mul_neg front.price price front.quantity)
    ])

gain_part :
    (front : Lot) (q price : ℤ)
    → stops front.quantity q ≡ false
    → takes_all front.quantity q ≡ false
    → gain front price (minℤ (abs front.quantity) (abs q)) ≡ q *ℤ front.price -ℤ q *ℤ price
gain_part front q price g h =
    rw (min_part front.quantity q h) (elim (Bool-cases (is_pos front.quantity)) [
      | inl long ↦
          rw (long, abs_of_not_pos q (against front.quantity q g h long))
            (diff-mul_neg price front.price q)
      | inr short ↦
          rw (short, abs_of_pos q (covers front.quantity q g h short))
            (diff-mul front.price price q)
    ])

basis-reduce :
    (lots : List Lot) (q price realized : ℤ)
    → let m = reduce lots q price realized in
      basis m.lots +ℤ m.to_reduce *ℤ price -ℤ m.realized ≡ basis lots +ℤ q *ℤ price -ℤ realized
unfolding reduce basis
basis-reduce [] q price realized = refl
basis-reduce (front ∷ rest) q price realized = elim (Bool-cases (stops front.quantity q)) [
  | inl done ↦ rw done
  | inr more ↦ elim (Bool-cases (takes_all front.quantity q)) [
    | inl all ↦
        rw (more, all)
          (basis-reduce rest (q +ℤ front.quantity) price (after front q price realized)
            ∙ rw (gain_all front q price all, +ℤ-mul q front.quantity price) (omega int_laws))
    | inr part ↦
        rw (more, part)
          (rw
            (gain_part front q price more part, +ℤ-mul front.quantity q front.price, zero-*ℤ price)
            (omega int_laws))
  ]
]

pub eq_zero : (x : ℤ) → is_zero x ≡ true → x ≡ pos 0
eq_zero x h = ground arith

net-with_residual : (f : Fill) (m : Matched) → net (with_residual f m) ≡ net m.lots +ℤ m.to_reduce
net-with_residual f m = elim (Bool-cases (is_zero m.to_reduce)) [
  | inl none_left ↦ rw none_left (rw (eq_zero m.to_reduce none_left) (omega int_laws))
  | inr left ↦ rw left (net-append m.lots (opened f m.to_reduce))
]

basis-with_residual :
    (f : Fill) (m : Matched) → basis (with_residual f m) ≡ basis m.lots +ℤ m.to_reduce *ℤ f.price
basis-with_residual f m = elim (Bool-cases (is_zero m.to_reduce)) [
  | inl none_left ↦
      rw none_left (rw (eq_zero m.to_reduce none_left, zero-*ℤ f.price) (omega int_laws))
  | inr left ↦ rw left (basis-append m.lots (opened f m.to_reduce))
]

pub net-fill_lots :
    (f : Fill) (lots : List Lot) → net (fill_lots f lots).0 ≡ net lots +ℤ f.signed_qty
unfolding fill_lots
net-fill_lots f lots = elim (Bool-cases (extends (net lots) f.signed_qty)) [
  | inl more ↦ rw more (net-append lots (opened f f.signed_qty))
  | inr less ↦ rw less (
      net-with_residual f (reduce lots f.signed_qty f.price (pos 0))
      ∙ net-reduce lots f.signed_qty f.price (pos 0))
]

pub basis-fill_lots :
    (f : Fill) (lots : List Lot)
    → basis (fill_lots f lots).0 -ℤ (fill_lots f lots).1 ≡ basis lots +ℤ f.signed_qty *ℤ f.price
unfolding fill_lots
basis-fill_lots f lots = elim (Bool-cases (extends (net lots) f.signed_qty)) [
  | inl more ↦ rw (more, basis-append lots (opened f f.signed_qty)) (omega int_laws)
  | inr less ↦
      rw (less, basis-with_residual f (reduce lots f.signed_qty f.price (pos 0)))
        (basis-reduce lots f.signed_qty f.price (pos 0) ∙ omega int_laws)
]
