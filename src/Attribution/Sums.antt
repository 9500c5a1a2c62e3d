-- ===== src/Attribution/Sums.antt =====
-- The parts of a split add up (src/feelies/core/fill_attribution.py: `largest_remainder_split`).
use feelies.Kit.{
  false, ℕ, zero, suc, ◌+◌, ◌-◌, ◌*◌, ◌/◌, ◌≤◌, ◌<◌, ◌≡◌, refl, inl, inr, not, ◌||◌, Option, some,
  List, [], ◌∷◌, map, arith, ap, ◌∙◌, All, length, Bool-cases,
}
use feelies.Kit.Int.{ℤ, pos, ◌+ℤ◌, ◌-ℤ◌, ◌*ℤ◌, ◌≤ℤ◌, int_laws}
use native.Mathlib.Nat.{mul-suc, mul_comm, mod-lt, div-add-mod}
use feelies.Kit.Floats.{Floats}
use feelies.Attribution.{
  sum, even, bump, hand_out, rounds, place, ranked, floors_of, remainders_of, weight_of,
  by_remainders, largest_remainder_split,
}

-- A split succeeded with as many parts as `n`, which add up to `total`.
abbrev pub Splits : Option (List ℤ) → ℕ → ℤ → Type 0
Splits result n total =
    (parts : List ℤ) × (result ≡ some parts) × (length parts ≡ n) × (sum parts ≡ total)

pub bump-Splits :
    (d : ℤ) (xs : List ℤ) (i : ℕ) → i < length xs → Splits (bump d xs i) (length xs) (sum xs +ℤ d)
unfolding bump sum
bump-Splits d [] i h = ground arith
bump-Splits d (x ∷ xs) zero h = ((x +ℤ d) ∷ xs, refl, refl, omega int_laws)
bump-Splits d (x ∷ xs) (suc i) h =
    let (ys, done, size, total) = bump-Splits d xs i (omega arith) in
    (x ∷ ys, rw done, ap suc size, rw total (omega int_laws))

hand_out-Splits :
    (k : ℕ) (indices : List ℕ) (floors : List ℤ)
    → k ≤ length indices
    → All (λ i. i < length floors) indices
    → Splits (hand_out k indices floors) (length floors) (sum floors +ℤ pos k)
unfolding hand_out
hand_out-Splits zero indices floors h range = (floors, refl, refl, omega int_laws)
hand_out-Splits (suc k) [] floors h range = ground arith
hand_out-Splits (suc k) (i ∷ indices) floors h range =
    let (floors', done, size, total) = bump-Splits (pos 1) floors i range.0 in
    let (parts, done', size', total') =
      hand_out-Splits k indices floors' (omega arith) (rw size range.1) in
    (parts, rw (hand_out, done) done', size' ∙ size, total' ∙ rw total (omega int_laws))

length-even : (base : ℤ) (n k : ℕ) → length (even base n k) ≡ n
unfolding even
length-even base zero k = refl
length-even base (suc n) zero = ap suc (length-even base n zero)
length-even base (suc n) (suc k) = ap suc (length-even base n k)

sum-even : (base n k : ℕ) → k ≤ n → sum (even (pos base) n k) ≡ pos (base * n + k)
unfolding even sum
sum-even base zero k h = omega int_laws
sum-even base (suc n) zero h =
    rw (sum-even base n zero (omega arith)) (omega (int_laws, mul-suc base n))
sum-even base (suc n) (suc k) h =
    rw (sum-even base n k (omega arith)) (omega (int_laws, mul-suc base n))

module _ (fl : Floats) where
  open fl use {Float, less, neg}

  length-place :
      (r : Float) (i : ℕ) (sorted : List (Float × ℕ))
      → length (place fl r i sorted) ≡ suc (length sorted)
  unfolding place
  length-place r i [] = refl
  length-place r i ((q, j) ∷ rest) =
      elim (Bool-cases (less (neg q) (neg r) || not (less (neg r) (neg q)))) [
        | inl later ↦ rw later (ap suc (length-place r i rest))
        | inr here ↦ rw here
      ]

  place-All :
      (r : Float) (i n : ℕ) (sorted : List (Float × ℕ))
      → i < n
      → All (λ e. e.1 < n) sorted
      → All (λ e. e.1 < n) (place fl r i sorted)
  unfolding place
  place-All r i n [] h range = (h, tt)
  place-All r i n ((q, j) ∷ rest) h range =
      elim (Bool-cases (less (neg q) (neg r) || not (less (neg r) (neg q)))) [
        | inl later ↦ rw later (range.0, place-All r i n rest h range.1)
        | inr here ↦ rw here (h, range)
      ]

  places :
      (n : ℕ) (sorted : List (Float × ℕ))
      → All (λ e. e.1 < n) sorted
      → (length (map (λ e. e.1) sorted) ≡ length sorted) × All (λ i. i < n) (map (λ e. e.1) sorted)
  places n [] range = (refl, tt)
  places n (e ∷ sorted) range =
      let (size, inside) = places n sorted range.1 in (ap suc size, (range.0, inside))

  ranked-All :
      (i n : ℕ) (rs : List Float) (sorted : List (Float × ℕ))
      → i + length rs ≤ n
      → All (λ e. e.1 < n) sorted
      → (length (ranked fl i rs sorted) ≡ length rs + length sorted)
        × All (λ i. i < n) (ranked fl i rs sorted)
  unfolding ranked
  ranked-All i n [] sorted h range =
      let (size, inside) = places n sorted range in (size ∙ omega arith, inside)
  ranked-All i n (r ∷ rs) sorted h range =
      let (size, inside) =
        ranked-All (suc i) n rs (place fl r i sorted) (omega arith)
          (place-All r i n sorted (omega arith) range) in
      (size ∙ omega (arith, length-place r i sorted), inside)

  length-floors_of :
      (total : ℤ) (tw : Float) (ws : List Float) → length (floors_of fl total tw ws) ≡ length ws
  length-floors_of total tw [] = refl
  length-floors_of total tw (w ∷ ws) = ap suc (length-floors_of total tw ws)

  length-remainders_of :
      (total : ℤ) (tw : Float) (ws : List Float) → length (remainders_of fl total tw ws) ≡ length ws
  length-remainders_of total tw [] = refl
  length-remainders_of total tw (w ∷ ws) = ap suc (length-remainders_of total tw ws)

  -- The whole parts of the exact shares of `total` do not exceed it, and leave at most one unit
  -- for each weight.
  abbrev pub Close : ℤ → List Float → Type 0
  Close total ws =
      let whole = sum (floors_of fl total (weight_of fl ws) ws) in
      (whole ≤ℤ total) × (total ≤ℤ whole +ℤ pos (length ws))

  rounds-deficit :
      (total whole : ℤ) → whole ≤ℤ total → whole +ℤ pos (rounds (total -ℤ whole)) ≡ total
  unfolding ◌+ℤ◌ ◌-ℤ◌
  rounds-deficit total whole h = ground arith

  rounds-bound : (total whole : ℤ) (n : ℕ) → total ≤ℤ whole +ℤ pos n → rounds (total -ℤ whole) ≤ n
  unfolding ◌+ℤ◌ ◌-ℤ◌
  rounds-bound total whole n h = ground arith

  by_remainders-Splits :
      (total : ℤ) (ws : List Float)
      → Close total ws
      → Splits (by_remainders fl total ws) (length ws) (total)
  unfolding by_remainders
  by_remainders-Splits total ws close =
      let tw = weight_of fl ws in
      let floors = floors_of fl total tw ws in
      let rs = remainders_of fl total tw ws in
      let size = length-floors_of total tw ws in
      let (count, inside) =
        ranked-All 0 (length floors) rs [] (omega (arith, length-remainders_of total tw ws, size))
          tt in
      let (parts, done, size', total') =
        hand_out-Splits (rounds (total -ℤ sum floors)) (ranked fl 0 rs []) floors
          (omega (
            arith,
            count,
            length-remainders_of total tw ws,
            rounds-bound total (sum floors) (length ws) close.1,
          ))
          inside in
      (parts, done, size' ∙ size, total' ∙ rounds-deficit total (sum floors) close.0)

  left_over : (total base n : ℕ) → rounds (pos total -ℤ pos base *ℤ pos n) ≡ total - base * n
  unfolding ◌-ℤ◌ ◌*ℤ◌
  left_over total base n = ground arith

  even-Splits :
      (total n : ℕ)
      → Splits
          (some (
            even
              (pos (total / suc n))
              (suc n)
              (rounds (pos total -ℤ pos (total / suc n) *ℤ pos (suc n)))))
          (suc n)
          (pos total)
  even-Splits total n =
      let base = total / suc n in
      let left = rounds (pos total -ℤ pos base *ℤ pos (suc n)) in
      let rest = left_over total base (suc n) in
      let division = div-add-mod total (suc n) in
      let small = mod-lt total {m = suc n} (omega arith) in
      let swap = mul_comm (total / suc n) (suc n) in
      (
        even (pos base) (suc n) left,
        refl,
        length-even (pos base) (suc n) left,
        sum-even base (suc n) left (omega (arith, division, small, swap, rest))
            ∙ ap pos (omega (arith, division, small, swap, rest)),
      )

  -- The split of a total among weights succeeds, with one part for each weight, and its parts add
  -- up to the total, provided that, where the weights are not all zero, the whole parts of the
  -- exact shares are never above the total and at most one unit for each weight below it.
  pub largest_remainder_split-Splits :
      (total : ℕ) (w : Float) (ws : List Float)
      → (fl.less_eq (weight_of fl (w ∷ ws)) (fl.of_int (pos 0)) ≡ false
          → Close (pos total) (w ∷ ws))
      → Splits (largest_remainder_split fl (pos total) (w ∷ ws)) (length (w ∷ ws)) (pos total)
  unfolding largest_remainder_split
  largest_remainder_split-Splits total w ws close =
      elim (Bool-cases (fl.less_eq (weight_of fl (w ∷ ws)) (fl.of_int (pos 0)))) [
        | inl no_weight ↦ rw no_weight (even-Splits total (length ws))
        | inr weighted ↦ rw weighted (by_remainders-Splits (pos total) (w ∷ ws) (close weighted))
      ]
