-- ===== src/Attribution.antt =====
-- src/feelies/core/fill_attribution.py and src/feelies/portfolio/fill_attribution.py: fills of a
-- net order, split among the alphas that contributed to it. Weights are floats; money is an
-- integer number of the smallest `Decimal` unit, and `share` is the quotient `(fees * alloc /
-- total).quantize(Decimal("0.01"))`.
pub mod Sums
pub mod Fees
pub mod Ledger
pub mod Partial
use feelies.Kit.{
  ℕ, zero, suc, ◌+◌, ◌*◌, ◌/◌, ◌-◌, String, Bool, true, false, not, ◌&&◌, ◌||◌, Option, none, some,
  List, [], ◌∷◌, map, Result, ok, err, ltb, leb, length, replicate, if◌then◌else◌, string_Eq,
}
use feelies.Kit.Int.{ℤ, pos, negsuc, ◌+ℤ◌, ◌-ℤ◌, ◌*ℤ◌, negℤ, is_pos, is_neg, is_zero}
use feelies.Kit.Floats.{Floats}
use feelies.Kit.Dict.{Dict, lookup, insert, erase}
use feelies.Market.{Side, buy, sell}

pub record AlphaContribution (R : Type 0) : Type 0 where
  pub strategy_id : String
  pub signed_quantity : ℤ
  pub proportion : R

pub record AttributionRecord (R : Type 0) : Type 0 where
  pub order_id : String
  pub symbol : String
  pub net_side : Side
  pub net_quantity : ℤ
  pub contributions : List (AlphaContribution R)

unfoldable pub sum : List ℤ → ℤ
sum [] = pos 0
sum (x ∷ xs) = x +ℤ sum xs

-- The even split: `base + 1` for the first `remainder` places, `base` for the others.
unfoldable pub even : ℤ → ℕ → ℕ → List ℤ
even base zero k = []
even base (suc n) zero = base ∷ even base n zero
even base (suc n) (suc k) = (base +ℤ pos 1) ∷ even base n k

-- `total // n`, which rounds down.
abbrev pub floor_div : ℤ → ℕ → ℤ
floor_div (pos t) n = pos (t / n)
floor_div (negsuc t) n = negsuc (t / n)

-- `xs[i] += d`, where `none` is the `IndexError`.
unfoldable pub bump : ℤ → List ℤ → ℕ → Option (List ℤ)
bump d [] i = none
bump d (x ∷ xs) zero = some ((x +ℤ d) ∷ xs)
bump d (x ∷ xs) (suc i) = elim (bump d xs i) [ none ↦ none | some ys ↦ some (x ∷ ys) ]

-- `for i in range(deficit): floors[indices[i]] += 1`
unfoldable pub hand_out : ℕ → List ℕ → List ℤ → Option (List ℤ)
hand_out zero indices floors = some floors
hand_out (suc k) [] floors = none
hand_out (suc k) (i ∷ indices) floors = elim (bump (pos 1) floors i) [
  | none ↦ none
  | some floors' ↦ hand_out k indices floors'
]

-- `range(deficit)` is empty for a negative `deficit`.
abbrev pub rounds : ℤ → ℕ
rounds (pos n) = n
rounds (negsuc n) = 0

module _ (fl : Floats) where
  open fl use {Float, of_int, minus, times, over, neg, abs_of, fsum, less, less_eq, trunc}

  -- `sorted(range(n), key=lambda i: -remainders[i])`, a stable sort, as an insertion sort.
  unfoldable pub place : Float → ℕ → List (Float × ℕ) → List (Float × ℕ)
  place r i [] = (r, i) ∷ []
  place r i ((q, j) ∷ rest) =
      if less (neg q) (neg r) || not (less (neg r) (neg q))
      then (q, j) ∷ place r i rest
      else (r, i) ∷ (q, j) ∷ rest

  -- The places before `i` are in the list already, so equal keys keep their order.
  unfoldable pub ranked : ℕ → List Float → List (Float × ℕ) → List ℕ
  unfolding place
  ranked i [] sorted = map (λ e. e.1) sorted
  ranked i (r ∷ rs) sorted = ranked (suc i) rs (place r i sorted)

  abbrev pub exact : ℤ → Float → Float → Float
  exact total total_weight w = over (times (of_int total) (abs_of w)) total_weight

  abbrev pub floors_of : ℤ → Float → List Float → List ℤ
  floors_of total tw [] = []
  floors_of total tw (w ∷ ws) = trunc (exact total tw w) ∷ floors_of total tw ws

  abbrev pub remainders_of : ℤ → Float → List Float → List Float
  remainders_of total tw [] = []
  remainders_of total tw (w ∷ ws) =
      let e = exact total tw w in minus e (of_int (trunc e)) ∷ remainders_of total tw ws

  abbrev pub weight_of : List Float → Float
  weight_of ws = fsum (map abs_of ws)

  unfoldable pub by_remainders : ℤ → List Float → Option (List ℤ)
  by_remainders total ws =
      let floors = floors_of total (weight_of ws) ws in
      hand_out (rounds (total -ℤ sum floors)) (ranked 0 (remainders_of total (weight_of ws) ws) [])
        floors

  unfoldable pub largest_remainder_split : ℤ → List Float → Option (List ℤ)
  largest_remainder_split total [] = some []
  largest_remainder_split total (w ∷ ws) =
      let n = length (w ∷ ws) in
      let base = floor_div total n in
      if less_eq (weight_of (w ∷ ws)) (of_int (pos 0))
      then some (even base n (rounds (total -ℤ base *ℤ pos n)))
      else by_remainders total (w ∷ ws)

-- `sum(a for a in allocations if a > 0)`
unfoldable pub allocated : List ℤ → ℤ
allocated [] = pos 0
allocated (a ∷ rest) = if is_pos a then a +ℤ allocated rest else allocated rest

-- `out`, `remainder` and `last_nonzero` after the loop over the allocations from place `idx` on;
-- `none` is the place -1. A place that is skipped takes nothing.
unfoldable pub allot : (ℤ → ℤ → ℤ → ℤ) → ℤ → ℤ → ℕ → ℤ → Option ℕ → List ℤ → List ℤ × ℤ × Option ℕ
allot share fees total idx remainder last [] = ([], remainder, last)
allot share fees total idx remainder last (a ∷ rest) =
    let s = if is_pos a then share fees a total else pos 0 in
    let (out, left, place) =
      allot share fees total (suc idx) (remainder -ℤ s) (if is_pos a then some idx else last)
        rest in
    (s ∷ out, left, place)

abbrev pub zeros : List ℤ → List ℤ
zeros [] = []
zeros (a ∷ rest) = pos 0 ∷ zeros rest

abbrev pub settle : List ℤ → ℤ → Option ℕ → Option (List ℤ)
settle out remainder none = some out
settle out remainder (some i) = if is_zero remainder then some out else bump remainder out i

unfoldable pub split_fees : (ℤ → ℤ → ℤ → ℤ) → ℤ → List ℤ → Option (List ℤ)
unfolding allocated allot
split_fees share fees allocations =
    let total = allocated allocations in
    let (out, remainder, last) = allot share fees total 0 fees none allocations in
    if not (is_pos total) then some (zeros allocations) else settle out remainder last
