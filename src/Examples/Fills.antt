-- ===== src/Examples/Fills.antt =====
-- Fills of src/feelies/portfolio/fill_attribution.py at concrete inputs.
use feelies.Kit.{ℕ, ◌*◌, ◌≡◌, refl, false, some, [], ◌∷◌, ◌/◌, arith, if◌then◌else◌}
use feelies.Kit.Int.{ℤ, pos, ◌+ℤ◌, ◌-ℤ◌, ◌*ℤ◌, negℤ, is_pos}
use feelies.Market.{buy}
use feelies.Attribution.{
  AlphaContribution, AttributionRecord, allocated, split_fees, largest_remainder_split,
  by_remainders, even, hand_out, bump, ranked, place, sum, allot,
}
use feelies.Attribution.Sums.{Splits, largest_remainder_split-Splits}
use feelies.Attribution.Fees.{split_fees-Splits}
use feelies.Attribution.Ledger.{FillLedger, allocate_fill}
use feelies.Attribution.Partial.{Allocates, allocate_fill-Allocates}
use feelies.Examples.Toy.{toy}

-- Fees to the cent, in thousandths.
abbrev cents : ℤ → ℤ → ℤ → ℤ
cents (pos fees) (pos a) (pos (ℕ.suc n)) = pos (fees * a / (ℕ.suc n) / 10) *ℤ pos 10
cents fees a total = pos 0

split-run :
    largest_remainder_split toy (pos 10) (pos 1000 ∷ pos 1000 ∷ pos 1000 ∷ [])
    ≡ some (pos 4 ∷ pos 3 ∷ pos 3 ∷ [])
unfolding largest_remainder_split by_remainders even hand_out bump ranked place sum negℤ ◌+ℤ◌ ◌-ℤ◌
    ◌*ℤ◌
split-run = refl

fees-run :
    split_fees cents (pos 1000) (pos 1 ∷ pos 0 ∷ pos 2 ∷ []) ≡ some (pos 330 ∷ pos 0 ∷ pos 670 ∷ [])
unfolding split_fees allocated allot bump ◌+ℤ◌ ◌-ℤ◌ ◌*ℤ◌
fees-run = refl

largest_remainder_split-Splits_example :
    Splits (largest_remainder_split toy (pos 10) (pos 1000 ∷ pos 1000 ∷ pos 1000 ∷ [])) 3 (pos 10)
unfolding sum negℤ ◌+ℤ◌ ◌-ℤ◌ ◌*ℤ◌
largest_remainder_split-Splits_example =
    largest_remainder_split-Splits toy 10 (pos 1000) (pos 1000 ∷ pos 1000 ∷ [])
      (λ e. (omega arith, omega arith))

split_fees-Splits_example :
    Splits
      (split_fees cents (pos 1000) (pos 1 ∷ pos 0 ∷ pos 2 ∷ []))
      3
      (if is_pos (allocated (pos 1 ∷ pos 0 ∷ pos 2 ∷ [])) then pos 1000 else pos 0)
split_fees-Splits_example = split_fees-Splits cents (pos 1000) (pos 1 ∷ pos 0 ∷ pos 2 ∷ [])

abbrev first : AlphaContribution ℤ
first = record { strategy_id = "a"; signed_quantity = pos 6; proportion = pos 600 }

abbrev second : AlphaContribution ℤ
second = record { strategy_id = "b"; signed_quantity = pos 4; proportion = pos 400 }

abbrev order : AttributionRecord ℤ
order = record {
  order_id = "o";
  symbol = "AAPL";
  net_side = buy;
  net_quantity = pos 10;
  contributions = first ∷ second ∷ [];
}

-- Four shares of the order have filled: two for each alpha.
abbrev part_filled : FillLedger ℤ
part_filled = record {
  records = ("o", order) ∷ [];
  cumulative_allocations = ("o", pos 2 ∷ pos 2 ∷ []) ∷ [];
}

allocate_fill-Allocates_example :
    Allocates toy cents
      (allocate_fill toy cents part_filled "o" (pos 6) (pos 100) (pos 30) false)
      part_filled
      "o"
      buy
      (pos 6)
      false
      2
      (pos 10)
unfolding sum negℤ ◌+ℤ◌ ◌-ℤ◌ ◌*ℤ◌
allocate_fill-Allocates_example =
    allocate_fill-Allocates toy cents part_filled "o" (pos 6) (pos 100) (pos 30) false order first
      (second ∷ []) 10 refl refl (refl, (refl, tt)) refl refl (λ e. (omega arith, omega arith))

-- One more share takes one away from the third weight.
three_of_ten :
    largest_remainder_split toy (pos 10) (pos 6000 ∷ pos 6000 ∷ pos 2000 ∷ [])
    ≡ some (pos 4 ∷ pos 4 ∷ pos 2 ∷ [])
unfolding largest_remainder_split by_remainders even hand_out bump ranked place sum negℤ ◌+ℤ◌ ◌-ℤ◌
    ◌*ℤ◌
three_of_ten = refl

three_of_eleven :
    largest_remainder_split toy (pos 11) (pos 6000 ∷ pos 6000 ∷ pos 2000 ∷ [])
    ≡ some (pos 5 ∷ pos 5 ∷ pos 1 ∷ [])
unfolding largest_remainder_split by_remainders even hand_out bump ranked place sum negℤ ◌+ℤ◌ ◌-ℤ◌
    ◌*ℤ◌
three_of_eleven = refl
