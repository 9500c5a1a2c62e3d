-- ===== src/Attribution/Ledger.antt =====
-- src/feelies/portfolio/fill_attribution.py: `FillAttributionLedger`.
use feelies.Kit.{String, Bool, Option, none, some, List, [], ◌∷◌, map, if◌then◌else◌, string_Eq}
use feelies.Kit.Int.{ℤ, pos, ◌+ℤ◌, ◌-ℤ◌, negℤ, is_neg, is_zero}
use feelies.Kit.Floats.{Floats}
use feelies.Kit.Dict.{Dict, lookup, insert, erase}
use feelies.Market.{Side, buy, sell}
use feelies.Attribution.{
  AlphaContribution, AttributionRecord, sum, largest_remainder_split, split_fees,
}

pub record FillLedger (R : Type 0) : Type 0 where
  pub records : Dict String (AttributionRecord R)
  pub cumulative_allocations : Dict String (List ℤ)

-- One tuple of the result of `allocate_fill`.
pub record Allocation : Type 0 where
  pub strategy_id : String
  pub symbol : String
  pub signed_qty : ℤ
  pub fill_price : ℤ
  pub fees : ℤ

module _ {R : Type 0} where
  abbrev pub empty : FillLedger R
  empty = record { records = []; cumulative_allocations = [] }

  unfoldable pub reset : FillLedger R → FillLedger R
  reset s = empty

  unfoldable pub register : AttributionRecord R → FillLedger R → FillLedger R
  register r s = record s { records = insert r.order_id r s.records }

  -- What is known of an order is dropped with its final fill.
  abbrev pub forget : String → FillLedger R → FillLedger R
  forget order_id s = record s {
    records = erase order_id s.records;
    cumulative_allocations = erase order_id s.cumulative_allocations;
  }

  abbrev pub remember : String → List ℤ → FillLedger R → FillLedger R
  remember order_id cum s = record s {
    cumulative_allocations = insert order_id cum s.cumulative_allocations;
  }

  abbrev pub closed : Bool → String → FillLedger R → FillLedger R
  closed is_final order_id s = if is_final then forget order_id s else s

  abbrev pub none_yet : List (AlphaContribution R) → List ℤ
  none_yet [] = []
  none_yet (c ∷ cs) = pos 0 ∷ none_yet cs

  abbrev pub previous : Option (List ℤ) → List (AlphaContribution R) → List ℤ
  previous none cs = none_yet cs
  previous (some cum) cs = cum

-- `[n - p for n, p in zip(new, prev, strict=True)]`, where `none` is the `ValueError`.
unfoldable pub differences : List ℤ → List ℤ → Option (List ℤ)
differences [] [] = some []
differences [] (p ∷ ps) = none
differences (n ∷ ns) [] = none
differences (n ∷ ns) (p ∷ ps) = elim (differences ns ps) [
  | none ↦ none
  | some ds ↦ some ((n -ℤ p) ∷ ds)
]

-- `effective_sign * alloc_qty`
abbrev pub side_sign : Side → ℤ → ℤ
side_sign buy q = q
side_sign sell q = negℤ q

abbrev pub effective_qty : Side → ℤ → ℤ → ℤ
effective_qty side contribution q =
    if is_neg contribution then negℤ (side_sign side q) else side_sign side q

module _ {R : Type 0} where
  -- The tuples, zero quantities left out; `none` is the `ValueError` of the strict `zip`.
  unfoldable pub tuples :
      AttributionRecord R
      → ℤ
      → List (AlphaContribution R)
      → List ℤ
      → List ℤ
      → Option (List Allocation)
  tuples r price [] [] [] = some []
  tuples r price (c ∷ cs) (q ∷ qs) (f ∷ fs) =
      let a : Allocation = record {
        strategy_id = c.strategy_id;
        symbol = r.symbol;
        signed_qty = effective_qty r.net_side c.signed_quantity q;
        fill_price = price;
        fees = f;
      } in
      elim (tuples r price cs qs fs) [
        | none ↦ none
        | some rest ↦ some (if is_zero q then rest else a ∷ rest)
      ]
  tuples r price _ _ _ = none

-- `none` stands for an exception of a helper.
module _ (fl : Floats) (share : ℤ → ℤ → ℤ → ℤ) where
  abbrev pub Served : Type 0
  Served = Option (List Allocation × FillLedger fl.Float)

  unfoldable pub allocate :
      AttributionRecord fl.Float
      → List (AlphaContribution fl.Float)
      → String
      → ℤ
      → ℤ
      → ℤ
      → Bool
      → FillLedger fl.Float
      → Served
  unfolding differences tuples
  allocate r cs order_id filled price fees is_final s =
      let prev = previous (lookup order_id s.cumulative_allocations) cs in
      elim (largest_remainder_split fl (sum prev +ℤ filled) (map (λ c. c.proportion) cs)) [
        | none ↦ none
        | some new ↦ elim (differences new prev) [
          | none ↦ none
          | some qs ↦ elim (split_fees share fees qs) [
            | none ↦ none
            | some fs ↦ elim (tuples r price cs qs fs) [
              | none ↦ none
              | some result ↦
                  some (result, if is_final then forget order_id s else remember order_id new s)
            ]
          ]
        ]
      ]

  abbrev pub serve :
      Option (AttributionRecord fl.Float) → String → ℤ → ℤ → ℤ → Bool → FillLedger fl.Float → Served
  serve none order_id filled price fees is_final s = some ([], s)
  serve (some r) order_id filled price fees is_final s = elim r.contributions [
    | [] ↦ some ([], closed is_final order_id s)
    | c ∷ cs ↦ allocate r (c ∷ cs) order_id filled price fees is_final s
  ]

  unfoldable pub allocate_fill : FillLedger fl.Float → String → ℤ → ℤ → ℤ → Bool → Served
  unfolding allocate
  allocate_fill s order_id filled price fees is_final =
      serve (lookup order_id s.records) order_id filled price fees is_final s
