-- ===== src/Attribution/Partial.antt =====
-- What a fill allocates, whether partial or final
-- (src/feelies/portfolio/fill_attribution.py: `allocate_fill`).
use feelies.Kit.{
  false, ℕ, suc, String, ◌≡◌, refl, Bool, true, Option, some, List, [], ◌∷◌, map, arith, ap, ◌∙◌,
  sym, All, length, string_Eq, if◌then◌else◌, Bool-cases, inl, inr,
}
use feelies.Kit.Int.{ℤ, pos, ◌+ℤ◌, ◌-ℤ◌, negℤ, is_neg, is_zero, pos_part, neg_part, int_laws}
use feelies.Kit.Floats.{Floats}
use feelies.Kit.Dict.{lookup}
use feelies.Market.{Side, buy, sell}
use feelies.Attribution.{
  weight_of, AlphaContribution, AttributionRecord, sum, largest_remainder_split, split_fees,
}
use feelies.Attribution.Sums.{Splits, Close, largest_remainder_split-Splits}
use feelies.Attribution.Fees.{split_fees-Splits}
use feelies.Attribution.Ledger.{
  FillLedger, Allocation, previous, differences, side_sign, tuples, allocate, allocate_fill, forget,
  remember,
}

differences-Splits :
    (ns ps : List ℤ)
    → length ns ≡ length ps
    → Splits (differences ns ps) (length ps) (sum ns -ℤ sum ps)
unfolding differences sum
differences-Splits [] [] h = ([], refl, refl, omega int_laws)
differences-Splits [] (p ∷ ps) h = ground arith
differences-Splits (n ∷ ns) [] h = ground arith
differences-Splits (n ∷ ns) (p ∷ ps) h =
    let (ds, done, size, total) = differences-Splits ns ps (omega (arith, h)) in
    ((n -ℤ p) ∷ ds, rw (differences, done) refl, ap suc size, rw total (omega int_laws))

-- The shares of a list of tuples.
abbrev pub signed_total : List Allocation → ℤ
signed_total [] = pos 0
signed_total (a ∷ rest) = a.signed_qty +ℤ signed_total rest

abbrev pub WithNet : {R : Type 0} → List (AlphaContribution R) → Type 0
WithNet cs = All (λ c. is_neg c.signed_quantity ≡ false) cs

side_sign-add :
    (side : Side) (a b : ℤ) → side_sign side (a +ℤ b) ≡ side_sign side a +ℤ side_sign side b
side_sign-add buy a b = refl
side_sign-add sell a b = omega int_laws

side_sign-zero : (side : Side) (a : ℤ) → is_zero a ≡ true → side_sign side a ≡ pos 0
unfolding negℤ
side_sign-zero buy a h = ground arith
side_sign-zero sell a h = ground arith

tuples-total :
    {R : Type 0} (r : AttributionRecord R) (price : ℤ) (cs : List (AlphaContribution R))
    (qs fs : List ℤ)
    → length qs ≡ length cs
    → length fs ≡ length cs
    → WithNet cs
    → (result : List Allocation) × (tuples r price cs qs fs ≡ some result)
      × (signed_total result ≡ side_sign r.net_side (sum qs))
unfolding tuples sum
tuples-total r price [] [] [] h k net = ([], refl, sym (side_sign-zero r.net_side (pos 0) refl))
tuples-total r price [] (q ∷ qs) fs h k net = ground arith
tuples-total r price [] [] (f ∷ fs) h k net = ground arith
tuples-total r price (c ∷ cs) [] fs h k net = ground arith
tuples-total r price (c ∷ cs) (q ∷ qs) [] h k net = ground arith
tuples-total r price (c ∷ cs) (q ∷ qs) (f ∷ fs) h k net =
    let (result, done, total) =
      tuples-total r price cs qs fs (omega (arith, h)) (omega (arith, k)) net.1 in
    let a : Allocation = record {
      strategy_id = c.strategy_id;
      symbol = r.symbol;
      signed_qty = side_sign r.net_side q;
      fill_price = price;
      fees = f;
    } in
    elim (Bool-cases (is_zero q)) [
      | inl skipped ↦ (
        result,
        rw (tuples, done, skipped) refl,
        total
            ∙ rw (side_sign-add r.net_side q (sum qs), side_sign-zero r.net_side q skipped)
                (omega int_laws),
      )
      | inr kept ↦ (
        a ∷ result,
        rw (tuples, done, kept, net.0) refl,
        rw (total, side_sign-add r.net_side q (sum qs)) refl,
      )
    ]

rest_of : (t p f : ℤ) → p +ℤ f ≡ t → t -ℤ p ≡ f
rest_of t p f h = omega (int_laws, ap pos_part h, ap neg_part h)

module _ (fl : Floats) (share : ℤ → ℤ → ℤ → ℤ) where
  -- What a fill of `filled` shares returned: tuples whose shares add up to the fill's, on the side
  -- of the order, and the ledger `s`, which drops the order with its final fill and otherwise
  -- remembers `n` parts that add up to `total`.
  abbrev pub Allocates :
      Option (List Allocation × FillLedger fl.Float)
      → FillLedger fl.Float
      → String
      → Side
      → ℤ
      → Bool
      → ℕ
      → ℤ
      → Type 0
  Allocates served s order_id side filled is_final n total =
      (result : List Allocation) × (cum : List ℤ) × (served
        ≡ some (result, if is_final then forget order_id s else remember order_id cum s))
      × (signed_total result ≡ side_sign side filled)
      × (length cum ≡ n)
      × (sum cum ≡ total)

  weights : List (AlphaContribution fl.Float) → List fl.Float
  weights cs = map (λ c. c.proportion) cs

  length-weights : (cs : List (AlphaContribution fl.Float)) → length (weights cs) ≡ length cs
  unfolding weights
  length-weights [] = refl
  length-weights (c ∷ cs) = ap suc (length-weights cs)

  allocate-steps :
      (r : AttributionRecord fl.Float) (cs : List (AlphaContribution fl.Float)) (order_id : String)
      (filled price fees : ℤ) (is_final : Bool) (s : FillLedger fl.Float) (new qs fs : List ℤ)
      (result : List Allocation)
      → let prev = previous (lookup order_id s.cumulative_allocations) cs in
        largest_remainder_split fl (sum prev +ℤ filled) (map (λ c. c.proportion) cs) ≡ some new
        → differences new prev ≡ some qs
        → split_fees share fees qs ≡ some fs
        → tuples r price cs qs fs ≡ some result
        → allocate fl share r cs order_id filled price fees is_final s
          ≡ some (result, if is_final then forget order_id s else remember order_id new s)
  unfolding allocate
  allocate-steps r cs order_id filled price fees is_final s new qs fs result split less paid made =
      rw (allocate, split, less, paid, made) refl

  allocate-Allocates :
      (r : AttributionRecord fl.Float) (order_id : String) (filled price fees : ℤ) (is_final : Bool)
      (s : FillLedger fl.Float) (c : AlphaContribution fl.Float)
      (cs : List (AlphaContribution fl.Float)) (total : ℕ)
      → WithNet (c ∷ cs)
      → let prev = previous (lookup order_id s.cumulative_allocations) (c ∷ cs) in
        length prev ≡ suc (length cs)
        → sum prev +ℤ filled ≡ pos total
        → (fl.less_eq (weight_of fl (map (λ c. c.proportion) (c ∷ cs))) (fl.of_int (pos 0)) ≡ false
            → Close fl (pos total) (map (λ c. c.proportion) (c ∷ cs)))
        → Allocates
            (allocate fl share r (c ∷ cs) order_id filled price fees is_final s)
            s
            order_id
            r.net_side
            filled
            is_final
            (suc (length cs))
            (pos total)
  unfolding weights
  allocate-Allocates r order_id filled price fees is_final s c cs total net size now close =
      let prev = previous (lookup order_id s.cumulative_allocations) (c ∷ cs) in
      let (new, split, new_size, new_total) =
        largest_remainder_split-Splits fl total c.proportion (weights cs) close in
      let (qs, less, qs_size, qs_total) =
        differences-Splits new prev (new_size ∙ ap suc (length-weights cs) ∙ sym size) in
      let (fs, paid, fs_size, fs_total) = split_fees-Splits share fees qs in
      let (result, made, made_total) =
        tuples-total r price (c ∷ cs) qs fs (qs_size ∙ size) (fs_size ∙ qs_size ∙ size) net in
      (
        result,
        new,
        allocate-steps r (c ∷ cs) order_id filled price fees is_final s new qs fs result
            (ap (λ t. largest_remainder_split fl t (weights (c ∷ cs))) now ∙ split) less paid made,
        made_total
            ∙ ap (side_sign r.net_side)
                (qs_total ∙ rw new_total (rest_of (pos total) (sum prev) filled now)),
        new_size ∙ ap suc (length-weights cs),
        new_total,
      )

  -- A fill of an order on record, whose contributions are all on the order's side, is allocated
  -- without an exception to tuples whose shares add up to the fill's, on the order's side, after
  -- any earlier partial fills; a final fill drops the order, and any other leaves a cumulative
  -- allocation with a part for each contribution, which adds up to all the shares filled so far.
  -- The earlier allocation, if any, has a part for each contribution, and, where the proportions
  -- are not all zero, the whole parts of the exact shares of the total are never above it and at
  -- most one unit for each weight below it.
  pub allocate_fill-Allocates :
      (s : FillLedger fl.Float) (order_id : String) (filled price fees : ℤ) (is_final : Bool)
      (r : AttributionRecord fl.Float) (c : AlphaContribution fl.Float)
      (cs : List (AlphaContribution fl.Float)) (total : ℕ)
      → lookup order_id s.records ≡ some r
      → r.contributions ≡ c ∷ cs
      → WithNet (c ∷ cs)
      → let prev = previous (lookup order_id s.cumulative_allocations) (c ∷ cs) in
        length prev ≡ suc (length cs)
        → sum prev +ℤ filled ≡ pos total
        → (fl.less_eq (weight_of fl (map (λ c. c.proportion) (c ∷ cs))) (fl.of_int (pos 0)) ≡ false
            → Close fl (pos total) (map (λ c. c.proportion) (c ∷ cs)))
        → Allocates
            (allocate_fill fl share s order_id filled price fees is_final)
            s
            order_id
            r.net_side
            filled
            is_final
            (suc (length cs))
            (pos total)
  unfolding allocate_fill
  allocate_fill-Allocates s order_id filled price fees is_final r c cs total found e net size now
        close =
      rw (found, e)
        (allocate-Allocates r order_id filled price fees is_final s c cs total net size now close)
