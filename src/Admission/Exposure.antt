-- ===== src/Admission/Exposure.antt =====
-- The exposure of the orders that src/feelies/core/intent.py makes, as
-- src/feelies/core/order_admission.py reads it.
use feelies.Kit.{
  ℕ, ◌<◌, ◌⊎◌, zero, suc, ◌*◌, ◌≡◌, ap, ◌∙◌, Bool, true, false, not, ◌&&◌, ◌||◌, Option, none, ok,
  arith, Bool-cases, inl, inr,
}
use feelies.Kit.Int.{
  ℤ, pos, negsuc, ◌-ℤ◌, ◌+ℤ◌, ◌*ℤ◌, negℤ, abs, is_pos, is_neg, is_zero, minℤ, ltb_ℤ,
}
use feelies.Market.{Signal, Position, SignalDirection, long, short, flat}
use feelies.Intent.{
  OrderIntent, translate, handle_long, handle_short, handle_flat, by_direction, or_default,
}
use feelies.Admission.{
  ExposureDelta, opens_or_increases_exposure, opens_or_increases_short, post_quantity,
  exposure_delta_from_intent, Conditions, admission_block_reason,
}

product_pos : (a b : ℕ) → 0 < suc a * suc b
product_pos a b = omega arith

is_neg-*ℤ : (a b : ℤ) → is_neg (a *ℤ b) ≡ (is_pos a && is_neg b) || (is_neg a && is_pos b)
unfolding ◌*ℤ◌
is_neg-*ℤ (pos zero) (pos b) = ground arith
is_neg-*ℤ (pos zero) (negsuc b) = ground arith
is_neg-*ℤ (pos (suc a)) (pos b) = ground arith
is_neg-*ℤ (pos (suc a)) (negsuc b) = ground (arith, product_pos a b)
is_neg-*ℤ (negsuc a) (pos zero) = ground arith
is_neg-*ℤ (negsuc a) (pos (suc b)) = ground (arith, product_pos a b)
is_neg-*ℤ (negsuc a) (negsuc b) = ground arith

-- An order from `c` to `p` adds exposure: to the other side, or further on the same one.
abbrev pub grows : ℤ → ℤ → Bool
grows c p = ((is_pos c && is_neg p) || (is_neg c && is_pos p)) || ltb_ℤ (abs c) (abs p)

opens-grows :
    (d : ExposureDelta) → opens_or_increases_exposure d ≡ grows d.current_quantity (post_quantity d)
unfolding opens_or_increases_exposure
opens-grows d = ground (arith, is_neg-*ℤ d.current_quantity (post_quantity d))

-- A position that is flat, or further up than `c` and long, or further down and short.
abbrev Away : ℤ → ℤ → Type 0
Away c p =
    (p ≡ pos 0) ⊎ (is_pos p ≡ true) × (ltb_ℤ c p ≡ true) ⊎ (is_neg p ≡ true) × (ltb_ℤ p c ≡ true)

Away-grows : (c p : ℤ) → Away c p → grows c p ≡ not (is_zero p)
Away-grows c p h = ground arith

Away-short : (c p : ℤ) → Away c p → ltb_ℤ p (minℤ c (pos 0)) ≡ is_neg p
Away-short c p h = ground arith

flat_not_neg : (q : ℤ) → is_zero q ≡ true → is_neg q ≡ false
flat_not_neg q h = ground arith

admitted :
    (c : Conditions)
    → c.opens_exposure ≡ false
    → c.opens_short ≡ false
    → c.exempt_from_min_size ≡ true
    → (admission_block_reason c).1 ≡ none
unfolding admission_block_reason
admitted c exposure shorts exempt = ground arith

module _ {R : Type 0} (signal : Signal R) where
  flat-Away :
      (qty tgt : ℤ) (d : ExposureDelta)
      → exposure_delta_from_intent (handle_flat signal qty tgt) ≡ ok d
      → Away d.current_quantity (post_quantity d)
  unfolding exposure_delta_from_intent handle_flat negℤ ◌+ℤ◌
  flat-Away (pos zero) tgt d h = ground arith
  flat-Away (pos (suc n)) tgt d h = ground arith
  flat-Away (negsuc n) tgt d h = ground arith

  long-Away :
      (qty : ℤ) (tgt : ℕ) (d : ExposureDelta)
      → exposure_delta_from_intent (handle_long signal qty (pos tgt)) ≡ ok d
      → Away d.current_quantity (post_quantity d)
  unfolding exposure_delta_from_intent handle_long negℤ ◌+ℤ◌ ◌-ℤ◌
  long-Away (pos zero) tgt d h = ground arith
  long-Away (pos (suc n)) tgt d h = ground arith
  long-Away (negsuc n) tgt d h = ground arith

  short-Away :
      (qty : ℤ) (tgt : ℕ) (d : ExposureDelta)
      → exposure_delta_from_intent (handle_short signal qty (pos tgt)) ≡ ok d
      → Away d.current_quantity (post_quantity d)
  unfolding exposure_delta_from_intent handle_short negℤ ◌+ℤ◌ ◌-ℤ◌
  short-Away (pos zero) tgt d h = ground arith
  short-Away (pos (suc n)) tgt d h = ground arith
  short-Away (negsuc n) tgt d h = ground arith

  direction-Away :
      (direction : SignalDirection) (qty tgt : ℤ) (d : ExposureDelta)
      → is_neg tgt ≡ false
      → exposure_delta_from_intent (by_direction direction signal qty tgt) ≡ ok d
      → Away d.current_quantity (post_quantity d)
  unfolding by_direction
  direction-Away flat qty tgt d p h = flat-Away qty tgt d h
  direction-Away long qty (pos tgt) d p h = long-Away qty tgt d h
  direction-Away long qty (negsuc tgt) d p h = cc
  direction-Away short qty (pos tgt) d p h = short-Away qty tgt d h
  direction-Away short qty (negsuc tgt) d p h = cc

  translate-Away :
      (default_target : ℤ) (position : Position) (target_quantity : Option ℤ) {i : OrderIntent R}
      (d : ExposureDelta)
      → translate default_target signal position target_quantity ≡ ok i
      → exposure_delta_from_intent i ≡ ok d
      → Away d.current_quantity (post_quantity d)
  unfolding translate
  translate-Away default_target position target_quantity {i = i} d made delta =
      let tgt = or_default target_quantity default_target in
      elim (Bool-cases (is_neg tgt)) [
        | inl negative ↦ cc
        | inr fine ↦ direction-Away signal.direction position.quantity tgt d fine cc
      ]

  -- An order made from a signal adds exposure exactly if the position it leaves is not flat, and
  -- adds to a short exactly if that position is short: the translator never asks for a partial
  -- reduction.
  pub translate-exposure :
      (default_target : ℤ) (position : Position) (target_quantity : Option ℤ) {i : OrderIntent R}
      (d : ExposureDelta)
      → translate default_target signal position target_quantity ≡ ok i
      → exposure_delta_from_intent i ≡ ok d
      → (opens_or_increases_exposure d ≡ not (is_zero (post_quantity d)))
        × (opens_or_increases_short d ≡ is_neg (post_quantity d))
  unfolding opens_or_increases_short
  translate-exposure default_target position target_quantity d made delta =
      let away = translate-Away default_target position target_quantity d made delta in
      (
        opens-grows d ∙ Away-grows d.current_quantity (post_quantity d) away,
        Away-short d.current_quantity (post_quantity d) away,
      )

  -- Where the signal's order leaves the position flat and is exempt from the minimal size, no
  -- halt, session window, short-sale restriction or missing locate blocks it.
  pub flattening-admitted :
      (default_target : ℤ) (position : Position) (target_quantity : Option ℤ) {i : OrderIntent R}
      (d : ExposureDelta) (conditions : Conditions)
      → translate default_target signal position target_quantity ≡ ok i
      → exposure_delta_from_intent i ≡ ok d
      → is_zero (post_quantity d) ≡ true
      → conditions.opens_exposure ≡ opens_or_increases_exposure d
      → conditions.opens_short ≡ opens_or_increases_short d
      → conditions.exempt_from_min_size ≡ true
      → (admission_block_reason conditions).1 ≡ none
  unfolding admission_block_reason
  flattening-admitted default_target position target_quantity d conditions made delta zero_post
        opens shorter exempt =
      let (exposure, shorts) =
        translate-exposure default_target position target_quantity d made delta in
      admitted conditions (opens ∙ exposure ∙ ap not zero_post)
        (shorter ∙ shorts ∙ flat_not_neg (post_quantity d) zero_post) exempt
