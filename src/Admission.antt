-- ===== src/Admission.antt =====
-- src/feelies/core/order_admission.py: the change of exposure that an order brings, and the
-- reasons for which an order is not admitted.
use feelies.Kit.{
  String, Bool, true, false, ◌||◌, Option, none, some, List, [], ◌∷◌, Result, ok, err,
  if◌then◌else◌,
}
use feelies.Kit.Int.{ℤ, pos, ◌+ℤ◌, ◌*ℤ◌, negℤ, is_pos, is_neg, ltb_ℤ, abs, minℤ}
use feelies.Market.{Side, buy, sell}
use feelies.Intent.{
  TradingIntent, entry_long, entry_short, exit, reverse_long_to_short, reverse_short_to_long,
  scale_up, no_action, OrderIntent,
}
use feelies.Halts.{Verdict}
pub mod Exposure

pub record ExposureDelta : Type 0 where
  pub current_quantity : ℤ
  pub signed_quantity : ℤ

abbrev pub post_quantity : ExposureDelta → ℤ
post_quantity d = d.current_quantity +ℤ d.signed_quantity

unfoldable pub opens_or_increases_exposure : ExposureDelta → Bool
opens_or_increases_exposure d =
    let post = post_quantity d in
    if is_neg (d.current_quantity *ℤ post) then true else ltb_ℤ (abs d.current_quantity) (abs post)

unfoldable pub opens_or_increases_short : ExposureDelta → Bool
opens_or_increases_short d = ltb_ℤ (post_quantity d) (minℤ d.current_quantity (pos 0))

-- `ValueError(f"Cannot determine Side for intent {kind!r}. …")`
pub data NoSide : Type 0 where
  no_side : TradingIntent → NoSide

abbrev pub side_of : TradingIntent → ℤ → Result NoSide Side
side_of entry_long current = ok buy
side_of reverse_short_to_long current = ok buy
side_of entry_short current = ok sell
side_of reverse_long_to_short current = ok sell
side_of exit current = ok (if is_pos current then sell else buy)
side_of scale_up current = ok (if is_neg current then sell else buy)
side_of no_action current = err (no_side no_action)

abbrev pub signed : Side → ℤ → ℤ
signed buy quantity = quantity
signed sell quantity = negℤ quantity

module _ {R : Type 0} where
  unfoldable pub side_for_intent : OrderIntent R → Result NoSide Side
  side_for_intent i = side_of i.intent i.current_quantity

  abbrev with_side : OrderIntent R → Result NoSide Side → Result NoSide ExposureDelta
  with_side i (err e) = err e
  with_side i (ok side) = ok (record {
    current_quantity = i.current_quantity;
    signed_quantity = signed side i.target_quantity;
  })

  unfoldable pub exposure_delta_from_intent : OrderIntent R → Result NoSide ExposureDelta
  unfolding side_for_intent
  exposure_delta_from_intent i = with_side i (side_for_intent i)

unfoldable pub blocks_for_min_size : ℤ → ℤ → Bool → Bool
blocks_for_min_size quantity min_order_shares exempt =
    if exempt then false else ltb_ℤ quantity min_order_shares

-- The conditions of `admission_block_reason`.
pub record Conditions : Type 0 where
  pub opens_exposure : Bool
  pub opens_short : Bool
  pub in_halt_blackout : Bool
  pub in_session_flatten_window : Bool
  pub ssr_active : Bool
  pub locate_unavailable : Bool
  pub quantity : Option ℤ
  pub min_order_shares : ℤ
  pub exempt_from_min_size : Bool

abbrev verdict : String → String → String → Verdict
verdict gate_id outcome detail = record { gate_id = gate_id; outcome = outcome; detail = detail }

abbrev exposure_reason : Conditions → Option String
exposure_reason c =
    if c.in_halt_blackout
    then some "halt_resolution_blackout"
    else if c.in_session_flatten_window
    then some "session_flatten_window"
    else none

abbrev short_reason : Conditions → Option String
short_reason c =
    if c.ssr_active
    then some "ssr_suppressed"
    else if c.locate_unavailable
    then some "locate_unavailable"
    else none

abbrev session_reason : Conditions → Option String
session_reason c =
    let by_short = if c.opens_short then short_reason c else none in
    let by_exposure = if c.opens_exposure then exposure_reason c else none in
    elim by_exposure [ some reason ↦ some reason | none ↦ by_short ]

abbrev below_min : Option ℤ → Conditions → Bool
below_min none c = false
below_min (some quantity) c = blocks_for_min_size quantity c.min_order_shares c.exempt_from_min_size

abbrev passed : Option ℤ → List Verdict
passed none = verdict "RT.SESSION_ADMISSION" "PASS" "" ∷ []
passed (some quantity) =
    verdict "RT.SESSION_ADMISSION" "PASS" "" ∷ verdict "RT.MIN_SIZE" "PASS" "" ∷ []

abbrev after_session : Conditions → Option String → List Verdict × Option String
after_session c (some reason) = (verdict "RT.SESSION_ADMISSION" "FAIL" reason ∷ [], some reason)
after_session c none =
    if below_min c.quantity c
    then (
      verdict "RT.MIN_SIZE" "FAIL" "quantity_below_platform_min_order_shares" ∷ [],
      some "quantity_below_platform_min_order_shares",
    )
    else (passed c.quantity, none)

-- The verdicts that are recorded, and the reason for the block.
unfoldable pub admission_block_reason : Conditions → List Verdict × Option String
unfolding blocks_for_min_size
admission_block_reason c = after_session c (session_reason c)
