-- ===== src/Costs.antt =====
-- src/feelies/core/cost_model.py: the estimates of an order's cost. `Decimal`s are an interface
-- with the operations that the code uses, as floats are. The cost model itself is behind a
-- protocol, so `compute` is a function of the model.
pub mod Policy
use feelies.Kit.{String, Bool, true, false, ◌&&◌, ◌||◌, Option, none, some, not, if◌then◌else◌}
use feelies.Kit.Int.{ℤ, ◌-ℤ◌, is_pos, leb_ℤ}
use feelies.Kit.Floats.{Floats}
use feelies.Market.{Side, buy, sell}

pub record Decimals (fl : Floats) : Type 1 where
  pub dec : Floats
  pub sqrt : dec.Float → dec.Float
  pub to_float : dec.Float → fl.Float
  -- `float("inf")`
  pub infinity : fl.Float

pub record CostBreakdown (D : Type 0) : Type 0 where
  pub spread_cost : D
  pub commission : D
  pub total_fees : D
  pub cost_bps : D
  pub notional : D
  pub raw_cost_bps : D

-- `compute` for a symbol, side, quantity, price and half spread, then `is_taker`, `is_short` and
-- whether the fill is through the level, which decides `fill_type` and `is_through_fill`.
pub record CostModel (D : Type 0) : Type 0 where
  pub compute : String → Side → ℤ → D → D → Bool → Bool → Bool → CostBreakdown D

-- The settings of the impact of an order on the market.
pub record Impact (D : Type 0) : Type 0 where
  pub market_impact_factor : Option D
  pub max_impact_half_spreads : Option D
  pub within_l1_impact_factor : D
  pub permanent_impact_coefficient : D

abbrev pub opposite : Side → Side
opposite buy = sell
opposite sell = buy

abbrev pub is_sale : Side → Bool
is_sale buy = false
is_sale sell = true

-- `ask_size if side == Side.BUY else bid_size`
abbrev pub side_size : Side → ℤ → ℤ → ℤ
side_size buy bid_size ask_size = ask_size
side_size sell bid_size ask_size = bid_size

module _ {fl : Floats} (ds : Decimals fl) where
  open ds use {dec, sqrt, to_float, infinity}
  open dec use {Float as D, literal, of_int, plus, minus, times, over, less, less_eq}

  abbrev pub zero_d : D
  zero_d = literal 0 0

  abbrev min_d : D → D → D
  min_d a b = if less b a then b else a

  unfoldable pub within_l1_premium : ℤ → ℤ → D → D → D → D
  within_l1_premium quantity depth half_spread within permanent =
      let participation = over (of_int quantity) (of_int depth) in
      let capped = if less participation (literal 1 0) then participation else literal 1 0 in
      if not (is_pos depth) || not (is_pos quantity)
      then zero_d
      else if less_eq within zero_d && less_eq permanent zero_d
      then zero_d
      else plus (times (times within capped) half_spread)
          (times (times permanent (sqrt participation)) half_spread)

  abbrev bps_of : D → D → fl.Float
  bps_of fees notional =
      if less_eq notional zero_d
      then fl.literal 0 0
      else to_float (times (over fees notional) (literal 10000 0))

  module _ (model : CostModel D) where
    abbrev fees_of : String → Side → ℤ → D → D → Bool → D
    fees_of symbol side quantity mid half_spread is_short =
        (model.compute symbol side quantity mid half_spread true is_short false).total_fees

    -- An order that the displayed size covers.
    abbrev covered : String → Side → ℤ → D → D → D → Bool → fl.Float
    covered symbol side quantity mid half_spread premium is_short =
        let breakdown = model.compute symbol side quantity mid half_spread true is_short false in
        let notional = times mid (of_int quantity) in
        if less_eq premium zero_d
        then to_float breakdown.raw_cost_bps
        else bps_of (plus breakdown.total_fees (times premium (of_int quantity))) notional

    -- An order beyond the displayed size, which walks the book.
    abbrev walked : String → Side → ℤ → D → D → ℤ → D → D → D → Bool → fl.Float
    walked symbol side quantity mid half_spread depth factor cap premium is_short =
        let excess = quantity -ℤ depth in
        let raw = times (over (times factor (of_int excess)) (of_int depth)) half_spread in
        let impact = min_d raw (times cap half_spread) in
        let partial_fees = fees_of symbol side depth mid half_spread is_short in
        let excess_fees = fees_of symbol side excess mid half_spread is_short in
        bps_of
          (plus (plus (plus partial_fees excess_fees) (times impact (of_int excess)))
            (times premium (of_int quantity)))
          (times mid (of_int quantity))

    unfoldable pub estimate_aggressive_taker_cost_bps :
        String → Side → ℤ → D → D → ℤ → D → D → D → D → Bool → fl.Float
    unfolding within_l1_premium
    estimate_aggressive_taker_cost_bps symbol side quantity mid half_spread depth factor cap within
          permanent is_short =
        let premium = within_l1_premium quantity depth half_spread within permanent in
        if not (is_pos quantity) || not (is_pos depth)
        then infinity
        else if leb_ℤ quantity depth
        then covered symbol side quantity mid half_spread premium is_short
        else walked symbol side quantity mid half_spread depth factor cap premium is_short

    -- `_leg_bps` where the depth is not used.
    abbrev plain_leg : String → ℤ → D → D → Side → Bool → Bool → Bool → fl.Float
    plain_leg symbol quantity mid half_spread side taker short through =
        to_float (model.compute symbol side quantity mid half_spread taker short through).cost_bps

    -- `_leg_bps` for a taker, whose cost follows the depth where all of its settings are known.
    abbrev taker_leg :
        String
        → ℤ
        → D
        → D
        → Impact D
        → Option ℤ
        → Option ℤ
        → Option D
        → Option D
        → Side
        → Bool
        → Bool
        → fl.Float
    taker_leg symbol quantity mid half_spread impact (some bid) (some ask) (some factor) (some cap)
          side short through =
        estimate_aggressive_taker_cost_bps symbol side quantity mid half_spread
          (side_size side bid ask) factor cap impact.within_l1_impact_factor
          impact.permanent_impact_coefficient short
    taker_leg symbol quantity mid half_spread impact _ _ _ _ side short through =
        plain_leg symbol quantity mid half_spread side true short through

    abbrev leg_bps :
        String → ℤ → D → D → Impact D → Option ℤ → Option ℤ → Side → Bool → Bool → Bool → fl.Float
    leg_bps symbol quantity mid half_spread impact bid ask side taker short through =
        if taker
        then taker_leg symbol quantity mid half_spread impact bid ask impact.market_impact_factor
            impact.max_impact_half_spreads side short through
        else plain_leg symbol quantity mid half_spread side false short through

    abbrev or_same : Option Bool → Bool → Bool
    or_same none taker = taker
    or_same (some exit) taker = exit

    -- The options are the taker flag of the exit and the sizes of the bid and the ask.
    unfoldable pub estimate_round_trip_cost_bps :
        String
        → Side
        → ℤ
        → D
        → D
        → Bool
        → Bool
        → Option Bool
        → Option ℤ
        → Option ℤ
        → Impact D
        → Bool
        → Bool
        → fl.Float
    unfolding estimate_aggressive_taker_cost_bps
    estimate_round_trip_cost_bps symbol side quantity mid half_spread taker short_entry taker_exit
          bid ask impact through_entry through_exit =
        fl.plus
          (leg_bps symbol quantity mid half_spread impact bid ask side taker
            (short_entry && is_sale side) through_entry)
          (leg_bps symbol quantity mid half_spread impact bid ask (opposite side)
            (or_same taker_exit taker) false through_exit)
