-- ===== src/Costs/Policy.antt =====
-- src/feelies/core/min_cost_policy.py: the choice between a passive and an aggressive order.
use feelies.Kit.{String, Bool, true, false, not, ◌&&◌, ◌||◌, Option, some, if◌then◌else◌}
use feelies.Kit.Int.{ℤ, is_pos, ltb_ℤ}
use feelies.Kit.Floats.{Floats}
use feelies.Market.{Side}
use feelies.Costs.{Decimals, CostModel, is_sale, side_size, estimate_aggressive_taker_cost_bps}

pub record MinCostPolicyConfig (D : Type 0) : Type 0 where
  pub prefer_passive_bias_bps : D
  pub small_order_aggressive_threshold_shares : ℤ
  pub min_half_spread_for_passive : D
  pub allow_passive_short_entry : Bool
  pub market_impact_factor : D
  pub max_impact_half_spreads : D
  pub within_l1_impact_factor : D
  pub permanent_impact_coefficient : D
  pub passive_non_fill_probability : D

pub data OrderStyle : Type 0 where
  passive aggressive : OrderStyle

-- `of_float` is `Decimal(str(x))`.
module _ {fl : Floats} (ds : Decimals fl) (of_float : fl.Float → ds.dec.Float) where
  open ds use {dec}
  open dec use {Float as D, literal, plus, minus, times, less}

  -- The four conditions under which the costs are not compared.
  abbrev is_forced : MinCostPolicyConfig D → Side → ℤ → D → Bool → Bool → Bool
  is_forced cfg side quantity half_spread is_short force_aggressive =
      force_aggressive
      || (not (is_pos quantity)
          || (is_pos cfg.small_order_aggressive_threshold_shares
                && ltb_ℤ quantity cfg.small_order_aggressive_threshold_shares
              || (less (literal 0 0) cfg.min_half_spread_for_passive
                    && less half_spread cfg.min_half_spread_for_passive
                  || is_short && (is_sale side && not cfg.allow_passive_short_entry))))

  module _ (model : CostModel D) (cfg : MinCostPolicyConfig D) where
    abbrev raw_cost : String → Side → ℤ → D → D → Bool → Bool → D
    raw_cost symbol side quantity mid half_spread taker is_short =
        (model.compute symbol side quantity mid half_spread taker is_short false).raw_cost_bps

    -- The cost of crossing the spread, by the depth where it is known.
    abbrev aggressive_cost : String → Side → ℤ → D → D → Bool → Option ℤ → Option ℤ → D
    unfolding estimate_aggressive_taker_cost_bps
    aggressive_cost symbol side quantity mid half_spread is_short (some bid) (some ask) = of_float (
        estimate_aggressive_taker_cost_bps ds model symbol side quantity mid half_spread
          (side_size side bid ask) cfg.market_impact_factor cfg.max_impact_half_spreads
          cfg.within_l1_impact_factor cfg.permanent_impact_coefficient is_short)
    aggressive_cost symbol side quantity mid half_spread is_short _ _ =
        raw_cost symbol side quantity mid half_spread true is_short

    -- `decide`, with the sizes of the bid and the ask.
    unfoldable pub decide :
        String → Side → ℤ → D → D → Bool → Bool → Option ℤ → Option ℤ → fl.Float → OrderStyle
    unfolding aggressive_cost
    decide symbol side quantity mid half_spread is_short force_aggressive bid ask edge =
        let passive_raw = raw_cost symbol side quantity mid (literal 0 0) false is_short in
        let opportunity = times cfg.passive_non_fill_probability (of_float edge) in
        let passive_cost = plus (minus passive_raw cfg.prefer_passive_bias_bps) opportunity in
        let crossing = aggressive_cost symbol side quantity mid half_spread is_short bid ask in
        if is_forced cfg side quantity half_spread is_short force_aggressive
        then aggressive
        else if less passive_cost crossing
        then passive
        else aggressive
