-- ===== src/Planner.antt =====
-- src/feelies/execution/position_manager.py: `LegacyPositionManager`, and the comparison of a plan
-- with the translator's intent. `_additive` and `_reverse_plan` are helpers of the planner.
pub mod Agreement
pub mod Compare
pub mod Shadow
pub mod Reaches
pub mod Target
use feelies.Kit.{
  ℕ, String, Bool, true, false, not, ◌&&◌, ◌||◌, Option, none, some, List, [], ◌∷◌, if◌then◌else◌,
}
use feelies.Kit.Int.{ℤ, pos, negsuc, ◌+ℤ◌, ◌-ℤ◌, negℤ, is_pos, is_neg, is_zero, abs, maxℤ, minℤ}
use feelies.Market.{Side, buy, sell, Position}
use feelies.Plan.{PlanLeg, ExecStyle, passive, market, DesiredPosition, PlannedOrder, PositionPlan}

-- `ADDITIVE_LEGS` and `REDUCING_LEGS`
abbrev pub is_additive : PlanLeg → Bool
is_additive PlanLeg.entry = true
is_additive PlanLeg.scale_up = true
is_additive PlanLeg.reverse_entry = true
is_additive _ = false

abbrev pub is_reducing : PlanLeg → Bool
is_reducing PlanLeg.trim = true
is_reducing PlanLeg.exit = true
is_reducing PlanLeg.reverse_exit = true
is_reducing _ = false

-- `(x > 0) - (x < 0)`
abbrev pub sign : ℤ → ℤ
sign (pos ℕ.zero) = pos 0
sign (pos (ℕ.suc n)) = pos 1
sign (negsuc n) = negsuc 0

-- `desired.direction or _sign(desired.target_qty)`
abbrev pub wanted_direction : ℤ → ℤ → ℤ
wanted_direction direction target = if is_zero direction then sign target else direction

abbrev differ : Bool → Bool → Bool
differ true b = not b
differ false b = b

abbrev same_side : Side → Side
same_side buy = buy
same_side sell = sell

-- The position that the plan aims at: a directional target cannot reduce a position on its side.
abbrev pub effective : ℤ → ℤ → ℤ → ℤ
effective d cur mag =
    if is_pos d then maxℤ cur mag else if is_neg d then minℤ cur (negℤ mag) else pos 0

module _ {R : Type 0} where
  abbrev no_plan : PositionPlan R
  no_plan = record { orders = []; suppressed = [] }

  abbrev pub one : PlannedOrder R → PositionPlan R
  one o = record { orders = o ∷ []; suppressed = [] }

  additive : String → Side → ℤ → PlanLeg → Bool → PlannedOrder R
  additive sym side qty leg is_short = record {
    symbol = sym;
    side = side;
    quantity = qty;
    style = passive;
    leg = leg;
    is_short = is_short;
    rationale = [];
  }

  -- An aggressive order; `is_short` and `rationale` are at their defaults.
  abbrev aggressive : String → Side → ℤ → PlanLeg → PlannedOrder R
  aggressive sym side qty leg = record {
    symbol = sym;
    side = side;
    quantity = qty;
    style = market;
    leg = leg;
    is_short = false;
    rationale = [];
  }

  reverse_plan : String → ℤ → ℤ → Side → Bool → PositionPlan R
  unfolding additive
  reverse_plan sym exit_qty entry_qty entry_side is_short = record {
    orders =
        aggressive sym (same_side entry_side) exit_qty PlanLeg.reverse_exit
        ∷ additive sym entry_side entry_qty PlanLeg.reverse_entry is_short
        ∷ [];
    suppressed = [];
  }

  plan_to : String → ℤ → ℤ → PositionPlan R
  unfolding additive reverse_plan
  plan_to sym cur eff =
      let delta = eff -ℤ cur in
      if is_zero delta
      then no_plan
      else if not (is_zero cur) && (not (is_zero eff) && differ (is_pos cur) (is_pos eff))
      then reverse_plan sym (abs cur) (abs eff) (if is_pos eff then buy else sell) (is_neg eff)
      else if is_zero eff
      then one (aggressive sym (if is_pos cur then sell else buy) (abs cur) PlanLeg.exit)
      else one (
          additive sym (if is_pos delta then buy else sell) (abs delta)
            (if is_zero cur then PlanLeg.entry else PlanLeg.scale_up) (is_neg eff))

  -- `LegacyPositionManager.plan`, which reads neither the market nor the configuration.
  unfoldable pub legacy_plan : DesiredPosition R → Position → PositionPlan R
  unfolding plan_to
  legacy_plan desired current = plan_to desired.symbol current.quantity (
      effective (wanted_direction desired.direction desired.target_qty) current.quantity
        (abs desired.target_qty))
