-- ===== src/Plan.antt =====
-- src/feelies/core/position_manager.py: plans, and their projection onto an `OrderIntent`.
-- `R` is the type of floats; a plan carries them and never computes with them here.
use feelies.Kit.{String, Bool, Option, List, [], ◌∷◌, Result, ok, err, if◌then◌else◌}
use feelies.Kit.Int.{ℤ, pos, negsuc, ◌+ℤ◌, negℤ, is_pos, is_neg}
use feelies.Kit.Floats.{Floats}
use feelies.Kit.Dict.{Dict}
use feelies.Market.{Side, buy, sell, SignalDirection, long, short, flat, Signal, Position}
use feelies.Intent.{
  TradingIntent, OrderIntent, ValueError, negative_target, or_default, order_intent,
}

pub data PlanLeg : Type 0 where
  no_action entry scale_up trim exit reverse_exit reverse_entry : PlanLeg

pub data ExecStyle : Type 0 where
  passive market : ExecStyle

pub record DesiredPosition (R : Type 0) : Type 0 where
  pub symbol : String
  pub target_qty : ℤ
  pub direction : ℤ
  pub edge_bps : R
  pub urgency : R
  pub source : String
  pub reason : String

pub record PlannedOrder (R : Type 0) : Type 0 where
  pub symbol : String
  pub side : Side
  pub quantity : ℤ
  pub style : ExecStyle
  pub leg : PlanLeg
  pub is_short : Bool
  pub rationale : Dict String R

pub record SuppressedLeg (R : Type 0) : Type 0 where
  pub leg : PlanLeg
  pub reason : String
  pub constraints : Dict String R

pub record PositionPlan (R : Type 0) : Type 0 where
  pub orders : List (PlannedOrder R)
  pub suppressed : List (SuppressedLeg R)

module _ {R : Type 0} where
  abbrev pub leading : List (PlannedOrder R) → PlanLeg
  leading [] = PlanLeg.no_action
  leading (o ∷ rest) = o.leg

  abbrev pub sum_quantity : List (PlannedOrder R) → ℤ
  sum_quantity [] = pos 0
  sum_quantity (o ∷ rest) = o.quantity +ℤ sum_quantity rest

  abbrev pub primary_leg : PositionPlan R → PlanLeg
  primary_leg plan = leading plan.orders

  abbrev pub total_quantity : PositionPlan R → ℤ
  total_quantity plan = sum_quantity plan.orders

-- `(target_signed, direction)`
abbrev pub signed : SignalDirection → ℤ → ℤ × ℤ
signed long tgt = (tgt, pos 1)
signed short tgt = (negℤ tgt, negsuc 0)
signed flat tgt = (pos 0, pos 0)

-- The urgency is the field's default, 0.5.
unfoldable pub desired_from_signal :
    (fl : Floats) → Signal fl.Float → Option ℤ → ℤ → Result ValueError (DesiredPosition fl.Float)
desired_from_signal fl signal target_qty default =
    let tgt = or_default target_qty default in
    let (target_signed, direction) = signed signal.direction tgt in
    if is_neg tgt
    then err (negative_target tgt)
    else ok (record {
      symbol = signal.symbol;
      target_qty = target_signed;
      direction = direction;
      edge_bps = signal.edge_estimate_bps;
      urgency = fl.literal 5 1;
      source = signal.strategy_id;
      reason = "signal";
    })

-- A flip is named after the current side.
abbrev pub reverse_intent : ℤ → TradingIntent
reverse_intent cur =
    if is_pos cur then TradingIntent.reverse_long_to_short else TradingIntent.reverse_short_to_long

-- A directional signal that sized to zero keeps the reversal's name.
abbrev pub exit_intent : SignalDirection → ℤ → TradingIntent
exit_intent flat cur = TradingIntent.exit
exit_intent long cur = reverse_intent cur
exit_intent short cur = reverse_intent cur

abbrev pub entry_intent : Side → TradingIntent
entry_intent buy = TradingIntent.entry_long
entry_intent sell = TradingIntent.entry_short

unfoldable pub intent_of_leg : PlanLeg → Side → SignalDirection → ℤ → TradingIntent
intent_of_leg PlanLeg.reverse_exit side direction cur = reverse_intent cur
intent_of_leg PlanLeg.reverse_entry side direction cur = reverse_intent cur
intent_of_leg PlanLeg.exit side direction cur = exit_intent direction cur
intent_of_leg PlanLeg.scale_up side direction cur = TradingIntent.scale_up
intent_of_leg PlanLeg.entry side direction cur = entry_intent side
intent_of_leg PlanLeg.trim side direction cur = TradingIntent.exit
intent_of_leg PlanLeg.no_action side direction cur = TradingIntent.no_action

-- `_oi(NO_ACTION, 0)` where the leg is NO_ACTION.
unfoldable pub target_of_leg : PlanLeg → ℤ → ℤ
target_of_leg PlanLeg.no_action total = pos 0
target_of_leg _ total = total

module _ {R : Type 0} where
  unfoldable pub project : List (PlannedOrder R) → Signal R → ℤ → OrderIntent R
  project [] signal cur = order_intent signal cur TradingIntent.no_action (pos 0)
  project (o ∷ rest) signal cur =
      order_intent signal cur (intent_of_leg o.leg o.side signal.direction cur)
        (target_of_leg o.leg (sum_quantity (o ∷ rest)))

  unfoldable pub order_intent_from_plan : PositionPlan R → Signal R → Position → OrderIntent R
  unfolding project intent_of_leg target_of_leg
  order_intent_from_plan plan signal current = project plan.orders signal current.quantity
