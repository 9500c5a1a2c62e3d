-- ===== src/Planner/Shadow.antt =====
-- The shadow comparison never fires for the planner that mirrors the translator
-- (src/feelies/execution/position_manager.py).
use feelies.Kit.{ℕ, zero, suc, String, ◌≡◌, refl, true, false, Option, none, some, arith, ok}
use feelies.Kit.Int.{ℤ, pos, negsuc, ◌+ℤ◌, ◌-ℤ◌, negℤ, is_neg, abs}
use feelies.Market.{SignalDirection, long, short, flat, Signal, Position}
use feelies.Kit.Floats.{Floats}
use feelies.Intent.{TradingIntent, OrderIntent, or_default, translate, by_direction}
use feelies.Plan.{DesiredPosition, PositionPlan, signed, desired_from_signal}
use feelies.Planner.{plan_to, effective, wanted_direction, legacy_plan}
use feelies.Planner.Compare.{
  intent_name, intents, named, norm, agree, children, orders_of, legacy_orders,
  compare_plan_to_intent,
}

named-intent_name : (t : TradingIntent) → named (intent_name t) intents ≡ some t
unfolding named
named-intent_name TradingIntent.entry_long = refl
named-intent_name TradingIntent.entry_short = refl
named-intent_name TradingIntent.exit = refl
named-intent_name TradingIntent.reverse_long_to_short = refl
named-intent_name TradingIntent.reverse_short_to_long = refl
named-intent_name TradingIntent.scale_up = refl
named-intent_name TradingIntent.no_action = refl

legacy_orders-intent_name :
    (t : TradingIntent) (target cur : ℤ)
    → legacy_orders (intent_name t) target cur ≡ some (orders_of t target cur)
unfolding legacy_orders
legacy_orders-intent_name t target cur = rw (named-intent_name t)

-- The orders of the two decisions, on the integers that they read.
agrees :
    {R : Type 0} (d : SignalDirection) (signal : Signal R) (sym : String) (cur tgt : ℤ)
    → is_neg tgt ≡ false
    → let (target, direction) = signed d tgt in
      let intent = by_direction d signal cur tgt in
      agree (some (orders_of intent.intent intent.target_quantity cur)) (
        norm (
          children
            (plan_to {R = R} sym cur
              (effective (wanted_direction direction target) cur (abs target))).orders))
      ≡ true
unfolding norm plan_to by_direction negℤ ◌+ℤ◌ ◌-ℤ◌
agrees d signal sym cur (negsuc m) h = cc
agrees flat signal sym (pos zero) (pos m) h = refl
agrees flat signal sym (pos (suc n)) (pos m) h = ground arith
agrees flat signal sym (negsuc n) (pos m) h = ground arith
agrees long signal sym (pos zero) (pos zero) h = ground arith
agrees long signal sym (pos zero) (pos (suc m)) h = ground arith
agrees long signal sym (pos (suc n)) (pos m) h = ground arith
agrees long signal sym (negsuc n) (pos zero) h = ground arith
agrees long signal sym (negsuc n) (pos (suc m)) h = ground arith
agrees short signal sym (pos zero) (pos zero) h = ground arith
agrees short signal sym (pos zero) (pos (suc m)) h = ground arith
agrees short signal sym (pos (suc n)) (pos zero) h = ground arith
agrees short signal sym (pos (suc n)) (pos (suc m)) h = ground arith
agrees short signal sym (negsuc n) (pos zero) h = ground arith
agrees short signal sym (negsuc n) (pos (suc m)) h = ground arith

no_divergence :
    {R : Type 0} (t : TradingIntent) (target cur : ℤ) (plan : PositionPlan R) (sym : String) (k : ℕ)
    → agree (some (orders_of t target cur)) (norm (children plan.orders)) ≡ true
    → compare_plan_to_intent (intent_name t) target cur plan sym k ≡ none
unfolding compare_plan_to_intent
no_divergence t target cur plan sym k h = rw (legacy_orders-intent_name t target cur) (rw h)

size_ok :
    (fl : Floats) (default : ℤ) (signal : Signal fl.Float) (target : Option ℤ)
    {desired : DesiredPosition fl.Float}
    → desired_from_signal fl signal target default ≡ ok desired
    → let tgt = or_default target default in
      (is_neg tgt ≡ false)
      × (desired.target_qty ≡ (signed signal.direction tgt).0)
      × (desired.direction ≡ (signed signal.direction tgt).1)
unfolding desired_from_signal
size_ok fl default signal target h = ground arith

translated :
    {R : Type 0} (default : ℤ) (signal : Signal R) (position : Position) (target : Option ℤ)
    {intent : OrderIntent R}
    → translate default signal position target ≡ ok intent
    → by_direction signal.direction signal position.quantity (or_default target default) ≡ intent
unfolding translate
translated default signal position target h = ground arith

-- Whatever the signal, the position and the size, the plan made for the signal and the intent that
-- the translator makes of it give no divergence: their child orders are the same.
pub shadow_agrees :
    (fl : Floats) (default : ℤ) (signal : Signal fl.Float) (position : Position) (target : Option ℤ)
    (sequence : ℕ) {desired : DesiredPosition fl.Float} {intent : OrderIntent fl.Float}
    → desired_from_signal fl signal target default ≡ ok desired
    → translate default signal position target ≡ ok intent
    → compare_plan_to_intent
        (intent_name intent.intent)
        intent.target_quantity
        position.quantity
        (legacy_plan desired position)
        signal.symbol
        sequence
      ≡ none
unfolding legacy_plan
shadow_agrees fl default signal position target sequence {desired} {intent} p q =
    let (size, same_target, same_direction) = size_ok fl default signal target p in
    no_divergence intent.intent intent.target_quantity position.quantity
      (legacy_plan desired position) signal.symbol sequence
      (rw (← translated default signal position target q, same_target, same_direction)
        (agrees signal.direction signal desired.symbol position.quantity (or_default target default)
          size))
