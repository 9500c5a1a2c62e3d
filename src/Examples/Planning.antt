-- ===== src/Examples/Planning.antt =====
-- Plans of src/feelies/execution/position_manager.py at concrete inputs.
use feelies.Kit.{◌≡◌, refl, none, ok, All}
use feelies.Kit.Int.{ℤ, pos, negsuc, ◌+ℤ◌, ◌-ℤ◌, negℤ}
use feelies.Market.{long, Signal, Position, blank}
use feelies.Intent.{TradingIntent, translate, order_intent, handle_long, by_direction}
use feelies.Plan.{DesiredPosition, desired_from_signal}
use feelies.Planner.{legacy_plan}
use feelies.Planner.Agreement.{planned_intent, planned_intent-eq-translate}
use feelies.Planner.Compare.{compare_plan_to_intent}
use feelies.Planner.Reaches.{filled, IsSafe, filled-legacy_plan, legacy_plan-IsSafe}
use feelies.Planner.Shadow.{shadow_agrees}
use feelies.Examples.Toy.{toy}

-- A long signal while 60 shares are short.
abbrev signal : Signal ℤ
signal = record {
  symbol = "AAPL";
  strategy_id = "s";
  direction = long;
  strength = pos 1000;
  edge_estimate_bps = pos 5000;
}

abbrev held : Position
held = record (blank "AAPL") { quantity = negsuc 59 }

abbrev desired : DesiredPosition ℤ
desired = record {
  symbol = "AAPL";
  target_qty = pos 100;
  direction = pos 1;
  edge_bps = pos 5000;
  urgency = pos 500;
  source = "s";
  reason = "signal";
}

desired_ok : desired_from_signal toy signal none (pos 100) ≡ ok desired
unfolding desired_from_signal
desired_ok = refl

translate_ok :
    translate (pos 100) signal held none
    ≡ ok (order_intent signal (negsuc 59) TradingIntent.reverse_short_to_long (pos 160))
unfolding translate by_direction handle_long ◌+ℤ◌
translate_ok = refl

planned_intent-eq-translate_example :
    planned_intent toy (pos 100) signal held none ≡ translate (pos 100) signal held none
planned_intent-eq-translate_example = planned_intent-eq-translate toy (pos 100) signal held none

filled-legacy_plan_example : filled (negsuc 59) (legacy_plan desired held).orders ≡ pos 100
unfolding negℤ ◌+ℤ◌ ◌-ℤ◌
filled-legacy_plan_example = filled-legacy_plan desired held

legacy_plan-IsSafe_example : All (IsSafe (negsuc 59)) (legacy_plan desired held).orders
legacy_plan-IsSafe_example = legacy_plan-IsSafe desired held

shadow_agrees_example :
    compare_plan_to_intent "REVERSE_SHORT_TO_LONG"
      (pos 160)
      (negsuc 59)
      (legacy_plan desired held)
      "AAPL"
      7
    ≡ none
shadow_agrees_example = shadow_agrees toy (pos 100) signal held none 7 desired_ok translate_ok
