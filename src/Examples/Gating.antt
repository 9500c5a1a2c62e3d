-- ===== src/Examples/Gating.antt =====
-- Admission, netting, partial reductions and sized intents at concrete inputs
-- (src/feelies/core/order_admission.py, src/feelies/core/portfolio_netter.py,
-- src/feelies/execution/position_manager.py, src/feelies/risk/sized_intent_orders.py).
use feelies.Kit.{
  ℕ, String, ◌≡◌, refl, true, false, not, ◌&&◌, Option, none, some, [], ◌∷◌, Result, ok, All,
}
use mathlib.Core.List.Permᴰ.{swap}
use feelies.Kit.Int.{ℤ, pos, negsuc, ◌+ℤ◌, ◌*ℤ◌, negℤ, is_zero, is_neg, ◌≤ℤ◌}
use feelies.Market.{Signal, Position, blank, flat}
use feelies.Intent.{OrderIntent, TradingIntent, translate, handle_flat, by_direction, order_intent}
use feelies.Admission.{
  ExposureDelta, Conditions, exposure_delta_from_intent, admission_block_reason,
  opens_or_increases_exposure, opens_or_increases_short, post_quantity, side_for_intent,
}
use feelies.Admission.Exposure.{translate-exposure, flattening-admitted}
use feelies.Netting.{StandingTarget, TargetBook, net}
use feelies.Netting.Totals.{within, shares, net-shares, net-bounds}
use feelies.Costs.{Decimals}
use feelies.Plan.{DesiredPosition}
use feelies.Planner.Reaches.{filled}
use feelies.Planner.Target.{PositionManagerConfig, target_plan}
use feelies.Planner.Target.Trims.{trimmed_aim, filled-target_plan}
use feelies.SizedIntent.{
  OrderRequest, RiskVerdict, SizedPositionIntent, Marked, scale_down, build_sized_intent_orders,
}
use feelies.SizedIntent.Sizes.{Positive, has_orders, build-Positive}
use feelies.Examples.Toy.{toy}

abbrev decimals : Decimals toy
decimals = record { dec = toy; sqrt = λ x. x; to_float = λ x. x; infinity = pos 1_000_000 }

abbrev exit_signal : Signal ℤ
exit_signal = record {
  symbol = "AAPL";
  strategy_id = "s";
  direction = flat;
  strength = pos 1000;
  edge_estimate_bps = pos 5000;
}

abbrev held : Position
held = record (blank "AAPL") { quantity = negsuc 59 }

abbrev exit_intent : OrderIntent ℤ
exit_intent = order_intent exit_signal (negsuc 59) TradingIntent.exit (pos 60)

abbrev exit_delta : ExposureDelta
exit_delta = record { current_quantity = negsuc 59; signed_quantity = pos 60 }

translated : translate (pos 100) exit_signal held none ≡ ok exit_intent
unfolding translate by_direction handle_flat
translated = refl

exposed : exposure_delta_from_intent exit_intent ≡ ok exit_delta
unfolding exposure_delta_from_intent side_for_intent
exposed = refl

translate-exposure_example :
    (opens_or_increases_exposure exit_delta ≡ not (is_zero (post_quantity exit_delta)))
    × (opens_or_increases_short exit_delta ≡ is_neg (post_quantity exit_delta))
translate-exposure_example =
    translate-exposure exit_signal (pos 100) held none exit_delta translated exposed

-- A halt, the session's window and a short-sale restriction at once.
abbrev closed_market : Conditions
closed_market = record {
  opens_exposure = false;
  opens_short = false;
  in_halt_blackout = true;
  in_session_flatten_window = true;
  ssr_active = true;
  locate_unavailable = true;
  quantity = some (pos 60);
  min_order_shares = pos 100;
  exempt_from_min_size = true;
}

flattening-admitted_example : (admission_block_reason closed_market).1 ≡ none
unfolding opens_or_increases_exposure opens_or_increases_short ◌+ℤ◌ ◌*ℤ◌
flattening-admitted_example =
    flattening-admitted exit_signal (pos 100) held none exit_delta closed_market translated exposed
      refl refl refl refl

abbrev target : String → ℤ → Option ℤ → StandingTarget ℤ
target sid quantity expiry = record {
  strategy_id = sid;
  symbol = "AAPL";
  target_qty = quantity;
  edge_bps = pos 5000;
  urgency = pos 500;
  max_abs_qty = some (pos 80);
  expiry_ns = expiry;
}

abbrev book : TargetBook ℤ
book =
    (("b", "AAPL"), target "b" (pos 100) none)
    ∷ (("a", "AAPL"), target "a" (negsuc 19) none)
    ∷ (("c", "AAPL"), target "c" (pos 50) (some (pos 4)))
    ∷ []

-- The same entries with the first two in the other order.
abbrev reordered : TargetBook ℤ
reordered =
    (("a", "AAPL"), target "a" (negsuc 19) none)
    ∷ (("b", "AAPL"), target "b" (pos 100) none)
    ∷ (("c", "AAPL"), target "c" (pos 50) (some (pos 4)))
    ∷ []

net-shares_example :
    (net toy reordered (some (pos 50)) "AAPL" 5).target_qty
    ≡ within (some (pos 50)) (shares "AAPL" 5 book)
net-shares_example = net-shares toy book reordered (some (pos 50)) "AAPL" 5 (swap refl refl)

net-bounds_example :
    (negℤ (pos 50) ≤ℤ (net toy book (some (pos 50)) "AAPL" 5).target_qty)
    × ((net toy book (some (pos 50)) "AAPL" 5).target_qty ≤ℤ pos 50)
net-bounds_example = net-bounds toy book (pos 50) "AAPL" 5 refl

abbrev fewer : DesiredPosition ℤ
fewer = record {
  symbol = "AAPL";
  target_qty = negsuc 19;
  direction = negsuc 0;
  edge_bps = pos 5000;
  urgency = pos 500;
  source = "s";
  reason = "signal";
}

abbrev trimming : PositionManagerConfig ℤ
trimming = record {
  enabled = true;
  shadow = false;
  enable_trim = true;
  trim_edge_gate_multiplier = pos 0;
  urgency_exec = false;
}

filled-target_plan_example :
    filled (negsuc 59) (target_plan decimals (pos 100) fewer held none (some trimming)).orders
    ≡ trimmed_aim decimals (pos 100) fewer held none (some trimming)
filled-target_plan_example = filled-target_plan decimals (pos 100) fewer held none (some trimming)

abbrev sized : SizedPositionIntent ℤ
sized = record {
  timestamp_ns = 5;
  correlation_id = "c";
  sequence = 2;
  strategy_id = "p";
  target_positions = ("MSFT", pos 9000) ∷ ("AAPL", negsuc 8999) ∷ [];
  disclosed_cost_total_bps_by_symbol = [];
}

abbrev store : ℕ → Marked ℤ
store n = record { get = λ symbol. blank symbol; latest_mark = λ symbol. some (pos 3000) }

abbrev halve : OrderRequest ℤ → ℤ → ℕ → Result String (RiskVerdict ℤ) × ℕ
halve order extra n =
    (ok (record { action = scale_down; reason = "cap"; scaling_factor = pos 500 }), n)

abbrev whole : ℤ → ℤ
whole x = toy.trunc x

abbrev same : ℤ → ℤ
same x = x

abbrev thousands : ℤ → ℤ
thousands x = x *ℤ pos 1000

abbrev text : String → String
text s = s

build-Positive_example :
    All Positive
      (build_sized_intent_orders decimals same thousands whole text store halve sized none
        0).0.orders
    × ((build_sized_intent_orders decimals same thousands whole text store halve sized none
            0).0.requires_global_risk_escalation
          && has_orders
              (build_sized_intent_orders decimals same thousands whole text store halve sized none
                0).0.orders
        ≡ false)
build-Positive_example = build-Positive decimals same thousands whole text store halve sized none 0
