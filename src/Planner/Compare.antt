-- ===== src/Planner/Compare.antt =====
-- The comparison of a plan with the translator's intent
-- (src/feelies/execution/position_manager.py: `_legacy_orders`, `_norm`, `compare_plan_to_intent`).
use feelies.Kit.{
  ℕ, String, Bool, true, false, ◌&&◌, Option, none, some, List, [], ◌∷◌, if◌then◌else◌, string_Eq,
}
use feelies.Kit.Int.{ℤ, ◌-ℤ◌, is_pos, ltb_ℤ, eqb_ℤ, abs}
use feelies.Market.{Side, buy, sell}
use feelies.Intent.{TradingIntent}
use feelies.Plan.{PlanLeg, PlannedOrder, PositionPlan, primary_leg, total_quantity}

abbrev pub intent_name : TradingIntent → String
intent_name TradingIntent.entry_long = "ENTRY_LONG"
intent_name TradingIntent.entry_short = "ENTRY_SHORT"
intent_name TradingIntent.exit = "EXIT"
intent_name TradingIntent.reverse_long_to_short = "REVERSE_LONG_TO_SHORT"
intent_name TradingIntent.reverse_short_to_long = "REVERSE_SHORT_TO_LONG"
intent_name TradingIntent.scale_up = "SCALE_UP"
intent_name TradingIntent.no_action = "NO_ACTION"

abbrev pub intents : List TradingIntent
intents =
    TradingIntent.entry_long ∷ TradingIntent.entry_short ∷ TradingIntent.exit
    ∷ TradingIntent.reverse_long_to_short ∷ TradingIntent.reverse_short_to_long
    ∷ TradingIntent.scale_up ∷ TradingIntent.no_action ∷ []

-- `TradingIntent[intent_name]`, where `none` is the `KeyError`.
unfoldable pub named : String → List TradingIntent → Option TradingIntent
named name [] = none
named name (t ∷ ts) = if string_Eq.eqb (intent_name t) name then some t else named name ts

abbrev pub leg_name : PlanLeg → String
leg_name PlanLeg.no_action = "NO_ACTION"
leg_name PlanLeg.entry = "ENTRY"
leg_name PlanLeg.scale_up = "SCALE_UP"
leg_name PlanLeg.trim = "TRIM"
leg_name PlanLeg.exit = "EXIT"
leg_name PlanLeg.reverse_exit = "REVERSE_EXIT"
leg_name PlanLeg.reverse_entry = "REVERSE_ENTRY"

abbrev pub Child : Type 0
Child = Side × ℤ

abbrev pub orders_of : TradingIntent → ℤ → ℤ → List Child
orders_of TradingIntent.no_action target cur = []
orders_of TradingIntent.entry_long target cur = (buy, target) ∷ []
orders_of TradingIntent.entry_short target cur = (sell, target) ∷ []
orders_of TradingIntent.exit target cur = (if is_pos cur then sell else buy, target) ∷ []
orders_of TradingIntent.scale_up target cur = (if is_pos cur then buy else sell, target) ∷ []
orders_of TradingIntent.reverse_long_to_short target cur =
    (sell, abs cur) ∷ (sell, target -ℤ abs cur) ∷ []
orders_of TradingIntent.reverse_short_to_long target cur =
    (buy, abs cur) ∷ (buy, target -ℤ abs cur) ∷ []

abbrev pub found_orders : Option TradingIntent → ℤ → ℤ → Option (List Child)
found_orders none target cur = none
found_orders (some t) target cur = some (orders_of t target cur)

unfoldable pub legacy_orders : String → ℤ → ℤ → Option (List Child)
unfolding named
legacy_orders name target cur = found_orders (named name intents) target cur

-- The order of `(s.name, q)` tuples: "BUY" comes before "SELL".
abbrev pub before : Child → Child → Bool
before (buy, q) (buy, r) = ltb_ℤ q r
before (buy, q) (sell, r) = true
before (sell, q) (buy, r) = false
before (sell, q) (sell, r) = ltb_ℤ q r

-- `sorted` on a list of tuples, as an insertion sort.
abbrev pub place : Child → List Child → List Child
place c [] = c ∷ []
place c (d ∷ ds) = if before d c then d ∷ place c ds else c ∷ d ∷ ds

-- `sorted((s.name, q) for s, q in orders if q > 0)`
unfoldable pub norm : List Child → List Child
norm [] = []
norm ((s, q) ∷ cs) = let rest = norm cs in if is_pos q then place (s, q) rest else rest

abbrev pub same_side : Side → Side → Bool
same_side buy buy = true
same_side sell sell = true
same_side _ _ = false

-- `==` on two lists of tuples, and on two that may be `None`.
abbrev pub same : List Child → List Child → Bool
same [] [] = true
same [] (d ∷ ds) = false
same (c ∷ cs) [] = false
same ((s, q) ∷ cs) ((t, r) ∷ ds) = (same_side s t && eqb_ℤ q r) && same cs ds

-- `_norm(legacy) if legacy is not None else None`
abbrev normal : Option (List Child) → Option (List Child)
normal none = none
normal (some cs) = some (norm cs)

abbrev pub agree : Option (List Child) → List Child → Bool
agree none ds = false
agree (some cs) ds = same (norm cs) ds

abbrev pub children : {R : Type 0} → List (PlannedOrder R) → List Child
children [] = []
children (o ∷ os) = (o.side, o.quantity) ∷ children os

-- `detail` is the text of the two normal forms; here it is the pair of them.
pub record PlanDivergence : Type 0 where
  pub symbol : String
  pub signal_sequence : ℕ
  pub legacy_intent : String
  pub legacy_quantity : ℤ
  pub planner_leg : String
  pub planner_quantity : ℤ
  pub detail : Option (List Child) × List Child

unfoldable pub compare_plan_to_intent :
    {R : Type 0} → String → ℤ → ℤ → PositionPlan R → String → ℕ → Option PlanDivergence
unfolding legacy_orders norm
compare_plan_to_intent name target cur plan symbol sequence =
    if agree (legacy_orders name target cur) (norm (children plan.orders))
    then none
    else some (record {
      symbol = symbol;
      signal_sequence = sequence;
      legacy_intent = name;
      legacy_quantity = target;
      planner_leg = leg_name (primary_leg plan);
      planner_quantity = total_quantity plan;
      detail = (normal (legacy_orders name target cur), norm (children plan.orders));
    })
