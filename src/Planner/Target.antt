-- ===== src/Planner/Target.antt =====
-- src/feelies/execution/position_manager.py: `TargetPositionManager`, which also plans partial
-- reductions, with the gates of src/feelies/core/position_manager.py.
pub mod Trims
use feelies.Kit.{
  String, Bool, true, false, not, ◌&&◌, ◌||◌, Option, none, some, List, [], ◌∷◌, ◌++◌,
  if◌then◌else◌, string_Eq,
}
use feelies.Kit.Int.{ℤ, pos, ◌-ℤ◌, ◌*ℤ◌, is_pos, is_zero, eqb_ℤ, ltb_ℤ, leb_ℤ, abs, maxℤ}
use feelies.Kit.Floats.{Floats}
use feelies.Market.{Side, buy, sell, Position}
use feelies.Plan.{
  PlanLeg, passive, market, DesiredPosition, PlannedOrder, SuppressedLeg, PositionPlan,
}
use feelies.Planner.{sign, wanted_direction, legacy_plan}
use feelies.Costs.{Decimals, CostModel, Impact, estimate_round_trip_cost_bps}

pub record PositionManagerConfig (R : Type 0) : Type 0 where
  pub enabled : Bool
  pub shadow : Bool
  pub enable_trim : Bool
  pub trim_edge_gate_multiplier : R
  pub urgency_exec : Bool

-- The fields of an `NBBOQuote` that the planner reads.
pub record Quote (D : Type 0) : Type 0 where
  pub bid : D
  pub ask : D
  pub bid_size : ℤ
  pub ask_size : ℤ

pub record MarketContext (D : Type 0) : Type 0 where
  pub quote : Option (Quote D)
  pub cost_model : Option (CostModel D)
  pub impact : Impact D

-- A target on the side of the position, and nearer to zero.
abbrev pub is_partial : ℤ → ℤ → ℤ → Bool
is_partial d cur m = not (is_zero d) && (eqb_ℤ (sign cur) d && not (leb_ℤ (abs cur) m))

module _ {fl : Floats} (ds : Decimals fl) where
  open fl use {Float}
  open ds use {dec}
  open dec use {Float as D}

  -- The exit is a taker's.
  unfoldable pub round_trip_cost_bps :
      CostModel D → String → Side → ℤ → D → D → Bool → Bool → Option ℤ → Option ℤ → Impact D → Float
  unfolding estimate_round_trip_cost_bps
  round_trip_cost_bps model symbol side quantity mid half_spread taker short bid ask impact =
      estimate_round_trip_cost_bps ds model symbol side quantity mid half_spread taker short
        (some true) bid ask impact false false

  unfoldable pub entry_edge_clears_cost : Float → Float → Float → String → Bool
  entry_edge_clears_cost edge cost min_ratio basis =
      let edge_basis =
        if string_Eq.eqb basis "round_trip" then fl.times edge (fl.literal 20 1) else edge in
      fl.less_eq (fl.times min_ratio cost) edge_basis

  -- `(combined, required, passed)`
  unfoldable pub reversal_edge_gate : Float → Float → Float → Float → Float × Float × Bool
  reversal_edge_gate edge exit_cost entry_cost multiplier =
      let combined = fl.plus exit_cost entry_cost in
      let required = fl.times combined multiplier in (combined, required, fl.less required edge)

  abbrev halves : D → D
  halves d = dec.over d (dec.literal 2 0)

  abbrev cost_with :
      String → Side → ℤ → Impact D → Option (CostModel D) → Option (Quote D) → Option Float
  unfolding round_trip_cost_bps
  cost_with symbol side quantity impact (some model) (some q) = some (
      round_trip_cost_bps model symbol side quantity (halves (dec.plus q.bid q.ask))
        (halves (dec.minus q.ask q.bid)) true false (some q.bid_size) (some q.ask_size) impact)
  cost_with symbol side quantity impact _ _ = none

  -- The cost of a trim, where the market is known.
  unfoldable pub trim_cost : String → Side → ℤ → Option (MarketContext D) → Option Float
  unfolding cost_with
  trim_cost symbol side quantity none = none
  trim_cost symbol side quantity (some m) =
      cost_with symbol side quantity m.impact m.cost_model m.quote

  -- The excess is held where the edge still covers the cost of the trim.
  abbrev pub holds : Float → Float → Option Float → Bool
  holds k edge none = false
  holds k edge (some cost) =
      fl.less (fl.literal 0 0) k && entry_edge_clears_cost edge cost k "one_way"

  abbrev suppress : String → List (String × Float) → PositionPlan Float
  suppress reason constraints = record {
    orders = [];
    suppressed = record { leg = PlanLeg.trim; reason = reason; constraints = constraints } ∷ [];
  }

  abbrev with_cost : Option Float → List (String × Float)
  with_cost none = []
  with_cost (some cost) = ("round_trip_cost_bps", cost) ∷ []

  abbrev or_zero : Option Float → Float
  or_zero none = fl.literal 0 0
  or_zero (some cost) = cost

  abbrev pub trim_threshold : Float → ℤ → ℤ
  trim_threshold fraction cur = maxℤ (pos 1) (fl.ceil (fl.times fraction (fl.of_int (abs cur))))

  abbrev trim_order :
      DesiredPosition Float → ℤ → ℤ → ℤ → Bool → Side → Option Float → PositionPlan Float
  trim_order desired cur target trim urgency side cost = record {
    orders =
        record {
          symbol = desired.symbol;
          side = side;
          quantity = trim;
          style = if urgency then passive else market;
          leg = PlanLeg.trim;
          is_short = false;
          rationale =
              ("trim_qty", fl.of_int trim)
              ∷ ("current_qty", fl.of_int cur)
              ∷ ("target_qty", fl.of_int target)
              ∷ ("trim_fraction", fl.over (fl.of_int trim) (fl.of_int (abs cur)))
              ∷ with_cost cost;
        }
        ∷ [];
    suppressed = [];
  }

  -- The excess over a smaller target on the same side.
  abbrev trim_plan :
      Float
      → DesiredPosition Float
      → ℤ
      → ℤ
      → ℤ
      → Option (MarketContext D)
      → PositionManagerConfig Float
      → PositionPlan Float
  trim_plan fraction desired cur d m at config =
      let trim = abs cur -ℤ m in
      let threshold = trim_threshold fraction cur in
      let side = if is_pos cur then sell else buy in
      let cost = trim_cost desired.symbol side trim at in
      let k = config.trim_edge_gate_multiplier in
      if ltb_ℤ trim threshold
      then suppress "trim_below_churn_threshold" (
          ("trim_qty", fl.of_int trim)
          ∷ ("threshold", fl.of_int threshold)
          ∷ ("current_qty", fl.of_int cur)
          ∷ [])
      else if holds k desired.edge_bps cost
      then suppress "trim_edge_above_gate" (
          ("edge_bps", desired.edge_bps)
          ∷ ("required_bps", fl.times k (or_zero cost))
          ∷ ("round_trip_cost_bps", or_zero cost)
          ∷ ("trim_qty", fl.of_int trim)
          ∷ [])
      else trim_order desired cur (d *ℤ m) trim config.urgency_exec side cost

  abbrev planned :
      Float
      → DesiredPosition Float
      → Position
      → Option (MarketContext D)
      → Option (PositionManagerConfig Float)
      → PositionPlan Float
      → PositionPlan Float
  planned fraction desired current at none legacy = legacy
  planned fraction desired current at (some config) legacy =
      let cur = current.quantity in
      let d = wanted_direction desired.direction desired.target_qty in
      let m = abs desired.target_qty in
      if not config.enable_trim
      then legacy
      else if is_partial d cur m
      then trim_plan fraction desired cur d m at config
      else legacy

  -- `TargetPositionManager.plan`, with its `trim_min_fraction`.
  unfoldable pub target_plan :
      Float
      → DesiredPosition Float
      → Position
      → Option (MarketContext D)
      → Option (PositionManagerConfig Float)
      → PositionPlan Float
  unfolding legacy_plan trim_cost
  target_plan fraction desired current at config =
      planned fraction desired current at config (legacy_plan desired current)
