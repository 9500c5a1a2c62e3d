-- ===== src/SizedIntent.antt =====
-- src/feelies/risk/sized_intent_orders.py: the orders of a portfolio's sized intent, each checked
-- by the risk engine. `Decimal`s are an interface; `of_float` is `Decimal(str(x))`, `of_money` a
-- price of the store as a `Decimal`, and `half_up` the rounding to an integer with halves away
-- from zero. The check is the engine's, and may raise a text; the world `W` is all that it and the
-- callback change. The warnings that are logged are not here.
pub mod Sizes
use feelies.Kit.{
  ℕ, ◌+◌, String, Bool, true, false, not, ◌&&◌, Option, none, some, List, [], ◌∷◌, ◌++◌, map,
  Result, ok, err, if◌then◌else◌, string_Eq,
}
use Prim.Native.String.{◌++◌ as append}
use feelies.Kit.Int.{ℤ, pos, ◌+ℤ◌, ◌-ℤ◌, negℤ, is_pos, is_zero, eqb_ℤ, abs}
use feelies.Kit.Floats.{Floats}
use feelies.Kit.Dict.{Dict, lookup}
use feelies.Kit.Sort.{sorted, str_ltb}
use feelies.Market.{Side, buy, sell, Position}
use feelies.Sequence.{decimal, derive_order_id}
use feelies.Costs.{Decimals}

pub data RiskAction : Type 0 where
  allow scale_down reject force_flatten : RiskAction

pub record RiskVerdict (R : Type 0) : Type 0 where
  pub action : RiskAction
  pub reason : String
  pub scaling_factor : R

-- The fields of an `OrderRequest` that are set here: the order type is MARKET.
pub record OrderRequest (R : Type 0) : Type 0 where
  pub timestamp_ns : ℕ
  pub correlation_id : String
  pub sequence : ℕ
  pub source_layer : String
  pub order_id : String
  pub symbol : String
  pub side : Side
  pub quantity : ℤ
  pub strategy_id : String
  pub reason : String
  pub g12_disclosed_cost_total_bps : R

-- The targets are in dollars.
pub record SizedPositionIntent (R : Type 0) : Type 0 where
  pub timestamp_ns : ℕ
  pub correlation_id : String
  pub sequence : ℕ
  pub strategy_id : String
  pub target_positions : Dict String R
  pub disclosed_cost_total_bps_by_symbol : Dict String R

pub record SizedIntentRiskResult (R : Type 0) : Type 0 where
  pub orders : List (OrderRequest R)
  pub requires_global_risk_escalation : Bool

pub record PlannedLeg (R D : Type 0) : Type 0 where
  pub order : OrderRequest R
  pub mark : D
  pub current_quantity : ℤ

-- `latest_mark` gives none where the store has no such accessor, or it raises or gives none.
pub record Marked (D : Type 0) : Type 0 where
  pub get : String → Position
  pub latest_mark : String → Option D

abbrev pub Dropped : Type 0
Dropped = List (String × String)

abbrev signed : Side → ℤ → ℤ
signed buy q = q
signed sell q = negℤ q

module _ {R D : Type 0} where
  abbrev pub signed_quantity : PlannedLeg R D → ℤ
  signed_quantity leg = signed leg.order.side leg.order.quantity

module _ {fl : Floats} (ds : Decimals fl) (of_float : fl.Float → ds.dec.Float)
    (of_money : ℤ → ds.dec.Float) (half_up : ds.dec.Float → ℤ) (hexdigest : String → String) where
  open fl use {Float}
  open ds use {dec}
  open dec use {Float as D}

  abbrev zero_d : D
  zero_d = dec.literal 0 0

  abbrev mark_or_entry : Option D → D → D
  mark_or_entry none entry = if dec.less zero_d entry then entry else zero_d
  mark_or_entry (some m) entry =
      if dec.less zero_d m then m else if dec.less zero_d entry then entry else zero_d

  unfoldable pub resolve_mark : String → Position → Marked D → D
  resolve_mark symbol current store =
      mark_or_entry (store.latest_mark symbol) (of_money current.avg_entry_price)

  abbrev or_zero : Option Float → Float
  or_zero none = fl.literal 0 1
  or_zero (some x) = x

  -- `_mint`, from what it takes of its provenance.
  unfoldable pub mint : ℕ → String → ℕ → String → Float → String → Side → ℤ → OrderRequest Float
  mint timestamp_ns correlation_id sequence strategy_id disclosed symbol side quantity = record {
    timestamp_ns = timestamp_ns;
    correlation_id = correlation_id;
    sequence = sequence;
    source_layer = "PORTFOLIO";
    order_id =
        derive_order_id hexdigest
          (append correlation_id (append ":" (append (decimal sequence) (append ":" symbol))));
    symbol = symbol;
    side = side;
    quantity = quantity;
    strategy_id = strategy_id;
    reason = "PORTFOLIO";
    g12_disclosed_cost_total_bps = disclosed;
  }

  abbrev pub target_shares : Float → D → ℤ
  target_shares usd mark = half_up (dec.over (of_float usd) mark)

  unfoldable pub plan_leg :
      SizedPositionIntent Float → String → Float → Marked D → Option (PlannedLeg Float D)
  unfolding resolve_mark mint
  plan_leg intent symbol usd store =
      let current = store.get symbol in
      let mark = resolve_mark symbol current store in
      let delta = target_shares usd mark -ℤ current.quantity in
      if dec.less_eq mark zero_d
      then none
      else if is_zero delta
      then none
      else some (record {
        order =
            mint intent.timestamp_ns intent.correlation_id intent.sequence intent.strategy_id
              (or_zero (lookup symbol intent.disclosed_cost_total_bps_by_symbol)) symbol
              (if is_pos delta then buy else sell) (abs delta);
        mark = mark;
        current_quantity = current.quantity;
      })

  unfoldable pub rescale_leg : PlannedLeg Float D → Float → Option (PlannedLeg Float D)
  unfolding mint
  rescale_leg leg factor =
      let o = leg.order in
      let scaled = half_up (dec.times (dec.of_int o.quantity) (of_float factor)) in
      if not (is_pos scaled)
      then none
      else if eqb_ℤ scaled o.quantity
      then some leg
      else some (record {
        order =
            mint o.timestamp_ns o.correlation_id o.sequence o.strategy_id
              o.g12_disclosed_cost_total_bps o.symbol o.side scaled;
        mark = leg.mark;
        current_quantity = leg.current_quantity;
      })

  -- What one leg comes to.
  pub data Step : Type 0 where
    skipped flattened : Step
    dropped_for : String → Step
    admitted : PlannedLeg Float D → Step

  abbrev scaled_step : String → Option (PlannedLeg Float D) → Step
  scaled_step reason none = dropped_for (append "scaled down to zero quantity: " reason)
  scaled_step reason (some leg) = admitted leg

  abbrev by_action : RiskAction → RiskVerdict Float → PlannedLeg Float D → Step
  unfolding rescale_leg
  by_action force_flatten v leg = flattened
  by_action reject v leg = dropped_for v.reason
  by_action scale_down v leg = scaled_step v.reason (rescale_leg leg v.scaling_factor)
  by_action allow v leg = admitted leg

  abbrev by_verdict : Result String (RiskVerdict Float) → PlannedLeg Float D → Step
  by_verdict (err raised) leg = dropped_for (append "check_order raised: " raised)
  by_verdict (ok v) leg = by_action v.action v leg

  abbrev added_exposure : PlannedLeg Float D → D
  added_exposure leg =
      let post = leg.current_quantity +ℤ signed_quantity leg in
      dec.times (dec.of_int (abs post -ℤ abs leg.current_quantity)) leg.mark

  module _ {W : Type 0} (view : W → Marked D)
      (check_order : OrderRequest Float → D → W → Result String (RiskVerdict Float) × W) where
    abbrev checked : Option (PlannedLeg Float D) → D → W → Step × W
    checked none extra w = (skipped, w)
    checked (some leg) extra w =
        let (verdict, w') = check_order leg.order extra w in (by_verdict verdict leg, w')

    -- The orders, or none where the intent is aborted, with the legs dropped and the world.
    abbrev pub Built : Type 0
    Built = Option (List (OrderRequest Float)) × Dropped × W

    -- How the loop goes on after a step.
    abbrev by_step :
        Step
        → Dropped
        → W
        → (W → Built)
        → (String → W → Built)
        → (PlannedLeg Float D → W → Built)
        → Built
    by_step skipped dropped w skip drop admit = skip w
    by_step flattened dropped w skip drop admit = (none, dropped, w)
    by_step (dropped_for reason) dropped w skip drop admit = drop reason w
    by_step (admitted leg) dropped w skip drop admit = admit leg w

    -- The loop over the targets, with the exposure, orders and dropped legs so far.
    unfoldable pub build_each :
        SizedPositionIntent Float
        → List (String × Float)
        → D
        → List (OrderRequest Float)
        → Dropped
        → W
        → Built
    unfolding plan_leg by_action
    build_each intent [] extra orders dropped w = (some orders, dropped, w)
    build_each intent ((symbol, usd) ∷ rest) extra orders dropped w =
        let result = checked (plan_leg intent symbol usd (view w)) extra w in
        by_step result.0 dropped result.1 (λ w. build_each intent rest extra orders dropped w)
          (λ reason w. build_each intent rest extra orders (dropped ++ ((symbol, reason) ∷ [])) w)
          (λ leg w.
            build_each intent rest (dec.plus extra (added_exposure leg))
              (orders ++ (leg.order ∷ [])) dropped w)

    abbrev reported : Option (Dropped → W → W) → Dropped → W → W
    reported none dropped w = w
    reported (some callback) [] w = w
    reported (some callback) (d ∷ ds) w = callback (d ∷ ds) w

    abbrev result_of : Option (Dropped → W → W) → Built → SizedIntentRiskResult Float × W
    result_of callback (none, dropped, w) =
        (record { orders = []; requires_global_risk_escalation = true }, w)
    result_of callback (some orders, dropped, w) = (
      record { orders = orders; requires_global_risk_escalation = false },
      reported callback dropped w,
    )

    unfoldable pub build_sized_intent_orders :
        SizedPositionIntent Float → Option (Dropped → W → W) → W → SizedIntentRiskResult Float × W
    unfolding build_each
    build_sized_intent_orders intent callback w =
        result_of callback (
          build_each intent (sorted (λ a b. str_ltb a.0 b.0) intent.target_positions) zero_d [] []
            w)
