-- ===== src/SizedIntent/Sizes.antt =====
-- The sizes of the orders of src/feelies/risk/sized_intent_orders.py.
use feelies.Kit.{
  ◌≡◌, refl, String, Bool, true, false, ◌&&◌, Option, none, some, List, [], ◌∷◌, ◌++◌, Result, ok,
  err, arith, Bool-cases, inl, inr, All, All-append,
}
use feelies.Kit.Int.{ℤ, ◌-ℤ◌, is_pos, is_zero, abs, eqb_ℤ}
use feelies.Kit.Floats.{Floats}
use feelies.Kit.Sort.{sorted, str_ltb}
use feelies.Costs.{Decimals}
use feelies.SizedIntent.{
  OrderRequest, RiskVerdict, RiskAction, SizedPositionIntent, PlannedLeg, Marked, Dropped, Step,
  plan_leg, rescale_leg, by_action, by_verdict, checked, by_step, result_of, added_exposure,
  scaled_step, skipped, flattened, dropped_for, admitted, allow, reject, scale_down, force_flatten,
  resolve_mark, target_shares, build_each, build_sized_intent_orders, Built,
}

abbrev pub Positive : {R : Type 0} → OrderRequest R → Type 0
Positive o = is_pos o.quantity ≡ true

abbrev pub has_orders : {R : Type 0} → List (OrderRequest R) → Bool
has_orders [] = false
has_orders (o ∷ os) = true

abs-is_pos : (q : ℤ) → is_zero q ≡ false → is_pos (abs q) ≡ true
abs-is_pos q h = ground arith

module _ {fl : Floats} (ds : Decimals fl) (of_float : fl.Float → ds.dec.Float)
    (of_money : ℤ → ds.dec.Float) (half_up : ds.dec.Float → ℤ) (hexdigest : String → String) where
  -- A leg, if there is one, has at least one share.
  abbrev IsSound : Option (PlannedLeg fl.Float ds.dec.Float) → Type 0
  IsSound none = Unit
  IsSound (some leg) = Positive leg.order

  plan_leg-IsSound :
      (intent : SizedPositionIntent fl.Float) (symbol : String) (usd : fl.Float)
      (store : Marked ds.dec.Float)
      → IsSound (plan_leg ds of_float of_money half_up hexdigest intent symbol usd store)
  unfolding plan_leg
  plan_leg-IsSound intent symbol usd store =
      let current = store.get symbol in
      let mark = resolve_mark ds of_float of_money half_up hexdigest symbol current store in
      let delta =
        target_shares ds of_float of_money half_up hexdigest usd mark -ℤ current.quantity in
      elim (Bool-cases (ds.dec.less_eq mark (ds.dec.literal 0 0))) [
        | inl unmarked ↦ rw unmarked tt
        | inr marked ↦ elim (Bool-cases (is_zero delta)) [
          | inl held ↦ rw (marked, held) tt
          | inr moves ↦ rw (marked, moves) (abs-is_pos delta moves)
        ]
      ]

  rescale_leg-IsSound :
      (leg : PlannedLeg fl.Float ds.dec.Float) (factor : fl.Float)
      → Positive leg.order
      → IsSound (rescale_leg ds of_float of_money half_up hexdigest leg factor)
  unfolding rescale_leg
  rescale_leg-IsSound leg factor h =
      let scaled = half_up (ds.dec.times (ds.dec.of_int leg.order.quantity) (of_float factor)) in
      elim (Bool-cases (is_pos scaled)) [
        | inr gone ↦ rw gone tt
        | inl kept ↦ elim (Bool-cases (eqb_ℤ scaled leg.order.quantity)) [
          | inl same ↦ rw (kept, same) h
          | inr other ↦ rw (kept, other) kept
        ]
      ]

  abbrev Admits : Step ds of_float of_money half_up hexdigest → Type 0
  Admits (admitted leg) = Positive leg.order
  Admits _ = Unit

  scaled_step-Admits :
      (reason : String) (leg : Option (PlannedLeg fl.Float ds.dec.Float))
      → IsSound leg
      → Admits (scaled_step ds of_float of_money half_up hexdigest reason leg)
  scaled_step-Admits reason none h = tt
  scaled_step-Admits reason (some leg) h = h

  by_action-Admits :
      (action : RiskAction) (v : RiskVerdict fl.Float) (leg : PlannedLeg fl.Float ds.dec.Float)
      → Positive leg.order
      → Admits (by_action ds of_float of_money half_up hexdigest action v leg)
  unfolding by_action
  by_action-Admits allow v leg h = h
  by_action-Admits reject v leg h = tt
  by_action-Admits force_flatten v leg h = tt
  by_action-Admits scale_down v leg h =
      scaled_step-Admits v.reason
        (rescale_leg ds of_float of_money half_up hexdigest leg v.scaling_factor)
        (rescale_leg-IsSound leg v.scaling_factor h)

  module _ {W : Type 0} (view : W → Marked ds.dec.Float)
      (check_order : OrderRequest fl.Float
        → ds.dec.Float
        → W
        → Result String (RiskVerdict fl.Float) × W) where
    by_verdict-Admits :
        (verdict : Result String (RiskVerdict fl.Float)) (leg : PlannedLeg fl.Float ds.dec.Float)
        → Positive leg.order
        → Admits (by_verdict ds of_float of_money half_up hexdigest verdict leg)
    by_verdict-Admits (err raised) leg h = tt
    by_verdict-Admits (ok v) leg h = by_action-Admits v.action v leg h

    checked-Admits :
        (leg : Option (PlannedLeg fl.Float ds.dec.Float)) (extra : ds.dec.Float) (w : W)
        → IsSound leg
        → Admits (checked ds of_float of_money half_up hexdigest view check_order leg extra w).0
    checked-Admits none extra w h = tt
    checked-Admits (some leg) extra w h = by_verdict-Admits (check_order leg.order extra w).0 leg h

    -- The orders, if the intent was not aborted.
    abbrev AllPositive : Option (List (OrderRequest fl.Float)) → Type 0
    AllPositive none = Unit
    AllPositive (some orders) = All Positive orders

    by_step-AllPositive :
        (s : Step ds of_float of_money half_up hexdigest) (dropped : Dropped) (w : W)
        (skip : W → Built ds of_float of_money half_up hexdigest view check_order)
        (drop : String → W → Built ds of_float of_money half_up hexdigest view check_order)
        (admit : PlannedLeg fl.Float ds.dec.Float
          → W
          → Built ds of_float of_money half_up hexdigest view check_order)
        → Admits s
        → ((w : W) → AllPositive (skip w).0)
        → ((reason : String) (w : W) → AllPositive (drop reason w).0)
        → ((leg : PlannedLeg fl.Float ds.dec.Float) (w : W)
            → Positive leg.order
            → AllPositive (admit leg w).0)
        → AllPositive
            (by_step ds of_float of_money half_up hexdigest view check_order s dropped w skip drop
              admit).0
    by_step-AllPositive skipped dropped w skip drop admit a hs hd ha = hs w
    by_step-AllPositive flattened dropped w skip drop admit a hs hd ha = tt
    by_step-AllPositive (dropped_for reason) dropped w skip drop admit a hs hd ha = hd reason w
    by_step-AllPositive (admitted leg) dropped w skip drop admit a hs hd ha = ha leg w a

    each-Positive :
        (intent : SizedPositionIntent fl.Float) (targets : List (String × fl.Float))
        (extra : ds.dec.Float) (orders : List (OrderRequest fl.Float)) (dropped : Dropped) (w : W)
        → All Positive orders
        → AllPositive
            (build_each ds of_float of_money half_up hexdigest view check_order intent targets extra
              orders dropped w).0
    unfolding build_each
    each-Positive intent [] extra orders dropped w h = h
    each-Positive intent ((symbol, usd) ∷ rest) extra orders dropped w h =
        let leg = plan_leg ds of_float of_money half_up hexdigest intent symbol usd (view w) in
        let result = checked ds of_float of_money half_up hexdigest view check_order leg extra w in
        by_step-AllPositive result.0 dropped result.1 _ _ _
          (checked-Admits leg extra w (plan_leg-IsSound intent symbol usd (view w)))
          (λ w. each-Positive intent rest extra orders dropped w h)
          (λ reason w.
            each-Positive intent rest extra orders (dropped ++ ((symbol, reason) ∷ [])) w h)
          (λ leg w a.
            each-Positive intent rest
              (ds.dec.plus extra (added_exposure ds of_float of_money half_up hexdigest leg))
              (orders ++ (leg.order ∷ [])) dropped w
              (All-append Positive orders (leg.order ∷ []) h (a, tt)))

    result_of-Positive :
        (callback : Option (Dropped → W → W))
        (built : Built ds of_float of_money half_up hexdigest view check_order)
        → AllPositive built.0
        → All Positive
            (result_of ds of_float of_money half_up hexdigest view check_order callback
              built).0.orders
    result_of-Positive callback (none, dropped, w) h = tt
    result_of-Positive callback (some orders, dropped, w) h = h

    result_of-flattens :
        (callback : Option (Dropped → W → W))
        (built : Built ds of_float of_money half_up hexdigest view check_order)
        → let result =
            (result_of ds of_float of_money half_up hexdigest view check_order callback built).0 in
          result.requires_global_risk_escalation && has_orders result.orders ≡ false
    result_of-flattens callback (none, dropped, w) = refl
    result_of-flattens callback (some orders, dropped, w) = refl

    -- Whatever the checks answer or raise, every order of a sized intent is for at least one share,
    -- and where the intent asks for a global escalation it has no orders.
    pub build-Positive :
        (intent : SizedPositionIntent fl.Float) (callback : Option (Dropped → W → W)) (w : W)
        → let (result, w') =
            build_sized_intent_orders ds of_float of_money half_up hexdigest view check_order intent
              callback w in
          All Positive result.orders
          × (result.requires_global_risk_escalation && has_orders result.orders ≡ false)
    unfolding build_sized_intent_orders
    build-Positive intent callback w =
        let targets = sorted (λ a b. str_ltb a.0 b.0) intent.target_positions in
        let built =
          build_each ds of_float of_money half_up hexdigest view check_order intent targets
            (ds.dec.literal 0 0) [] [] w in
        (
          result_of-Positive callback built
              (each-Positive intent targets (ds.dec.literal 0 0) [] [] w tt),
          result_of-flattens callback built,
        )
