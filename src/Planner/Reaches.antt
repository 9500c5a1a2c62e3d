-- ===== src/Planner/Reaches.antt =====
-- What filling the orders of a plan does to the position
-- (src/feelies/execution/position_manager.py).
use feelies.Kit.{◌⊎◌, zero, suc, String, ◌≡◌, refl, Bool, true, false, List, [], ◌∷◌, arith, All}
use feelies.Kit.Int.{ℤ, pos, negsuc, ◌+ℤ◌, ◌-ℤ◌, negℤ, is_pos, abs}
use feelies.Market.{Side, buy, sell, Position}
use feelies.Plan.{passive, market, PlannedOrder, DesiredPosition}
use feelies.Planner.{plan_to, is_additive, is_reducing, effective, wanted_direction, legacy_plan}

abbrev pub delta : Side → ℤ → ℤ
delta buy q = q
delta sell q = negℤ q

-- The position when the orders have filled.
abbrev pub filled : {R : Type 0} → ℤ → List (PlannedOrder R) → ℤ
filled cur [] = cur
filled cur (o ∷ os) = filled (cur +ℤ delta o.side o.quantity) os

-- The position that a plan for `desired` aims at.
abbrev pub aim : {R : Type 0} → DesiredPosition R → Position → ℤ
aim desired current =
    effective (wanted_direction desired.direction desired.target_qty) current.quantity
      (abs desired.target_qty)

filled-plan_to :
    (R : Type 0) (sym : String) (cur eff : ℤ)
    → filled cur (plan_to {R = R} sym cur eff).orders ≡ eff
unfolding plan_to negℤ ◌+ℤ◌ ◌-ℤ◌
filled-plan_to R sym (pos zero) (pos zero) = refl
filled-plan_to R sym (pos zero) (pos (suc m)) = ground arith
filled-plan_to R sym (pos zero) (negsuc m) = ground arith
filled-plan_to R sym (pos (suc n)) (pos zero) = ground arith
filled-plan_to R sym (pos (suc n)) (pos (suc m)) = ground arith
filled-plan_to R sym (pos (suc n)) (negsuc m) = ground arith
filled-plan_to R sym (negsuc n) (pos zero) = ground arith
filled-plan_to R sym (negsuc n) (pos (suc m)) = ground arith
filled-plan_to R sym (negsuc n) (negsuc m) = ground arith

abbrev pub is_sell : Side → Bool
is_sell buy = false
is_sell sell = true

-- A leg that only reduces goes to the market with no more than the position held, on the side
-- against it; a leg that adds rests passively, and asks for at least one share.
abbrev pub IsSafe : {R : Type 0} → ℤ → PlannedOrder R → Type 0
IsSafe cur o =
    (is_pos o.quantity ≡ true)
    × ((is_reducing o.leg ≡ true)
          × (o.style ≡ market)
          × (o.quantity ≡ abs cur)
          × (is_pos cur ≡ is_sell o.side)
        ⊎ (is_additive o.leg ≡ true) × (o.style ≡ passive))

plan_to-IsSafe :
    (R : Type 0) (sym : String) (cur eff : ℤ)
    → All (IsSafe cur) (plan_to {R = R} sym cur eff).orders
unfolding plan_to negℤ ◌+ℤ◌ ◌-ℤ◌
plan_to-IsSafe R sym (pos zero) (pos zero) = tt
plan_to-IsSafe R sym (pos zero) (pos (suc m)) = ground arith
plan_to-IsSafe R sym (pos zero) (negsuc m) = ground arith
plan_to-IsSafe R sym (pos (suc n)) (pos zero) = ground arith
plan_to-IsSafe R sym (pos (suc n)) (pos (suc m)) = ground arith
plan_to-IsSafe R sym (pos (suc n)) (negsuc m) = ground arith
plan_to-IsSafe R sym (negsuc n) (pos zero) = ground arith
plan_to-IsSafe R sym (negsuc n) (pos (suc m)) = ground arith
plan_to-IsSafe R sym (negsuc n) (negsuc m) = ground arith

-- When all the orders of a plan have filled, the position is exactly the one aimed at: for a flat
-- signal none, for a long one the larger of the position and the target, for a short one the
-- smaller of the position and the negated target.
pub filled-legacy_plan :
    {R : Type 0} (desired : DesiredPosition R) (current : Position)
    → filled current.quantity (legacy_plan desired current).orders ≡ aim desired current
unfolding legacy_plan
filled-legacy_plan desired current =
    filled-plan_to _ desired.symbol current.quantity (aim desired current)

-- In every plan, each order asks for at least one share; a reducing leg is a market order over the
-- whole position, on the side against it, and an additive leg is passive.
pub legacy_plan-IsSafe :
    {R : Type 0} (desired : DesiredPosition R) (current : Position)
    → All (IsSafe current.quantity) (legacy_plan desired current).orders
unfolding legacy_plan
legacy_plan-IsSafe desired current =
    plan_to-IsSafe _ desired.symbol current.quantity (aim desired current)
