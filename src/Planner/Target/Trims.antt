-- ===== src/Planner/Target/Trims.antt =====
-- What a plan with partial reductions does to the position
-- (src/feelies/execution/position_manager.py: `TargetPositionManager`).
use feelies.Kit.{
  ℕ, zero, suc, inl, inr, ◌≡◌, refl, sym, ◌∙◌, Bool, true, false, ◌&&◌, ◌||◌, Option, none, some,
  arith, Bool-cases, if◌then◌else◌,
}
use feelies.Kit.Int.{
  ℤ, pos, negsuc, ◌+ℤ◌, ◌-ℤ◌, ◌*ℤ◌, negℤ, is_pos, eq_of_parts, eqb_ℤ, ltb_ℤ, leb_ℤ, abs, maxℤ,
}
use feelies.Kit.Floats.{Floats}
use feelies.Market.{buy, sell, Position}
use feelies.Costs.{Decimals}
use feelies.Plan.{DesiredPosition}
use feelies.Planner.{sign, wanted_direction}
use feelies.Planner.Reaches.{filled, delta, aim, filled-legacy_plan}
use feelies.Planner.Target.{
  PositionManagerConfig, MarketContext, is_partial, trim_plan, target_plan, trim_cost, holds,
  entry_edge_clears_cost,
}

-- The change that a trim asks for leads to the target.
trimmed_sign :
    (cur : ℤ) (m : ℕ)
    → leb_ℤ (abs cur) (pos m) ≡ false
    → cur +ℤ delta (if is_pos cur then sell else buy) (abs cur -ℤ pos m) ≡ sign cur *ℤ pos m
unfolding negℤ ◌+ℤ◌ ◌-ℤ◌ ◌*ℤ◌
trimmed_sign (pos zero) m h = ground arith
trimmed_sign (pos (suc n)) m h = ground arith
trimmed_sign (negsuc n) m h = ground arith

partial-sign : (d cur m : ℤ) → is_partial d cur m ≡ true → d ≡ sign cur
partial-sign d cur m h = ground (arith, eq_of_parts (sign cur) d)

partial-less : (d cur m : ℤ) → is_partial d cur m ≡ true → leb_ℤ (abs cur) m ≡ false
partial-less d cur m h = ground arith

trimmed :
    (d cur m : ℤ)
    → is_partial d cur (abs m) ≡ true
    → cur +ℤ delta (if is_pos cur then sell else buy) (abs cur -ℤ abs m) ≡ d *ℤ abs m
trimmed d cur (pos m) h =
    rw (partial-sign d cur (pos m) h) (trimmed_sign cur m (partial-less d cur (pos m) h))
trimmed d cur (negsuc m) h =
    rw (partial-sign d cur (pos (suc m)) h)
      (trimmed_sign cur (suc m) (partial-less d cur (pos (suc m)) h))

-- The target is `m` shares on the side `d` of the position, and fewer than it holds.
abbrev pub fewer : ℤ → ℤ → ℤ → Bool
fewer d cur m = (eqb_ℤ d (pos 1) && ltb_ℤ m cur) || (eqb_ℤ d (negsuc 0) && ltb_ℤ cur (negℤ m))

partial-fewer : (d cur m : ℤ) → is_partial d cur (abs m) ≡ fewer d cur (abs m)
unfolding negℤ
partial-fewer d cur m = ground arith

-- An excess is at least one share, so the churn threshold's own least share does not matter.
excess-threshold :
    (d cur m t : ℤ)
    → is_partial d cur (abs m) ≡ true
    → ltb_ℤ (abs cur -ℤ abs m) (maxℤ (pos 1) t) ≡ ltb_ℤ (abs cur -ℤ abs m) t
unfolding ◌-ℤ◌ ◌+ℤ◌ negℤ
excess-threshold d cur m t h = ground arith

module _ {fl : Floats} (ds : Decimals fl) where
  -- The edge still covers the given multiple of what the trim costs, where that is known.
  abbrev pub is_covered : fl.Float → fl.Float → Option fl.Float → Bool
  is_covered k edge none = false
  is_covered k edge (some cost) = fl.less (fl.literal 0 0) k && fl.less_eq (fl.times k cost) edge

  -- Whether a partial reduction to `m` shares is left undone.
  abbrev pub is_held :
      fl.Float
      → DesiredPosition fl.Float
      → ℤ
      → ℤ
      → Option (MarketContext ds.dec.Float)
      → PositionManagerConfig fl.Float
      → Bool
  is_held fraction desired cur m at config =
      let excess = abs cur -ℤ m in
      ltb_ℤ excess (fl.ceil (fl.times fraction (fl.of_int (abs cur))))
      || is_covered config.trim_edge_gate_multiplier desired.edge_bps
          (trim_cost ds desired.symbol (if is_pos cur then sell else buy) excess at)

  -- The position that a planner with partial reductions aims at.
  abbrev pub trimmed_aim :
      fl.Float
      → DesiredPosition fl.Float
      → Position
      → Option (MarketContext ds.dec.Float)
      → Option (PositionManagerConfig fl.Float)
      → ℤ
  trimmed_aim fraction desired current at none = aim desired current
  trimmed_aim fraction desired current at (some config) =
      let cur = current.quantity in
      let d = wanted_direction desired.direction desired.target_qty in
      let m = abs desired.target_qty in
      if config.enable_trim && fewer d cur m
      then (if is_held fraction desired cur m at config then cur else d *ℤ m)
      else aim desired current

  covered-holds :
      (k edge : fl.Float) (cost : Option fl.Float) → holds ds k edge cost ≡ is_covered k edge cost
  unfolding entry_edge_clears_cost
  covered-holds k edge none = refl
  covered-holds k edge (some cost) = refl

  filled-trim_plan :
      (fraction : fl.Float) (desired : DesiredPosition fl.Float) (cur d m : ℤ)
      (at : Option (MarketContext ds.dec.Float)) (config : PositionManagerConfig fl.Float)
      → is_partial d cur (abs m) ≡ true
      → filled cur (trim_plan ds fraction desired cur d (abs m) at config).orders
        ≡ (if is_held fraction desired cur (abs m) at config then cur else d *ℤ abs m)
  filled-trim_plan fraction desired cur d m at config h =
      let excess = abs cur -ℤ abs m in
      let side = if is_pos cur then sell else buy in
      let cost = trim_cost ds desired.symbol side excess at in
      let least = fl.ceil (fl.times fraction (fl.of_int (abs cur))) in
      let k = config.trim_edge_gate_multiplier in
      elim (Bool-cases (ltb_ℤ excess least)) [
        | inl churn ↦ rw (excess-threshold d cur m least h, churn) refl
        | inr large ↦ elim (Bool-cases (is_covered k desired.edge_bps cost)) [
          | inl hold ↦
              rw
                (
                  excess-threshold d cur m least h,
                  large,
                  covered-holds k desired.edge_bps cost,
                  hold,
                )
                refl
          | inr release ↦
              rw
                (
                  excess-threshold d cur m least h,
                  large,
                  covered-holds k desired.edge_bps cost,
                  release,
                )
                (trimmed d cur m h)
        ]
      ]

  -- When all the orders of the plan have filled, the position is the one aimed at. A target on the
  -- position's side with fewer shares is reached exactly where partial reductions are enabled,
  -- unless the excess is below the churn threshold or a positive multiple of what the trim costs is
  -- covered by the edge: then the position stays as it is. In every other case the position is the
  -- one that the planner without partial reductions aims at.
  pub filled-target_plan :
      (fraction : fl.Float) (desired : DesiredPosition fl.Float) (current : Position)
      (at : Option (MarketContext ds.dec.Float)) (config : Option (PositionManagerConfig fl.Float))
      → filled current.quantity (target_plan ds fraction desired current at config).orders
        ≡ trimmed_aim fraction desired current at config
  unfolding target_plan
  filled-target_plan fraction desired current at none = filled-legacy_plan desired current
  filled-target_plan fraction desired current at (some config) =
      let d = wanted_direction desired.direction desired.target_qty in
      let as_fewer = partial-fewer d current.quantity desired.target_qty in
      elim (Bool-cases config.enable_trim) [
        | inr off ↦ rw off (filled-legacy_plan desired current)
        | inl on ↦ elim (Bool-cases (is_partial d current.quantity (abs desired.target_qty))) [
          | inr other ↦ rw (on, other, sym as_fewer ∙ other) (filled-legacy_plan desired current)
          | inl partial ↦
              rw (on, partial, sym as_fewer ∙ partial)
                (filled-trim_plan fraction desired current.quantity d desired.target_qty at config
                  partial)
        ]
      ]
