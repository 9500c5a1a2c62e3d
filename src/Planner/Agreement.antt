-- ===== src/Planner/Agreement.antt =====
-- The plan of src/feelies/execution/position_manager.py and the translator of
-- src/feelies/core/intent.py decide alike.
use feelies.Kit.{
  zero, suc, String, ◌≡◌, refl, false, Option, Result, ok, map_ok, arith, ap, Bool-cases, inl, inr,
}
use feelies.Kit.Int.{ℤ, pos, negsuc, ◌+ℤ◌, ◌-ℤ◌, negℤ, is_neg}
use feelies.Kit.Floats.{Floats}
use feelies.Market.{SignalDirection, long, short, flat, Signal, Position}
use feelies.Intent.{OrderIntent, ValueError, or_default, translate, by_direction}
use feelies.Kit.Int.{abs}
use feelies.Plan.{
  signed, project, intent_of_leg, target_of_leg, desired_from_signal, order_intent_from_plan,
}
use feelies.Planner.{plan_to, effective, wanted_direction, legacy_plan}

module _ (fl : Floats) where
  -- The plan of a signal, projected onto an intent.
  abbrev pub planned_intent :
      ℤ → Signal fl.Float → Position → Option ℤ → Result ValueError (OrderIntent fl.Float)
  planned_intent default signal position target =
      map_ok (λ d. order_intent_from_plan (legacy_plan d position) signal position)
        (desired_from_signal fl signal target default)

  -- The two, on the integers that they read.
  agrees :
      (d : SignalDirection) (signal : Signal fl.Float) (sym : String) (cur tgt : ℤ)
      → signal.direction ≡ d
      → is_neg tgt ≡ false
      → let (target, direction) = signed d tgt in
        project
          (plan_to sym cur (effective (wanted_direction direction target) cur (abs target))).orders
          signal
          cur
        ≡ by_direction d signal cur tgt
  unfolding project intent_of_leg target_of_leg plan_to by_direction negℤ ◌+ℤ◌ ◌-ℤ◌
  agrees d signal sym cur (negsuc m) e h = cc
  agrees flat signal sym (pos zero) (pos m) e h = refl
  agrees flat signal sym (pos (suc n)) (pos m) e h = ground arith
  agrees flat signal sym (negsuc n) (pos m) e h = ground arith
  agrees long signal sym (pos zero) (pos zero) e h = ground arith
  agrees long signal sym (pos zero) (pos (suc m)) e h = ground arith
  agrees long signal sym (pos (suc n)) (pos m) e h = ground arith
  agrees long signal sym (negsuc n) (pos zero) e h = ground arith
  agrees long signal sym (negsuc n) (pos (suc m)) e h = ground arith
  agrees short signal sym (pos zero) (pos zero) e h = ground arith
  agrees short signal sym (pos zero) (pos (suc m)) e h = ground arith
  agrees short signal sym (pos (suc n)) (pos zero) e h = ground arith
  agrees short signal sym (pos (suc n)) (pos (suc m)) e h = ground arith
  agrees short signal sym (negsuc n) (pos zero) e h = ground arith
  agrees short signal sym (negsuc n) (pos (suc m)) e h = ground arith

  -- The planner's decision, projected onto an order intent, is the translator's, for every signal,
  -- position and target size; both refuse a negative size with the same error.
  pub planned_intent-eq-translate :
      (default : ℤ) (signal : Signal fl.Float) (position : Position) (target : Option ℤ)
      → planned_intent default signal position target ≡ translate default signal position target
  unfolding desired_from_signal order_intent_from_plan legacy_plan translate
  planned_intent-eq-translate default signal position target =
      let tgt = or_default target default in
      elim (Bool-cases (is_neg tgt)) [
        | inl negative ↦ rw negative
        | inr size ↦
            rw size
              (ap ok (agrees signal.direction signal signal.symbol position.quantity tgt refl size))
      ]
