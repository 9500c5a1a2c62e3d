-- ===== src/Exits/Deadline.antt =====
-- When a slice is closed (src/feelies/risk/deferral_cap.py: `_maybe_emit_exit`).
use feelies.Kit.{
  ℕ, ◌+◌, ◌*◌, String, ◌≡◌, refl, Bool, true, false, not, ◌&&◌, ◌||◌, Option, none, some, List, [],
  ◌∷◌, inl, inr, arith, ap, ◌∙◌, nat_eq, if◌then◌else◌, Bool-cases, string_Eq, pair_Eq, eqb_self,
}
use feelies.Kit.Int.{ℤ, pos, ◌-ℤ◌, is_zero, ltb_ℤ, leb_ℤ, ◌≤ℤ◌}
use feelies.Kit.Dict.{Dict, lookup, lookup-insert}
use feelies.Exits.{DeRiskRequirement, Holdings, is_pending}
use feelies.Exits.Deferral.{
  DeferralPolicy, DeferralCaps, hard_age, session_flatten, Slice, Candidate, ns_per_second, sooner,
  least, max_hold_candidate, later_candidates, first_safe_off, moved_anchor, episode_deadline,
  maybe_emit_exit, emit,
}

abbrev pub is_some : Option DeRiskRequirement → Bool
is_some none = false
is_some (some r) = true

-- Some candidate's deadline has passed.
abbrev any_passed : ℕ → List Candidate → Bool
any_passed now [] = false
any_passed now (d ∷ ds) = leb_ℤ d.0 (pos now) || any_passed now ds

-- What the text of the policy says: a deadline has passed for the anchor `off` and the open time.
abbrev pub is_due : (ℕ → ℤ) → DeferralCaps → DeferralPolicy → ℕ → ℕ → ℕ → Bool
is_due rth_close_ns c p opened off now =
    leb_ℤ (pos (off + p.max_hold_after_safe_off_seconds * ns_per_second)) (pos now)
    || (leb_ℤ (pos (opened + p.hard_exit_age_seconds * ns_per_second)) (pos now)
        || (c.session_flatten_enabled
            && leb_ℤ (rth_close_ns off -ℤ pos c.session_flatten_buffer_ns) (pos now)))

sooner-le : (d c : Candidate) → sooner d c ≡ true → d.0 ≤ℤ c.0
sooner-le d c h = ground arith

not_sooner-le : (d c : Candidate) → sooner d c ≡ false → c.0 ≤ℤ d.0
not_sooner-le d c h = ground arith

least-passed :
    (now : ℕ) (c : Candidate) (ds : List Candidate)
    → not (ltb_ℤ (pos now) (least c ds).0) ≡ (leb_ℤ c.0 (pos now) || any_passed now ds)
least-passed now c [] = ground arith
least-passed now c (d ∷ ds) = elim (Bool-cases (sooner d c)) [
  | inl first ↦
      rw (least, first)
        (least-passed now d ds ∙ earlier d.0 c.0 (any_passed now ds) (sooner-le d c first))
  | inr second ↦
      rw (least, second)
        (least-passed now c ds ∙ later d.0 c.0 (any_passed now ds) (not_sooner-le d c second))
]
  where
    earlier :
        (a b : ℤ) (e : Bool)
        → a ≤ℤ b
        → (leb_ℤ a (pos now) || e) ≡ (leb_ℤ b (pos now) || (leb_ℤ a (pos now) || e))
    earlier a b e h = ground arith

    later :
        (a b : ℤ) (e : Bool)
        → b ≤ℤ a
        → (leb_ℤ b (pos now) || e) ≡ (leb_ℤ b (pos now) || (leb_ℤ a (pos now) || e))
    later a b e h = ground arith

-- After the anchor has moved to the open episode, it is of that episode and keeps its time.
moved-first :
    (d : Dict Slice (ℕ × ℕ)) (key : Slice) (at off opened : ℕ)
    → lookup key d ≡ some (at, off)
    → first_safe_off (lookup key (moved_anchor (lookup key d) (some opened) key d)) (some opened)
      ≡ some (opened, off)
moved-first d key at off opened h = rw h (elim (Bool-cases (nat_eq at opened)) [
  | inl same ↦ rw (same, h, same) refl
  | inr other ↦
      rw (other, lookup-insert key key (opened, off) d, eqb_self key, nat_eq-self opened) refl
])
  where
    nat_eq-self : (n : ℕ) → nat_eq n n ≡ true
    nat_eq-self n = ground arith

two_passed :
    (now : ℕ) (a b : Candidate) (enabled : Bool)
    → any_passed now (a ∷ (if enabled then b ∷ [] else []))
      ≡ (leb_ℤ a.0 (pos now) || (enabled && leb_ℤ b.0 (pos now)))
two_passed now a b true = ground arith
two_passed now a b false = ground arith

module _ (rth_close_ns : ℕ → ℤ) {W : Type 0} (view : W → Holdings Slice)
    (publish : DeRiskRequirement → W → W) (hexdigest : String → String) where
  emit-is_some :
      (c : DeferralCaps) (w : W) (key : Slice) (opened : Option ℕ) (quantity : ℤ) (now : ℕ)
      (correlation_id : String) (d : Candidate)
      → is_some
          (emit rth_close_ns view publish hexdigest c w key opened quantity now correlation_id
            (some d)).2
        ≡ not (ltb_ℤ (pos now) d.0)
  emit-is_some c w key opened quantity now correlation_id (deadline, reason) =
      elim (Bool-cases (ltb_ℤ (pos now) deadline)) [
        | inl early ↦ rw early refl
        | inr due ↦ rw due refl
      ]

  -- The anchor may be of any episode: the call carries it onto the open one.
  carried-eq-is_due :
      (p : DeferralPolicy) (key : Slice) (now : ℕ) (correlation_id : String) (c : DeferralCaps)
      (w : W) (at off opened : ℕ)
      → is_zero ((view w).get key).quantity ≡ false
      → (view w).opened_at_ns key ≡ some opened
      → lookup key c.first_safe_off_ns ≡ some (at, off)
      → is_pending (lookup key c.pending_exit) (some opened) ((view w).get key).quantity ≡ false
      → is_some (maybe_emit_exit rth_close_ns view publish hexdigest p key now correlation_id c w).2
        ≡ is_due rth_close_ns c p opened off now
  unfolding maybe_emit_exit episode_deadline
  carried-eq-is_due p key now correlation_id c w at off opened held time anchor free =
      rw (held, time, free, moved-first c.first_safe_off_ns key at off opened anchor)
        (emit-is_some _ w key (some opened) ((view w).get key).quantity now correlation_id
            (least (max_hold_candidate p off) (later_candidates rth_close_ns c p opened off))
          ∙ least-passed now (max_hold_candidate p off)
              (later_candidates rth_close_ns c p opened off)
          ∙ ap (λ b. leb_ℤ (max_hold_candidate p off).0 (pos now) || b)
              (two_passed now (pos (opened + p.hard_exit_age_seconds * ns_per_second), hard_age)
                (rth_close_ns off -ℤ pos c.session_flatten_buffer_ns, session_flatten)
                c.session_flatten_enabled))

  -- For an open slice whose anchor is of the open episode, with the first unsafe time `off`, and for
  -- which no exit is pending, an exit is published exactly when one of the deadlines has passed: the
  -- hold after the first unsafe time, the age of the position, or, if it is enabled, the end of the
  -- session.
  pub emitted-eq-is_due :
      (p : DeferralPolicy) (key : Slice) (now : ℕ) (correlation_id : String) (c : DeferralCaps)
      (w : W) (off opened : ℕ)
      → is_zero ((view w).get key).quantity ≡ false
      → (view w).opened_at_ns key ≡ some opened
      → lookup key c.first_safe_off_ns ≡ some (opened, off)
      → is_pending (lookup key c.pending_exit) (some opened) ((view w).get key).quantity ≡ false
      → is_some (maybe_emit_exit rth_close_ns view publish hexdigest p key now correlation_id c w).2
        ≡ is_due rth_close_ns c p opened off now
  emitted-eq-is_due p key now correlation_id c w off opened held time anchor free =
      carried-eq-is_due p key now correlation_id c w opened off opened held time anchor free
