-- ===== src/Exits/Once.antt =====
-- An exit is asked for once in an episode
-- (src/feelies/risk/deferral_cap.py: `_pending_exit`).
use feelies.Kit.{
  ℕ, String, ◌≡◌, refl, List, [], ◌∷◌, All, ◌∙◌, sym, Bool, true, false, Option, none, some, inl,
  inr, arith, if◌then◌else◌, Bool-cases, string_Eq, pair_Eq, eqb_self,
}
use feelies.Kit.Int.{ℤ, is_zero}
use feelies.Kit.Dict.{lookup, lookup-insert, lookup-erase}
use feelies.Exits.{DeRiskRequirement, Holdings, is_pending}
use feelies.Exits.Closes.{deferral-Closes}
use feelies.Exits.Deferral.{
  DeferralPolicy, DeferralCaps, Slice, Candidate, emit, refreshed, episode_deadline,
  maybe_emit_exit,
}

pending_self : (opened : Option ℕ) (q : ℤ) → is_pending (some (opened, q)) opened q ≡ true
pending_self opened q = ground arith

-- Of the three ways through a handler only the last one publishes.
third_only :
    {C W A : Type 0} {r : A} (P : C → Type 0) (b d : Bool) (x y z : C × W × Option A)
    → x.2 ≡ none
    → y.2 ≡ none
    → (z.2 ≡ some r → P z.0)
    → let result : C × W × Option A = if b then x else if d then y else z in
      result.2 ≡ some r → P result.0
third_only P true d x y z nx ny keep h = cc
third_only P false true x y z nx ny keep h = cc
third_only P false false x y z nx ny keep h = keep h

by_branch :
    {C W A : Type 0} (P : C → Type 0) (b d : Bool) (x y z : C × W × A)
    → P x.0
    → P y.0
    → P z.0
    → P (if b then x else if d then y else z).0
by_branch P true d x y z px py pz = px
by_branch P false true x y z px py pz = py
by_branch P false false x y z px py pz = pz

module _ (rth_close_ns : ℕ → ℤ) {W : Type 0} (view : W → Holdings Slice)
    (publish : DeRiskRequirement → W → W) (hexdigest : String → String) where
  emit-pending :
      (c : DeferralCaps) (w : W) (key : Slice) (opened : Option ℕ) (quantity : ℤ) (now : ℕ)
      (correlation_id : String) (d : Option Candidate) {r : DeRiskRequirement}
      → let (c', w', emitted) =
          emit rth_close_ns view publish hexdigest c w key opened quantity now correlation_id d in
        emitted ≡ some r → is_pending (lookup key c'.pending_exit) opened quantity ≡ true
  emit-pending c w key opened quantity now correlation_id none h = cc
  emit-pending c w key opened quantity now correlation_id (some (deadline, reason)) h = ground (
    arith,
    lookup-insert key key (opened, quantity) c.pending_exit,
    eqb_self key,
    pending_self opened quantity,
  )

  recorded :
      (p : DeferralPolicy) (key : Slice) (now : ℕ) (correlation_id : String) (c : DeferralCaps)
      (w : W) {r : DeRiskRequirement}
      → let (c', w', emitted) =
          maybe_emit_exit rth_close_ns view publish hexdigest p key now correlation_id c w in
        emitted ≡ some r
        → is_pending
            (lookup key c'.pending_exit)
            ((view w).opened_at_ns key)
            ((view w).get key).quantity
          ≡ true
  unfolding maybe_emit_exit
  recorded p key now correlation_id c w h =
      let quantity = ((view w).get key).quantity in
      let opened = (view w).opened_at_ns key in
      let c' = refreshed rth_close_ns view publish hexdigest c key opened quantity in
      third_only (λ c. is_pending (lookup key c.pending_exit) opened quantity ≡ true)
        (is_zero quantity) (is_pending (lookup key c.pending_exit) opened quantity) _ _ _ refl refl
        (emit-pending c' w key opened quantity now correlation_id
          (episode_deadline rth_close_ns c' p key opened))
        h

  -- A later call: on any slice, for any policy, at any time, and in whatever world it finds.
  pub record Attempt : Type 0 where
    pub policy : DeferralPolicy
    pub slice : Slice
    pub now : ℕ
    pub correlation_id : String
    pub world : W

  abbrev attempt : Attempt → DeferralCaps → DeferralCaps × W × Option DeRiskRequirement
  attempt a c =
      maybe_emit_exit rth_close_ns view publish hexdigest a.policy a.slice a.now a.correlation_id c
        a.world

  abbrev pub collected :
      Bool → Option DeRiskRequirement → List DeRiskRequirement → List DeRiskRequirement
  collected true (some r) rs = r ∷ rs
  collected _ _ rs = rs

  -- What a sequence of calls publishes for one slice.
  abbrev pub exits_of : Slice → List Attempt → DeferralCaps → List DeRiskRequirement
  exits_of key [] c = []
  exits_of key (a ∷ rest) c =
      let (c', w', emitted) = attempt a c in
      collected (pair_Eq.eqb a.slice key) emitted (exits_of key rest c')

  -- In every world that the calls find, the store shows this episode for the slice.
  abbrev pub Shows : Slice → Option ℕ → ℤ → Attempt → Type 0
  Shows key opened quantity a =
      ((view a.world).opened_at_ns key ≡ opened) × (((view a.world).get key).quantity ≡ quantity)

  emit-other :
      (c : DeferralCaps) (w : W) (s key : Slice) (opened : Option ℕ) (quantity : ℤ) (now : ℕ)
      (correlation_id : String) (d : Option Candidate)
      → pair_Eq.eqb s key ≡ false
      → let (c', w', emitted) =
          emit rth_close_ns view publish hexdigest c w s opened quantity now correlation_id d in
        lookup key c'.pending_exit ≡ lookup key c.pending_exit
  emit-other c w s key opened quantity now correlation_id none other = refl
  emit-other c w s key opened quantity now correlation_id (some (deadline, reason)) other =
      ground (arith, lookup-insert s key (opened, quantity) c.pending_exit)

  refreshed-other :
      (c : DeferralCaps) (s key : Slice) (opened : Option ℕ) (quantity : ℤ)
      → pair_Eq.eqb s key ≡ false
      → lookup key (refreshed rth_close_ns view publish hexdigest c s opened quantity).pending_exit
        ≡ lookup key c.pending_exit
  refreshed-other c s key opened quantity other = ground (arith, lookup-erase s key c.pending_exit)

  -- A call for another slice leaves what is pending for this one.
  attempt-other :
      (a : Attempt) (key : Slice) (c : DeferralCaps)
      → pair_Eq.eqb a.slice key ≡ false
      → lookup key (attempt a c).0.pending_exit ≡ lookup key c.pending_exit
  unfolding maybe_emit_exit
  attempt-other a key c other =
      let quantity = ((view a.world).get a.slice).quantity in
      let opened = (view a.world).opened_at_ns a.slice in
      let c' = refreshed rth_close_ns view publish hexdigest c a.slice opened quantity in
      let kept = refreshed-other c a.slice key opened quantity other in
      by_branch (λ (c' : DeferralCaps). lookup key c'.pending_exit ≡ lookup key c.pending_exit)
        (is_zero quantity) (is_pending (lookup a.slice c.pending_exit) opened quantity) _ _ _
        (ground (arith, lookup-erase a.slice key c.pending_exit)) kept
        (emit-other c' a.world a.slice key opened quantity a.now a.correlation_id
            (episode_deadline rth_close_ns c' a.policy a.slice opened) other
          ∙ kept)

  -- A call for this slice, for which an exit is pending, publishes none and leaves it pending.
  attempt-same :
      (a : Attempt) (c : DeferralCaps)
      → let opened = (view a.world).opened_at_ns a.slice in
        let quantity = ((view a.world).get a.slice).quantity in
        is_zero quantity ≡ false
        → is_pending (lookup a.slice c.pending_exit) opened quantity ≡ true
        → ((attempt a c).2 ≡ none)
          × (lookup a.slice (attempt a c).0.pending_exit ≡ lookup a.slice c.pending_exit)
  unfolding maybe_emit_exit
  attempt-same a c held pending = rw (held, pending) (refl, refl)

  attempt-silent :
      (key : Slice) (opened : Option ℕ) (quantity : ℤ) (a : Attempt) (c : DeferralCaps)
      → is_zero quantity ≡ false
      → is_pending (lookup key c.pending_exit) opened quantity ≡ true
      → Shows key opened quantity a
      → a.slice ≡ key
      → ((attempt a c).2 ≡ none)
        × (is_pending (lookup key (attempt a c).0.pending_exit) opened quantity ≡ true)
  attempt-silent key opened quantity a c held pending shows e =
      let same = attempt-same a c (rw (e, shows.1) held) (rw (e, shows.0, shows.1) pending) in
      (same.0, rw (sym e, same.1, e) pending)

  exits_of-none :
      (key : Slice) (opened : Option ℕ) (quantity : ℤ) (attempts : List Attempt) (c : DeferralCaps)
      → is_zero quantity ≡ false
      → is_pending (lookup key c.pending_exit) opened quantity ≡ true
      → All (Shows key opened quantity) attempts
      → exits_of key attempts c ≡ []
  exits_of-none key opened quantity [] c held pending shows = refl
  exits_of-none key opened quantity (a ∷ rest) c held pending shows =
      elim (Bool-cases (pair_Eq.eqb a.slice key)) [
        | inl same ↦
            let silent =
              attempt-silent key opened quantity a c held pending shows.0
                ((pair_Eq.eqb_iff a.slice key).0 same) in
            rw (same, silent.0)
              (exits_of-none key opened quantity rest (attempt a c).0 held silent.1 shows.1)
        | inr other ↦ rw other (
            exits_of-none key opened quantity rest (attempt a c).0 held
              (rw (attempt-other a key c other) pending) shows.1)
      ]

  -- After an exit was published for a slice, no further one is published for it in any sequence of
  -- later calls, for this slice and for others, at any times, for any policies and in any worlds,
  -- as long as these show the same opening time and quantity for the slice.
  pub maybe_emit_exit-once :
      (p : DeferralPolicy) (key : Slice) (now : ℕ) (correlation_id : String) (c : DeferralCaps)
      (w : W) {r : DeRiskRequirement} (later : List Attempt)
      → (maybe_emit_exit rth_close_ns view publish hexdigest p key now correlation_id c w).2
        ≡ some r
      → All (Shows key ((view w).opened_at_ns key) ((view w).get key).quantity) later
      → let c' =
          (maybe_emit_exit rth_close_ns view publish hexdigest p key now correlation_id c w).0 in
        exits_of key later c' ≡ []
  maybe_emit_exit-once p key now correlation_id c w later h shows =
      exits_of-none key ((view w).opened_at_ns key) ((view w).get key).quantity later _
        (deferral-Closes publish hexdigest rth_close_ns view p key now correlation_id c w h).2
        (recorded p key now correlation_id c w h) shows
