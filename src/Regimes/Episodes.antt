-- ===== src/Regimes/Episodes.antt =====
-- One spike in an episode (src/feelies/services/regime_hazard_detector.py: the suppressed keys).
use feelies.Kit.{
  ◌≡◌, refl, ap, Bool, true, false, not, ◌&&◌, ◌||◌, Eq, last_only, Option, none, some, List, [],
  ◌∷◌, Result, ok, err, map_ok, arith, Bool-cases, inl, inr, ◌⊎◌, pair_Eq, string_Eq, eqb_self,
}
use feelies.Kit.Floats.{Floats}
use feelies.Exits.{listed}
use feelies.Kit.Int.{pos_part, eqb_ℤ}
use feelies.Regimes.{
  at, floor_of, spike_of, RegimeState, RegimeHazardSpike, ContractError, Key, discard, discard_each,
  stale, resolves, rearm_suppression, validate_pair, decide, detect, key_of, when_valid,
}

-- Whether there is a spike, and it is for a key.
abbrev pub is_for : {R : Type 0} → Key → Option (RegimeHazardSpike R) → Bool
is_for k none = false
is_for k (some s) = pair_Eq.eqb ((s.symbol, s.engine_name), s.departing_state) k

module _ {K : Type 0} ⦃e : Eq K⦄ where
  discard-listed : (j k : K) (s : List K) → listed k (discard j s) ≡ not (e.eqb j k) && listed k s
  discard-listed j k [] = ground arith
  discard-listed j k (x ∷ s) =
      ground (arith, e.eqb_iff x j, e.eqb_iff x k, e.eqb_iff j k, discard-listed j k s)

  discard_each-listed :
      (js : List K) (k : K) (s : List K)
      → listed k (discard_each js s) ≡ not (listed k js) && listed k s
  discard_each-listed [] k s = refl
  discard_each-listed (j ∷ js) k s =
      ground (arith, discard_each-listed js k (discard j s), discard-listed j k s)

  -- A key that is not in a list, which another one is, is the other one not.
  unlisted-differs :
      (j k : K) (s : List K) → listed j s ≡ false → listed k s ≡ true → e.eqb j k ≡ false
  unlisted-differs j k s h g = ground (arith, e.eqb_iff j k)

Result-cases : {F A : Type 0} (r : Result F A) → ((a : A) × (r ≡ ok a)) ⊎ ((e : F) × (r ≡ err e))
Result-cases (ok a) = inl (a, refl)
Result-cases (err e) = inr (e, refl)

module _ (fl : Floats) (threshold : fl.Float) where
  stale-listed :
      (prev curr : RegimeState fl.Float) (k : Key) (s : List Key)
      → listed k (stale fl threshold prev curr s) ≡ resolves fl threshold prev curr k && listed k s
  stale-listed prev curr k [] = ground arith
  stale-listed prev curr k (x ∷ s) = elim (Bool-cases (pair_Eq.eqb x k)) [
    | inl same ↦
        rw ((pair_Eq.eqb_iff x k).0 same) (elim (Bool-cases (resolves fl threshold prev curr k)) [
          | inl over ↦ rw (over, eqb_self k) refl
          | inr stays ↦ rw (stays, stale-listed prev curr k s, stays) refl
        ])
    | inr other ↦ elim (Bool-cases (resolves fl threshold prev curr x)) [
      | inl over ↦ rw (over, other) (stale-listed prev curr k s)
      | inr stays ↦ rw (stays, other) (stale-listed prev curr k s)
    ]
  ]

  -- Re-arming drops exactly the keys whose episode is over.
  rearm-listed :
      (prev curr : RegimeState fl.Float) (k : Key) (s : List Key)
      → listed k (rearm_suppression fl threshold prev curr s)
        ≡ not (resolves fl threshold prev curr k) && listed k s
  unfolding rearm_suppression
  rearm-listed prev curr k s =
      ground (
        arith,
        discard_each-listed (stale fl threshold prev curr s) k s,
        stale-listed prev curr k s,
      )

  decide-silent :
      (prev curr : RegimeState fl.Float) (k : Key) (s : List Key)
      → listed k s ≡ true
      → let (s', spike) = decide fl threshold prev curr s in
        (listed k s' ≡ true) × (is_for k spike ≡ false)
  unfolding decide
  decide-silent prev curr k s h =
      let departing = pos_part prev.dominant_state in
      let state = at "" prev.state_names departing in
      let p_prev = at (fl.literal 0 0) prev.posteriors departing in
      let p_now = at (fl.literal 0 0) curr.posteriors departing in
      let flipped = not (eqb_ℤ curr.dominant_state prev.dominant_state) in
      let key : Key = ((curr.symbol, curr.engine_name), state) in
      elim (Bool-cases (fl.less_eq p_prev p_now)) [
        | inl firm ↦ rw firm (h, refl)
        | inr decays ↦ elim (Bool-cases (flipped || fl.less p_now (floor_of fl threshold))) [
          | inr mild ↦ rw (decays, mild) (h, refl)
          | inl sharp ↦ elim (Bool-cases (listed key s)) [
            | inl known ↦ rw (decays, sharp, known) (h, refl)
            | inr fresh ↦
                rw (decays, sharp, fresh, unlisted-differs key k s fresh h, h) (refl, refl)
          ]
        ]
      ]

  decide-records :
      (prev curr : RegimeState fl.Float) (s : List Key) (spike : RegimeHazardSpike fl.Float)
      → let (s', emitted) = decide fl threshold prev curr s in
        emitted ≡ some spike → listed (key_of fl spike) s' ≡ true
  unfolding decide
  decide-records prev curr s spike h =
      let departing = pos_part prev.dominant_state in
      let state = at "" prev.state_names departing in
      let p_prev = at (fl.literal 0 0) prev.posteriors departing in
      let p_now = at (fl.literal 0 0) curr.posteriors departing in
      let key : Key = ((curr.symbol, curr.engine_name), state) in
      last_only (λ s' spike. listed (key_of fl spike) s' ≡ true) (fl.less_eq p_prev p_now)
        (not (
          not (eqb_ℤ curr.dominant_state prev.dominant_state)
          || fl.less p_now (floor_of fl threshold)))
        (listed key s) s (key ∷ s) (spike_of fl curr departing state p_prev p_now) spike
        (rw (eqb_self key) refl) h

  valid-ok :
      (error : Option ContractError) (decided : List Key × Option (RegimeHazardSpike fl.Float))
      (result : List Key × Option (RegimeHazardSpike fl.Float))
      → when_valid fl error decided ≡ ok result
      → decided ≡ result
  valid-ok none decided result h = ground arith
  valid-ok (some e) decided result h = cc

  detect-silent :
      (prev curr : RegimeState fl.Float) (k : Key) (s : List Key)
      (result : List Key × Option (RegimeHazardSpike fl.Float))
      → listed k s ≡ true
      → resolves fl threshold prev curr k ≡ false
      → detect fl threshold (some prev) curr s ≡ ok result
      → (listed k result.0 ≡ true) × (is_for k result.1 ≡ false)
  unfolding detect
  detect-silent prev curr k s result h open_ d =
      let armed = rearm_suppression fl threshold prev curr s in
      let still : listed k armed ≡ true = rw (rearm-listed prev curr k s, open_, h) refl in
      rw (← valid-ok (validate_pair fl prev curr) (decide fl threshold prev curr armed) result d)
        (decide-silent prev curr k armed still)

  abbrev pub Spikes : Type 0
  Spikes = List (Option (RegimeHazardSpike fl.Float))

  -- The spike of a state, before those of the next ones.
  abbrev followed :
      Result ContractError (List Key × Option (RegimeHazardSpike fl.Float))
      → (List Key → Result ContractError Spikes)
      → Result ContractError Spikes
  followed (err e) later = err e
  followed (ok (s, spike)) later = map_ok (λ spikes. spike ∷ spikes) (later s)

  -- The spikes over the states that come after one.
  unfoldable pub observe :
      RegimeState fl.Float → List (RegimeState fl.Float) → List Key → Result ContractError Spikes
  unfolding detect
  observe prev [] s = ok []
  observe prev (curr ∷ states) s =
      followed (detect fl threshold (some prev) curr s) (λ s'. observe curr states s')

  -- No state of a run resolves a key.
  abbrev pub unresolved : Key → RegimeState fl.Float → List (RegimeState fl.Float) → Bool
  unresolved k prev [] = true
  unresolved k prev (curr ∷ states) =
      not (resolves fl threshold prev curr k) && unresolved k curr states

  abbrev pub none_for : Key → Spikes → Bool
  none_for k [] = true
  none_for k (spike ∷ spikes) = not (is_for k spike) && none_for k spikes

  followed-inv :
      (d : Result ContractError (List Key × Option (RegimeHazardSpike fl.Float)))
      (later : List Key → Result ContractError Spikes) (spikes : Spikes)
      → followed d later ≡ ok spikes
      → (r : List Key × Option (RegimeHazardSpike fl.Float)) × (rest : Spikes) × (d ≡ ok r)
        × (later r.0 ≡ ok rest)
        × (r.1 ∷ rest ≡ spikes)
  followed-inv (err e) later spikes h = cc
  followed-inv (ok r) later spikes h = elim (Result-cases (later r.0)) [
    | inl (rest, done) ↦ (r, rest, refl, done, ground (arith, h, done))
    | inr (e, failed) ↦ ground (arith, h, failed)
  ]

  unresolved-silent :
      (k : Key) (prev : RegimeState fl.Float) (states : List (RegimeState fl.Float)) (s : List Key)
      (spikes : Spikes)
      → listed k s ≡ true
      → unresolved k prev states ≡ true
      → observe prev states s ≡ ok spikes
      → none_for k spikes ≡ true
  unfolding observe
  unresolved-silent k prev [] s [] h u o = refl
  unresolved-silent k prev [] s (spike ∷ spikes) h u o = ground arith
  unresolved-silent k prev (curr ∷ states) s spikes h u o =
      let stays : resolves fl threshold prev curr k ≡ false = ground (arith, u) in
      let later : unresolved k curr states ≡ true = ground (arith, u) in
      let (r, rest, found, more, all) =
        followed-inv (detect fl threshold (some prev) curr s) (λ s'. observe curr states s') spikes
          o in
      let (known, silent) = detect-silent prev curr k s r h stays found in
      rw (← all, silent) (unresolved-silent k curr states r.0 rest known later more)

  -- After a spike, the states that follow give no further spike for its symbol, engine and
  -- departing state until one of them makes that state dominant again or brings its posterior back
  -- above the floor.
  pub detect-once :
      (prev curr : RegimeState fl.Float) (states : List (RegimeState fl.Float)) (s : List Key)
      {s' : List Key} {spike : RegimeHazardSpike fl.Float} {spikes : Spikes}
      → detect fl threshold (some prev) curr s ≡ ok (s', some spike)
      → unresolved (key_of fl spike) curr states ≡ true
      → observe curr states s' ≡ ok spikes
      → none_for (key_of fl spike) spikes ≡ true
  unfolding detect
  detect-once prev curr states s {s' = s'} {spike = spike} {spikes = spikes} found u o =
      let armed = rearm_suppression fl threshold prev curr s in
      let decided = decide fl threshold prev curr armed in
      let same : decided ≡ (s', some spike) =
        valid-ok (validate_pair fl prev curr) decided (s', some spike) found in
      let known : listed (key_of fl spike) s' ≡ true =
        rw (← ap (λ d. d.0) same) (decide-records prev curr armed spike (ap (λ d. d.1) same)) in
      unresolved-silent (key_of fl spike) curr states s' spikes known u o
