-- ===== src/Machine/Trace.antt =====
-- The states that a machine (src/feelies/core/state_machine.py) passes through are a path in its
-- table, so a state that every path needs cannot be skipped, whatever its callers ask for.
use feelies.Kit.{
  ◌≡◌, ◌⊎◌, inl, inr, Bool, true, ◌&&◌, ◌||◌, Option, none, some, List, [], ◌∷◌, arith, ℕ, String,
  Eq, Bool-cases, if◌then◌else◌,
}
use feelies.Kit.Dict.{Dict}
use feelies.Machine.{
  Enum, TransitionRecord, Result, ok, err, StateMachine, Call, contains, allowed, can_transition,
  notify, commit, transition,
}

-- The states visited, the newest first.
pub data Walk {S : Type 0} ⦃eq : Eq S⦄ (table : Dict S (List S)) (s : S) : List S → S → Type 0 where
  here : Walk table s [] s
  step :
      {vs : List S} {t : S} (u : S)
      → Walk table s vs t
      → allowed table t u ≡ true
      → Walk table s (u ∷ vs) u

abbrev visited {ℓ} : {S : Type 0} {F : Type ℓ} → Result F TransitionRecord → S → List S → List S
visited (ok _) target vs = target ∷ vs
visited (err _) target vs = vs

module _ {S W E : Type 0} ⦃eq : Eq S⦄ (enum : Enum S) where
  -- A sequence of `transition` calls, with the states that it visits, the newest first.
  abbrev pub drive : List (S × Call) → StateMachine S W E → W → List S → StateMachine S W E × List S
  drive [] m w vs = (m, vs)
  drive ((target, c) ∷ rest) m w vs =
      let (m', w', result) = transition enum m c target w in
      drive rest m' w' (visited result target vs)

  commit-Walk :
      (table : Dict S (List S)) (s : S) (m : StateMachine S W E) (target : S)
      (sink : Option (Dict String ℕ)) (r : TransitionRecord) (notified : W × Option E) (vs : List S)
      → m.transitions ≡ table
      → Walk table s vs m.state
      → can_transition m target ≡ true
      → let (m', w', result) = commit m target sink r notified in
        (m'.transitions ≡ table) × Walk table s (visited result target vs) m'.state
  unfolding commit
  commit-Walk table s m target sink r (w, none) vs e p legal = (e, step target p (rw (← e) legal))
  commit-Walk table s m target sink r (w, some x) vs e p legal = (e, p)

  transition-Walk :
      (table : Dict S (List S)) (s : S) (m : StateMachine S W E) (c : Call) (target : S) (w : W)
      (vs : List S)
      → m.transitions ≡ table
      → Walk table s vs m.state
      → let (m', w', result) = transition enum m c target w in
        (m'.transitions ≡ table) × Walk table s (visited result target vs) m'.state
  unfolding transition
  transition-Walk table s m c target w vs e p = elim (Bool-cases (can_transition m target)) [
    | inl legal ↦ rw legal (commit-Walk table s m target _ _ (notify m.callbacks _ w) vs e p legal)
    | inr refused ↦ rw refused (e, p)
  ]

  pub drive-Walk :
      (table : Dict S (List S)) (s : S) (calls : List (S × Call)) (m : StateMachine S W E) (w : W)
      (vs : List S)
      → m.transitions ≡ table
      → Walk table s vs m.state
      → let (m', vs') = drive calls m w vs in Walk table s vs' m'.state
  drive-Walk table s [] m w vs e p = p
  drive-Walk table s ((target, c) ∷ rest) m w vs e p =
      let (m', w', result) = transition enum m c target w in
      let (e', p') = transition-Walk table s m c target w vs e p in
      drive-Walk table s rest m' w' (visited result target vs) e' p'

-- `region` is closed under the edges of the table, but for edges into `gate`: checked by
-- evaluation over the members of the enum.
module _ {S : Type 0} ⦃eq : Eq S⦄ (region : S → Bool) (gate : S) where
  abbrev stays : List S → Bool
  stays [] = true
  stays (t ∷ ts) = (region t || eq.eqb t gate) && stays ts

  abbrev pub enclosed : Dict S (List S) → Bool
  enclosed [] = true
  enclosed ((s, ts) ∷ table) = (if region s then stays ts else true) && enclosed table

  stays-contains :
      (ts : List S) (t : S)
      → stays ts ≡ true
      → contains t ts ≡ true
      → (region t || eq.eqb t gate) ≡ true
  stays-contains [] t h c = cc
  stays-contains (x ∷ xs) t h c = ground (arith, eq.eqb_iff x t, stays-contains xs t)

  enclosed-allowed :
      (table : Dict S (List S)) (s t : S)
      → enclosed table ≡ true
      → region s ≡ true
      → allowed table s t ≡ true
      → (region t || eq.eqb t gate) ≡ true
  enclosed-allowed [] s t h r a = cc
  enclosed-allowed ((x, ts) ∷ table) s t h r a =
      ground (arith, eq.eqb_iff x s, stays-contains ts t, enclosed-allowed table s t)

  -- A path that leaves the region has passed the gate.
  pub Walk-gate :
      (table : Dict S (List S)) (s : S) (vs : List S) (t : S)
      → enclosed table ≡ true
      → region s ≡ true
      → Walk table s vs t
      → (region t ≡ true) ⊎ (contains gate vs ≡ true)
  Walk-gate table s vs t h r here = inl r
  Walk-gate table s vs t h r (step {vs = vs'} {t = t'} u p a) =
      elim (Walk-gate table s vs' t' h r p) [
        | inl inside ↦ ground (arith, enclosed-allowed table t' u)
        | inr passed ↦ inr (ground arith)
      ]
