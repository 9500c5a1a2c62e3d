-- ===== src/Machine/Laws.antt =====
-- What one call of `transition` or `reset` (src/feelies/core/state_machine.py) does, on every
-- branch, told without the helpers that the class calls.
use feelies.Kit.{
  ℕ, zero, suc, ◌+◌, ◌-◌, ◌≤◌, String, ◌≡◌, refl, sym, ap, true, ◌⊎◌, inl, inr, Option, none, some,
  List, [], ◌∷◌, ◌++◌, arith, Eq, Bool-cases, Option-cases, length, drop, length-append,
  length-drop,
}
use mathlib.Core.Bool.{Bool-set}
use mathlib.Core.List.{Mem, mem-cons, not-mem-nil}
use mathlib.Core.Logic.Or
use feelies.Kit.Dict.{Dict, lookup}
use feelies.Machine.{
  Enum, TransitionRecord, Fault, Result, illegal_transition, raised, ok, err, StateMachine, Call,
  Callback, push, contains, can_transition, notify, commit, or_empty, transition, reset,
}

-- The table lists the target for the state.
abbrev pub Edge : {S : Type 0} → ⦃eq : Eq S⦄ → Dict S (List S) → S → S → Type 0
Edge {S} table s t = (ts : List S) × (lookup s table ≡ some ts) × Mem t ts

-- Every callback ran on the record, in order, and none raised: the world goes from the first to the
-- second.
pub data Ran {W E : Type 0} (r : TransitionRecord) : List (Callback W E) → W → W → Type 0 where
  done : {w : W} → Ran r [] w w
  next :
      {callback : Callback W E} {rest : List (Callback W E)} {w w' w'' : W}
      → callback r w ≡ (w', none)
      → Ran r rest w' w''
      → Ran r (callback ∷ rest) w w''

-- The callbacks ran in order up to the first that raised, which leaves this world and exception.
pub data Broke {W E : Type 0} (r : TransitionRecord) (w'' : W) (e : E)
    : List (Callback W E) → W → Type 0 where
  here :
      {callback : Callback W E} {rest : List (Callback W E)} {w : W}
      → callback r w ≡ (w'', some e)
      → Broke r w'' e (callback ∷ rest) w
  next :
      {callback : Callback W E} {rest : List (Callback W E)} {w w' : W}
      → callback r w ≡ (w', none)
      → Broke r w'' e rest w'
      → Broke r w'' e (callback ∷ rest) w

-- The record is put at the end of the history, of which the oldest records go, and only as many as
-- the limit asks for.
abbrev Fitting : Option ℕ → List TransitionRecord → List TransitionRecord → Type 0
Fitting none dropped hs' = dropped ≡ []
Fitting (some limit) dropped hs' = (length hs' ≤ limit) × ((dropped ≡ []) ⊎ (length hs' ≡ limit))

abbrev pub Appended :
    Option ℕ → List TransitionRecord → TransitionRecord → List TransitionRecord → Type 0
Appended limit hs r hs' =
    (dropped : List TransitionRecord) × (hs ++ (r ∷ []) ≡ dropped ++ hs')
    × Fitting limit dropped hs'

drop-rest :
    {A : Type 0} (n : ℕ) (xs : List A)
    → (dropped : List A) × (xs ≡ dropped ++ drop n xs) × (n ≡ 0 → dropped ≡ [])
drop-rest zero xs = ([], refl, λ e. refl)
drop-rest (suc n) [] = ([], refl, λ e. refl)
drop-rest (suc n) (x ∷ xs) =
    let (dropped, e, _) = drop-rest n xs in
    (x ∷ dropped, ap (λ ys. x ∷ ys) e, λ z. absurd (omega arith))

push-Appended :
    (limit : Option ℕ) (hs : List TransitionRecord) (r : TransitionRecord)
    → Appended limit hs r (push limit hs r)
push-Appended none hs r = ([], refl, refl)
push-Appended (some n) hs r =
    let k = length hs + 1 - n in
    let xs = hs ++ (r ∷ []) in
    let (dropped, e, whole) = drop-rest k xs in
    (
      dropped,
      e,
      (
        omega (arith, length-drop k xs, length-append hs (r ∷ [])),
        elim (zero-cases k) [
          | inl none_over ↦ inl (whole none_over)
          | inr over ↦ inr (omega (arith, length-drop k xs, length-append hs (r ∷ [])))
        ],
      ),
    )
  where
    zero-cases : (k : ℕ) → (k ≡ 0) ⊎ (1 ≤ k)
    zero-cases zero = inl refl
    zero-cases (suc k) = inr (omega arith)

module _ {S : Type 0} ⦃eq : Eq S⦄ where
  contains-Mem : (t : S) (ts : List S) → contains t ts ≡ true → Mem t ts
  contains-Mem t [] h = cc
  contains-Mem t (x ∷ xs) h = elim (Bool-cases (eq.eqb x t)) [
    | inl same ↦ mem-cons.1 (Or.inl (sym ((eq.eqb_iff x t).0 same)))
    | inr other ↦ mem-cons.1 (Or.inr (contains-Mem t xs (rw other at h)))
  ]

  Mem-contains : (t : S) (ts : List S) → Mem t ts → contains t ts ≡ true
  Mem-contains t [] m = absurd (not-mem-nil m)
  Mem-contains t (x ∷ xs) m =
      Or.elim (Bool-set _ _) (mem-cons.0 m) (λ e. ground (arith, sym e, eq.eqb_iff x t))
        (λ later. ground (arith, Mem-contains t xs later))

  pub can_transition-Edge :
      {W E : Type 0} (m : StateMachine S W E) (t : S)
      → can_transition m t ≡ true
      → Edge m.transitions m.state t
  can_transition-Edge m t h = elim (Option-cases (lookup m.state m.transitions)) [
    | inl missing ↦ let no = rw missing at h in cc
    | inr (ts, found) ↦ (ts, found, contains-Mem t ts (rw found at h))
  ]

  pub Edge-can_transition :
      {W E : Type 0} (m : StateMachine S W E) (t : S)
      → Edge m.transitions m.state t
      → can_transition m t ≡ true
  Edge-can_transition m t (ts, e, listed) = rw e (Mem-contains t ts listed)

module _ {W E : Type 0} (r : TransitionRecord) where
  -- What `notify` returns for the callbacks from a world.
  abbrev Notified : List (Callback W E) → W → W × Option E → Type 0
  Notified cs w (w', none) = Ran r cs w w'
  Notified cs w (w', some e) = Broke r w' e cs w

  notify-Notified : (cs : List (Callback W E)) (w : W) → Notified cs w (notify cs r w)
  unfolding notify
  notify-Notified [] w = done
  notify-Notified (callback ∷ rest) w = go (notify-Notified rest) (callback r w) refl
    where
      after :
          {w' : W} (x : W × Option E)
          → callback r w ≡ (w', none)
          → Notified rest w' x
          → Notified (callback ∷ rest) w x
      after (v, none) e ran = next e ran
      after (v, some x) e broke = next e broke

      go :
          ((w : W) → Notified rest w (notify rest r w))
          → (p : W × Option E) → callback r w ≡ p
          → Notified
              (callback ∷ rest)
              w
              (elim p.1 [ none ↦ notify rest r p.0 | some e ↦ (p.0, some e) ])
      go ih (w', none) e = after (notify rest r w') e (ih w')
      go ih (w', some x) e = here e

-- What comes out of a call: the machine, the world, and the record or the fault.
abbrev pub Outcome : Type 0 → Type 0 → Type 0 → Type 0
Outcome S W E = StateMachine S W E × W × Result (Fault S E) TransitionRecord

module _ {S W E : Type 0} where
  -- A callback raised: the machine is as it was, and the caller gets the exception.
  abbrev pub Interrupted : StateMachine S W E → TransitionRecord → W → Outcome S W E → Type 0
  Interrupted m r w (m', w', result) =
      (e : E) × Broke r w' e m.callbacks w × (m' ≡ m) × (result ≡ err (raised e))

  -- All the callbacks ran: the state is the target, the record ends the history, and only the
  -- timing sink may have changed beside.
  abbrev pub Committed : StateMachine S W E → TransitionRecord → S → W → Outcome S W E → Type 0
  Committed m r target w (m', w', result) =
      Ran r m.callbacks w w'
      × Appended m.history_limit m.history r m'.history
      × (m' ≡ record m { state = target; history = m'.history; timing_sink = m'.timing_sink })
      × (result ≡ ok r)

module _ {S W E : Type 0} ⦃eq : Eq S⦄ (enum : Enum S) where
  -- The record that a call to a target logs.
  abbrev pub record_of : StateMachine S W E → Call → S → Dict String String → TransitionRecord
  record_of m c target metadata = record {
    machine_name = m.name;
    from_state = enum.name m.state;
    to_state = enum.name target;
    trigger = c.trigger;
    timestamp_ns = c.now_ns;
    correlation_id = c.correlation_id;
    metadata = metadata;
  }

  committed :
      (m : StateMachine S W E) (target : S) (sink : Option (Dict String ℕ)) (r : TransitionRecord)
      (w : W) (notified : W × Option E)
      → Notified r m.callbacks w notified
      → let out = commit m target sink r notified in
        Interrupted m r w out ⊎ Committed m r target w out
  unfolding commit
  committed m target sink r w (w', none) ran =
      inr (ran, push-Appended m.history_limit m.history r, refl, refl)
  committed m target sink r w (w', some e) broke = inl (e, broke, refl, refl)

  -- A transition to a target that the table does not list for the state is refused as an
  -- `IllegalTransition`: the machine and the world are as they were, so no callback ran. For a
  -- listed target the callbacks run on the record of the call, in order. If one raises, those after
  -- it do not run, the machine is as it was, and the exception goes to the caller. If none does, the
  -- state is the target, the record ends the history, of which the oldest records go as far as its
  -- limit asks, nothing else of the machine but the timing sink has changed, and the record is
  -- returned.
  pub transition_outcome :
      (m : StateMachine S W E) (c : Call) (target : S) (w : W)
      → let out = transition enum m c target w in
        let r = record_of m c target (or_empty c.metadata) in
        ((¬ Edge m.transitions m.state target)
          × (out ≡ (m, w, err (illegal_transition m.name m.state target c.trigger))))
        ⊎ (Edge m.transitions m.state target × (Interrupted m r w out ⊎ Committed m r target w out))
  unfolding transition
  transition_outcome m c target w =
      let r = record_of m c target (or_empty c.metadata) in
      elim (Bool-cases (can_transition m target)) [
        | inl may ↦ inr (
          can_transition-Edge m target may,
          rw may
              (committed m target _ r w (notify m.callbacks r w) (notify-Notified r m.callbacks w)),
        )
        | inr may_not ↦ inl ((λ e. let may = Edge-can_transition m target e in cc), rw may_not refl)
      ]

  -- A call of `reset` does what a transition to the initial state does, whatever the table lists.
  pub reset_outcome :
      (m : StateMachine S W E) (c : Call) (w : W)
      → let out = reset enum m c w in
        let r = record_of m c m.initial_state (("type", "reset") ∷ []) in
        Interrupted m r w out ⊎ Committed m r m.initial_state w out
  unfolding reset
  reset_outcome m c w =
      let r = record_of m c m.initial_state (("type", "reset") ∷ []) in
      committed m m.initial_state m.timing_sink r w (notify m.callbacks r w)
        (notify-Notified r m.callbacks w)

  -- A call that fails leaves the machine as it was, whichever way it failed.
  pub transition_error_unchanged :
      (m : StateMachine S W E) (c : Call) (target : S) (w : W) (f : Fault S E)
      → (transition enum m c target w).2 ≡ err f
      → (transition enum m c target w).0 ≡ m
  unfolding transition
  transition_error_unchanged m c target w f h = ground arith
