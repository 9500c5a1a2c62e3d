-- ===== src/Machine/Trail.antt =====
-- The history of a machine (src/feelies/core/state_machine.py) is an unbroken trail: each record
-- starts where the one before it ended, the last one ends in the current state, and a bounded
-- deque never holds more records than its limit.
use feelies.Kit.{
  ℕ, ◌+◌, ◌-◌, ◌≤◌, String, ◌≡◌, refl, ◌∙◌, Option, none, some, List, [], ◌∷◌, ◌++◌, arith, Eq,
  length, drop, length-append, length-drop, zero, suc,
}
use feelies.Machine.{
  Enum, TransitionRecord, ok, StateMachine, Call, push, or_empty, new_record, create, transition,
  reset,
}
use feelies.Kit.Dict.{Dict}

-- Records that lead from one state name to another.
abbrev pub Leads : List TransitionRecord → String → Type 0
Leads [] here = Unit
Leads (r ∷ []) here = r.to_state ≡ here
Leads (r ∷ q ∷ rs) here = (r.to_state ≡ q.from_state) × Leads (q ∷ rs) here

Leads-append :
    (rs : List TransitionRecord) (here : String) (r : TransitionRecord)
    → Leads rs here
    → here ≡ r.from_state
    → Leads (rs ++ (r ∷ [])) r.to_state
Leads-append [] here r h e = refl
Leads-append (q ∷ []) here r h e = (h ∙ e, refl)
Leads-append (q ∷ p ∷ rs) here r h e = (h.0, Leads-append (p ∷ rs) here r h.1 e)

Leads-tail :
    (r : TransitionRecord) (rs : List TransitionRecord) (here : String)
    → Leads (r ∷ rs) here
    → Leads rs here
Leads-tail r [] here h = tt
Leads-tail r (q ∷ rs) here h = h.1

Leads-drop :
    (n : ℕ) (rs : List TransitionRecord) (here : String) → Leads rs here → Leads (drop n rs) here
Leads-drop zero rs here h = h
Leads-drop (suc n) [] here h = tt
Leads-drop (suc n) (r ∷ rs) here h = Leads-drop n rs here (Leads-tail r rs here h)

-- A deque never outgrows its limit, and a limit is at least 1.
abbrev pub Fits : Option ℕ → List TransitionRecord → Type 0
Fits none hs = Unit
Fits (some limit) hs = (length hs ≤ limit) × (1 ≤ limit)

Leads-push :
    (limit : Option ℕ) (hs : List TransitionRecord) (here : String) (r : TransitionRecord)
    → Leads hs here
    → here ≡ r.from_state
    → Leads (push limit hs r) r.to_state
Leads-push none hs here r h e = Leads-append hs here r h e
Leads-push (some n) hs here r h e =
    Leads-drop (length hs + 1 - n) (hs ++ (r ∷ [])) r.to_state (Leads-append hs here r h e)

Fits-push :
    (limit : Option ℕ) (hs : List TransitionRecord) (r : TransitionRecord)
    → Fits limit hs
    → Fits limit (push limit hs r)
Fits-push none hs r h = tt
Fits-push (some n) hs r h = (
  omega (arith, length-drop (length hs + 1 - n) (hs ++ (r ∷ [])), length-append hs (r ∷ [])),
  h.1,
)

-- What holds of a machine between two calls.
pub record IsTrail {S W E : Type 0} (enum : Enum S) (m : StateMachine S W E) : Type 0 where
  pub leads : Leads m.history (enum.name m.state)
  pub fits : Fits m.history_limit m.history

-- A call as its caller chooses it.
pub data Request (S : Type 0) : Type 0 where
  to : S → Request S
  back : Request S

module _ {S W E : Type 0} ⦃eq : Eq S⦄ (enum : Enum S) where
  transition-IsTrail :
      (m : StateMachine S W E) (c : Call) (target : S) (w : W)
      → IsTrail enum m
      → IsTrail enum (transition enum m c target w).0
  unfolding transition
  transition-IsTrail m c target w h = ground (
    arith,
    Leads-push m.history_limit m.history (enum.name m.state)
        (new_record enum m c target (or_empty c.metadata)) h.leads refl,
    Fits-push m.history_limit m.history (new_record enum m c target (or_empty c.metadata)) h.fits,
  )

  reset-IsTrail :
      (m : StateMachine S W E) (c : Call) (w : W)
      → IsTrail enum m
      → IsTrail enum (reset enum m c w).0
  unfolding reset
  reset-IsTrail m c w h =
      let r = new_record enum m c m.initial_state (("type", "reset") ∷ []) in
      ground (
        arith,
        Leads-push m.history_limit m.history (enum.name m.state) r h.leads refl,
        Fits-push m.history_limit m.history r h.fits,
      )

  -- Any sequence of calls; a caller that catches the exceptions goes on with the machine as it is.
  abbrev pub serve : List (Request S × Call) → StateMachine S W E → W → StateMachine S W E × W
  serve [] m w = (m, w)
  serve ((to target, c) ∷ rest) m w =
      let (m', w', _) = transition enum m c target w in serve rest m' w'
  serve ((back, c) ∷ rest) m w = let (m', w', _) = reset enum m c w in serve rest m' w'

  -- From a machine whose history is a trail, every sequence of `transition` and `reset` calls,
  -- refused ones and ones that raise included, leaves a machine whose history is a trail.
  pub serve-IsTrail :
      (calls : List (Request S × Call)) (m : StateMachine S W E) (w : W)
      → IsTrail enum m
      → IsTrail enum (serve calls m w).0
  serve-IsTrail [] m w h = h
  serve-IsTrail ((to target, c) ∷ rest) m w h =
      let (m', w', _) = transition enum m c target w in
      serve-IsTrail rest m' w' (transition-IsTrail m c target w h)
  serve-IsTrail ((back, c) ∷ rest) m w h =
      let (m', w', _) = reset enum m c w in serve-IsTrail rest m' w' (reset-IsTrail m c w h)

  create-IsTrail :
      (name : String) (initial : S) (table : Dict S (List S)) (limit : Option ℕ)
      (key : Option String) {m : StateMachine S W E}
      → create enum name initial table limit key ≡ ok m
      → IsTrail enum m
  unfolding create
  create-IsTrail name initial table none key h = ground arith
  create-IsTrail name initial table (some n) key h = ground arith

  -- The history of a machine that `__init__` made, after any sequence of calls from any callers,
  -- is a trail that ends in the current state and fits its limit.
  pub create-serve-IsTrail :
      (name : String) (initial : S) (table : Dict S (List S)) (limit : Option ℕ)
      (key : Option String) {m : StateMachine S W E} (calls : List (Request S × Call)) (w : W)
      → create enum name initial table limit key ≡ ok m
      → IsTrail enum (serve calls m w).0
  create-serve-IsTrail name initial table limit key {m} calls w h =
      serve-IsTrail calls m w (create-IsTrail name initial table limit key h)
