-- ===== src/Lifecycle/Levels.antt =====
-- Runs of the risk escalation machine (src/feelies/core/escalation.py) and of an order's machine
-- (src/feelies/core/order_state.py).
use feelies.Kit.{
  ℕ, ◌+◌, ◌%◌, String, ◌≡◌, ◌≢◌, refl, ap, ◌∙◌, ◌⊎◌, inl, inr, Bool, true, false, List, [], ◌∷◌,
  arith, Bool-cases,
}
use mathlib.Core.Path.{subst}
use feelies.Machine.{
  StateMachine, Call, Fault, Result, ok, err, TransitionRecord, contains, allowed, create,
  transition, reset,
}
use feelies.Machine.Laws.{Edge-can_transition, transition_outcome, reset_outcome}
use feelies.Machine.Trace.{Walk, here, step, drive, Walk-gate}
use feelies.Machine.Trail.{Request, to, back}
use feelies.Lifecycle.Gates.{run-Walk}
use feelies.Lifecycle.Orders
use feelies.Lifecycle.Orders.{
  OrderState, OrderState_Eq, created, submitted, acknowledged, partially_filled, filled,
  cancel_requested, cancelled, rejected, expired, create_order_state_machine,
}
use feelies.Lifecycle.Escalation
use feelies.Lifecycle.Escalation.{RiskLevel, RiskLevel_Eq, normal, create_risk_escalation_machine}

next_level :
    (t u : RiskLevel)
    → allowed Escalation.transitions t u ≡ true
    → Escalation.value u ≡ (Escalation.value t + 1) % 5
next_level t u h = ground arith

abbrev counted : {E : Type 0} → Result (Fault RiskLevel E) TransitionRecord → ℕ → ℕ → ℕ
counted (ok _) after before = after
counted (err _) after before = before

module _ {W E : Type 0} where
  -- A sequence of `transition` and `reset` calls, with the number of transitions that went through
  -- since the last reset that did.
  abbrev pub climb :
      List (Request RiskLevel × Call)
      → StateMachine RiskLevel W E
      → W
      → ℕ
      → StateMachine RiskLevel W E × ℕ
  climb [] m w n = (m, n)
  climb ((to target, c) ∷ rest) m w n =
      let (m', w', result) = transition Escalation.enum m c target w in
      climb rest m' w' (counted result (n + 1) n)
  climb ((back, c) ∷ rest) m w n =
      let (m', w', result) = reset Escalation.enum m c w in climb rest m' w' (counted result 0 n)

  record IsLadder (m : StateMachine RiskLevel W E) (n : ℕ) : Type 0 where
    table : m.transitions ≡ Escalation.transitions
    bottom : m.initial_state ≡ normal
    rung : Escalation.value m.state ≡ n % 5

  transition-IsLadder :
      (m : StateMachine RiskLevel W E) (c : Call) (target : RiskLevel) (w : W) (n : ℕ)
      → IsLadder m n
      → let (m', w', result) = transition Escalation.enum m c target w in
        IsLadder m' (counted result (n + 1) n)
  transition-IsLadder m c target w n h = elim (transition_outcome Escalation.enum m c target w) [
    | inl (_, same) ↦ rw same h
    | inr (edge, inl (_, _, same, failed)) ↦ rw (same, failed) h
    | inr (edge, inr (_, _, changed, logged)) ↦
        let step : allowed Escalation.transitions m.state target ≡ true =
          subst (λ t. allowed t m.state target ≡ true) h.table
            (Edge-can_transition m target edge) in
        rw logged (record {
          table = ap (λ m. m.transitions) changed ∙ h.table;
          bottom = ap (λ m. m.initial_state) changed ∙ h.bottom;
          rung =
              ap (λ m. Escalation.value m.state) changed
              ∙ omega (arith, next_level m.state target step, h.rung);
        })
  ]

  reset-IsLadder :
      (m : StateMachine RiskLevel W E) (c : Call) (w : W) (n : ℕ)
      → IsLadder m n
      → let (m', w', result) = reset Escalation.enum m c w in IsLadder m' (counted result 0 n)
  reset-IsLadder m c w n h = elim (reset_outcome Escalation.enum m c w) [
    | inl (_, _, same, failed) ↦ rw (same, failed) h
    | inr (_, _, changed, logged) ↦ rw logged (record {
      table = ap (λ m. m.transitions) changed ∙ h.table;
      bottom = ap (λ m. m.initial_state) changed ∙ h.bottom;
      rung = ap (λ m. Escalation.value m.state) changed ∙ ap Escalation.value h.bottom;
    })
  ]

  climb-IsLadder :
      (calls : List (Request RiskLevel × Call)) (m : StateMachine RiskLevel W E) (w : W) (n : ℕ)
      → IsLadder m n
      → let (m', k) = climb calls m w n in IsLadder m' k
  climb-IsLadder [] m w n h = h
  climb-IsLadder ((to target, c) ∷ rest) m w n h =
      let (m', w', result) = transition Escalation.enum m c target w in
      climb-IsLadder rest m' w' (counted result (n + 1) n) (transition-IsLadder m c target w n h)
  climb-IsLadder ((back, c) ∷ rest) m w n h =
      let (m', w', result) = reset Escalation.enum m c w in
      climb-IsLadder rest m' w' (counted result 0 n) (reset-IsLadder m c w n h)

  -- After any sequence of transition and reset calls, refused ones and ones that raise included, the
  -- level is the number of transitions that went through since the last reset that did, counted
  -- round the ladder NORMAL, WARNING, BREACH_DETECTED, FORCED_FLATTEN, LOCKED. So no transition
  -- skips a rung or goes back by one: one to NORMAL starts at LOCKED.
  pub escalation_ladder :
      {m : StateMachine RiskLevel W E} (calls : List (Request RiskLevel × Call)) (w : W)
      → create_risk_escalation_machine ≡ ok m
      → let (m', n) = climb calls m w 0 in Escalation.value m'.state ≡ n % 5
  unfolding create_risk_escalation_machine create
  escalation_ladder {m = m} calls w h =
      (climb-IsLadder calls m w 0
        (record { table = ground arith; bottom = ground arith; rung = ground arith })).rung

-- The states that an order may be in before its broker has acknowledged it.
abbrev pub is_early : OrderState → Bool
is_early created = true
is_early submitted = true
is_early rejected = true
is_early _ = false

has_fills : OrderState → Bool
has_fills partially_filled = true
has_fills filled = true
has_fills cancel_requested = true
has_fills cancelled = true
has_fills expired = true
has_fills _ = false

has_fills-allowed :
    (t u : OrderState)
    → has_fills t ≡ true
    → allowed Orders.transitions t u ≡ true
    → has_fills u ≡ true
unfolding has_fills
has_fills-allowed t u h a = ground arith

fills-Walk :
    {vs : List OrderState} {t : OrderState}
    → Walk Orders.transitions created vs t
    → contains partially_filled vs ≡ true
    → has_fills t ≡ true
unfolding has_fills
fills-Walk here h = cc
fills-Walk (step {t = t} partially_filled p edge) h = refl
fills-Walk (step {t = t} u p edge) h = has_fills-allowed t u (fills-Walk p h) edge

-- Of an order that its machine has created and led through any transitions: unless it is still
-- early or was rejected, its broker has acknowledged it; and once it has been partially filled it
-- cannot be rejected any more.
pub order_history :
    {W E : Type 0} {m : StateMachine OrderState W E} (order_id : String)
    (calls : List (OrderState × Call)) (w : W)
    → create_order_state_machine order_id ≡ ok m
    → let (m', vs) = drive Orders.enum calls m w [] in
      ((is_early m'.state ≡ true) ⊎ (contains acknowledged vs ≡ true))
      × ((contains partially_filled vs ≡ false) ⊎ (m'.state ≢ rejected))
unfolding create_order_state_machine create
order_history {m = m} order_id calls w h =
    let (m', vs) = drive Orders.enum calls m w [] in
    let path =
      run-Walk Orders.enum Orders.transitions created m calls w (ground arith) (ground arith) in
    (
      Walk-gate is_early acknowledged Orders.transitions created vs m'.state refl refl path,
      elim (Bool-cases (contains partially_filled vs)) [
        | inl partly ↦ inr (λ e. unfold has_fills in ground (arith, fills-Walk path partly))
        | inr never ↦ inl never
      ],
    )
