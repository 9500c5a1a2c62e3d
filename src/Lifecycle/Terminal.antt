-- ===== src/Lifecycle/Terminal.antt =====
-- States with no way out (src/feelies/core/order_state.py, src/feelies/kernel/macro.py,
-- src/feelies/ingestion/data_integrity.py).
use feelies.Kit.{◌≡◌, refl, ◌⊎◌, inl, inr, false, List, [], ◌∷◌, Eq, ◌∙◌}
use mathlib.Core.Path.{ap₂}
use feelies.Kit.Dict.{Dict}
use feelies.Machine.{Enum, StateMachine, Call, allowed, can_transition, transition}
use feelies.Machine.Trace.{drive}
use feelies.Lifecycle.Orders
use feelies.Lifecycle.Orders.{OrderState, OrderState_Eq, filled, cancelled, rejected, expired}
use feelies.Lifecycle.Macro
use feelies.Lifecycle.Macro.{MacroState, MacroState_Eq, shutdown}
use feelies.Lifecycle.Integrity
use feelies.Lifecycle.Integrity.{DataHealth, DataHealth_Eq, corrupted}

no_way_out :
    {S W E : Type 0} ⦃eq : Eq S⦄ (m : StateMachine S W E) (table : Dict S (List S)) (s t : S)
    → m.transitions ≡ table
    → m.state ≡ s
    → allowed table s t ≡ false
    → can_transition m t ≡ false
no_way_out m table s t p q h = ap₂ (λ T x. allowed T x t) p q ∙ h

module _ {S W E : Type 0} ⦃eq : Eq S⦄ (enum : Enum S) where
  stuck :
      (m : StateMachine S W E)
      → ((t : S) → can_transition m t ≡ false)
      → (calls : List (S × Call)) (w : W) (vs : List S) → drive enum calls m w vs ≡ (m, vs)
  unfolding transition
  stuck m h [] w vs = refl
  stuck m h ((t, c) ∷ rest) w vs = rw (h t) (stuck m h rest w vs)

abbrev pub IsTerminal : OrderState → Type 0
IsTerminal s = (s ≡ filled) ⊎ (s ≡ cancelled) ⊎ (s ≡ rejected) ⊎ (s ≡ expired)

-- A filled, cancelled, rejected or expired order stays as it is, whatever transitions are asked
-- of it: no call is accepted and the machine does not change.
pub order_terminal :
    {W E : Type 0} (m : StateMachine OrderState W E) (calls : List (OrderState × Call)) (w : W)
    (vs : List OrderState)
    → m.transitions ≡ Orders.transitions
    → IsTerminal m.state
    → drive Orders.enum calls m w vs ≡ (m, vs)
order_terminal m calls w vs table h = stuck Orders.enum m (λ t. closed t h) calls w vs
  where
    closed : (t : OrderState) → IsTerminal m.state → can_transition m t ≡ false
    closed t (inl e) = no_way_out m Orders.transitions filled t table e refl
    closed t (inr (inl e)) = no_way_out m Orders.transitions cancelled t table e refl
    closed t (inr (inr (inl e))) = no_way_out m Orders.transitions rejected t table e refl
    closed t (inr (inr (inr e))) = no_way_out m Orders.transitions expired t table e refl

-- After a shutdown the stack stays shut down, whatever transitions are asked of it.
pub shutdown_terminal :
    {W E : Type 0} (m : StateMachine MacroState W E) (calls : List (MacroState × Call)) (w : W)
    (vs : List MacroState)
    → m.transitions ≡ Macro.transitions
    → m.state ≡ shutdown
    → drive Macro.enum calls m w vs ≡ (m, vs)
shutdown_terminal m calls w vs table h =
    stuck Macro.enum m (λ t. no_way_out m Macro.transitions shutdown t table h refl) calls w vs

-- A corrupted stream stays corrupted, whatever transitions are asked of it.
pub corrupted_terminal :
    {W E : Type 0} (m : StateMachine DataHealth W E) (calls : List (DataHealth × Call)) (w : W)
    (vs : List DataHealth)
    → m.transitions ≡ Integrity.transitions
    → m.state ≡ corrupted
    → drive Integrity.enum calls m w vs ≡ (m, vs)
corrupted_terminal m calls w vs table h =
    stuck Integrity.enum m (λ t. no_way_out m Integrity.transitions corrupted t table h refl) calls
      w vs
