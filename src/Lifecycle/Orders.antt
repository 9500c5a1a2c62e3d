-- ===== src/Lifecycle/Orders.antt =====
-- src/feelies/core/order_state.py: the life of an order.
use feelies.Kit.{ℕ, String, ◌≡◌, refl, none, some, List, [], ◌∷◌, Eq}
use feelies.Kit.Dict.{Dict}
use feelies.Kit.Members.{get_elem?, by_value}
use feelies.Machine.{Enum, StateMachine, Fault, Result, create}
use Prim.Native.String.{◌++◌ as append}

pub data OrderState : Type 0 where
  created submitted acknowledged partially_filled filled cancel_requested cancelled rejected
        expired :
      OrderState

abbrev pub members : List OrderState
members =
    created ∷ submitted ∷ acknowledged ∷ partially_filled ∷ filled ∷ cancel_requested ∷ cancelled
    ∷ rejected ∷ expired ∷ []

abbrev pub name : OrderState → String
name created = "CREATED"
name submitted = "SUBMITTED"
name acknowledged = "ACKNOWLEDGED"
name partially_filled = "PARTIALLY_FILLED"
name filled = "FILLED"
name cancel_requested = "CANCEL_REQUESTED"
name cancelled = "CANCELLED"
name rejected = "REJECTED"
name expired = "EXPIRED"

-- The value that `auto()` gives, less one.
abbrev pub value : OrderState → ℕ
value created = 0
value submitted = 1
value acknowledged = 2
value partially_filled = 3
value filled = 4
value cancel_requested = 5
value cancelled = 6
value rejected = 7
value expired = 8

pub found : (s : OrderState) → get_elem? members (value s) ≡ some s
found created = refl
found submitted = refl
found acknowledged = refl
found partially_filled = refl
found filled = refl
found cancel_requested = refl
found cancelled = refl
found rejected = refl
found expired = refl

instance abbrev pub OrderState_Eq : Eq OrderState
OrderState_Eq = by_value members value found

abbrev pub enum : Enum OrderState
enum = record { members = members; name = name }

abbrev pub transitions : Dict OrderState (List OrderState)
transitions =
    (created, submitted ∷ [])
    ∷ (submitted, acknowledged ∷ rejected ∷ [])
    ∷ (
      acknowledged,
      partially_filled ∷ filled ∷ cancel_requested ∷ cancelled ∷ expired ∷ rejected ∷ [],
    )
    ∷ (partially_filled, partially_filled ∷ filled ∷ cancel_requested ∷ cancelled ∷ expired ∷ [])
    ∷ (cancel_requested, cancelled ∷ filled ∷ [])
    ∷ (filled, [])
    ∷ (cancelled, [])
    ∷ (rejected, [])
    ∷ (expired, [])
    ∷ []

module _ {W E : Type 0} where
  -- `create_order_state_machine`
  unfoldable pub create_order_state_machine :
      String → Result (Fault OrderState E) (StateMachine OrderState W E)
  create_order_state_machine order_id =
      create enum (append "order:" order_id) created transitions none none
