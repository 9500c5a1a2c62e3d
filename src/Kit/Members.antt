-- ===== src/Kit/Members.antt =====
-- Equality of enum members by their position among the members.
use Prim.Native.Nat.{ℕ, zero, suc}
use mathlib.Core.Path.{◌≡◌, ap}
use mathlib.Core.Logic.{◌↔◌}
use mathlib.Core.Bool.{true}
use mathlib.Core.Option.{Option, none, some}
use mathlib.Core.List.{List, [], ◌∷◌}
use feelies.Kit.Tests.{Eq, nat_eq, nat_eq_iff}

abbrev pub get_elem? {ℓ} : {A : Type ℓ} → List A → ℕ → Option A
get_elem? [] i = none
get_elem? (x ∷ xs) zero = some x
get_elem? (x ∷ xs) (suc i) = get_elem? xs i

module _ {S : Type 0} (members : List S) (value : S → ℕ)
    (found : (s : S) → get_elem? members (value s) ≡ some s) where
  value-injective : (a b : S) → value a ≡ value b → a ≡ b
  value-injective a b h = cc (found a, found b, ap (get_elem? members) h)

  pub value_eq_iff : (a b : S) → (nat_eq (value a) (value b) ≡ true) ↔ (a ≡ b)
  value_eq_iff a b = (
    λ h. value-injective a b ((nat_eq_iff (value a) (value b)).0 h),
    λ e. (nat_eq_iff (value a) (value b)).1 (ap value e),
  )

  abbrev pub by_value : Eq S
  by_value = record { eqb = λ a b. nat_eq (value a) (value b); eqb_iff = value_eq_iff }
