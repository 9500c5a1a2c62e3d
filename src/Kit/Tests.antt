-- ===== src/Kit/Tests.antt =====
-- Boolean tests, the conditional, and equality of keys as an interface.
use Prim.Native.Nat.{ℕ, ◌≤◌, ◌<◌, compare, Ordering}
use Prim.Native.String.{String}
use mathlib.Core.Path.{◌≡◌, refl}
use mathlib.Core.Logic.{◌↔◌, ◌⊎◌, inl, inr}
use mathlib.Core.Bool.{Bool, true, false, ◌&&◌}
use mathlib.Core.Option.{Option, none, some}
use native.Mathlib.Omega.{arith}
use text.Mathlib.Text.{◌==◌ as str_eq}
use text.Mathlib.TextEquality.{eq_iff}

abbrev pub ltb : ℕ → ℕ → Bool
ltb a b = elim (compare a b) [ Ordering.lt ↦ true | _ ↦ false ]

abbrev pub leb : ℕ → ℕ → Bool
leb a b = elim (compare a b) [ Ordering.gt ↦ false | _ ↦ true ]

abbrev pub nat_eq : ℕ → ℕ → Bool
nat_eq a b = elim (compare a b) [ Ordering.eq ↦ true | _ ↦ false ]

infix 1 if◌then◌else◌
abbrev pub if◌then◌else◌ {ℓ} : {A : Type ℓ} → Bool → A → A → A
if true then x else _ = x
if false then _ else y = y

pub ltb→lt : (a b : ℕ) → ltb a b ≡ true → a < b
ltb→lt a b h = ground arith

pub lt→ltb : (a b : ℕ) → a < b → ltb a b ≡ true
lt→ltb a b h = ground arith

pub leb→le : (a b : ℕ) → leb a b ≡ true → a ≤ b
leb→le a b h = ground arith

pub Bool-cases : (b : Bool) → (b ≡ true) ⊎ (b ≡ false)
Bool-cases true = inl refl
Bool-cases false = inr refl

pub Option-cases {ℓ} : {A : Type ℓ} (o : Option A) → (o ≡ none) ⊎ ((a : A) × (o ≡ some a))
Option-cases none = inl refl
Option-cases (some a) = inr (a, refl)

-- Python's `==` on the keys of a dictionary and on the members of an enum.
pub record Eq {ℓ} (A : Type ℓ) : Type ℓ where
  pub eqb : A → A → Bool
  pub eqb_iff : (a b : A) → (eqb a b ≡ true) ↔ (a ≡ b)

-- Symbols, strategy and order ids are texts.
instance abbrev pub string_Eq : Eq String
string_Eq = record { eqb = str_eq; eqb_iff = eq_iff }

pub nat_eq_iff : (a b : ℕ) → (nat_eq a b ≡ true) ↔ (a ≡ b)
nat_eq_iff a b = ground arith

instance abbrev pub nat_Eq : Eq ℕ
nat_Eq = record { eqb = nat_eq; eqb_iff = nat_eq_iff }

abbrev pub pair_eqb {ℓ κ} : {A : Type ℓ} {B : Type κ} ⦃e : Eq A⦄ ⦃f : Eq B⦄ → A × B → A × B → Bool
pair_eqb ⦃e⦄ ⦃f⦄ (a, b) (c, d) = e.eqb a c && f.eqb b d

pub pair_eqb_iff {ℓ κ} :
    {A : Type ℓ} {B : Type κ} ⦃e : Eq A⦄ ⦃f : Eq B⦄ (p q : A × B) → (pair_eqb p q ≡ true) ↔ (p ≡ q)
pair_eqb_iff ⦃e⦄ ⦃f⦄ (a, b) (c, d) = ground (arith, e.eqb_iff a c, f.eqb_iff b d)

instance abbrev pub pair_Eq {ℓ κ} : {A : Type ℓ} {B : Type κ} ⦃e : Eq A⦄ ⦃f : Eq B⦄ → Eq (A × B)
pair_Eq = record { eqb = pair_eqb; eqb_iff = pair_eqb_iff }

pub eqb_self {ℓ} : {A : Type ℓ} ⦃e : Eq A⦄ (a : A) → e.eqb a a ≡ true
eqb_self ⦃e⦄ a = (e.eqb_iff a a).1 refl

-- Of four ways through only the last one has a value.
pub last_only :
    {A B : Type 0} (Q : A → B → Type 0) (a b c : Bool) (s z : A) (t spike : B)
    → Q z t
    → let result : A × Option B =
        if a then (s, none) else if b then (s, none) else if c then (s, none) else (z, some t) in
      result.1 ≡ some spike → Q result.0 spike
last_only Q true b c s z t spike q h = cc
last_only Q false true c s z t spike q h = cc
last_only Q false false true s z t spike q h = cc
last_only Q false false false s z t spike q h =
    let same : t ≡ spike = ground (arith, h) in rw (← same) q
