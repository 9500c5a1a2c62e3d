-- ===== src/Kit/Ring.antt =====
-- The laws of products of integers.
use Prim.Native.Nat.{◌*◌}
use mathlib.Core.Path.{◌≡◌, refl, ap}
use mathlib.Core.Bool.{true, false}
use native.Mathlib.Omega.{arith}
use feelies.Kit.Int.{
  ℤ, pos, negsuc, pos_part, neg_part, ◌+ℤ◌, ◌-ℤ◌, ◌*ℤ◌, is_pos, abs, int_laws, +ℤ_parts, -ℤ_parts,
  *ℤ_parts,
}

pub *ℤ_comm : (a b : ℤ) → a *ℤ b ≡ b *ℤ a
*ℤ_comm a b = omega (int_laws, *ℤ_parts a b, *ℤ_parts b a)

pub +ℤ-mul : (a b c : ℤ) → (a +ℤ b) *ℤ c ≡ a *ℤ c +ℤ b *ℤ c
+ℤ-mul a b c = omega (
  int_laws,
  *ℤ_parts (a +ℤ b) c,
  *ℤ_parts a c,
  *ℤ_parts b c,
  ap (λ t. t * pos_part c) (+ℤ_parts a b),
  ap (λ t. t * neg_part c) (+ℤ_parts a b),
)

pub -ℤ-mul : (a b c : ℤ) → (a -ℤ b) *ℤ c ≡ a *ℤ c -ℤ b *ℤ c
-ℤ-mul a b c = omega (
  int_laws,
  *ℤ_parts (a -ℤ b) c,
  *ℤ_parts a c,
  *ℤ_parts b c,
  ap (λ t. t * pos_part c) (-ℤ_parts a b),
  ap (λ t. t * neg_part c) (-ℤ_parts a b),
)

pub zero-*ℤ : (a : ℤ) → pos 0 *ℤ a ≡ pos 0
zero-*ℤ a = omega (int_laws, *ℤ_parts (pos 0) a)

pub abs_of_pos : (a : ℤ) → is_pos a ≡ true → abs a ≡ a
abs_of_pos (pos n) h = refl
abs_of_pos (negsuc n) h = cc

pub abs_of_not_pos : (a : ℤ) → is_pos a ≡ false → abs a ≡ pos 0 -ℤ a
unfolding ◌-ℤ◌
abs_of_not_pos a h = ground arith

pub diff-mul : (x y a : ℤ) → (x -ℤ y) *ℤ a ≡ a *ℤ x -ℤ a *ℤ y
diff-mul x y a = rw (-ℤ-mul x y a, *ℤ_comm x a, *ℤ_comm y a)

pub diff-mul_neg : (x y a : ℤ) → (x -ℤ y) *ℤ (pos 0 -ℤ a) ≡ a *ℤ y -ℤ a *ℤ x
diff-mul_neg x y a =
    rw
      (
        *ℤ_comm (x -ℤ y) (pos 0 -ℤ a),
        -ℤ-mul (pos 0) a (x -ℤ y),
        zero-*ℤ (x -ℤ y),
        *ℤ_comm a (x -ℤ y),
        diff-mul x y a,
      )
      (omega int_laws)

pub mul-neg : (v c : ℤ) → v *ℤ (pos 0 -ℤ c) ≡ pos 0 -ℤ v *ℤ c
mul-neg v c = rw (*ℤ_comm v (pos 0 -ℤ c), -ℤ-mul (pos 0) c v, zero-*ℤ v, *ℤ_comm c v)

pub mul-+ℤ : (v a b : ℤ) → v *ℤ (a +ℤ b) ≡ v *ℤ a +ℤ v *ℤ b
mul-+ℤ v a b = rw (*ℤ_comm v (a +ℤ b), +ℤ-mul a b v, *ℤ_comm a v, *ℤ_comm b v)

pub mul-zero : (a : ℤ) → a *ℤ pos 0 ≡ pos 0
mul-zero a = rw (*ℤ_comm a (pos 0)) (zero-*ℤ a)
