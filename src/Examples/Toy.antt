-- ===== src/Examples/Toy.antt =====
-- A small instance of the float interface for the tests: fixed-point numbers in thousandths.
use feelies.Kit.{ℕ, ◌/◌, ◌*◌, ◌+◌, List, [], ◌∷◌, not, if◌then◌else◌}
use feelies.Kit.Int.{ℤ, pos, negsuc, ◌+ℤ◌, ◌-ℤ◌, ◌*ℤ◌, negℤ, abs, ltb_ℤ}
use feelies.Kit.Floats.{Floats}

-- Division toward zero.
abbrev quotient : ℤ → ℤ → ℤ
quotient (pos a) (pos b) = pos (a / b)
quotient (pos a) (negsuc b) = negℤ (pos (a / (b + 1)))
quotient (negsuc a) (pos b) = negℤ (pos ((a + 1) / b))
quotient (negsuc a) (negsuc b) = pos ((a + 1) / (b + 1))

abbrev sum_of : List ℤ → ℤ
sum_of [] = pos 0
sum_of (x ∷ xs) = x +ℤ sum_of xs

abbrev tens : ℕ → ℕ
tens ℕ.zero = 1
tens (ℕ.suc n) = 10 * tens n

abbrev up : ℤ → ℤ → ℤ
up q a = if ltb_ℤ (q *ℤ pos 1000) a then q +ℤ pos 1 else q

abbrev pub toy : Floats
toy = record {
  Float = ℤ;
  literal = λ m e. pos (m * 1000 / tens e);
  of_int = λ n. n *ℤ pos 1000;
  plus = λ a b. a +ℤ b;
  minus = λ a b. a -ℤ b;
  times = λ a b. quotient (a *ℤ b) (pos 1000);
  over = λ a b. quotient (a *ℤ pos 1000) b;
  neg = negℤ;
  abs_of = abs;
  fsum = sum_of;
  sum = sum_of;
  less = ltb_ℤ;
  less_eq = λ a b. not (ltb_ℤ b a);
  ceil = λ a. up (quotient a (pos 1000)) a;
  trunc = λ a. quotient a (pos 1000);
}
