-- ===== src/Kit/Floats.antt =====
-- Python's `float` as an interface: a type with the operations that the code uses, and no laws.
use Prim.Native.Nat.{ℕ}
use mathlib.Core.Bool.{Bool}
use mathlib.Core.List.{List}
use feelies.Kit.Int.{ℤ}

pub record Floats : Type 1 where
  pub Float : Type 0
  -- `literal m e` is the literal m × 10^-e.
  pub literal : ℕ → ℕ → Float
  -- `float(n)`
  pub of_int : ℤ → Float
  pub plus : Float → Float → Float
  pub minus : Float → Float → Float
  pub times : Float → Float → Float
  pub over : Float → Float → Float
  pub neg : Float → Float
  pub abs_of : Float → Float
  -- `math.fsum(xs)`
  pub fsum : List Float → Float
  pub less : Float → Float → Bool
  pub less_eq : Float → Float → Bool
  -- `math.ceil(x)` and `int(x)`
  pub ceil : Float → ℤ
  pub trunc : Float → ℤ
  -- `sum(xs)`
  pub sum : List Float → Float
