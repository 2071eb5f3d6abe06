-- ===== src/Common/Float.antt =====
-- What the program uses of `float64`. Floats are not part of the model: the type and its
-- operations are a parameter, and what a theorem needs of them is stated where it is needed.
use Prim.Native.Nat.{ℕ}
use mathlib.Core.Bool.{Bool}

pub record Float : Type 1 where
  pub F : Type 0
  -- `float64(n)` for a whole number, and the constant 0.5
  pub of_nat : ℕ → F
  pub half : F
  pub add : F → F → F
  pub mul : F → F → F
  pub div : F → F → F
  -- `float64(int(f))`
  pub truncate : F → F
  -- `<=` and `<`
  pub le : F → F → Bool
  pub lt : F → F → Bool
  -- `==`
  pub eq : F → F → Bool
