-- ===== src/Base/Floats.antt =====
-- The IEEE doubles of the program, which the model does not implement: a type and the operations
-- that the source applies to it.
use Prim.Native.Nat.{ℕ, Ordering}
use mathlib.Core.Bool.{Bool}
use mathlib.Core.Option.{Option}

pub record Floats : Type 1 where
  pub F : Type 0
  -- `x as f64` for an unsigned integer x.
  pub of_nat : ℕ → F
  pub is_finite : F → Bool
  -- `a < b`, false at a NaN.
  pub lt : F → F → Bool
  -- `a <= b`, false at a NaN.
  pub le : F → F → Bool
  -- `a.partial_cmp(&b)`, none at a NaN.
  pub partial_cmp : F → F → Option Ordering
  pub div : F → F → F
  pub add : F → F → F
  pub neg : F → F
  pub powf : F → F → F
  -- `Duration::mul_f64` in nanoseconds; none is its panic, at a product that no `Duration` holds.
  pub mul_duration : ℕ → F → Option ℕ
