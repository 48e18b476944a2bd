-- ===== src/Prelude/Ieee.antt =====
-- The `f64` operations that the source uses, as an interface: IEEE arithmetic is not computed here.
use Prim.Native.Nat.{ℕ}
use mathlib.Core.Bool.{Bool}

pub record Floats : Type 1 where
  pub F : Type 0
  -- `n as f64`, and the literal n / 10 ^ k.
  pub of_nat : ℕ → F
  pub literal : (n k : ℕ) → F
  -- `x as usize` and `x as u64`, which saturate.
  pub to_nat : F → ℕ
  pub neg : F → F
  pub abs : F → F
  pub add : F → F → F
  pub sub : F → F → F
  pub mul : F → F → F
  pub div : F → F → F
  pub fmin : F → F → F
  pub fmax : F → F → F
  pub ln : F → F
  pub ln_1p : F → F
  pub sqrt : F → F
  pub max_value : F
  -- `x < y`, `x <= y` and `x == y`, which are false at NaN.
  pub lt : F → F → Bool
  pub le : F → F → Bool
  pub feq : F → F → Bool
