-- ===== src/Prelude/Words.antt =====
-- Machine words. A word is a native number; wrap-around and saturation are written out.
use Prim.Native.Nat.{ℕ, ◌+◌, ◌-◌, ◌%◌, ◌^◌, min}

-- `u64` and `usize` arithmetic of a release build.
abbrev pub u64_mod : ℕ
u64_mod = 2 ^ 64

abbrev pub wrapping_add : ℕ → ℕ → ℕ
wrapping_add a b = (a + b) % u64_mod

abbrev pub wrapping_sub : ℕ → ℕ → ℕ
wrapping_sub a b = (a + u64_mod - b) % u64_mod

-- The largest 256-bit word, `EVMU256::MAX`.
abbrev pub u256_max : ℕ
u256_max = 2 ^ 256 - 1

-- `saturating_add` of 256-bit words.
abbrev pub saturating_add : ℕ → ℕ → ℕ
saturating_add a b = min (a + b) u256_max

-- Signed integers: `pos n` is n, and `negsuc n` is - (n + 1).
pub data ℤ : Type 0 where
  pos : (n : ℕ) → ℤ
  negsuc : (n : ℕ) → ℤ
