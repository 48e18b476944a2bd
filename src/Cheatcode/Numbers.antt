-- ===== src/Cheatcode/Numbers.antt =====
-- The numbers of evm/middlewares/cheatcode/assert.rs: `U256` as native numbers, `I256` as integers
-- from - 2 ^ 255 to 2 ^ 255 - 1, with the methods that the source calls.
use ityfuzz_rl_src.Prelude.{
  ℕ, zero, suc, ◌+◌, ◌-◌, ◌*◌, ◌/◌, ◌%◌, ◌^◌, ◌<◌, Bool, true, false, Option, none, some,
  if◌then◌else◌, ltb, leb, ◌==◌, u256_max,
}
pub use ityfuzz_rl_src.Prelude.{ℤ, pos, negsuc}

abbrev pub IsInt : ℤ → Type 0
IsInt (pos n) = n < 2 ^ 255
IsInt (negsuc n) = n < 2 ^ 255

-- The place of an integer in the order, from 0 for the least.
abbrev pub place_of : ℤ → ℕ
place_of (pos n) = 2 ^ 255 + n
place_of (negsuc n) = 2 ^ 255 - 1 - n

-- `into_sign_and_abs`; the sign is true for the integers below 0.
abbrev pub is_negative : ℤ → Bool
is_negative (pos n) = false
is_negative (negsuc n) = true

abbrev pub unsigned_abs : ℤ → ℕ
unsigned_abs (pos n) = n
unsigned_abs (negsuc n) = suc n

abbrev pub is_zero : ℤ → Bool
is_zero x = unsigned_abs x == 0

abbrev pub int_equal : ℤ → ℤ → Bool
int_equal (pos m) (pos n) = m == n
int_equal (pos m) (negsuc n) = false
int_equal (negsuc m) (pos n) = false
int_equal (negsuc m) (negsuc n) = m == n

abbrev pub int_less : ℤ → ℤ → Bool
int_less (pos m) (pos n) = ltb m n
int_less (pos m) (negsuc n) = false
int_less (negsuc m) (pos n) = true
int_less (negsuc m) (negsuc n) = ltb n m

-- `+` of `U256` wraps around, `checked_mul` tells, and `/` panics at 0.
abbrev pub u256_add : ℕ → ℕ → ℕ
u256_add a b = (a + b) % 2 ^ 256

abbrev pub checked_mul : ℕ → ℕ → Option ℕ
checked_mul a b = if leb (a * b) u256_max then some (a * b) else none

abbrev pub u256_div : ℕ → ℕ → Option ℕ
u256_div a zero = none
u256_div a (suc b) = some (a / suc b)
