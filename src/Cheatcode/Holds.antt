-- ===== src/Cheatcode/Holds.antt =====
-- evm/middlewares/cheatcode/assert.rs: what each assertion asks for, without the code's checks.
use ityfuzz_rl_src.Prelude.{
  ℕ, ◌+◌, ◌-◌, ◌*◌, ◌^◌, ◌≤◌, ◌<◌, ◌≡◌, true, false, List, [], ◌∷◌, u256_max,
}
use ityfuzz_rl_src.Cheatcode.Numbers.{IsInt, place_of, unsigned_abs}
use ityfuzz_rl_src.Cheatcode.Asserts.{Message}
use ityfuzz_rl_src.Cheatcode.Calls.{
  Number, n_uint, n_int, Num, VmCall, true_call, false_call, eq_call, not_eq_call, eq_arrays_call,
  not_eq_arrays_call, eq_decimal_call, not_eq_decimal_call, gt_call, ge_call, lt_call, le_call,
  approx_abs_call, approx_rel_call,
}

abbrev pub place : (n : Number) → Num n → ℕ
place n_uint x = x
place n_int x = place_of x

abbrev pub magnitude : (n : Number) → Num n → ℕ
magnitude n_uint x = x
magnitude n_int x = unsigned_abs x

abbrev pub apart : ℕ → ℕ → ℕ
apart a b = a - b + (b - a)

-- The scaled difference fits 256 bits, and its quotient by the right side is at most the bound.
abbrev pub IsNear : (difference divisor max_delta : ℕ) → Type 0
IsNear difference divisor max_delta =
    (difference * 10 ^ 18 ≤ u256_max) × (difference * 10 ^ 18 < (max_delta + 1) * divisor)

abbrev pub Holds : VmCall → Type 0
Holds (true_call condition) = condition ≡ true
Holds (false_call condition) = condition ≡ false
Holds (eq_call k left right) = left ≡ right
Holds (not_eq_call k left right) = left ≡ right → ⊥
Holds (eq_arrays_call k left right) = left ≡ right
Holds (not_eq_arrays_call k left right) = left ≡ right → ⊥
Holds (eq_decimal_call n left right decimals) = left ≡ right
Holds (not_eq_decimal_call n left right decimals) = left ≡ right → ⊥
Holds (gt_call n left right decimals) = place n right < place n left
Holds (ge_call n left right decimals) = place n right ≤ place n left
Holds (lt_call n left right decimals) = place n left < place n right
Holds (le_call n left right decimals) = place n left ≤ place n right
Holds (approx_abs_call n left right max_delta decimals) =
    apart (place n left) (place n right) ≤ max_delta
Holds (approx_rel_call n left right max_delta decimals) =
    IsNear (apart (place n left) (place n right)) (magnitude n right) max_delta

abbrev pub InRange : (n : Number) → Num n → Type 0
InRange n_uint x = x ≤ u256_max
InRange n_int x = IsInt x

-- Numbers within their types, and no relative comparison of 0 with 0.
abbrev pub IsProper : VmCall → Type 0
IsProper (true_call condition) = Unit
IsProper (false_call condition) = Unit
IsProper (eq_call k left right) = Unit
IsProper (not_eq_call k left right) = Unit
IsProper (eq_arrays_call k left right) = Unit
IsProper (not_eq_arrays_call k left right) = Unit
IsProper (eq_decimal_call n left right decimals) = Unit
IsProper (not_eq_decimal_call n left right decimals) = Unit
IsProper (gt_call n left right decimals) = InRange n left × InRange n right
IsProper (ge_call n left right decimals) = InRange n left × InRange n right
IsProper (lt_call n left right decimals) = InRange n left × InRange n right
IsProper (le_call n left right decimals) = InRange n left × InRange n right
IsProper (approx_abs_call n left right max_delta decimals) = InRange n left × InRange n right
IsProper (approx_rel_call n left right max_delta decimals) =
    InRange n left × InRange n right × (0 < magnitude n left + magnitude n right)

abbrev pub AllHold : List (Message × VmCall) → Type 0
AllHold [] = Unit
AllHold ((error, call) ∷ calls) = Holds call × AllHold calls

abbrev pub AllProper : List (Message × VmCall) → Type 0
AllProper [] = Unit
AllProper ((error, call) ∷ calls) = IsProper call × AllProper calls
