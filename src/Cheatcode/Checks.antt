-- ===== src/Cheatcode/Checks.antt =====
-- evm/middlewares/cheatcode/assert.rs: the checks, from `assert_eq` to `assert_le`.
use ityfuzz_rl_src.Prelude.{
  ℕ, ◌-◌, ◌^◌, Bool, true, false, not, ◌&&◌, Option, none, some, if◌then◌else◌, ltb, leb, ◌==◌,
}
use ityfuzz_rl_src.Cheatcode.Numbers.{
  ℤ, is_negative, unsigned_abs, is_zero, u256_add, checked_mul, u256_div,
}
use ityfuzz_rl_src.Cheatcode.Errors.{
  CheckResult, ok, err, ComparisonAssertionError, ne, eq, ge, gt, le, lt, EqAbsAssertionError,
  EqRelDelta, defined, undefined, EqRelAssertionError, failure, overflow, eq_rel_delta_resolution,
}

abbrev pub ComparisonResult : Type 0 → Type 0
ComparisonResult T = CheckResult (ComparisonAssertionError T)

-- `PartialEq` is the first argument, and `PartialOrd` of a total order.
unfoldable pub assert_eq : {T : Type 0} → (equal : T → T → Bool) → T → T → ComparisonResult T
assert_eq equal left right = if equal left right then ok else err (eq left right)

unfoldable pub assert_not_eq : {T : Type 0} → (equal : T → T → Bool) → T → T → ComparisonResult T
assert_not_eq equal left right = if equal left right then err (ne left right) else ok

unfoldable pub assert_gt : {T : Type 0} → (less : T → T → Bool) → T → T → ComparisonResult T
assert_gt less left right = if less right left then ok else err (gt left right)

unfoldable pub assert_ge : {T : Type 0} → (less : T → T → Bool) → T → T → ComparisonResult T
assert_ge less left right = if less left right then err (ge left right) else ok

unfoldable pub assert_lt : {T : Type 0} → (less : T → T → Bool) → T → T → ComparisonResult T
assert_lt less left right = if less left right then ok else err (lt left right)

unfoldable pub assert_le : {T : Type 0} → (less : T → T → Bool) → T → T → ComparisonResult T
assert_le less left right = if less right left then err (le left right) else ok

unfoldable pub get_delta_uint : ℕ → ℕ → ℕ
get_delta_uint left right = if ltb right left then left - right else right - left

abbrev same_sign : Bool → Bool → Bool
same_sign true b = b
same_sign false b = not b

unfoldable pub get_delta_int : ℤ → ℤ → ℕ
get_delta_int left right =
    if same_sign (is_negative left) (is_negative right)
    then (if ltb (unsigned_abs right) (unsigned_abs left)
        then unsigned_abs left - unsigned_abs right
        else unsigned_abs right - unsigned_abs left)
    else u256_add (unsigned_abs left) (unsigned_abs right)

abbrev within : {T : Type 0} → T → T → ℕ → ℕ → CheckResult (EqAbsAssertionError T)
within left right max_delta delta =
    if leb delta max_delta
    then ok
    else err (record { left = left; right = right; max_delta = max_delta; real_delta = delta })

unfoldable pub uint_assert_approx_eq_abs :
    (left right max_delta : ℕ) → CheckResult (EqAbsAssertionError ℕ)
unfolding get_delta_uint
uint_assert_approx_eq_abs left right max_delta =
    within left right max_delta (get_delta_uint left right)

unfoldable pub int_assert_approx_eq_abs :
    (left right : ℤ) → (max_delta : ℕ) → CheckResult (EqAbsAssertionError ℤ)
unfolding get_delta_int
int_assert_approx_eq_abs left right max_delta =
    within left right max_delta (get_delta_int left right)

abbrev pub relative_failure : {T : Type 0} → T → T → ℕ → EqRelDelta → EqRelAssertionError T
relative_failure left right max_delta real_delta =
    failure (record { left = left; right = right; max_delta = max_delta; real_delta = real_delta })

abbrev rel_within :
    {T : Type 0} → T → T → ℕ → Option ℕ → Option (CheckResult (EqRelAssertionError T))
rel_within left right max_delta none = none
rel_within left right max_delta (some delta) = some (
    if leb delta max_delta then ok else err (relative_failure left right max_delta (defined delta)))

abbrev pub scaled :
    {T : Type 0}
    → T
    → T
    → (divisor max_delta : ℕ) → Option ℕ
    → Option (CheckResult (EqRelAssertionError T))
scaled left right divisor max_delta none = some (err overflow)
scaled left right divisor max_delta (some delta) =
    rel_within left right max_delta (u256_div delta divisor)

-- `none` is the division by zero.
unfoldable pub uint_assert_approx_eq_rel :
    (left right max_delta : ℕ) → Option (CheckResult (EqRelAssertionError ℕ))
unfolding get_delta_uint
uint_assert_approx_eq_rel left right max_delta =
    if (right == 0) && not (left == 0)
    then some (err (relative_failure left right max_delta undefined))
    else scaled left right right max_delta
        (checked_mul (get_delta_uint left right) (10 ^ eq_rel_delta_resolution))

unfoldable pub int_assert_approx_eq_rel :
    (left right : ℤ) → (max_delta : ℕ) → Option (CheckResult (EqRelAssertionError ℤ))
unfolding get_delta_int
int_assert_approx_eq_rel left right max_delta =
    if is_zero right && not (is_zero left)
    then some (err (relative_failure left right max_delta undefined))
    else scaled left right (unsigned_abs right) max_delta
        (checked_mul (get_delta_int left right) (10 ^ eq_rel_delta_resolution))
