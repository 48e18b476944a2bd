-- ===== src/Cheatcode/Asserts.antt =====
-- evm/middlewares/cheatcode/assert.rs: the methods of `Cheatcode`. The methods of one name and one
-- kind of values are one function here, with the custom error of every second one as an option; it
-- returns the new `assert_msg`. Their own result is always `None`.
use ityfuzz_rl_src.Prelude.{
  ℕ, Bool, true, false, List, [], ◌∷◌, ◌++◌, Option, none, some, if◌then◌else◌,
}
use ityfuzz_rl_src.Cheatcode.Numbers.{ℤ}
use ityfuzz_rl_src.Cheatcode.Errors.{
  Text, text, Formats, CheckResult, ok, err, format_values, format_array, format_units_uint,
  format_units_int, format_abs, format_rel,
}
use ityfuzz_rl_src.Cheatcode.Checks.{
  assert_eq, assert_not_eq, assert_gt, assert_ge, assert_lt, assert_le, uint_assert_approx_eq_abs,
  int_assert_approx_eq_abs, uint_assert_approx_eq_rel, int_assert_approx_eq_rel,
}

abbrev pub Message : Type 0
Message = Option Text

abbrev pub or_default : Message → Text
or_default none = text "assertion failed"
or_default (some error) = error

abbrev pub report :
    {E : Type 0} → (error : Message) → (E → Text) → CheckResult E → Message → Message
report error fmt ok assert_msg = assert_msg
report error fmt (err e) assert_msg = some (or_default error ++ (text ": " ++ fmt e))

abbrev pub report_opt :
    {E : Type 0}
    → (error : Message) → (E → Text)
    → Option (CheckResult E)
    → Message
    → Option Message
report_opt error fmt none assert_msg = none
report_opt error fmt (some r) assert_msg = some (report error fmt r assert_msg)

unfoldable pub assert_true : (error : Message) → (condition : Bool) → Message → Message
assert_true error condition assert_msg = if condition then assert_msg else some (or_default error)

unfoldable pub assert_false : (error : Message) → (condition : Bool) → Message → Message
assert_false error condition assert_msg = if condition then some (or_default error) else assert_msg

-- Values of one type: how they are compared and printed.
pub record Shown (T : Type 0) : Type 0 where
  pub equal : T → T → Bool
  pub display : T → Text

abbrev pub equal_lists : {T : Type 0} → (T → T → Bool) → List T → List T → Bool
equal_lists equal [] [] = true
equal_lists equal [] (y ∷ ys) = false
equal_lists equal (x ∷ xs) [] = false
equal_lists equal (x ∷ xs) (y ∷ ys) =
    let rest = equal_lists equal xs ys in if equal x y then rest else false

module _ {T : Type 0} (t : Shown T) (error : Message) where
  unfoldable pub assert_eq_values : (left right : T) → Message → Message
  unfolding assert_eq
  assert_eq_values left right =
      report error (format_values t.display) (assert_eq t.equal left right)

  unfoldable pub assert_not_eq_values : (left right : T) → Message → Message
  unfolding assert_not_eq
  assert_not_eq_values left right =
      report error (format_values t.display) (assert_not_eq t.equal left right)

  unfoldable pub assert_eq_arrays : (left right : List T) → Message → Message
  unfolding assert_eq
  assert_eq_arrays left right =
      report error (format_values (format_array t.display))
        (assert_eq (equal_lists t.equal) left right)

  unfoldable pub assert_not_eq_arrays : (left right : List T) → Message → Message
  unfolding assert_not_eq
  assert_not_eq_arrays left right =
      report error (format_values (format_array t.display))
        (assert_not_eq (equal_lists t.equal) left right)

-- The methods on one numeric type. `units` prints with decimals.
pub record Numeric (T : Type 0) : Type 0 where
  pub equal : T → T → Bool
  pub less : T → T → Bool
  pub display : T → Text
  pub units : ℕ → T → Text

module _ {T : Type 0} (t : Numeric T) (error : Message) where
  unfoldable pub assert_eq_decimal : (left right : T) → ℕ → Message → Message
  unfolding assert_eq
  assert_eq_decimal left right decimals =
      report error (format_values (t.units decimals)) (assert_eq t.equal left right)

  unfoldable pub assert_not_eq_decimal : (left right : T) → ℕ → Message → Message
  unfolding assert_not_eq
  assert_not_eq_decimal left right decimals =
      report error (format_values (t.units decimals)) (assert_not_eq t.equal left right)

  unfoldable pub assert_gt_values : (left right : T) → Message → Message
  unfolding assert_gt
  assert_gt_values left right = report error (format_values t.display) (assert_gt t.less left right)

  unfoldable pub assert_gt_decimal : (left right : T) → ℕ → Message → Message
  unfolding assert_gt
  assert_gt_decimal left right decimals =
      report error (format_values (t.units decimals)) (assert_gt t.less left right)

  unfoldable pub assert_ge_values : (left right : T) → Message → Message
  unfolding assert_ge
  assert_ge_values left right = report error (format_values t.display) (assert_ge t.less left right)

  unfoldable pub assert_ge_decimal : (left right : T) → ℕ → Message → Message
  unfolding assert_ge
  assert_ge_decimal left right decimals =
      report error (format_values (t.units decimals)) (assert_ge t.less left right)

  unfoldable pub assert_lt_values : (left right : T) → Message → Message
  unfolding assert_lt
  assert_lt_values left right = report error (format_values t.display) (assert_lt t.less left right)

  unfoldable pub assert_lt_decimal : (left right : T) → ℕ → Message → Message
  unfolding assert_lt
  assert_lt_decimal left right decimals =
      report error (format_values (t.units decimals)) (assert_lt t.less left right)

  unfoldable pub assert_le_values : (left right : T) → Message → Message
  unfolding assert_le
  assert_le_values left right = report error (format_values t.display) (assert_le t.less left right)

  unfoldable pub assert_le_decimal : (left right : T) → ℕ → Message → Message
  unfolding assert_le
  assert_le_decimal left right decimals =
      report error (format_values (t.units decimals)) (assert_le t.less left right)

module _ (f : Formats) (error : Message) where
  unfoldable pub assert_approx_eq_abs_uint : (left right max_delta : ℕ) → Message → Message
  unfolding uint_assert_approx_eq_abs
  assert_approx_eq_abs_uint left right max_delta =
      report error (format_abs f.uint f.uint) (uint_assert_approx_eq_abs left right max_delta)

  unfoldable pub assert_approx_eq_abs_int : (left right : ℤ) → ℕ → Message → Message
  unfolding int_assert_approx_eq_abs
  assert_approx_eq_abs_int left right max_delta =
      report error (format_abs f.int f.uint) (int_assert_approx_eq_abs left right max_delta)

  unfoldable pub assert_approx_eq_abs_decimal_uint :
      (left right max_delta decimals : ℕ) → Message → Message
  unfolding uint_assert_approx_eq_abs
  assert_approx_eq_abs_decimal_uint left right max_delta decimals =
      report error (format_abs (format_units_uint f decimals) (format_units_uint f decimals))
        (uint_assert_approx_eq_abs left right max_delta)

  unfoldable pub assert_approx_eq_abs_decimal_int :
      (left right : ℤ) → (max_delta decimals : ℕ) → Message → Message
  unfolding int_assert_approx_eq_abs
  assert_approx_eq_abs_decimal_int left right max_delta decimals =
      report error (format_abs (format_units_int f decimals) (format_units_uint f decimals))
        (int_assert_approx_eq_abs left right max_delta)

  unfoldable pub assert_approx_eq_rel_uint : (left right max_delta : ℕ) → Message → Option Message
  unfolding uint_assert_approx_eq_rel
  assert_approx_eq_rel_uint left right max_delta =
      report_opt error (format_rel f f.uint) (uint_assert_approx_eq_rel left right max_delta)

  unfoldable pub assert_approx_eq_rel_int : (left right : ℤ) → ℕ → Message → Option Message
  unfolding int_assert_approx_eq_rel
  assert_approx_eq_rel_int left right max_delta =
      report_opt error (format_rel f f.int) (int_assert_approx_eq_rel left right max_delta)

  unfoldable pub assert_approx_eq_rel_decimal_uint :
      (left right max_delta decimals : ℕ) → Message → Option Message
  unfolding uint_assert_approx_eq_rel
  assert_approx_eq_rel_decimal_uint left right max_delta decimals =
      report_opt error (format_rel f (format_units_uint f decimals))
        (uint_assert_approx_eq_rel left right max_delta)

  unfoldable pub assert_approx_eq_rel_decimal_int :
      (left right : ℤ) → (max_delta decimals : ℕ) → Message → Option Message
  unfolding int_assert_approx_eq_rel
  assert_approx_eq_rel_decimal_int left right max_delta decimals =
      report_opt error (format_rel f (format_units_int f decimals))
        (int_assert_approx_eq_rel left right max_delta)
