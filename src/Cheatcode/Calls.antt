-- ===== src/Cheatcode/Calls.antt =====
-- evm/middlewares/cheatcode/mod.rs: the calls of the assertion cheatcodes, and how they are
-- dispatched to the methods of evm/middlewares/cheatcode/assert.rs.
use ityfuzz_rl_src.Prelude.{ℕ, Bool, true, false, List, [], ◌∷◌, Option, none, some, ltb, ◌==◌}
use ityfuzz_rl_src.Cheatcode.Numbers.{ℤ, int_equal, int_less}
use ityfuzz_rl_src.Cheatcode.Errors.{Text, text, Formats, format_units_uint, format_units_int}
use ityfuzz_rl_src.Cheatcode.Asserts.{
  Message, Shown, Numeric, equal_lists, assert_true, assert_false, assert_eq_values,
  assert_not_eq_values, assert_eq_arrays, assert_not_eq_arrays, assert_eq_decimal,
  assert_not_eq_decimal, assert_gt_values, assert_gt_decimal, assert_ge_values, assert_ge_decimal,
  assert_lt_values, assert_lt_decimal, assert_le_values, assert_le_decimal,
  assert_approx_eq_abs_uint, assert_approx_eq_abs_int, assert_approx_eq_abs_decimal_uint,
  assert_approx_eq_abs_decimal_int, assert_approx_eq_rel_uint, assert_approx_eq_rel_int,
  assert_approx_eq_rel_decimal_uint, assert_approx_eq_rel_decimal_int,
}

-- The types of the values that are tested for equality, and the numeric ones.
pub data Kind : Type 0 where
  k_bool k_uint k_int k_address k_word k_string k_bytes : Kind

abbrev pub Value : Kind → Type 0
Value k_bool = Bool
Value k_uint = ℕ
Value k_int = ℤ
Value k_address = ℕ
Value k_word = ℕ
Value k_string = Text
Value k_bytes = List ℕ

pub data Number : Type 0 where
  n_uint n_int : Number

abbrev pub Num : Number → Type 0
Num n_uint = ℕ
Num n_int = ℤ

abbrev pub bool_equal : Bool → Bool → Bool
bool_equal true b = b
bool_equal false true = false
bool_equal false false = true

abbrev pub text_equal : Text → Text → Bool
text_equal = equal_lists ◌==◌

abbrev bool_text : Bool → Text
bool_text true = text "true"
bool_text false = text "false"

-- Byte strings are compared and printed in their hexadecimal form.
abbrev pub shown : Formats → (k : Kind) → Shown (Value k)
shown f k_bool = record { equal = bool_equal; display = bool_text }
shown f k_uint = record { equal = λ x y. x == y; display = f.uint }
shown f k_int = record { equal = int_equal; display = f.int }
shown f k_address = record { equal = λ x y. x == y; display = f.address }
shown f k_word = record { equal = λ x y. x == y; display = f.word }
shown f k_string = record { equal = text_equal; display = λ s. s }
shown f k_bytes = record {
  equal = λ x y. text_equal (f.encode_prefixed x) (f.encode_prefixed y);
  display = f.encode_prefixed;
}

abbrev pub numeric : Formats → (n : Number) → Numeric (Num n)
numeric f n_uint = record {
  equal = λ x y. x == y;
  less = ltb;
  display = f.uint;
  units = format_units_uint f;
}
numeric f n_int = record {
  equal = int_equal;
  less = int_less;
  display = f.int;
  units = format_units_int f;
}

pub data VmCall : Type 0 where
  true_call false_call : (condition : Bool) → VmCall
  eq_call not_eq_call : (k : Kind) (left right : Value k) → VmCall
  eq_arrays_call not_eq_arrays_call : (k : Kind) (left right : List (Value k)) → VmCall
  eq_decimal_call not_eq_decimal_call : (n : Number) (left right : Num n) (decimals : ℕ) → VmCall
  gt_call ge_call lt_call le_call : (n : Number) (left right : Num n) (decimals : Option ℕ) → VmCall
  approx_abs_call approx_rel_call :
      (n : Number) (left right : Num n) (max_delta : ℕ) (decimals : Option ℕ) → VmCall

-- The new `assert_msg`; `none` is a panic.
unfoldable pub dispatch : Formats → (error : Message) → VmCall → Message → Option Message
unfolding assert_true assert_false assert_eq_values assert_not_eq_values assert_eq_arrays
    assert_not_eq_arrays assert_eq_decimal assert_not_eq_decimal assert_gt_values assert_gt_decimal
    assert_ge_values assert_ge_decimal assert_lt_values assert_lt_decimal assert_le_values
    assert_le_decimal assert_approx_eq_abs_uint assert_approx_eq_abs_int
    assert_approx_eq_abs_decimal_uint assert_approx_eq_abs_decimal_int assert_approx_eq_rel_uint
    assert_approx_eq_rel_int assert_approx_eq_rel_decimal_uint assert_approx_eq_rel_decimal_int
dispatch f error (true_call condition) msg = some (assert_true error condition msg)
dispatch f error (false_call condition) msg = some (assert_false error condition msg)
dispatch f error (eq_call k left right) msg =
    some (assert_eq_values (shown f k) error left right msg)
dispatch f error (not_eq_call k left right) msg =
    some (assert_not_eq_values (shown f k) error left right msg)
dispatch f error (eq_arrays_call k left right) msg =
    some (assert_eq_arrays (shown f k) error left right msg)
dispatch f error (not_eq_arrays_call k left right) msg =
    some (assert_not_eq_arrays (shown f k) error left right msg)
dispatch f error (eq_decimal_call n left right decimals) msg =
    some (assert_eq_decimal (numeric f n) error left right decimals msg)
dispatch f error (not_eq_decimal_call n left right decimals) msg =
    some (assert_not_eq_decimal (numeric f n) error left right decimals msg)
dispatch f error (gt_call n left right none) msg =
    some (assert_gt_values (numeric f n) error left right msg)
dispatch f error (gt_call n left right (some decimals)) msg =
    some (assert_gt_decimal (numeric f n) error left right decimals msg)
dispatch f error (ge_call n left right none) msg =
    some (assert_ge_values (numeric f n) error left right msg)
dispatch f error (ge_call n left right (some decimals)) msg =
    some (assert_ge_decimal (numeric f n) error left right decimals msg)
dispatch f error (lt_call n left right none) msg =
    some (assert_lt_values (numeric f n) error left right msg)
dispatch f error (lt_call n left right (some decimals)) msg =
    some (assert_lt_decimal (numeric f n) error left right decimals msg)
dispatch f error (le_call n left right none) msg =
    some (assert_le_values (numeric f n) error left right msg)
dispatch f error (le_call n left right (some decimals)) msg =
    some (assert_le_decimal (numeric f n) error left right decimals msg)
dispatch f error (approx_abs_call n_uint left right max_delta none) msg =
    some (assert_approx_eq_abs_uint f error left right max_delta msg)
dispatch f error (approx_abs_call n_uint left right max_delta (some decimals)) msg =
    some (assert_approx_eq_abs_decimal_uint f error left right max_delta decimals msg)
dispatch f error (approx_abs_call n_int left right max_delta none) msg =
    some (assert_approx_eq_abs_int f error left right max_delta msg)
dispatch f error (approx_abs_call n_int left right max_delta (some decimals)) msg =
    some (assert_approx_eq_abs_decimal_int f error left right max_delta decimals msg)
dispatch f error (approx_rel_call n_uint left right max_delta none) msg =
    assert_approx_eq_rel_uint f error left right max_delta msg
dispatch f error (approx_rel_call n_uint left right max_delta (some decimals)) msg =
    assert_approx_eq_rel_decimal_uint f error left right max_delta decimals msg
dispatch f error (approx_rel_call n_int left right max_delta none) msg =
    assert_approx_eq_rel_int f error left right max_delta msg
dispatch f error (approx_rel_call n_int left right max_delta (some decimals)) msg =
    assert_approx_eq_rel_decimal_int f error left right max_delta decimals msg

abbrev then_dispatch :
    Formats → List (Message × VmCall) → (Message → Option Message) → Option Message → Option Message
then_dispatch f calls rest none = none
then_dispatch f calls rest (some msg) = rest msg

-- The calls of a transaction, one after the other, each with its custom error.
unfoldable pub dispatch_all : Formats → List (Message × VmCall) → Message → Option Message
unfolding dispatch
dispatch_all f [] msg = some msg
dispatch_all f ((error, call) ∷ calls) msg =
    then_dispatch f calls (dispatch_all f calls) (dispatch f error call msg)
