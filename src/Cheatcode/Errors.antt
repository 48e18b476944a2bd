-- ===== src/Cheatcode/Errors.antt =====
-- evm/middlewares/cheatcode/assert.rs: the errors of the checks, and their messages. Text is a list
-- of characters. What the source takes from other crates to print a value is in `Formats`.
use Prim.Native.Char.{code}
use Prim.Native.String.{String}
use ityfuzz_rl_src.Prelude.{ℕ, ◌-◌, min, Bool, List, [], ◌∷◌, ◌++◌, Option, none, some}
use ityfuzz_rl_src.Cheatcode.Numbers.{ℤ, is_negative, unsigned_abs}

abbrev pub Text : Type 0
Text = List ℕ

abbrev pub text : String → Text
text String.[] = []
text (String.◌∷◌ c s) = code c ∷ text s

-- `Display` of the library's types, `hex::encode_prefixed`, `Unit::new`, `format_units`.
pub record Formats : Type 0 where
  pub uint : ℕ → Text
  pub int : ℤ → Text
  pub address : ℕ → Text
  pub word : ℕ → Text
  pub sign : Bool → Text
  pub encode_prefixed : List ℕ → Text
  pub new_unit : ℕ → Option ℕ
  pub format_units : (units value : ℕ) → Text

pub data CheckResult (E : Type 0) : Type 0 where
  ok : CheckResult E
  err : (e : E) → CheckResult E

pub data ComparisonAssertionError (T : Type 0) : Type 0 where
  ne eq ge gt le lt : (left right : T) → ComparisonAssertionError T

abbrev pub format_values : {T : Type 0} → (T → Text) → ComparisonAssertionError T → Text
format_values fmt (ne left right) = fmt left ++ (text " == " ++ fmt right)
format_values fmt (eq left right) = fmt left ++ (text " != " ++ fmt right)
format_values fmt (ge left right) = fmt left ++ (text " < " ++ fmt right)
format_values fmt (gt left right) = fmt left ++ (text " <= " ++ fmt right)
format_values fmt (le left right) = fmt left ++ (text " > " ++ fmt right)
format_values fmt (lt left right) = fmt left ++ (text " >= " ++ fmt right)

abbrev joined : {T : Type 0} → (T → Text) → List T → Text
joined fmt [] = []
joined fmt (x ∷ []) = fmt x
joined fmt (x ∷ y ∷ xs) = fmt x ++ (text ", " ++ joined fmt (y ∷ xs))

abbrev pub format_array : {T : Type 0} → (T → Text) → List T → Text
format_array fmt xs = text "[" ++ (joined fmt xs ++ text "]")

-- The number of decimals saturates at the largest byte.
abbrev with_unit : Formats → ℕ → Option ℕ → Text
with_unit f x none = f.uint x
with_unit f x (some units) = f.format_units units x

abbrev pub format_units_uint : Formats → (decimals x : ℕ) → Text
format_units_uint f decimals x = with_unit f x (f.new_unit (min decimals 255))

abbrev pub format_units_int : Formats → (decimals : ℕ) → ℤ → Text
format_units_int f decimals x =
    f.sign (is_negative x) ++ format_units_uint f decimals (unsigned_abs x)

pub record EqAbsAssertionError (T : Type 0) : Type 0 where
  pub left : T
  pub right : T
  pub max_delta : ℕ
  pub real_delta : ℕ

pub data EqRelDelta : Type 0 where
  defined : (delta : ℕ) → EqRelDelta
  undefined : EqRelDelta

pub record EqRelAssertionFailure (T : Type 0) : Type 0 where
  pub left : T
  pub right : T
  pub max_delta : ℕ
  pub real_delta : EqRelDelta

pub data EqRelAssertionError (T : Type 0) : Type 0 where
  failure : (f : EqRelAssertionFailure T) → EqRelAssertionError T
  overflow : EqRelAssertionError T

abbrev pub eq_rel_delta_resolution : ℕ
eq_rel_delta_resolution = 18

abbrev pub format_delta_percent : Formats → ℕ → Text
format_delta_percent f delta = format_units_uint f (eq_rel_delta_resolution - 2) delta ++ text "%"

abbrev pub format_delta : Formats → EqRelDelta → Text
format_delta f (defined delta) = format_delta_percent f delta
format_delta f undefined = text "undefined"

-- "{} !~= {} (max delta: {}, real delta: {})"
abbrev not_close : (left right max_delta real_delta : Text) → Text
not_close left right max_delta real_delta =
    left
    ++ (text " !~= "
        ++ (right
            ++ (text " (max delta: "
                ++ (max_delta ++ (text ", real delta: " ++ (real_delta ++ text ")"))))))

-- `Display` of the error, and `format_with_decimals`: the values are printed by `value`, the
-- deltas of an absolute error by `delta`.
abbrev pub format_abs :
    {T : Type 0} → (value : T → Text) → (delta : ℕ → Text) → EqAbsAssertionError T → Text
format_abs value delta e =
    not_close (value e.left) (value e.right) (delta e.max_delta) (delta e.real_delta)

abbrev pub format_rel : {T : Type 0} → Formats → (value : T → Text) → EqRelAssertionError T → Text
format_rel f value (failure e) =
    not_close (value e.left) (value e.right) (format_delta_percent f e.max_delta)
      (format_delta f e.real_delta)
format_rel f value overflow = text "overflow in delta calculation"
