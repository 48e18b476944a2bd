-- ===== src/Cheatcode/Decisions.antt =====
-- evm/middlewares/cheatcode/assert.rs: the tests of the checks decide what they are meant to.
use native.Mathlib.Nat.{div-lt_iff_lt-mul}
use ityfuzz_rl_src.Prelude.{
  ℕ, suc, ◌+◌, ◌*◌, ◌/◌, ◌≤◌, ◌<◌, ◌≡◌, refl, ap, ◌⊎◌, inl, inr, Bool, true, false, List, [], ◌∷◌,
  arith, ltb, leb, ◌==◌, Bool-cases,
}
use ityfuzz_rl_src.Cheatcode.Numbers.{ℤ, pos, negsuc, IsInt, place_of, int_equal, int_less}
use ityfuzz_rl_src.Cheatcode.Errors.{Text, Formats}
use ityfuzz_rl_src.Cheatcode.Asserts.{equal_lists}
use ityfuzz_rl_src.Cheatcode.Checks.{get_delta_uint, get_delta_int}
use ityfuzz_rl_src.Cheatcode.Calls.{
  Kind, k_bool, k_uint, k_int, k_address, k_word, k_string, k_bytes, Number, n_uint, n_int, Num,
  bool_equal, shown, numeric,
}
use ityfuzz_rl_src.Cheatcode.Holds.{place, apart, InRange}

abbrev pub Decides : Bool → Type 0 → Type 0
Decides b P = ((b ≡ true) × P) ⊎ ((b ≡ false) × (P → ⊥))

abbrev pub DecidesEqual : {T : Type 0} → (T → T → Bool) → Type 0
DecidesEqual {T} equal = (x y : T) → Decides (equal x y) (x ≡ y)

pub Decides_iff : {b : Bool} {P Q : Type 0} → Decides b P → (P → Q) → (Q → P) → Decides b Q
Decides_iff (inl (e, p)) to from = inl (e, to p)
Decides_iff (inr (e, np)) to from = inr (e, λ q. np (from q))

bool_equal-DecidesEqual : DecidesEqual bool_equal
bool_equal-DecidesEqual true true = inl (refl, refl)
bool_equal-DecidesEqual true false = inr (refl, λ e. cc e)
bool_equal-DecidesEqual false true = inr (refl, λ e. cc e)
bool_equal-DecidesEqual false false = inl (refl, refl)

==-DecidesEqual : DecidesEqual (λ (x y : ℕ). x == y)
==-DecidesEqual x y = elim (Bool-cases (x == y)) [
  | inl e ↦ inl (e, ground arith)
  | inr e ↦ inr (e, λ same. ground arith)
]

int_equal-DecidesEqual : DecidesEqual int_equal
int_equal-DecidesEqual (pos m) (pos n) =
    Decides_iff (==-DecidesEqual m n) (λ e. ap pos e) (λ e. cc e)
int_equal-DecidesEqual (pos m) (negsuc n) = inr (refl, λ e. cc e)
int_equal-DecidesEqual (negsuc m) (pos n) = inr (refl, λ e. cc e)
int_equal-DecidesEqual (negsuc m) (negsuc n) =
    Decides_iff (==-DecidesEqual m n) (λ e. ap negsuc e) (λ e. cc e)

pub equal_lists-DecidesEqual :
    {T : Type 0} (equal : T → T → Bool) → DecidesEqual equal → DecidesEqual (equal_lists equal)
equal_lists-DecidesEqual equal decides [] [] = inl (refl, refl)
equal_lists-DecidesEqual equal decides [] (y ∷ ys) = inr (refl, λ e. cc e)
equal_lists-DecidesEqual equal decides (x ∷ xs) [] = inr (refl, λ e. cc e)
equal_lists-DecidesEqual equal decides (x ∷ xs) (y ∷ ys) = elim (decides x y) [
  | inl (e, same) ↦
      rw e
        (Decides_iff (equal_lists-DecidesEqual equal decides xs ys) (λ r. cc (same, r)) (λ r. cc r))
  | inr (e, differ) ↦ rw e (inr (refl, λ r. differ (cc r)))
]

abbrev pub IsInjective : (List ℕ → Text) → Type 0
IsInjective encode = (x y : List ℕ) → encode x ≡ encode y → x ≡ y

pub shown-DecidesEqual :
    (f : Formats) (k : Kind) → IsInjective f.encode_prefixed → DecidesEqual (shown f k).equal
shown-DecidesEqual f k_bool inj = bool_equal-DecidesEqual
shown-DecidesEqual f k_uint inj = ==-DecidesEqual
shown-DecidesEqual f k_int inj = int_equal-DecidesEqual
shown-DecidesEqual f k_address inj = ==-DecidesEqual
shown-DecidesEqual f k_word inj = ==-DecidesEqual
shown-DecidesEqual f k_string inj = equal_lists-DecidesEqual _ ==-DecidesEqual
shown-DecidesEqual f k_bytes inj = λ x y.
    Decides_iff
      (equal_lists-DecidesEqual _ ==-DecidesEqual (f.encode_prefixed x) (f.encode_prefixed y))
      (λ e. inj x y e) (λ e. ap f.encode_prefixed e)

pub numeric-DecidesEqual : (f : Formats) (n : Number) → DecidesEqual (numeric f n).equal
numeric-DecidesEqual f n_uint = ==-DecidesEqual
numeric-DecidesEqual f n_int = int_equal-DecidesEqual

ltb-Decides : (a b : ℕ) → Decides (ltb a b) (a < b)
ltb-Decides a b = elim (Bool-cases (ltb a b)) [
  | inl e ↦ inl (e, ground arith)
  | inr e ↦ inr (e, λ less. ground arith)
]

pub leb-Decides : (a b : ℕ) → Decides (leb a b) (a ≤ b)
leb-Decides a b = elim (Bool-cases (leb a b)) [
  | inl e ↦ inl (e, ground arith)
  | inr e ↦ inr (e, λ less. ground arith)
]

int_less_lem : (x y : ℤ) → IsInt x → IsInt y → int_less x y ≡ ltb (place_of x) (place_of y)
int_less_lem (pos m) (pos n) hx hy = ground arith
int_less_lem (pos m) (negsuc n) hx hy = ground arith
int_less_lem (negsuc m) (pos n) hx hy = ground arith
int_less_lem (negsuc m) (negsuc n) hx hy = ground arith

pub numeric-Decides :
    (f : Formats) (n : Number) (x y : Num n)
    → InRange n x
    → InRange n y
    → Decides ((numeric f n).less x y) (place n x < place n y)
numeric-Decides f n_uint x y hx hy = ltb-Decides x y
numeric-Decides f n_int x y hx hy =
    rw (int_less_lem x y hx hy) (ltb-Decides (place_of x) (place_of y))

pub get_delta_uint_lem : (x y : ℕ) → get_delta_uint x y ≡ apart x y
unfolding get_delta_uint
get_delta_uint_lem x y = ground arith

-- The difference of two signed 256-bit integers never wraps around: it is the distance of their
-- places in the order of all of them, counted from 0 for the least.
pub get_delta_int_lem :
    (x y : ℤ) → IsInt x → IsInt y → get_delta_int x y ≡ apart (place_of x) (place_of y)
unfolding get_delta_int
get_delta_int_lem (pos m) (pos n) hx hy = ground arith
get_delta_int_lem (pos m) (negsuc n) hx hy = ground arith
get_delta_int_lem (negsuc m) (pos n) hx hy = ground arith
get_delta_int_lem (negsuc m) (negsuc n) hx hy = ground arith

pub div-Decides : (a b m : ℕ) → Decides (leb (a / suc b) m) (a < (m + 1) * suc b)
div-Decides a b m =
    let both = div-lt_iff_lt-mul {k = suc b} {x = a} {y = m + 1} (omega arith) in
    Decides_iff (leb-Decides (a / suc b) m) (λ le. both.0 (omega arith))
      (λ lt. let below = both.1 lt in omega arith)
