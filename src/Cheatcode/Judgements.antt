-- ===== src/Cheatcode/Judgements.antt =====
-- evm/middlewares/cheatcode/assert.rs: what the checks and the reports of their results amount to.
use ityfuzz_rl_src.Prelude.{
  ℕ, zero, suc, ◌+◌, ◌*◌, ◌/◌, ◌^◌, ◌<◌, ◌≡◌, refl, ◌⊎◌, inl, inr, Bool, true, false, ◌++◌, Option,
  some, arith, if◌then◌else◌, ◌==◌, u256_max,
}
use ityfuzz_rl_src.Cheatcode.Numbers.{ℤ, pos, negsuc, unsigned_abs, checked_mul, IsInt, place_of}
use ityfuzz_rl_src.Cheatcode.Errors.{
  Text, text, Formats, CheckResult, ok, err, EqRelAssertionError, EqRelDelta,
}
use ityfuzz_rl_src.Cheatcode.Asserts.{Message, equal_lists, report, report_opt, or_default}
use ityfuzz_rl_src.Cheatcode.Checks
use ityfuzz_rl_src.Cheatcode.Checks.{relative_failure}
use ityfuzz_rl_src.Cheatcode.Asserts
use ityfuzz_rl_src.Cheatcode.Calls.{true_call, false_call, dispatch}
use ityfuzz_rl_src.Cheatcode.Holds.{apart, IsNear}
use ityfuzz_rl_src.Cheatcode.Decisions.{
  Decides, leb-Decides, get_delta_uint_lem, get_delta_int_lem, div-Decides,
}

-- Either all is well and the message stays, or there is a message now.
abbrev pub Settles : Type 0 → Message → Option Message → Type 0
Settles P msg o = (P × (o ≡ some msg)) ⊎ ((P → ⊥) × (t : Text) × (o ≡ some (some t)))

pub report_if :
    {E : Type 0} {b : Bool} {P : Type 0} (error msg : Message) (fmt : E → Text) (e : E)
    → Decides b P
    → Settles P msg (some (report error fmt (if b then ok else err e) msg))
report_if error msg fmt e (inl (yes_b, p)) = rw yes_b (inl (p, refl))
report_if error msg fmt e (inr (no_b, np)) =
    rw no_b (inr (np, or_default error ++ (text ": " ++ fmt e), refl))

pub report_unless :
    {E : Type 0} {b : Bool} {P Q : Type 0} (error msg : Message) (fmt : E → Text) (e : E)
    → Decides b Q
    → (Q → P → ⊥)
    → ((Q → ⊥) → P)
    → Settles P msg (some (report error fmt (if b then err e else ok) msg))
report_unless error msg fmt e (inl (yes_b, q)) against for =
    rw yes_b (inr (against q, or_default error ++ (text ": " ++ fmt e), refl))
report_unless error msg fmt e (inr (no_b, nq)) against for = rw no_b (inl (for nq, refl))

pub true_call_lem :
    (f : Formats) (error msg : Message) (c : Bool)
    → Settles (c ≡ true) msg (dispatch f error (true_call c) msg)
unfolding dispatch Asserts.assert_true
true_call_lem f error msg true = inl (refl, refl)
true_call_lem f error msg false = inr (λ e. cc e, or_default error, refl)

pub false_call_lem :
    (f : Formats) (error msg : Message) (c : Bool)
    → Settles (c ≡ false) msg (dispatch f error (false_call c) msg)
unfolding dispatch Asserts.assert_false
false_call_lem f error msg true = inr (λ e. cc e, or_default error, refl)
false_call_lem f error msg false = inl (refl, refl)

-- What a relative check says.
abbrev pub Judges : {E : Type 0} → Type 0 → Option (CheckResult E) → Type 0
Judges {E} P o = (P × (o ≡ some ok)) ⊎ ((P → ⊥) × (e : E) × (o ≡ some (err e)))

scaled-Judges :
    {T : Type 0} (left right : T) (delta divisor max_delta : ℕ)
    → 0 < divisor
    → Judges
        (IsNear delta divisor max_delta)
        (Checks.scaled left right divisor max_delta (checked_mul delta (10 ^ 18)))
scaled-Judges left right delta zero max_delta some_divisor = elim some_divisor [ ]
scaled-Judges left right delta (suc k) max_delta some_divisor =
    elim (leb-Decides (delta * 10 ^ 18) u256_max) [
      | inr (e, too_large) ↦
          rw e (inr (λ near. too_large near.0, EqRelAssertionError.overflow, refl))
      | inl (e, fits) ↦ rw e (elim (div-Decides (delta * 10 ^ 18) k max_delta) [
        | inl (e', near) ↦ rw e' (inl ((fits, near), refl))
        | inr (e', far) ↦ rw e' (
            inr (
              λ near. far near.1,
              relative_failure left right max_delta (EqRelDelta.defined (delta * 10 ^ 18 / suc k)),
              refl,
            ))
      ])
    ]

not_zero : (n : ℕ) → (suc n == 0) ≡ false
not_zero n = ground arith

pub uint-Judges :
    (left right max_delta : ℕ)
    → 0 < left + right
    → Judges
        (IsNear (apart left right) right max_delta)
        (Checks.uint_assert_approx_eq_rel left right max_delta)
unfolding Checks.uint_assert_approx_eq_rel
uint-Judges zero zero max_delta some_side = elim some_side [ ]
uint-Judges (suc m) zero max_delta some_side =
    rw (not_zero m)
      (inr (λ near. omega arith, relative_failure (suc m) 0 max_delta EqRelDelta.undefined, refl))
uint-Judges left (suc n) max_delta some_side =
    rw (not_zero n, get_delta_uint_lem left (suc n))
      (scaled-Judges left (suc n) (apart left (suc n)) (suc n) max_delta (omega arith))

pub int-Judges :
    (left right : ℤ) (max_delta : ℕ)
    → IsInt left
    → IsInt right
    → 0 < unsigned_abs left + unsigned_abs right
    → Judges
        (IsNear (apart (place_of left) (place_of right)) (unsigned_abs right) max_delta)
        (Checks.int_assert_approx_eq_rel left right max_delta)
unfolding Checks.int_assert_approx_eq_rel
int-Judges (pos zero) (pos zero) max_delta hl hr some_side = elim some_side [ ]
int-Judges (pos (suc m)) (pos zero) max_delta hl hr some_side = rw (not_zero m) (
    inr (
      λ near. omega arith,
      relative_failure (pos (suc m)) (pos 0) max_delta EqRelDelta.undefined,
      refl,
    ))
int-Judges (negsuc m) (pos zero) max_delta hl hr some_side = rw (not_zero m) (
    inr (
      λ near. omega arith,
      relative_failure (negsuc m) (pos 0) max_delta EqRelDelta.undefined,
      refl,
    ))
int-Judges left (pos (suc n)) max_delta hl hr some_side =
    rw (not_zero n, get_delta_int_lem left (pos (suc n)) hl hr)
      (scaled-Judges left (pos (suc n)) (apart (place_of left) (place_of (pos (suc n)))) (suc n)
        max_delta (omega arith))
int-Judges left (negsuc n) max_delta hl hr some_side =
    rw (not_zero n, get_delta_int_lem left (negsuc n) hl hr)
      (scaled-Judges left (negsuc n) (apart (place_of left) (place_of (negsuc n))) (suc n) max_delta
        (omega arith))

pub report-Judges :
    {E : Type 0} {P : Type 0} {o : Option (CheckResult E)} (error msg : Message) (fmt : E → Text)
    → Judges P o
    → Settles P msg (report_opt error fmt o msg)
report-Judges error msg fmt (inl (p, e)) = rw e (inl (p, refl))
report-Judges error msg fmt (inr (np, e, is_err)) =
    rw is_err (inr (np, or_default error ++ (text ": " ++ fmt e), refl))
