-- ===== src/Cheatcode/Verdicts.antt =====
-- evm/middlewares/cheatcode: the assertion cheatcodes report exactly the assertions that do not hold.
use ityfuzz_rl_src.Prelude.{
  ℕ, ◌+◌, ◌<◌, ◌≡◌, refl, zero, suc, ◌↔◌, inl, inr, List, [], ◌∷◌, Option, none, some, arith,
}
use ityfuzz_rl_src.Cheatcode.Errors.{Formats, CheckResult}
use ityfuzz_rl_src.Cheatcode.Numbers.{ℤ, pos, negsuc, IsInt, unsigned_abs}
use ityfuzz_rl_src.Cheatcode.Asserts.{Message}
use ityfuzz_rl_src.Cheatcode.Checks
use ityfuzz_rl_src.Cheatcode.Asserts
use ityfuzz_rl_src.Cheatcode.Calls.{
  n_uint, n_int, VmCall, true_call, false_call, eq_call, not_eq_call, eq_arrays_call,
  not_eq_arrays_call, eq_decimal_call, not_eq_decimal_call, gt_call, ge_call, lt_call, le_call,
  approx_abs_call, approx_rel_call, dispatch, dispatch_all,
}
use ityfuzz_rl_src.Cheatcode.Holds.{place, apart, Holds, IsProper, AllHold, AllProper}
use ityfuzz_rl_src.Cheatcode.Decisions.{
  equal_lists-DecidesEqual, IsInjective, shown-DecidesEqual, numeric-DecidesEqual, leb-Decides,
  numeric-Decides, get_delta_uint_lem, get_delta_int_lem,
}
use ityfuzz_rl_src.Cheatcode.Judgements.{
  Settles, Judges, report_if, report_unless, true_call_lem, false_call_lem, uint-Judges, int-Judges,
  report-Judges,
}

-- One assertion.
pub dispatch_lem :
    (f : Formats) (error msg : Message) (call : VmCall)
    → IsInjective f.encode_prefixed
    → IsProper call
    → Settles (Holds call) msg (dispatch f error call msg)
unfolding dispatch Asserts.assert_eq_values Asserts.assert_not_eq_values Asserts.assert_eq_arrays
    Asserts.assert_not_eq_arrays Asserts.assert_eq_decimal Asserts.assert_not_eq_decimal
    Asserts.assert_gt_values Asserts.assert_gt_decimal Asserts.assert_ge_values
    Asserts.assert_ge_decimal Asserts.assert_lt_values Asserts.assert_lt_decimal
    Asserts.assert_le_values Asserts.assert_le_decimal Asserts.assert_approx_eq_abs_uint
    Asserts.assert_approx_eq_abs_int Asserts.assert_approx_eq_abs_decimal_uint
    Asserts.assert_approx_eq_abs_decimal_int Asserts.assert_approx_eq_rel_uint
    Asserts.assert_approx_eq_rel_int Asserts.assert_approx_eq_rel_decimal_uint
    Asserts.assert_approx_eq_rel_decimal_int Checks.assert_eq Checks.assert_not_eq Checks.assert_gt
    Checks.assert_ge Checks.assert_lt Checks.assert_le Checks.uint_assert_approx_eq_abs
    Checks.int_assert_approx_eq_abs
dispatch_lem f error msg (true_call c) inj proper = true_call_lem f error msg c
dispatch_lem f error msg (false_call c) inj proper = false_call_lem f error msg c
dispatch_lem f error msg (eq_call k l r) inj proper =
    report_if error msg _ _ (shown-DecidesEqual f k inj l r)
dispatch_lem f error msg (not_eq_call k l r) inj proper =
    report_unless error msg _ _ (shown-DecidesEqual f k inj l r) (λ e ne. ne e) (λ ne. ne)
dispatch_lem f error msg (eq_arrays_call k l r) inj proper =
    report_if error msg _ _ (equal_lists-DecidesEqual _ (shown-DecidesEqual f k inj) l r)
dispatch_lem f error msg (not_eq_arrays_call k l r) inj proper =
    report_unless error msg _ _ (equal_lists-DecidesEqual _ (shown-DecidesEqual f k inj) l r)
      (λ e ne. ne e) (λ ne. ne)
dispatch_lem f error msg (eq_decimal_call n l r decimals) inj proper =
    report_if error msg _ _ (numeric-DecidesEqual f n l r)
dispatch_lem f error msg (not_eq_decimal_call n l r decimals) inj proper =
    report_unless error msg _ _ (numeric-DecidesEqual f n l r) (λ e ne. ne e) (λ ne. ne)
dispatch_lem f error msg (gt_call n l r none) inj (hl, hr) =
    report_if error msg _ _ (numeric-Decides f n r l hr hl)
dispatch_lem f error msg (gt_call n l r (some decimals)) inj (hl, hr) =
    report_if error msg _ _ (numeric-Decides f n r l hr hl)
dispatch_lem f error msg (ge_call n l r none) inj (hl, hr) =
    report_unless error msg _ _ (numeric-Decides f n l r hl hr) (λ lt ge. omega arith)
      (λ no_lt. omega arith)
dispatch_lem f error msg (ge_call n l r (some decimals)) inj (hl, hr) =
    report_unless error msg _ _ (numeric-Decides f n l r hl hr) (λ lt ge. omega arith)
      (λ no_lt. omega arith)
dispatch_lem f error msg (lt_call n l r none) inj (hl, hr) =
    report_if error msg _ _ (numeric-Decides f n l r hl hr)
dispatch_lem f error msg (lt_call n l r (some decimals)) inj (hl, hr) =
    report_if error msg _ _ (numeric-Decides f n l r hl hr)
dispatch_lem f error msg (le_call n l r none) inj (hl, hr) =
    report_unless error msg _ _ (numeric-Decides f n r l hr hl) (λ lt ge. omega arith)
      (λ no_lt. omega arith)
dispatch_lem f error msg (le_call n l r (some decimals)) inj (hl, hr) =
    report_unless error msg _ _ (numeric-Decides f n r l hr hl) (λ lt ge. omega arith)
      (λ no_lt. omega arith)
dispatch_lem f error msg (approx_abs_call n_uint l r m none) inj proper =
    rw (get_delta_uint_lem l r) (report_if error msg _ _ (leb-Decides (apart l r) m))
dispatch_lem f error msg (approx_abs_call n_uint l r m (some decimals)) inj proper =
    rw (get_delta_uint_lem l r) (report_if error msg _ _ (leb-Decides (apart l r) m))
dispatch_lem f error msg (approx_abs_call n_int l r m none) inj (hl, hr) =
    rw (get_delta_int_lem l r hl hr)
      (report_if error msg _ _ (leb-Decides (apart (place n_int l) (place n_int r)) m))
dispatch_lem f error msg (approx_abs_call n_int l r m (some decimals)) inj (hl, hr) =
    rw (get_delta_int_lem l r hl hr)
      (report_if error msg _ _ (leb-Decides (apart (place n_int l) (place n_int r)) m))
dispatch_lem f error msg (approx_rel_call n_uint l r m none) inj (hl, hr, side) =
    report-Judges error msg _ (uint-Judges l r m side)
dispatch_lem f error msg (approx_rel_call n_uint l r m (some decimals)) inj (hl, hr, side) =
    report-Judges error msg _ (uint-Judges l r m side)
dispatch_lem f error msg (approx_rel_call n_int l r m none) inj (hl, hr, side) =
    report-Judges error msg _ (int-Judges l r m hl hr side)
dispatch_lem f error msg (approx_rel_call n_int l r m (some decimals)) inj (hl, hr, side) =
    report-Judges error msg _ (int-Judges l r m hl hr side)

-- The assertion cheatcodes of a transaction never panic when the numbers are within their types and
-- no relative comparison is of 0 with 0, for any way to print values that gives different byte
-- strings different hexadecimal forms. If every assertion holds, the earlier message (or none) is
-- kept; if one does not, there is a message at the end.
pub dispatch_all_lem :
    (f : Formats) (calls : List (Message × VmCall)) (msg : Message)
    → IsInjective f.encode_prefixed
    → AllProper calls
    → Settles (AllHold calls) msg (dispatch_all f calls msg)
unfolding dispatch_all
dispatch_all_lem f [] msg inj proper = inl (tt, refl)
dispatch_all_lem f ((error, call) ∷ calls) msg inj proper =
    elim (dispatch_lem f error msg call inj proper.0) [
      | inl (holds, e) ↦ rw e (elim (dispatch_all_lem f calls msg inj proper.1) [
        | inl (all, e') ↦ inl ((holds, all), e')
        | inr (fails, t, e') ↦ inr (λ all. fails all.1, t, e')
      ])
      | inr (fails, t, e) ↦ rw e (elim (dispatch_all_lem f calls (some t) inj proper.1) [
        | inl (all, e') ↦ inr (λ all. fails all.0, t, e')
        | inr (also, t', e') ↦ inr (λ all. fails all.0, t', e')
      ])
    ]

zeros_panic :
    (left right : ℤ) (max_delta : ℕ)
    → unsigned_abs left ≡ 0
    → unsigned_abs right ≡ 0
    → Checks.int_assert_approx_eq_rel left right max_delta ≡ none
unfolding Checks.int_assert_approx_eq_rel Checks.get_delta_int
zeros_panic (pos zero) (pos zero) max_delta hl hr = refl
zeros_panic (pos (suc m)) right max_delta hl hr = ground arith
zeros_panic (pos zero) (pos (suc n)) max_delta hl hr = ground arith
zeros_panic (pos zero) (negsuc n) max_delta hl hr = ground arith
zeros_panic (negsuc m) right max_delta hl hr = ground arith

not_none : {E : Type 0} {P : Type 0} {o : Option (CheckResult E)} → Judges P o → o ≡ none → ⊥
not_none (inl (p, e)) is_none = cc (e, is_none)
not_none (inr (np, e, is_err)) is_none = cc (is_err, is_none)

both_zero : (a b : ℕ) → (0 < a + b → ⊥) → (a ≡ 0) × (b ≡ 0)
both_zero a b h = (omega arith, omega arith)

-- A relative comparison of two integers within their type panics exactly when both are 0, whatever
-- the bound.
pub rel_panics :
    (left right : ℤ) (max_delta : ℕ)
    → IsInt left
    → IsInt right
    → (Checks.int_assert_approx_eq_rel left right max_delta ≡ none)
      ↔ ((unsigned_abs left ≡ 0) × (unsigned_abs right ≡ 0))
rel_panics left right max_delta hl hr = (
  λ is_none. both_zero _ _ (λ side. not_none (int-Judges left right max_delta hl hr side) is_none),
  λ zeros. zeros_panic left right max_delta zeros.0 zeros.1,
)
