-- ===== src/Cheatcode/Tests.antt =====
-- The theorems on the assertion cheatcodes at concrete calls.
use ityfuzz_rl_src.Prelude.{◌≡◌, ◌↔◌, true, List, [], ◌∷◌, none, some, arith}
use ityfuzz_rl_src.Cheatcode.Numbers.{pos, negsuc, unsigned_abs, place_of}
use ityfuzz_rl_src.Cheatcode.Errors.{text, Formats}
use ityfuzz_rl_src.Cheatcode.Asserts.{Message}
use ityfuzz_rl_src.Cheatcode.Checks.{get_delta_int, int_assert_approx_eq_rel}
use ityfuzz_rl_src.Cheatcode.Calls.{
  k_bytes, n_uint, n_int, VmCall, true_call, eq_call, ge_call, approx_rel_call, dispatch_all,
}
use ityfuzz_rl_src.Cheatcode.Holds.{AllHold, apart}
use ityfuzz_rl_src.Cheatcode.Decisions.{get_delta_int_lem}
use ityfuzz_rl_src.Cheatcode.Judgements.{Settles}
use ityfuzz_rl_src.Cheatcode.Verdicts.{dispatch_all_lem, rel_panics}

-- Printing that only tells byte strings apart.
abbrev plain : Formats
plain = record {
  uint = λ x. x ∷ [];
  int = λ x. unsigned_abs x ∷ [];
  address = λ x. x ∷ [];
  word = λ x. x ∷ [];
  sign = λ negative. [];
  encode_prefixed = λ bytes. bytes;
  new_unit = λ n. some n;
  format_units = λ units value. value ∷ [];
}

abbrev checked : List (Message × VmCall)
checked =
    (none, true_call true)
    ∷ (some (text "bytes"), eq_call k_bytes (1 ∷ 2 ∷ []) (1 ∷ 3 ∷ []))
    ∷ (none, ge_call n_int (pos 2) (negsuc 4) (some 18))
    ∷ (none, approx_rel_call n_uint 100 99 5 none)
    ∷ []

dispatch_all_lem_example : Settles (AllHold checked) none (dispatch_all plain checked none)
dispatch_all_lem_example = dispatch_all_lem plain checked none (λ x y e. e) (omega arith)

get_delta_int_lem_example :
    get_delta_int (negsuc 4) (pos 7) ≡ apart (place_of (negsuc 4)) (place_of (pos 7))
get_delta_int_lem_example = get_delta_int_lem (negsuc 4) (pos 7) (omega arith) (omega arith)

rel_panics_example :
    (int_assert_approx_eq_rel (pos 0) (pos 0) 3 ≡ none)
    ↔ ((unsigned_abs (pos 0) ≡ 0) × (unsigned_abs (pos 0) ≡ 0))
rel_panics_example = rel_panics (pos 0) (pos 0) 3 (omega arith) (omega arith)
