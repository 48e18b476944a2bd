-- ===== src/Minimizer/Tests.antt =====
-- The theorem on the minimizer at a concrete sequence.
use ityfuzz_rl_src.Prelude.{
  ℕ, ◌+◌, ◌≡◌, refl, true, false, List, [], ◌∷◌, some, arith, length, ◌==◌, ltb,
}
use ityfuzz_rl_src.Minimizer.{Executor, minimize, replay, first_skip}
use ityfuzz_rl_src.Minimizer.Minimal.{Sublist, reproduces, all_needed, minimize_lem}

-- A transaction adds to a sum; the bug is a sum of 7, and a sum above 20 reverts.
abbrev adder : Executor ℕ ℕ
adder = record {
  execute = λ tx vm. record {
    reproduces = (vm + tx) == 7;
    new_state = vm + tx;
    reverted = ltb 20 (vm + tx);
  };
  is_step = λ tx. false;
  has_post_execution = λ vm. false;
}

abbrev four_calls : List ℕ
four_calls = 0 ∷ 3 ∷ 4 ∷ 30 ∷ []

minimize_lem_example :
    (out : List ℕ) × (minimize adder 0 5 four_calls ≡ some out)
    × (reproduces adder out 0 ≡ true)
    × Sublist out four_calls
    × (all_needed adder 0 (length out) 0 out ≡ true)
minimize_lem_example = minimize_lem adder 0 5 four_calls (omega arith) refl

two_are_left : minimize adder 0 5 four_calls ≡ some (3 ∷ 4 ∷ [])
unfolding minimize first_skip replay
two_are_left = refl
