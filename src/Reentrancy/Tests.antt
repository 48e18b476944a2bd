-- ===== src/Reentrancy/Tests.antt =====
-- The theorems on the reentrancy tracer at a concrete run.
use ityfuzz_rl_src.Prelude.{◌≡◌, refl, true, List, [], ◌∷◌, arith, contains}
use ityfuzz_rl_src.Reentrancy.Tracer.{
  Slot, depths_of, is_found, merge_sorted_vec_dedup, found_smaller, on_sload, on_sstore,
  before_execute,
}
use ityfuzz_rl_src.Reentrancy.Sorted.{IsSorted}
use ityfuzz_rl_src.Reentrancy.Pattern.{
  Step, sload, sstore, resume, state_after, was_read, reentered, found_lem, reads_lem,
}

abbrev balance : Slot
balance = record { address = 7; index = 0 }

-- A read, a deeper read in a nested call, and a write when it is resumed.
abbrev reentrant : List Step
reentrant = sstore balance 1 ∷ resume 2 ∷ sload balance 2 ∷ sload balance 1 ∷ []

found_lem_example : is_found balance (state_after reentrant).found ≡ reentered balance reentrant
found_lem_example = found_lem reentrant balance (omega arith)

it_is_found : is_found balance (state_after reentrant).found ≡ true
unfolding state_after on_sload on_sstore before_execute merge_sorted_vec_dedup found_smaller
it_is_found = refl

reads_lem_example :
    IsSorted (depths_of balance (state_after reentrant).reads)
    × (contains 2 (depths_of balance (state_after reentrant).reads) ≡ was_read balance 2 reentrant)
reads_lem_example = reads_lem reentrant balance 2 (omega arith)
