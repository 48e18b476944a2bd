-- ===== src/Minimizer.antt =====
-- evm/minimizer.rs: `minimize`, which drops transactions that a bug does not need. Executing a
-- transaction on a state, and whether that reproduces the bug, is a parameter, and is taken to depend
-- on nothing else.
use ityfuzz_rl_src.Prelude.{
  ℕ, zero, suc, ◌+◌, Bool, true, false, not, ◌&&◌, ◌||◌, List, [], ◌∷◌, Option, none, some,
  if◌then◌else◌, ◌==◌, length,
}
mod Tests
pub mod Minimal

pub record Outcome (Vm : Type 0) : Type 0 where
  pub reproduces : Bool
  pub new_state : Vm
  pub reverted : Bool

pub record Executor (Tx Vm : Type 0) : Type 0 where
  pub execute : Tx → Vm → Outcome Vm
  pub is_step : Tx → Bool
  pub has_post_execution : Vm → Bool

-- `filter(|(i, _)| *i != try_skip)`
abbrev pub without : {A : Type 0} → ℕ → List A → List A
without try_skip [] = []
without zero (tx ∷ txs) = txs
without (suc try_skip) (tx ∷ txs) = tx ∷ without try_skip txs

abbrev pub or_shorter :
    {A : Type 0} → List A → (List A → Option (List A)) → Option ℕ → Option (List A)
or_shorter txs again none = some txs
or_shorter txs again (some try_skip) = again (without try_skip txs)

module _ {Tx Vm : Type 0} (executor : Executor Tx Vm) where
  -- The loop over the transactions, from index `i`.
  unfoldable pub replay : (try_skip i : ℕ) → List Tx → Vm → (is_solution : Bool) → Bool
  replay try_skip i [] current_state is_solution = is_solution
  replay try_skip i (tx ∷ txs) current_state is_solution =
      let outcome = executor.execute tx current_state in
      let is_solution' = is_solution || outcome.reproduces in
      let skipped = replay try_skip (suc i) txs current_state is_solution in
      let later = replay try_skip (suc i) txs outcome.new_state is_solution' in
      if i == try_skip
      then skipped
      else (if executor.is_step tx && not (executor.has_post_execution current_state)
          then is_solution
          else (if outcome.reverted then is_solution' else later))

  -- The first of the next `n` indices from `try_skip` that can be skipped.
  unfoldable pub first_skip : Vm → (n try_skip : ℕ) → List Tx → Option ℕ
  unfolding replay
  first_skip initial_state zero try_skip txs = none
  first_skip initial_state (suc n) try_skip txs =
      let rest = first_skip initial_state n (suc try_skip) txs in
      if replay try_skip 0 txs initial_state false then some try_skip else rest

  -- The `while` loop; `none` is fuel that runs out.
  unfoldable pub minimize : Vm → (fuel : ℕ) → List Tx → Option (List Tx)
  unfolding first_skip
  minimize initial_state zero txs = none
  minimize initial_state (suc fuel) txs =
      or_shorter txs (minimize initial_state fuel) (first_skip initial_state (length txs) 0 txs)
