-- ===== src/CrossChain/ExploitPath/Replay.antt =====
-- Replaying a recorded path (evm/cross_chain/exploit_path.rs).
use ityfuzz_rl_src.Prelude.{
  ℕ, suc, ◌≤◌, ◌<◌, ◌≡◌, refl, List, [], ◌∷◌, map, Option, none, some, arith, HashSet, contains,
  all, length, All, u64_mod,
}
use ityfuzz_rl_src.CrossChain.State
use ityfuzz_rl_src.CrossChain.Queue.Invariant.{new-IsWellFormed}
use ityfuzz_rl_src.CrossChain.Interceptor.{MockVerificationConfig}
use ityfuzz_rl_src.CrossChain.Oracle.{inspect}
use ityfuzz_rl_src.CrossChain.ExploitStep.{
  ExploitStepKind, deposit_kind, relay_kind, ExploitStep, ExploitPath,
}
use ityfuzz_rl_src.CrossChain.Executor
use ityfuzz_rl_src.CrossChain.Executor.{DualChainExecutor}
use ityfuzz_rl_src.CrossChain.Runs.{Input, captured_count, run}
use ityfuzz_rl_src.CrossChain.Runs.Tidy.{FreshInput, run_total}
use ityfuzz_rl_src.CrossChain.ExploitPath.{input_of, step_input, annotate_last, reproduce}

input_of-fresh : (kind : ExploitStepKind) (step : ExploitStep) → FreshInput (input_of kind step)
input_of-fresh deposit_kind step = (refl, tt)
input_of-fresh relay_kind step = tt

steps-fresh : (steps : List ExploitStep) → All FreshInput (map step_input steps)
steps-fresh [] = tt
steps-fresh (step ∷ steps) = (input_of-fresh step.kind step, steps-fresh steps)

captured_count-input_of :
    (kind : ExploitStepKind) (step : ExploitStep) (inputs : List Input)
    → captured_count (input_of kind step ∷ inputs) ≤ suc (captured_count inputs)
captured_count-input_of deposit_kind step inputs = omega arith
captured_count-input_of relay_kind step inputs = omega arith

pub captured_count-steps :
    (steps : List ExploitStep) → captured_count (map step_input steps) ≤ length steps
captured_count-steps [] = omega arith
captured_count-steps (step ∷ steps) = omega (
  arith,
  captured_count-input_of step.kind step (map step_input steps),
  captured_count-steps steps,
)

length-annotate_last :
    (found : List ℕ) (steps : List ExploitStep) → length (annotate_last found steps) ≡ length steps
length-annotate_last found [] = refl
length-annotate_last found (step ∷ []) = refl
length-annotate_last found (step ∷ next ∷ steps) =
    ground (arith, length-annotate_last found (next ∷ steps))

-- Replaying a path of fewer than 2^64 steps never panics. It replays the recorded calls on a fresh
-- executor, whose oracle report is the result and the confirmed bugs; the path is confirmed exactly
-- when every expected bug is in the report, and keeps its number of steps.
pub reproduce_total :
    (any_nonce : HashSet → Option ℕ) (config : MockVerificationConfig) (expected : List ℕ)
    (path : ExploitPath)
    → length path.steps < u64_mod
    → (e : DualChainExecutor) × (path' : ExploitPath) × (run any_nonce
          (map step_input path.steps)
          (Executor.new State.new none config)
        ≡ some e)
      × (reproduce any_nonce config expected path ≡ some (path', inspect e.state))
      × (path'.confirmed_bugs ≡ inspect e.state)
      × (path'.is_confirmed ≡ all (λ b. contains b (inspect e.state)) expected)
      × (length path'.steps ≡ length path.steps)
unfolding reproduce
reproduce_total any_nonce config expected path few =
    let (e, ran, v) =
      run_total any_nonce (map step_input path.steps) (Executor.new State.new none config)
        (steps-fresh path.steps) new-IsWellFormed
        (omega (arith, captured_count-steps path.steps)) in
    (e, _, ran, rw ran, refl, refl, length-annotate_last (inspect e.state) path.steps)
