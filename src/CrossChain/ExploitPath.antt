-- ===== src/CrossChain/ExploitPath.antt =====
-- evm/cross_chain/exploit_path.rs: `ExploitPath::reproduce`. Printing and the replay file are left
-- out.
pub mod Replay
use ityfuzz_rl_src.Prelude.{
  ℕ, ◌+◌, ◌<◌, ◌≡◌, refl, Bool, true, false, List, [], ◌∷◌, map, Option, none, some, arith, HashSet,
  contains, all, replicate, length, All, u64_mod,
}
use ityfuzz_rl_src.CrossChain.Message.{CrossChainMessage, new_message}
use ityfuzz_rl_src.CrossChain.State
use ityfuzz_rl_src.CrossChain.Interceptor.{MockVerificationConfig}
use ityfuzz_rl_src.CrossChain.Oracle.{inspect}
use ityfuzz_rl_src.CrossChain.ExploitStep.{
  ExploitStepKind, deposit_kind, relay_kind, ExploitStep, ExploitPath,
}
use ityfuzz_rl_src.CrossChain.Executor
use ityfuzz_rl_src.CrossChain.Executor.{DualChainExecutor}
use ityfuzz_rl_src.CrossChain.Runs.{Input, deposit_input, relay_input, run}

-- The message that a step is replayed with.
abbrev pub step_message : ExploitStep → CrossChainMessage
step_message step =
    new_message step.nonce step.sender step.recipient (replicate 32 0xab) step.value
      step.merkle_root step.is_fake

abbrev input_of : ExploitStepKind → ExploitStep → Input
input_of deposit_kind step =
    deposit_input step.token (step_message step ∷ []) step.sig_count (some step.meta)
input_of relay_kind step = relay_input step.token step.sig_count (some step.meta)

-- The call that replays a step.
abbrev pub step_input : ExploitStep → Input
step_input step = input_of step.kind step

-- `steps.last_mut().bugs_triggered = found`
abbrev pub annotate_last : List ℕ → List ExploitStep → List ExploitStep
annotate_last found [] = []
annotate_last found (step ∷ []) = record step { bugs_triggered = found } ∷ []
annotate_last found (step ∷ next ∷ steps) = step ∷ annotate_last found (next ∷ steps)

abbrev pub confirm : List ℕ → ExploitPath → Option DualChainExecutor → Option (ExploitPath × List ℕ)
confirm expected_bugs path none = none
confirm expected_bugs path (some e) =
    let found = inspect e.state in
    some (
      record {
        steps = annotate_last found path.steps;
        confirmed_bugs = found;
        is_confirmed = all (λ b. contains b found) expected_bugs;
      },
      found,
    )

-- The path after the call, and the bugs found; `none` is a panic of some call.
unfoldable pub reproduce :
    (any_nonce : HashSet → Option ℕ)
    → MockVerificationConfig
    → List ℕ
    → ExploitPath
    → Option (ExploitPath × List ℕ)
unfolding Executor.new State.new
reproduce any_nonce verify_config expected_bugs path =
    confirm expected_bugs path
      (run any_nonce (map step_input path.steps) (Executor.new State.new none verify_config))
