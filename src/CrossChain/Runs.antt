-- ===== src/CrossChain/Runs.antt =====
-- Runs of the dual-chain executor: sequences of calls of `execute_deposit` and `execute_relay`
-- (evm/cross_chain/executor.rs).
pub mod Rule
pub mod Tidy
pub mod Quiet
pub mod Backed
pub mod Genuine
pub mod PathLength
use ityfuzz_rl_src.Prelude.{ℕ, ◌+◌, List, [], ◌∷◌, Option, none, some, Bool, HashSet, length}
use ityfuzz_rl_src.CrossChain.Message.{CrossChainMessage}
use ityfuzz_rl_src.CrossChain.ExploitStep.{CrossChainMutationMeta}
use ityfuzz_rl_src.CrossChain.Executor.{DualChainExecutor}
use ityfuzz_rl_src.CrossChain.Deposit.{execute_deposit}
use ityfuzz_rl_src.CrossChain.Relay.{execute_relay}

pub data Input : Type 0 where
  deposit_input :
      (token : ℕ) (captured : List CrossChainMessage) (sig_count : ℕ)
      (meta : Option CrossChainMutationMeta)
      → Input
  relay_input : (token sig_count : ℕ) (meta : Option CrossChainMutationMeta) → Input

-- How many messages the inputs may add to the queue.
abbrev pub captured_count : List Input → ℕ
captured_count [] = 0
captured_count (deposit_input token captured sig_count meta ∷ inputs) =
    length captured + captured_count inputs
captured_count (relay_input token sig_count meta ∷ inputs) = captured_count inputs

module _ (any_nonce : HashSet → Option ℕ) where
  abbrev forget_done : Option (DualChainExecutor × Bool) → Option DualChainExecutor
  forget_done none = none
  forget_done (some (e, done)) = some e

  unfoldable pub apply : Input → DualChainExecutor → Option DualChainExecutor
  apply (deposit_input token captured sig_count meta) e =
      some (execute_deposit token captured sig_count meta e)
  apply (relay_input token sig_count meta) e =
      forget_done (execute_relay any_nonce token sig_count meta e)

  abbrev and_then :
      Option DualChainExecutor
      → (DualChainExecutor → Option DualChainExecutor)
      → Option DualChainExecutor
  and_then none f = none
  and_then (some e) f = f e

  -- `none` is a panic of some call.
  unfoldable pub run : List Input → DualChainExecutor → Option DualChainExecutor
  unfolding apply
  run [] e = some e
  run (input ∷ inputs) e = and_then (apply input e) (run inputs)
