-- ===== src/CrossChain/Deposit.antt =====
-- evm/cross_chain/executor.rs: `DualChainExecutor::execute_deposit`.
use ityfuzz_rl_src.Prelude.{ℕ, ◌+◌, false, List, [], ◌∷◌, ◌++◌, Option, none, some, HashSet}
use ityfuzz_rl_src.CrossChain.Message.{CrossChainMessage}
use ityfuzz_rl_src.CrossChain.Queue
use ityfuzz_rl_src.CrossChain.State.{lock_a}
use ityfuzz_rl_src.CrossChain.Interceptor.{VerificationResult, rejected, verify_message}
use ityfuzz_rl_src.CrossChain.ExploitStep
use ityfuzz_rl_src.CrossChain.ExploitStep.{CrossChainMutationMeta, default_meta, push_step}
use ityfuzz_rl_src.CrossChain.Executor.{
  DualChainExecutor, enqueued, write_trace, on_state, flag_replay, meta_or_default, zero_the_root,
  inflate_the_value, next_iteration,
}

-- The mutations of a deposited message.
unfoldable pub mutate_deposit :
    Option CrossChainMutationMeta → CrossChainMessage → CrossChainMessage
mutate_deposit none msg = msg
mutate_deposit (some m) msg =
    inflate_the_value m.force_inflate_value (zero_the_root m.force_zero_merkle_root msg)

abbrev pub enqueue :
    ℕ
    → ℕ
    → Option CrossChainMutationMeta
    → CrossChainMessage
    → DualChainExecutor
    → DualChainExecutor × ℕ
unfolding Queue.push lock_a push_step ExploitStep.deposit
enqueue token sig_count meta msg e =
    let (q, id) = Queue.push msg e.state.queue in
    (
      record e {
        state = lock_a token msg.value (record (e.state) { queue = q });
        exploit_path =
            push_step (ExploitStep.deposit msg token sig_count (meta_or_default meta))
              e.exploit_path;
      },
      id,
    )

abbrev pub after_deposit_check :
    VerificationResult
    → ℕ
    → ℕ
    → Option CrossChainMutationMeta
    → CrossChainMessage
    → DualChainExecutor × List ℕ
    → DualChainExecutor × List ℕ
after_deposit_check rejected token sig_count meta msg (e, ids) = (e, ids)
after_deposit_check _ token sig_count meta msg (e, ids) =
    let (e', id) = enqueue token sig_count meta msg e in (e', ids ++ id ∷ [])

-- One round of the loop over the captured messages, with the ids enqueued so far.
unfoldable pub deposit_one :
    HashSet
    → ℕ
    → ℕ
    → Option CrossChainMutationMeta
    → CrossChainMessage
    → DualChainExecutor × List ℕ
    → DualChainExecutor × List ℕ
unfolding verify_message mutate_deposit lock_a Queue.push push_step ExploitStep.deposit default_meta
deposit_one processed_nonces token sig_count meta captured (e, ids) =
    let msg = mutate_deposit meta captured in
    let (vr, flag) = verify_message e.verify_config msg processed_nonces sig_count false in
    after_deposit_check vr token sig_count meta msg (on_state (flag_replay flag) e, ids)

unfoldable pub deposit_loop :
    HashSet
    → ℕ
    → ℕ
    → Option CrossChainMutationMeta
    → List CrossChainMessage
    → DualChainExecutor × List ℕ
    → DualChainExecutor × List ℕ
unfolding deposit_one
deposit_loop processed_nonces token sig_count meta [] r = r
deposit_loop processed_nonces token sig_count meta (msg ∷ msgs) r =
    deposit_loop processed_nonces token sig_count meta msgs
      (deposit_one processed_nonces token sig_count meta msg r)

abbrev first_id : List ℕ → Option ℕ
first_id [] = none
first_id (id ∷ ids) = some id

abbrev count_ids : List ℕ → ℕ
count_ids [] = 0
count_ids (id ∷ ids) = count_ids ids + 1

unfoldable pub execute_deposit :
    (token : ℕ) (captured : List CrossChainMessage) (sig_count : ℕ)
    (meta : Option CrossChainMutationMeta)
    → DualChainExecutor
    → DualChainExecutor
unfolding deposit_loop write_trace
execute_deposit token captured sig_count meta e =
    let (e', ids) =
      deposit_loop e.state.queue.processed_nonces token sig_count meta captured
        (next_iteration e, []) in
    write_trace "Deposit" (first_id ids) "N/A" (enqueued (count_ids ids)) e'
