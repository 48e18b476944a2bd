-- ===== src/CrossChain/Relay.antt =====
-- evm/cross_chain/executor.rs: `DualChainExecutor::execute_relay`. `any_nonce` is the first element
-- in the iteration order of a `HashSet`, which the standard library leaves open.
pub mod Cases
pub mod Effects
pub mod Progress
pub mod ZeroSeed
use ityfuzz_rl_src.Prelude.{
  ℕ, ◌%◌, Bool, true, false, List, [], ◌∷◌, Option, none, some, String, if◌then◌else◌, ltb, find,
  HashSet,
}
use ityfuzz_rl_src.CrossChain.Message.{CrossChainMessage}
use ityfuzz_rl_src.CrossChain.Queue
use ityfuzz_rl_src.CrossChain.Queue.{has_id}
use ityfuzz_rl_src.CrossChain.State.{DualChainState, mint_b}
use ityfuzz_rl_src.CrossChain.Interceptor.{VerificationResult, rejected, verify_message}
use ityfuzz_rl_src.CrossChain.Oracle.{inspect_reentrancy}
use ityfuzz_rl_src.CrossChain.ExploitStep
use ityfuzz_rl_src.CrossChain.ExploitStep.{CrossChainMutationMeta, default_meta, push_step}
use ityfuzz_rl_src.CrossChain.Rng.{
  MessageOrdering, fifo, random, shuffled, xorshift64, pick_ordering, select_pending_id,
}
use ityfuzz_rl_src.CrossChain.Executor.{
  DualChainExecutor, no_pending, rejection, revert, success, check_invariants, write_trace,
  on_state, flag_replay, meta_or_default, zero_the_root, inflate_the_value, next_iteration,
}

abbrev nonce_or : Option ℕ → ℕ → ℕ
nonce_or none n = n
nonce_or (some k) n = k

-- Whether Chain B reverts: only a fake message may, with probability 7/10.
unfoldable pub simulate_chain_b_execution :
    CrossChainMessage → DualChainExecutor → DualChainExecutor × Bool
simulate_chain_b_execution msg e =
    let r = xorshift64 e.rng_state in
    if msg.is_fake then (record e { rng_state = r }, ltb (r % 10) 7) else (e, false)

abbrev pub ordering_label : MessageOrdering → String
ordering_label fifo = "Fifo"
ordering_label random = "Random"
ordering_label shuffled = "Shuffled"

module _ (any_nonce : HashSet → Option ℕ) where
  -- The mutations of the relayed copy; the queue keeps the message as it is.
  unfoldable pub mutate_relay :
      Option CrossChainMutationMeta → HashSet → CrossChainMessage → CrossChainMessage
  mutate_relay none processed_nonces msg = msg
  mutate_relay (some m) processed_nonces msg =
      let msg' = zero_the_root m.force_zero_merkle_root msg in
      let n =
        if m.force_replay_nonce
        then nonce_or (any_nonce processed_nonces) msg'.nonce
        else msg'.nonce in
      inflate_the_value m.force_inflate_value (record msg' { nonce = n })

-- `if !reentrancy_bugs.is_empty() { reentrancy_detected = true }`
abbrev pub flag_reentrancy : List ℕ → DualChainState → DualChainState
flag_reentrancy [] s = s
flag_reentrancy (bug ∷ bugs) s = record s { reentrancy_detected = true }

-- The effect of Chain B's execution on the state.
unfoldable pub settle : Bool → ℕ → CrossChainMessage → DualChainState → DualChainState
unfolding mint_b
settle reverted token msg s =
    if reverted
    then record s { atomicity_violated = true }
    else let s' = mint_b token msg.value s in
      record s' { fake_message_accepted = if msg.is_fake then true else s'.fake_message_accepted }

-- The state after an accepted relay, from the state before Chain B's execution.
unfoldable pub settle_and_close :
    (pending_before_relay : ℕ) (reverted : Bool) (token msg_id : ℕ)
    → CrossChainMessage
    → DualChainState
    → DualChainState
unfolding settle inspect_reentrancy check_invariants Queue.mark_processed Queue.pending_count
settle_and_close pending_before_relay reverted token msg_id msg s =
    let s' = settle reverted token msg s in
    let pending_during = Queue.pending_count s'.queue in
    let s'' = flag_reentrancy (inspect_reentrancy pending_before_relay pending_during true) s' in
    check_invariants (record s'' { queue = Queue.mark_processed msg_id s''.queue })

unfoldable pub accept_relay :
    (pending_before_relay : ℕ) (token sig_count : ℕ) (meta : Option CrossChainMutationMeta)
    (msg_id : ℕ) (ordering : MessageOrdering)
    → CrossChainMessage
    → DualChainExecutor
    → DualChainExecutor
unfolding settle_and_close simulate_chain_b_execution write_trace push_step ExploitStep.relay
accept_relay pending_before_relay token sig_count meta msg_id ordering msg e =
    let (e', reverted) = simulate_chain_b_execution msg e in
    let step = ExploitStep.relay msg token sig_count (meta_or_default meta) in
    write_trace "Relay" (some msg_id) (ordering_label ordering)
      (if reverted then revert else success)
      (record e' {
        exploit_path = push_step step e'.exploit_path;
        state = settle_and_close pending_before_relay reverted token msg_id msg e'.state;
      })

unfoldable pub reject_relay : ℕ → MessageOrdering → DualChainExecutor → DualChainExecutor
unfolding write_trace Queue.mark_dropped
reject_relay msg_id ordering e =
    write_trace "Relay" (some msg_id) (ordering_label ordering) rejection
      (on_state (λ s. record s { queue = Queue.mark_dropped msg_id s.queue }) e)

unfoldable pub after_relay_check :
    VerificationResult
    → (pending_before_relay : ℕ) (token sig_count : ℕ) (meta : Option CrossChainMutationMeta)
      (msg_id : ℕ)
    → MessageOrdering
    → CrossChainMessage
    → DualChainExecutor
    → DualChainExecutor × Bool
unfolding accept_relay reject_relay
after_relay_check rejected before token sig_count meta msg_id ordering msg e =
    (reject_relay msg_id ordering e, false)
after_relay_check _ before token sig_count meta msg_id ordering msg e =
    (accept_relay before token sig_count meta msg_id ordering msg e, true)

module _ (any_nonce : HashSet → Option ℕ) where
  -- The relay of the message found in the queue.
  unfoldable pub relay_message :
      (pending_before_relay token sig_count : ℕ) (meta : Option CrossChainMutationMeta) (msg_id : ℕ)
      → CrossChainMessage
      → DualChainExecutor
      → DualChainExecutor × Bool
  unfolding after_relay_check verify_message mutate_relay pick_ordering
  relay_message pending_before_relay token sig_count meta msg_id found e =
      let nonces = e.state.queue.processed_nonces in
      let msg = mutate_relay any_nonce meta nonces found in
      let (vr, flag) = verify_message e.verify_config msg nonces sig_count false in
      let (ordering, rng) = pick_ordering e.rng_state in
      after_relay_check vr pending_before_relay token sig_count meta msg_id ordering msg
        (record e { state = flag_replay flag e.state; rng_state = rng })

  unfoldable relay_found :
      (pending_before_relay token sig_count : ℕ) (meta : Option CrossChainMutationMeta) (msg_id : ℕ)
      → Option CrossChainMessage
      → DualChainExecutor
      → Option (DualChainExecutor × Bool)
  relay_found before token sig_count meta msg_id none e = none
  relay_found before token sig_count meta msg_id (some found) e =
      some (relay_message before token sig_count meta msg_id found e)

  unfoldable relay_selected :
      (pending_before_relay token sig_count : ℕ) (meta : Option CrossChainMutationMeta)
      → Option ℕ
      → DualChainExecutor
      → Option (DualChainExecutor × Bool)
  unfolding relay_found write_trace
  relay_selected before token sig_count meta none e =
      some (write_trace "Relay" none "N/A" no_pending e, false)
  relay_selected before token sig_count meta (some msg_id) e =
      relay_found before token sig_count meta msg_id (find (has_id msg_id) e.state.queue.messages) e

  unfoldable relay_picked :
      (pending_before_relay token sig_count : ℕ) (meta : Option CrossChainMutationMeta)
      → Option (Option ℕ × ℕ)
      → DualChainExecutor
      → Option (DualChainExecutor × Bool)
  unfolding relay_selected
  relay_picked before token sig_count meta none e = none
  relay_picked before token sig_count meta (some (selected, rng)) e =
      relay_selected before token sig_count meta selected (record e { rng_state = rng })

  -- `none` is a panic: an index out of range, or `unwrap` on the selected message.
  unfoldable pub execute_relay :
      (token sig_count : ℕ) (meta : Option CrossChainMutationMeta)
      → DualChainExecutor
      → Option (DualChainExecutor × Bool)
  unfolding relay_picked select_pending_id Queue.pending_count
  execute_relay token sig_count meta e =
      relay_picked (Queue.pending_count e.state.queue) token sig_count meta
        (select_pending_id e.rng_state e.state.queue) (next_iteration e)
