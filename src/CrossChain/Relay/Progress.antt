-- ===== src/CrossChain/Relay/Progress.antt =====
-- What a relay does to the queue (evm/cross_chain/executor.rs).
use ityfuzz_rl_src.Prelude.{
  ℕ, ◌+◌, ◌≡◌, ◌⊎◌, refl, inl, inr, Bool, true, false, Option, some, arith, find, HashSet,
  if◌then◌else◌,
}
use ityfuzz_rl_src.CrossChain.Message.{pending, processed, dropped, CrossChainMessage}
use ityfuzz_rl_src.CrossChain.Queue
use ityfuzz_rl_src.CrossChain.Queue.{CrossChainMessageQueue, has_id, set_status, count_of}
use ityfuzz_rl_src.CrossChain.Queue.Counts.{count_of-set_status}
use ityfuzz_rl_src.CrossChain.Queue.Invariant.{IsWellFormed}
use ityfuzz_rl_src.CrossChain.Interceptor.{
  VerificationResult, valid, bypass_accepted, rejected, verify_message,
}
use ityfuzz_rl_src.CrossChain.ExploitStep.{CrossChainMutationMeta}
use ityfuzz_rl_src.CrossChain.Rng.{MessageOrdering, pick_ordering}
use ityfuzz_rl_src.CrossChain.Executor.{DualChainExecutor, write_trace, flag_replay}
use ityfuzz_rl_src.CrossChain.Relay.{
  mutate_relay, simulate_chain_b_execution, after_relay_check, relay_message, execute_relay,
}
use ityfuzz_rl_src.CrossChain.Relay.Effects.{settle_and_close-queue, simulate-state}
use ityfuzz_rl_src.CrossChain.Relay.Cases.{started, relay_cases}

-- One pending message became processed (`done`) or dropped; the other counts are as before.
abbrev pub Closed : Bool → CrossChainMessageQueue → CrossChainMessageQueue → Type 0
Closed done q q' =
    (Queue.pending_count q' + 1 ≡ Queue.pending_count q)
    × (Queue.processed_count q' ≡ Queue.processed_count q + (if done then 1 else 0))
    × (Queue.dropped_count q' ≡ Queue.dropped_count q + (if done then 0 else 1))

module _ (id : ℕ) (m : CrossChainMessage) (q : CrossChainMessageQueue)
    (found : find (has_id id) q.messages ≡ some m) (is_pending : m.status ≡ pending) where
  Closed-mark_processed : Closed true q (Queue.mark_processed id q)
  unfolding Queue.mark_processed Queue.pending_count Queue.processed_count Queue.dropped_count
  Closed-mark_processed =
      rw (found, Queue.mark_processed)
        (
          omega (arith, count_of-set_status processed pending id q.messages m found is_pending),
          omega (arith, count_of-set_status processed processed id q.messages m found is_pending),
          omega (arith, count_of-set_status processed dropped id q.messages m found is_pending),
        )

  Closed-mark_dropped : Closed false q (Queue.mark_dropped id q)
  unfolding Queue.mark_dropped Queue.pending_count Queue.processed_count Queue.dropped_count
  Closed-mark_dropped = (
    omega (arith, count_of-set_status dropped pending id q.messages m found is_pending),
    omega (arith, count_of-set_status dropped processed id q.messages m found is_pending),
    omega (arith, count_of-set_status dropped dropped id q.messages m found is_pending),
  )

after_relay_check-Closed :
    (vr : VerificationResult) (before token sig_count : ℕ) (meta : Option CrossChainMutationMeta)
    (id : ℕ) (o : MessageOrdering) (m msg : CrossChainMessage) (e : DualChainExecutor)
    → find (has_id id) e.state.queue.messages ≡ some m
    → m.status ≡ pending
    → let r = after_relay_check vr before token sig_count meta id o msg e in
      Closed r.1 e.state.queue r.0.state.queue
unfolding after_relay_check
after_relay_check-Closed rejected before token sig_count meta id o m msg e found fresh =
    Closed-mark_dropped id m e.state.queue found fresh
after_relay_check-Closed valid before token sig_count meta id o m msg e found fresh =
    rw (simulate-state msg e) (
      rw (settle_and_close-queue before (simulate_chain_b_execution msg e).1 token id msg e.state)
        (Closed-mark_processed id m e.state.queue found fresh))
after_relay_check-Closed (bypass_accepted b) before token sig_count meta id o m msg e found fresh =
    rw (simulate-state msg e) (
      rw (settle_and_close-queue before (simulate_chain_b_execution msg e).1 token id msg e.state)
        (Closed-mark_processed id m e.state.queue found fresh))

-- A relay on a well-formed queue never panics. It reports false and leaves the state as it is when
-- nothing is pending; otherwise it closes exactly one pending message, as processed when it reports
-- true and as dropped when it reports false.
pub relay_progress :
    (any_nonce : HashSet → Option ℕ) (token sig_count : ℕ) (meta : Option CrossChainMutationMeta)
    (e : DualChainExecutor)
    → IsWellFormed e.state.queue
    → (r : DualChainExecutor × Bool) × (execute_relay any_nonce token sig_count meta e ≡ some r)
      × (((Queue.pending_count e.state.queue ≡ 0) × (r.1 ≡ false) × (r.0.state ≡ e.state))
          ⊎ Closed r.1 e.state.queue r.0.state.queue)
unfolding write_trace relay_message Queue.pending_count Queue.pending_messages
relay_progress any_nonce token sig_count meta e v =
    elim (relay_cases any_nonce token sig_count meta e v) [
      | inl idle ↦ (_, idle.outcome, inl (idle.nothing, refl, refl))
      | inr busy ↦
          let nonces = e.state.queue.processed_nonces in
          let msg = mutate_relay any_nonce meta nonces busy.message in
          let vr = verify_message e.verify_config msg nonces sig_count false in
          let s = started busy.rng e in
          (
            _,
            busy.outcome,
            inr (
                after_relay_check-Closed vr.0 (Queue.pending_count e.state.queue) token sig_count
                  meta busy.id (pick_ordering s.rng_state).0 busy.message msg
                  (record s {
                    state = flag_replay vr.1 e.state;
                    rng_state = (pick_ordering s.rng_state).1;
                  })
                  busy.found busy.is_pending),
          )
    ]
