-- ===== src/Rl/RelaySignal.antt =====
-- The reward signal (rl_scheduler.rs) of a relay (evm/cross_chain/executor.rs).
use ityfuzz_rl_src.Prelude.{
  ℕ, ◌<◌, ◌≡◌, inl, inr, Bool, true, false, Option, some, HashSet, ap, ◌∙◌, sym, u64_mod, Floats,
  arith,
}
use ityfuzz_rl_src.CrossChain.Queue
use ityfuzz_rl_src.CrossChain.Queue.{CrossChainMessageQueue}
use ityfuzz_rl_src.CrossChain.Queue.Counts.{counts_partition}
use ityfuzz_rl_src.CrossChain.Queue.Invariant.{IsWellFormed}
use ityfuzz_rl_src.CrossChain.ExploitStep.{CrossChainMutationMeta}
use ityfuzz_rl_src.CrossChain.State.{DualChainState}
use ityfuzz_rl_src.CrossChain.Executor.{DualChainExecutor}
use ityfuzz_rl_src.CrossChain.Relay.{execute_relay}
use ityfuzz_rl_src.CrossChain.Relay.Progress.{Closed, relay_progress}
use ityfuzz_rl_src.Rl.Reward.{CrossChainRewardSignal, build_cross_chain_signal}

module _ (fl : Floats) where
  -- The signal built from the executor before and after a call.
  abbrev pub signal_of : DualChainExecutor → DualChainExecutor → CrossChainRewardSignal fl
  signal_of e e' =
      build_cross_chain_signal fl (Queue.pending_count e.state.queue)
        (Queue.processed_count e.state.queue) (Queue.pending_count e'.state.queue)
        (Queue.processed_count e'.state.queue) e'.state

  Closed-signal :
      (done : Bool) (e e' : DualChainExecutor)
      → Queue.total_count e.state.queue < u64_mod
      → Closed done e.state.queue e'.state.queue
      → ((signal_of e e').message_dispatched ≡ false) × ((signal_of e e').message_relayed ≡ done)
  unfolding build_cross_chain_signal
  Closed-signal true e e' room (p, q, d) = (
    ground (arith, counts_partition e.state.queue),
    ground (arith, counts_partition e.state.queue),
  )
  Closed-signal false e e' room (p, q, d) = (
    ground (arith, counts_partition e.state.queue),
    ground (arith, counts_partition e.state.queue),
  )

  idle_signal :
      (e e' : DualChainExecutor)
      → e'.state ≡ e.state
      → ((signal_of e e').message_dispatched ≡ false) × ((signal_of e e').message_relayed ≡ false)
  unfolding build_cross_chain_signal
  idle_signal e e' same =
      let p : Queue.pending_count e'.state.queue ≡ Queue.pending_count e.state.queue =
        ap (λ (s : DualChainState). Queue.pending_count s.queue) same in
      let q : Queue.processed_count e'.state.queue ≡ Queue.processed_count e.state.queue =
        ap (λ (s : DualChainState). Queue.processed_count s.queue) same in
      (rw (p, q) (ground arith), rw q (ground arith))

  -- The signal of a relay. On a well-formed queue of fewer than 2^64 messages the relay ends, and the
  -- signal built from the counts before and after it never claims that a message was dispatched, and
  -- claims that one was relayed exactly when the relay reports success.
  pub relay_signal :
      (any_nonce : HashSet → Option ℕ) (token sig_count : ℕ) (meta : Option CrossChainMutationMeta)
      (e : DualChainExecutor)
      → IsWellFormed e.state.queue
      → Queue.total_count e.state.queue < u64_mod
      → (r : DualChainExecutor × Bool) × (execute_relay any_nonce token sig_count meta e ≡ some r)
        × ((signal_of e r.0).message_dispatched ≡ false)
        × ((signal_of e r.0).message_relayed ≡ r.1)
  relay_signal any_nonce token sig_count meta e v room =
      let (r, ran, outcome) = relay_progress any_nonce token sig_count meta e v in
      let signal : ((signal_of e r.0).message_dispatched ≡ false)
          × ((signal_of e r.0).message_relayed ≡ r.1) =
        elim outcome [
          | inl (nothing, idle, same) ↦
              ((idle_signal e r.0 same).0, (idle_signal e r.0 same).1 ∙ sym idle)
          | inr closed ↦ Closed-signal r.1 e r.0 room closed
        ] in
      (r, ran, signal.0, signal.1)
