-- ===== src/CrossChain/Relay/Effects.antt =====
-- What the parts of a relay leave alone (evm/cross_chain/executor.rs).
use ityfuzz_rl_src.Prelude.{ℕ, ◌≡◌, refl, inl, inr, Bool, true, false, List, [], ◌∷◌, Bool-cases}
use ityfuzz_rl_src.CrossChain.Message.{CrossChainMessage}
use ityfuzz_rl_src.CrossChain.Queue
use ityfuzz_rl_src.CrossChain.State.{DualChainState}
use ityfuzz_rl_src.CrossChain.Executor.{DualChainExecutor}
use ityfuzz_rl_src.CrossChain.Relay.{
  settle, settle_and_close, flag_reentrancy, simulate_chain_b_execution,
}

-- Settling changes nothing in the queue.
pub settle-queue :
    (reverted : Bool) (token : ℕ) (msg : CrossChainMessage) (s : DualChainState)
    → (settle reverted token msg s).queue ≡ s.queue
unfolding settle
settle-queue true token msg s = refl
settle-queue false token msg s = refl

flag_reentrancy-queue :
    (bugs : List ℕ) (s : DualChainState) → (flag_reentrancy bugs s).queue ≡ s.queue
flag_reentrancy-queue [] s = refl
flag_reentrancy-queue (bug ∷ bugs) s = refl

pub settle_and_close-queue :
    (before : ℕ) (reverted : Bool) (token id : ℕ) (msg : CrossChainMessage) (s : DualChainState)
    → (settle_and_close before reverted token id msg s).queue ≡ Queue.mark_processed id s.queue
unfolding settle_and_close
settle_and_close-queue before reverted token id msg s =
    rw (flag_reentrancy-queue _ (settle reverted token msg s))
      (rw (settle-queue reverted token msg s))

pub simulate-state :
    (msg : CrossChainMessage) (e : DualChainExecutor)
    → (simulate_chain_b_execution msg e).0.state ≡ e.state
unfolding simulate_chain_b_execution
simulate-state msg e = elim (Bool-cases msg.is_fake) [ inl t ↦ rw t | inr t ↦ rw t ]
