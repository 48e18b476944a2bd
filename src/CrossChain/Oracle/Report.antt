-- ===== src/CrossChain/Oracle/Report.antt =====
-- What the cross-chain oracle reports (evm/oracles/cross_chain.rs).
use ityfuzz_rl_src.Prelude.{
  ℕ, ◌≡◌, refl, Bool, true, false, ◌||◌, List, ◌++◌, arith, if◌then◌else◌, ◌==◌, contains,
}
use ityfuzz_rl_src.CrossChain.State.{DualChainState}
use ityfuzz_rl_src.CrossChain.Oracle.{
  flagged, mint_exceeds_lock, inspect, cross_chain_mint_idx, cross_chain_fake_msg_idx,
  cross_chain_replay_idx, cross_chain_drain_idx, cross_chain_desync_idx, cross_chain_queue_idx,
  cross_chain_atomicity_idx, cross_chain_reentrancy_idx,
}

contains-flagged :
    (k i : ℕ) (b : Bool) (rest : List ℕ)
    → contains k (flagged b i ++ rest) ≡ (if i == k then b || contains k rest else contains k rest)
contains-flagged k i true rest = ground arith
contains-flagged k i false rest = ground arith

contains-last : (k i : ℕ) (b : Bool) → contains k (flagged b i) ≡ (if i == k then b else false)
contains-last k i true = ground arith
contains-last k i false = ground arith

abbrev pub hit : ℕ → ℕ → Bool → Bool → Bool
hit k i b rest = if i == k then b || rest else rest

pub contains-inspect :
    (k : ℕ) (s : DualChainState)
    → contains k (inspect s)
      ≡ hit k cross_chain_mint_idx (mint_exceeds_lock s) (
          hit k cross_chain_fake_msg_idx s.fake_message_accepted (
            hit k cross_chain_replay_idx s.replay_detected (
              hit k cross_chain_desync_idx s.state_desync_detected (
                hit k cross_chain_queue_idx s.queue_consistency_violated (
                  hit k cross_chain_atomicity_idx s.atomicity_violated (
                    hit k cross_chain_drain_idx s.drain_detected (
                      if cross_chain_reentrancy_idx == k
                      then s.reentrancy_detected
                      else false)))))))
unfolding inspect
contains-inspect k s = simp (contains-flagged, contains-last)

pub or_false : (b : Bool) → (b || false) ≡ b
or_false true = refl
or_false false = refl

-- Each index in terms of the tests in `inspect`.
pub inspect_each :
    (s : DualChainState)
    → (contains cross_chain_mint_idx (inspect s) ≡ mint_exceeds_lock s)
      × (contains cross_chain_fake_msg_idx (inspect s) ≡ s.fake_message_accepted)
      × (contains cross_chain_replay_idx (inspect s) ≡ s.replay_detected)
      × (contains cross_chain_desync_idx (inspect s) ≡ s.state_desync_detected)
      × (contains cross_chain_queue_idx (inspect s) ≡ s.queue_consistency_violated)
      × (contains cross_chain_atomicity_idx (inspect s) ≡ s.atomicity_violated)
      × (contains cross_chain_drain_idx (inspect s) ≡ s.drain_detected)
      × (contains cross_chain_reentrancy_idx (inspect s) ≡ s.reentrancy_detected)
inspect_each s = (
  rw (contains-inspect 12 s) (or_false _),
  rw (contains-inspect 13 s) (or_false _),
  rw (contains-inspect 14 s) (or_false _),
  rw (contains-inspect 16 s) (or_false _),
  rw (contains-inspect 17 s) (or_false _),
  rw (contains-inspect 18 s) (or_false _),
  rw (contains-inspect 15 s) (or_false _),
  contains-inspect 21 s,
)
