-- ===== src/CrossChain/Oracle.antt =====
-- evm/oracles/cross_chain.rs and evm/oracles/reentrancy_crosschain.rs. The returned bug indices are
-- a list of numbers, as in the source.
pub mod Report
pub mod Clean
use ityfuzz_rl_src.Prelude.{ℕ, Bool, ◌&&◌, List, [], ◌∷◌, ◌++◌, if◌then◌else◌, ltb, any, lookup_or}
use ityfuzz_rl_src.CrossChain.State.{DualChainState}

abbrev pub cross_chain_mint_idx : ℕ
cross_chain_mint_idx = 12

abbrev pub cross_chain_fake_msg_idx : ℕ
cross_chain_fake_msg_idx = 13

abbrev pub cross_chain_replay_idx : ℕ
cross_chain_replay_idx = 14

abbrev pub cross_chain_drain_idx : ℕ
cross_chain_drain_idx = 15

abbrev pub cross_chain_desync_idx : ℕ
cross_chain_desync_idx = 16

abbrev pub cross_chain_queue_idx : ℕ
cross_chain_queue_idx = 17

abbrev pub cross_chain_atomicity_idx : ℕ
cross_chain_atomicity_idx = 18

abbrev pub cross_chain_reentrancy_idx : ℕ
cross_chain_reentrancy_idx = 21

-- `if flag { bugs.push(idx) }`
abbrev pub flagged : Bool → ℕ → List ℕ
flagged flag idx = if flag then idx ∷ [] else []

-- I1: some locked token has more minted than locked. The loop stops at the first such token.
abbrev pub mint_exceeds_lock : DualChainState → Bool
mint_exceeds_lock s = any (λ (token, locked). ltb locked (lookup_or token 0 s.minted_b)) s.locked_a

unfoldable pub inspect : DualChainState → List ℕ
inspect s =
    flagged (mint_exceeds_lock s) cross_chain_mint_idx
    ++ (flagged s.fake_message_accepted cross_chain_fake_msg_idx
        ++ (flagged s.replay_detected cross_chain_replay_idx
            ++ (flagged s.state_desync_detected cross_chain_desync_idx
                ++ (flagged s.queue_consistency_violated cross_chain_queue_idx
                    ++ (flagged s.atomicity_violated cross_chain_atomicity_idx
                        ++ (flagged s.drain_detected cross_chain_drain_idx
                            ++ flagged s.reentrancy_detected cross_chain_reentrancy_idx))))))

unfoldable pub inspect_reentrancy : ℕ → ℕ → Bool → List ℕ
inspect_reentrancy pending_before pending_during relay_still_pending =
    if ltb pending_before pending_during && relay_still_pending
    then cross_chain_reentrancy_idx ∷ []
    else []
