-- ===== src/CrossChain/Relay/Cases.antt =====
-- The two ways a relay goes on a well-formed queue: nothing is pending, or the message that it
-- picks is found and is pending (evm/cross_chain/executor.rs).
use ityfuzz_rl_src.Prelude.{
  ℕ, ◌≡◌, refl, sym, List, [], ◌∷◌, map, length, ◌⊎◌, inl, inr, false, Option, none, some,
  Option-cases, find, HashSet,
}
use ityfuzz_rl_src.CrossChain.Message.{pending, CrossChainMessage}
use ityfuzz_rl_src.CrossChain.Queue
use ityfuzz_rl_src.CrossChain.Queue.{has_id}
use ityfuzz_rl_src.CrossChain.Queue.Invariant.{IsWellFormed}
use ityfuzz_rl_src.CrossChain.Queue.Values.{Pending, pending_messages-Pending}
use ityfuzz_rl_src.CrossChain.ExploitStep.{CrossChainMutationMeta}
use ityfuzz_rl_src.CrossChain.Rng.{select_pending_id}
use ityfuzz_rl_src.CrossChain.Rng.Bounds.{select_pending_id-Picks}
use ityfuzz_rl_src.CrossChain.Executor.{DualChainExecutor, no_pending, write_trace, next_iteration}
use ityfuzz_rl_src.CrossChain.Relay.{
  relay_found, relay_selected, relay_picked, relay_message, execute_relay,
}

-- The executor when the message has been picked.
abbrev pub started : ℕ → DualChainExecutor → DualChainExecutor
started rng e = record (next_iteration e) { rng_state = rng }

module _ (any_nonce : HashSet → Option ℕ) (token sig_count : ℕ)
    (meta : Option CrossChainMutationMeta) (e : DualChainExecutor) where
  pub record Idle : Type 0 where
    pub rng : ℕ
    pub nothing : length (Queue.pending_messages e.state.queue) ≡ 0
    pub outcome :
        execute_relay any_nonce token sig_count meta e
        ≡ some (write_trace "Relay" none "N/A" no_pending (started rng e), false)

  pub record Busy : Type 0 where
    pub id : ℕ
    pub rng : ℕ
    pub message : CrossChainMessage
    pub selected : select_pending_id e.rng_state e.state.queue ≡ some (some id, rng)
    pub found : find (has_id id) e.state.queue.messages ≡ some message
    pub is_pending : message.status ≡ pending
    pub outcome :
        execute_relay any_nonce token sig_count meta e
        ≡ some (
            relay_message any_nonce
              (Queue.pending_count e.state.queue)
              token
              sig_count
              meta
              id
              message
              (started rng e))

  length-map-nil :
      (ms : List CrossChainMessage) → map (λ (m : CrossChainMessage). m.id) ms ≡ [] → length ms ≡ 0
  length-map-nil [] e = refl
  length-map-nil (m ∷ ms) e = cc

  pub relay_cases : IsWellFormed e.state.queue → Idle ⊎ Busy
  unfolding execute_relay
  relay_cases v =
      let p =
        select_pending_id-Picks (Pending e.state.queue.messages) e.rng_state e.state.queue
          (pending_messages-Pending e.state.queue.next_id e.state.queue v.ids) in
      elim (Option-cases p.selected) [
        | inl n ↦ inl (record {
          rng = p.rng;
          nothing = length-map-nil _ (p.none_there n);
          outcome = rw (p.returned, relay_picked) (rw (n, relay_selected) refl);
        })
        | inr (id, s) ↦
            let (m, f, o) = p.holds id s in
            inr (record {
              id = id;
              rng = p.rng;
              message = m;
              selected = rw (sym s) (p.returned);
              found = f;
              is_pending = o;
              outcome =
                  rw (p.returned, relay_picked) (rw (s, relay_selected) (rw (f, relay_found) refl));
            })
      ]
