-- ===== src/CrossChain/Runs/PathLength.antt =====
-- A call of the executor records at most one step for each captured message, and one for a relay.
use ityfuzz_rl_src.Prelude.{
  ℕ, suc, ◌+◌, ◌≤◌, ◌≡◌, sym, ◌∙◌, subst, some-injective, inl, inr, Bool, false, List, [], ◌∷◌,
  Option, some, arith, HashSet, length, length-append, Bool-cases,
}
use ityfuzz_rl_src.CrossChain.Message.{CrossChainMessage}
use ityfuzz_rl_src.CrossChain.Queue
use ityfuzz_rl_src.CrossChain.Queue.Invariant.{IsWellFormed}
use ityfuzz_rl_src.CrossChain.State.{lock_a}
use ityfuzz_rl_src.CrossChain.Interceptor.{
  VerificationResult, valid, bypass_accepted, rejected, verify_message,
}
use ityfuzz_rl_src.CrossChain.ExploitStep
use ityfuzz_rl_src.CrossChain.ExploitStep.{CrossChainMutationMeta, push_step}
use ityfuzz_rl_src.CrossChain.Rng.{MessageOrdering, pick_ordering}
use ityfuzz_rl_src.CrossChain.Executor.{DualChainExecutor, write_trace, flag_replay, next_iteration}
use ityfuzz_rl_src.CrossChain.Deposit.{
  mutate_deposit, after_deposit_check, deposit_loop, execute_deposit,
}
use ityfuzz_rl_src.CrossChain.Relay.{
  mutate_relay, simulate_chain_b_execution, after_relay_check, relay_message, execute_relay,
}
use ityfuzz_rl_src.CrossChain.Relay.Cases.{started, relay_cases}

-- How many steps the executor has recorded.
abbrev pub path_length : DualChainExecutor → ℕ
path_length e = length e.exploit_path.steps

after_deposit_check-path :
    (vr : VerificationResult) (token sig_count : ℕ) (meta : Option CrossChainMutationMeta)
    (m : CrossChainMessage) (e : DualChainExecutor) (ids : List ℕ)
    → path_length (after_deposit_check vr token sig_count meta m (e, ids)).0 ≤ suc (path_length e)
unfolding Queue.push lock_a push_step ExploitStep.deposit
after_deposit_check-path rejected token sig_count meta m e ids = omega arith
after_deposit_check-path valid token sig_count meta m e ids =
    omega (arith, length-append {0} e.exploit_path.steps)
after_deposit_check-path (bypass_accepted r) token sig_count meta m e ids =
    omega (arith, length-append {0} e.exploit_path.steps)

deposit_loop-path :
    (nonces : HashSet) (token sig_count : ℕ) (meta : Option CrossChainMutationMeta)
    (captured : List CrossChainMessage) (e : DualChainExecutor) (ids : List ℕ)
    → path_length (deposit_loop nonces token sig_count meta captured (e, ids)).0
      ≤ length captured + path_length e
unfolding deposit_loop
deposit_loop-path nonces token sig_count meta [] e ids = omega arith
deposit_loop-path nonces token sig_count meta (captured ∷ rest) e ids =
    let m = mutate_deposit meta captured in
    let r = verify_message e.verify_config m nonces sig_count false in
    let e' : DualChainExecutor = record e { state = flag_replay r.1 e.state } in
    let after = after_deposit_check r.0 token sig_count meta m (e', ids) in
    omega (
      arith,
      after_deposit_check-path r.0 token sig_count meta m e' ids,
      deposit_loop-path nonces token sig_count meta rest after.0 after.1,
    )

pub execute_deposit-path :
    (token sig_count : ℕ) (meta : Option CrossChainMutationMeta) (captured : List CrossChainMessage)
    (e : DualChainExecutor)
    → path_length (execute_deposit token captured sig_count meta e)
      ≤ length captured + path_length e
unfolding execute_deposit
execute_deposit-path token sig_count meta captured e =
    deposit_loop-path e.state.queue.processed_nonces token sig_count meta captured
      (next_iteration e) []

simulate-path :
    (msg : CrossChainMessage) (e : DualChainExecutor)
    → (simulate_chain_b_execution msg e).0.exploit_path ≡ e.exploit_path
unfolding simulate_chain_b_execution
simulate-path msg e = elim (Bool-cases msg.is_fake) [ inl t ↦ rw t | inr t ↦ rw t ]

after_relay_check-path :
    (vr : VerificationResult) (before token sig_count : ℕ) (meta : Option CrossChainMutationMeta)
    (id : ℕ) (o : MessageOrdering) (msg : CrossChainMessage) (e : DualChainExecutor)
    → path_length (after_relay_check vr before token sig_count meta id o msg e).0
      ≤ suc (path_length e)
unfolding after_relay_check
after_relay_check-path rejected before token sig_count meta id o msg e = omega arith
after_relay_check-path valid before token sig_count meta id o msg e =
    rw (simulate-path msg e) (omega (arith, length-append {0} e.exploit_path.steps))
after_relay_check-path (bypass_accepted r) before token sig_count meta id o msg e =
    rw (simulate-path msg e) (omega (arith, length-append {0} e.exploit_path.steps))

pub execute_relay-path :
    (any_nonce : HashSet → Option ℕ) (token sig_count : ℕ) (meta : Option CrossChainMutationMeta)
    (e : DualChainExecutor) (r : DualChainExecutor × Bool)
    → IsWellFormed e.state.queue
    → execute_relay any_nonce token sig_count meta e ≡ some r
    → path_length r.0 ≤ suc (path_length e)
unfolding write_trace relay_message
execute_relay-path any_nonce token sig_count meta e r v ran =
    elim (relay_cases any_nonce token sig_count meta e v) [
      | inl idle ↦
          subst {A = DualChainExecutor × Bool} (λ x. path_length x.0 ≤ suc (path_length e))
            (some-injective _ _ (sym idle.outcome ∙ ran)) (omega arith)
      | inr busy ↦
          let nonces = e.state.queue.processed_nonces in
          let msg = mutate_relay any_nonce meta nonces busy.message in
          let vr = verify_message e.verify_config msg nonces sig_count false in
          let s = started busy.rng e in
          subst {A = DualChainExecutor × Bool} (λ x. path_length x.0 ≤ suc (path_length e))
            (some-injective _ _ (sym busy.outcome ∙ ran))
            (after_relay_check-path vr.0 (Queue.pending_count e.state.queue) token sig_count meta
              busy.id (pick_ordering s.rng_state).0 msg
              (record s {
                state = flag_replay vr.1 e.state;
                rng_state = (pick_ordering s.rng_state).1;
              }))
    ]
