-- ===== src/CrossChain/Relay/ZeroSeed.antt =====
-- Runs of an executor with the seed 0 (evm/cross_chain/executor.rs).
use ityfuzz_rl_src.Prelude.{
  ℕ, ◌≡◌, refl, ◌∙◌, subst, inl, inr, Bool, false, List, [], ◌∷◌, Option, none, some, map, find,
  get_elem?, HashSet, All, ◌<◌, arith, u64_mod, Option-cases, Bool-cases, some-injective,
}
use ityfuzz_rl_src.CrossChain.Message.{CrossChainMessage}
use ityfuzz_rl_src.CrossChain.Queue
use ityfuzz_rl_src.CrossChain.Queue.{CrossChainMessageQueue, has_id}
use ityfuzz_rl_src.CrossChain.State.{DualChainState, lock_a}
use ityfuzz_rl_src.CrossChain.Interceptor.{
  MockVerificationConfig, VerificationResult, valid, bypass_accepted, rejected, verify_message,
}
use ityfuzz_rl_src.CrossChain.ExploitStep
use ityfuzz_rl_src.CrossChain.ExploitStep.{CrossChainMutationMeta, push_step}
use ityfuzz_rl_src.CrossChain.Rng.{
  xorshift64, MessageOrdering, fifo, pick_ordering, choose_pending, select_pending_id,
}
use ityfuzz_rl_src.CrossChain.Executor
use ityfuzz_rl_src.CrossChain.Executor.{DualChainExecutor, write_trace, flag_replay, next_iteration}
use ityfuzz_rl_src.CrossChain.Deposit.{
  mutate_deposit, after_deposit_check, deposit_loop, execute_deposit,
}
use ityfuzz_rl_src.CrossChain.Relay.{
  mutate_relay, simulate_chain_b_execution, after_relay_check, relay_message, relay_found,
  relay_selected, relay_picked, execute_relay,
}
use ityfuzz_rl_src.CrossChain.Runs.{Input, deposit_input, relay_input, captured_count, run}
use ityfuzz_rl_src.CrossChain.Runs.Tidy.{FreshInput, run_total}
use ityfuzz_rl_src.CrossChain.Queue.Invariant.{new-IsWellFormed}
use ityfuzz_rl_src.CrossChain.State

-- The ids of the pending messages, in the order of the queue.
abbrev pub pending_ids : CrossChainMessageQueue → List ℕ
pending_ids q = map (λ (m : CrossChainMessage). m.id) (Queue.pending_messages q)

xorshift64-zero : (x : ℕ) → x ≡ 0 → xorshift64 x ≡ 0
unfolding xorshift64
xorshift64-zero x e = rw e refl

choose_pending-zero : (ids : List ℕ) → choose_pending 0 ids ≡ some (get_elem? ids 0, 0)
unfolding choose_pending xorshift64
choose_pending-zero [] = refl
choose_pending-zero (first ∷ rest) = refl

select_pending_id-zero :
    (rng : ℕ) (q : CrossChainMessageQueue)
    → rng ≡ 0
    → select_pending_id rng q ≡ some (get_elem? (pending_ids q) 0, 0)
unfolding select_pending_id
select_pending_id-zero rng q e = rw e (choose_pending-zero (pending_ids q))

after_deposit_check-rng :
    (vr : VerificationResult) (token sig_count : ℕ) (meta : Option CrossChainMutationMeta)
    (m : CrossChainMessage) (e : DualChainExecutor) (ids : List ℕ)
    → (after_deposit_check vr token sig_count meta m (e, ids)).0.rng_state ≡ e.rng_state
unfolding Queue.push lock_a push_step ExploitStep.deposit
after_deposit_check-rng rejected token sig_count meta m e ids = refl
after_deposit_check-rng valid token sig_count meta m e ids = refl
after_deposit_check-rng (bypass_accepted r) token sig_count meta m e ids = refl

deposit_loop-rng :
    (nonces : HashSet) (token sig_count : ℕ) (meta : Option CrossChainMutationMeta)
    (captured : List CrossChainMessage) (e : DualChainExecutor) (ids : List ℕ)
    → (deposit_loop nonces token sig_count meta captured (e, ids)).0.rng_state ≡ e.rng_state
unfolding deposit_loop
deposit_loop-rng nonces token sig_count meta [] e ids = refl
deposit_loop-rng nonces token sig_count meta (captured ∷ rest) e ids =
    let m = mutate_deposit meta captured in
    let r = verify_message e.verify_config m nonces sig_count false in
    let e' : DualChainExecutor = record e { state = flag_replay r.1 e.state } in
    let after = after_deposit_check r.0 token sig_count meta m (e', ids) in
    deposit_loop-rng nonces token sig_count meta rest after.0 after.1
    ∙ after_deposit_check-rng r.0 token sig_count meta m e' ids

execute_deposit-rng :
    (token sig_count : ℕ) (meta : Option CrossChainMutationMeta) (captured : List CrossChainMessage)
    (e : DualChainExecutor)
    → (execute_deposit token captured sig_count meta e).rng_state ≡ e.rng_state
unfolding execute_deposit write_trace
execute_deposit-rng token sig_count meta captured e =
    deposit_loop-rng e.state.queue.processed_nonces token sig_count meta captured (next_iteration e)
      []

simulate-rng :
    (msg : CrossChainMessage) (e : DualChainExecutor)
    → e.rng_state ≡ 0
    → (simulate_chain_b_execution msg e).0.rng_state ≡ 0
unfolding simulate_chain_b_execution
simulate-rng msg e zero = elim (Bool-cases msg.is_fake) [
  | inl f ↦ rw f (xorshift64-zero e.rng_state zero)
  | inr f ↦ rw f zero
]

after_relay_check-rng :
    (vr : VerificationResult) (before token sig_count : ℕ) (meta : Option CrossChainMutationMeta)
    (id : ℕ) (o : MessageOrdering) (msg : CrossChainMessage) (e : DualChainExecutor)
    → e.rng_state ≡ 0
    → (after_relay_check vr before token sig_count meta id o msg e).0.rng_state ≡ 0
unfolding after_relay_check write_trace
after_relay_check-rng rejected before token sig_count meta id o msg e zero = zero
after_relay_check-rng valid before token sig_count meta id o msg e zero = simulate-rng msg e zero
after_relay_check-rng (bypass_accepted b) before token sig_count meta id o msg e zero =
    simulate-rng msg e zero

module _ (any_nonce : HashSet → Option ℕ) where
  relay_message-rng :
      (before token sig_count : ℕ) (meta : Option CrossChainMutationMeta) (id : ℕ)
      (found : CrossChainMessage) (e : DualChainExecutor)
      → e.rng_state ≡ 0
      → (relay_message any_nonce before token sig_count meta id found e).0.rng_state ≡ 0
  unfolding relay_message pick_ordering
  relay_message-rng before token sig_count meta id found e zero =
      let nonces = e.state.queue.processed_nonces in
      let msg = mutate_relay any_nonce meta nonces found in
      let r = verify_message e.verify_config msg nonces sig_count false in
      after_relay_check-rng r.0 before token sig_count meta id (pick_ordering e.rng_state).0 msg
        (record e { state = flag_replay r.1 e.state; rng_state = (pick_ordering e.rng_state).1 })
        (xorshift64-zero e.rng_state zero)

  relay_selected-rng :
      (before token sig_count : ℕ) (meta : Option CrossChainMutationMeta) (selected : Option ℕ)
      (e : DualChainExecutor) (r : DualChainExecutor × Bool)
      → e.rng_state ≡ 0
      → relay_selected any_nonce before token sig_count meta selected e ≡ some r
      → r.0.rng_state ≡ 0
  unfolding relay_selected relay_found write_trace
  relay_selected-rng before token sig_count meta none e r zero ran =
      subst {A = DualChainExecutor × Bool} (λ x. x.0.rng_state ≡ 0) (some-injective _ _ ran) zero
  relay_selected-rng before token sig_count meta (some id) e r zero ran =
      elim (Option-cases (find (has_id id) e.state.queue.messages)) [
        | inl n ↦ cc (rw n at ran)
        | inr (found, f) ↦
            subst {A = DualChainExecutor × Bool} (λ x. x.0.rng_state ≡ 0)
              (some-injective _ _ (rw f at ran))
              (relay_message-rng before token sig_count meta id found e zero)
      ]

  execute_relay-rng :
      (token sig_count : ℕ) (meta : Option CrossChainMutationMeta) (e : DualChainExecutor)
      (r : DualChainExecutor × Bool)
      → e.rng_state ≡ 0
      → execute_relay any_nonce token sig_count meta e ≡ some r
      → r.0.rng_state ≡ 0
  unfolding execute_relay relay_picked
  execute_relay-rng token sig_count meta e r zero ran =
      relay_selected-rng (Queue.pending_count e.state.queue) token sig_count meta
        (get_elem? (pending_ids e.state.queue) 0) (record (next_iteration e) { rng_state = 0 }) r
        refl (rw (select_pending_id-zero e.rng_state e.state.queue zero) at ran)

  run-rng :
      (inputs : List Input) (e e' : DualChainExecutor)
      → e.rng_state ≡ 0
      → run any_nonce inputs e ≡ some e'
      → e'.rng_state ≡ 0
  unfolding run
  run-rng [] e e' zero ran =
      subst {A = DualChainExecutor} (λ x. x.rng_state ≡ 0) (some-injective _ _ ran) zero
  run-rng (deposit_input token captured sig_count meta ∷ inputs) e e' zero ran =
      run-rng inputs (execute_deposit token captured sig_count meta e) e'
        (execute_deposit-rng token sig_count meta captured e ∙ zero) ran
  run-rng (relay_input token sig_count meta ∷ inputs) e e' zero ran =
      elim (Option-cases (execute_relay any_nonce token sig_count meta e)) [
        | inl n ↦ cc (rw n at ran)
        | inr ((e'', b), s) ↦
            run-rng inputs e'' e' (execute_relay-rng token sig_count meta e (e'', b) zero s)
              (rw s at ran)
      ]

-- A new executor with the fixed seed 0, after any sequence of deposits of freshly captured messages
-- (fewer than 2 ^ 64) and of relays, has not panicked and still holds the generator's state 0. It then
-- draws the ordering Fifo and selects the first pending message of the queue, if there is one, and
-- stays in the state 0.
pub zero_seed :
    (any_nonce : HashSet → Option ℕ) (config : MockVerificationConfig) (inputs : List Input)
    → All FreshInput inputs
    → captured_count inputs < u64_mod
    → (e : DualChainExecutor) × (run any_nonce inputs (Executor.new State.new (some 0) config)
        ≡ some e)
      × (e.rng_state ≡ 0)
      × (pick_ordering e.rng_state ≡ (fifo, 0))
      × (select_pending_id e.rng_state e.state.queue
          ≡ some (get_elem? (pending_ids e.state.queue) 0, 0))
unfolding Executor.new pick_ordering xorshift64 State.new Queue.new
zero_seed any_nonce config inputs fresh room =
    let (e, ran, v) =
      run_total any_nonce inputs (Executor.new State.new (some 0) config) fresh new-IsWellFormed
        (omega (arith, room)) in
    let zero = run-rng any_nonce inputs (Executor.new State.new (some 0) config) e refl ran in
    (e, ran, zero, rw zero refl, select_pending_id-zero e.rng_state e.state.queue zero)
