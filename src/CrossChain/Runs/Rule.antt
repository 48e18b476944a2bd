-- ===== src/CrossChain/Runs/Rule.antt =====
-- The invariant rule for runs: what the parts of a deposit and of a relay keep, every run keeps,
-- and no run panics.
use ityfuzz_rl_src.Prelude.{
  ℕ, suc, ◌+◌, ◌≤◌, ◌≡◌, refl, inl, inr, Bool, false, List, [], ◌∷◌, Option, some, arith, find,
  HashSet, All, length,
}
use ityfuzz_rl_src.CrossChain.Message.{pending, CrossChainMessage}
use ityfuzz_rl_src.CrossChain.Queue
use ityfuzz_rl_src.CrossChain.Queue.{has_id}
use ityfuzz_rl_src.CrossChain.Queue.Invariant.{IsWellFormed}
use ityfuzz_rl_src.CrossChain.State.{DualChainState, lock_a}
use ityfuzz_rl_src.CrossChain.Interceptor.{
  VerificationResult, valid, bypass_accepted, rejected, verify_message,
}
use ityfuzz_rl_src.CrossChain.ExploitStep
use ityfuzz_rl_src.CrossChain.ExploitStep.{CrossChainMutationMeta, push_step}
use ityfuzz_rl_src.CrossChain.Rng.{MessageOrdering, pick_ordering}
use ityfuzz_rl_src.CrossChain.Executor.{DualChainExecutor, write_trace, flag_replay, next_iteration}
use ityfuzz_rl_src.CrossChain.Deposit.{
  mutate_deposit, after_deposit_check, deposit_loop, execute_deposit,
}
use ityfuzz_rl_src.CrossChain.Relay.{
  mutate_relay, settle_and_close, simulate_chain_b_execution, after_relay_check, relay_message,
  execute_relay,
}
use ityfuzz_rl_src.CrossChain.Relay.Effects.{simulate-state}
use ityfuzz_rl_src.CrossChain.Relay.Cases.{started, relay_cases}
use ityfuzz_rl_src.CrossChain.Runs.{Input, deposit_input, relay_input, captured_count, run}

-- `P n s`: the state `s` is good, with room for `n` more messages. `Lockable token m`: the message
-- may be locked for the token. `Relayable token m msg`: the copy `msg` of the queued message `m`
-- may be relayed for the token.
pub record Keeps (P : ℕ → DualChainState → Type 0) (Lockable : ℕ → CrossChainMessage → Type 0)
    (Relayable : ℕ → CrossChainMessage → CrossChainMessage → Type 0) : Type 0 where
  pub well_formed : (n : ℕ) (s : DualChainState) → P n s → IsWellFormed s.queue
  pub weaken : (n k : ℕ) (s : DualChainState) → k ≤ n → P n s → P k s
  pub flag : (n : ℕ) (b : Bool) (s : DualChainState) → P n s → P n (flag_replay b s)
  pub push :
      (n token : ℕ) (m : CrossChainMessage) (s : DualChainState)
      → Lockable token m
      → P (suc n) s
      → P n (lock_a token m.value (record s { queue = (Queue.push m s.queue).0 }))
  pub drop :
      (n id : ℕ) (m : CrossChainMessage) (s : DualChainState)
      → find (has_id id) s.queue.messages ≡ some m
      → m.status ≡ pending
      → P n s
      → P n (record s { queue = Queue.mark_dropped id s.queue })
  pub settle :
      (n : ℕ) (reverted : Bool) (token id : ℕ) (m msg : CrossChainMessage) (s : DualChainState)
      → find (has_id id) s.queue.messages ≡ some m
      → m.status ≡ pending
      → Relayable token m msg
      → (msg.is_fake ≡ false → reverted ≡ false)
      → P n s
      → P n (settle_and_close (Queue.pending_count s.queue) reverted token id msg s)

-- Two invariants hold together.
pub both-Keeps :
    {P Q : ℕ → DualChainState → Type 0} {L M : ℕ → CrossChainMessage → Type 0}
    {R S : ℕ → CrossChainMessage → CrossChainMessage → Type 0}
    → Keeps P L R
    → Keeps Q M S
    → Keeps (λ n s. P n s × Q n s) (λ t m. L t m × M t m) (λ t m msg. R t m msg × S t m msg)
both-Keeps p q = record {
  well_formed = λ n s h. p.well_formed n s h.0;
  weaken = λ n k s le h. (p.weaken n k s le h.0, q.weaken n k s le h.1);
  flag = λ n b s h. (p.flag n b s h.0, q.flag n b s h.1);
  push = λ n t m s l h. (p.push n t m s l.0 h.0, q.push n t m s l.1 h.1);
  drop = λ n id m s f o h. (p.drop n id m s f o h.0, q.drop n id m s f o h.1);
  settle = λ n b t id m msg s f o r real h.
      (p.settle n b t id m msg s f o r.0 real h.0, q.settle n b t id m msg s f o r.1 real h.1);
}

module _ {P : ℕ → DualChainState → Type 0} {Lockable : ℕ → CrossChainMessage → Type 0}
    {Relayable : ℕ → CrossChainMessage → CrossChainMessage → Type 0}
    (k : Keeps P Lockable Relayable) where
  after_deposit_check-keeps :
      (vr : VerificationResult) (token n sig_count : ℕ) (meta : Option CrossChainMutationMeta)
      (m : CrossChainMessage) (e : DualChainExecutor) (ids : List ℕ)
      → Lockable token m
      → P (suc n) e.state
      → P n (after_deposit_check vr token sig_count meta m (e, ids)).0.state
  unfolding Queue.push lock_a push_step ExploitStep.deposit
  after_deposit_check-keeps rejected token n sig_count meta m e ids l h =
      k.weaken (suc n) n e.state (omega arith) h
  after_deposit_check-keeps valid token n sig_count meta m e ids l h = k.push n token m e.state l h
  after_deposit_check-keeps (bypass_accepted r) token n sig_count meta m e ids l h =
      k.push n token m e.state l h

  deposit_loop-keeps :
      (nonces : HashSet) (token n sig_count : ℕ) (meta : Option CrossChainMutationMeta)
      (captured : List CrossChainMessage) (e : DualChainExecutor) (ids : List ℕ)
      → All (λ m. Lockable token (mutate_deposit meta m)) captured
      → P (length captured + n) e.state
      → P n (deposit_loop nonces token sig_count meta captured (e, ids)).0.state
  unfolding deposit_loop
  deposit_loop-keeps nonces token n sig_count meta [] e ids l h =
      k.weaken (0 + n) n e.state (omega arith) h
  deposit_loop-keeps nonces token n sig_count meta (captured ∷ rest) e ids l h =
      let m = mutate_deposit meta captured in
      let r = verify_message e.verify_config m nonces sig_count false in
      let e' : DualChainExecutor = record e { state = flag_replay r.1 e.state } in
      let after = after_deposit_check r.0 token sig_count meta m (e', ids) in
      deposit_loop-keeps nonces token n sig_count meta rest after.0 after.1 l.1 (
        after_deposit_check-keeps r.0 token (length rest + n) sig_count meta m e' ids l.0 (
          k.flag (suc (length rest + n)) r.1 e.state
            (k.weaken (suc (length rest) + n) (suc (length rest + n)) e.state (omega arith) h)))

  pub execute_deposit-keeps :
      (token n sig_count : ℕ) (meta : Option CrossChainMutationMeta)
      (captured : List CrossChainMessage) (e : DualChainExecutor)
      → All (λ m. Lockable token (mutate_deposit meta m)) captured
      → P (length captured + n) e.state
      → P n (execute_deposit token captured sig_count meta e).state
  unfolding execute_deposit
  execute_deposit-keeps token n sig_count meta captured e l h =
      deposit_loop-keeps e.state.queue.processed_nonces token n sig_count meta captured
        (next_iteration e) [] l h

  simulate-false :
      (msg : CrossChainMessage) (e : DualChainExecutor)
      → msg.is_fake ≡ false
      → (simulate_chain_b_execution msg e).1 ≡ false
  unfolding simulate_chain_b_execution
  simulate-false msg e real = rw real

  after_relay_check-keeps :
      (vr : VerificationResult) (n token sig_count : ℕ) (meta : Option CrossChainMutationMeta)
      (id : ℕ) (o : MessageOrdering) (m msg : CrossChainMessage) (e : DualChainExecutor)
      → find (has_id id) e.state.queue.messages ≡ some m
      → m.status ≡ pending
      → Relayable token m msg
      → P n e.state
      → let before = Queue.pending_count e.state.queue in
        P n (after_relay_check vr before token sig_count meta id o msg e).0.state
  unfolding after_relay_check
  after_relay_check-keeps rejected n token sig_count meta id o m msg e found fresh r h =
      k.drop n id m e.state found fresh h
  after_relay_check-keeps valid n token sig_count meta id o m msg e found fresh r h =
      rw (simulate-state msg e) (
        k.settle n (simulate_chain_b_execution msg e).1 token id m msg e.state found fresh r
          (simulate-false msg e) h)
  after_relay_check-keeps (bypass_accepted b) n token sig_count meta id o m msg e found fresh r h =
      rw (simulate-state msg e) (
        k.settle n (simulate_chain_b_execution msg e).1 token id m msg e.state found fresh r
          (simulate-false msg e) h)

  module _ (any_nonce : HashSet → Option ℕ) where
    pub execute_relay-keeps :
        (token n sig_count : ℕ) (meta : Option CrossChainMutationMeta) (e : DualChainExecutor)
        → ((nonces : HashSet) (m : CrossChainMessage)
            → m.status ≡ pending
            → Relayable token m (mutate_relay any_nonce meta nonces m))
        → P n e.state
        → (r : DualChainExecutor × Bool) × (execute_relay any_nonce token sig_count meta e ≡ some r)
          × P n r.0.state
    unfolding write_trace relay_message
    execute_relay-keeps token n sig_count meta e ok h =
        elim (relay_cases any_nonce token sig_count meta e (k.well_formed n e.state h)) [
          | inl idle ↦ (_, idle.outcome, h)
          | inr busy ↦
              let nonces = e.state.queue.processed_nonces in
              let msg = mutate_relay any_nonce meta nonces busy.message in
              let r = verify_message e.verify_config msg nonces sig_count false in
              let s = started busy.rng e in
              (
                _,
                busy.outcome,
                after_relay_check-keeps r.0 n token sig_count meta busy.id
                    (pick_ordering s.rng_state).0 busy.message msg
                    (record s {
                      state = flag_replay r.1 e.state;
                      rng_state = (pick_ordering s.rng_state).1;
                    })
                    busy.found busy.is_pending (ok nonces busy.message busy.is_pending)
                    (k.flag n r.1 e.state h),
              )
        ]

    -- The inputs that keep the invariant.
    abbrev pub IsAllowed : Input → Type 0
    IsAllowed (deposit_input token captured sig_count meta) =
        All (λ m. Lockable token (mutate_deposit meta m)) captured
    IsAllowed (relay_input token sig_count meta) =
        (nonces : HashSet) (m : CrossChainMessage)
        → m.status ≡ pending
        → Relayable token m (mutate_relay any_nonce meta nonces m)

    pub run-keeps :
        (inputs : List Input) (n : ℕ) (e : DualChainExecutor)
        → All IsAllowed inputs
        → P (captured_count inputs + n) e.state
        → (e' : DualChainExecutor) × (run any_nonce inputs e ≡ some e') × P n e'.state
    unfolding run
    run-keeps [] n e ok h = (e, refl, k.weaken (0 + n) n e.state (omega arith) h)
    run-keeps (deposit_input token captured sig_count meta ∷ inputs) n e ok h =
        run-keeps inputs n (execute_deposit token captured sig_count meta e) ok.1 (
          execute_deposit-keeps token (captured_count inputs + n) sig_count meta captured e ok.0
            (k.weaken _ (length captured + (captured_count inputs + n)) e.state (omega arith) h))
    run-keeps (relay_input token sig_count meta ∷ inputs) n e ok h =
        let ((e', done), ran, h') =
          execute_relay-keeps token (captured_count inputs + n) sig_count meta e ok.0 h in
        let (e'', rest, h'') = run-keeps inputs n e' ok.1 h' in (e'', rw (ran) rest, h'')
