-- ===== src/CrossChain/Runs/Genuine.antt =====
-- Runs over genuine messages only, as the cross-chain fuzzer makes them.
use ityfuzz_rl_src.Prelude.{
  ℕ, ◌+◌, ◌≡◌, refl, ◌∙◌, true, false, List, [], ◌∷◌, Option, none, some, arith, find, find-All,
  modify_first, HashSet, All, All-append, All-mono, contains, inl, inr, Bool-cases,
}
use ityfuzz_rl_src.CrossChain.Message.{MessageStatus, processed, dropped, CrossChainMessage}
use ityfuzz_rl_src.CrossChain.Queue
use ityfuzz_rl_src.CrossChain.Queue.{has_id, set_status}
use ityfuzz_rl_src.CrossChain.State.{DualChainState, lock_a}
use ityfuzz_rl_src.CrossChain.Oracle.{
  inspect, inspect_reentrancy, cross_chain_fake_msg_idx, cross_chain_atomicity_idx,
}
use ityfuzz_rl_src.CrossChain.Oracle.Report.{inspect_each}
use ityfuzz_rl_src.CrossChain.ExploitStep.{CrossChainMutationMeta}
use ityfuzz_rl_src.CrossChain.Executor.{DualChainExecutor}
use ityfuzz_rl_src.CrossChain.Deposit.{mutate_deposit}
use ityfuzz_rl_src.CrossChain.Relay.{mutate_relay, settle, settle_and_close, flag_reentrancy}
use ityfuzz_rl_src.CrossChain.Relay.Effects.{settle_and_close-queue}
use ityfuzz_rl_src.CrossChain.Runs.{Input, deposit_input, relay_input, captured_count, run}
use ityfuzz_rl_src.CrossChain.Runs.Rule.{Keeps, IsAllowed, run-keeps}
use ityfuzz_rl_src.CrossChain.Runs.Tidy.{IsFresh, mutate_deposit-IsFresh, Tidy, Tidy-Keeps}

abbrev pub IsReal : CrossChainMessage → Type 0
IsReal m = m.is_fake ≡ false

pub record Genuine (room : ℕ) (s : DualChainState) : Type 0 where
  pub tidy : Tidy room s
  pub real : All IsReal s.queue.messages
  pub not_accepted : s.fake_message_accepted ≡ false
  pub atomic : s.atomicity_violated ≡ false

real-set_status :
    (st : MessageStatus) (id : ℕ) (ms : List CrossChainMessage)
    → All IsReal ms
    → All IsReal (modify_first (has_id id) (set_status st) ms)
real-set_status st id [] h = tt
real-set_status st id (m ∷ ms) h = elim (Bool-cases (has_id id m)) [
  | inl e ↦ rw e (h.0, h.1)
  | inr e ↦ rw e (h.0, real-set_status st id ms h.1)
]

real-mark_processed :
    (id : ℕ) (m : CrossChainMessage) (q : Queue.CrossChainMessageQueue)
    → find (has_id id) q.messages ≡ some m
    → All IsReal q.messages
    → All IsReal (Queue.mark_processed id q).messages
unfolding Queue.mark_processed
real-mark_processed id m q found h =
    rw (found, Queue.mark_processed) (real-set_status processed id q.messages h)

flag_reentrancy-flags :
    (bugs : List ℕ) (s : DualChainState)
    → ((flag_reentrancy bugs s).fake_message_accepted ≡ s.fake_message_accepted)
      × ((flag_reentrancy bugs s).atomicity_violated ≡ s.atomicity_violated)
flag_reentrancy-flags [] s = (refl, refl)
flag_reentrancy-flags (bug ∷ bugs) s = (refl, refl)

-- A relay of a real message that does not revert sets neither flag.
settle_and_close-flags :
    (before token id : ℕ) (msg : CrossChainMessage) (s : DualChainState)
    → IsReal msg
    → ((settle_and_close before false token id msg s).fake_message_accepted
        ≡ s.fake_message_accepted)
      × ((settle_and_close before false token id msg s).atomicity_violated ≡ s.atomicity_violated)
unfolding settle_and_close
settle_and_close-flags before token id msg s real =
    let s' = settle false token msg s in
    let f =
      flag_reentrancy-flags (inspect_reentrancy before (Queue.pending_count s'.queue) true) s' in
    (f.0 ∙ rw real, f.1)

pub Genuine-Keeps :
    Keeps Genuine (λ token m. IsFresh m × IsReal m) (λ token m msg. msg.is_fake ≡ m.is_fake)
unfolding lock_a Queue.push Queue.mark_dropped
Genuine-Keeps = record {
  well_formed = λ n s h. h.tidy.well_formed;
  weaken = λ n k s le h. record {
    tidy = Tidy-Keeps.weaken n k s le h.tidy;
    real = h.real;
    not_accepted = h.not_accepted;
    atomic = h.atomic;
  };
  flag = λ n b s h. record {
    tidy = Tidy-Keeps.flag n b s h.tidy;
    real = h.real;
    not_accepted = h.not_accepted;
    atomic = h.atomic;
  };
  push = λ n token m s ok h. record {
    tidy = Tidy-Keeps.push n token m s ok.0 h.tidy;
    real = All-append IsReal s.queue.messages _ h.real (ok.1, tt);
    not_accepted = h.not_accepted;
    atomic = h.atomic;
  };
  drop = λ n id m s found fresh h. record {
    tidy = Tidy-Keeps.drop n id m s found fresh h.tidy;
    real = real-set_status dropped id s.queue.messages h.real;
    not_accepted = h.not_accepted;
    atomic = h.atomic;
  };
  settle = λ n reverted token id m msg s found fresh same may h.
      let real = same ∙ find-All IsReal (has_id id) s.queue.messages m h.real found in
      let flags = settle_and_close-flags (Queue.pending_count s.queue) token id msg s real in
      record {
        tidy = Tidy-Keeps.settle n reverted token id m msg s found fresh tt may h.tidy;
        real =
            rw (settle_and_close-queue (Queue.pending_count s.queue) reverted token id msg s)
              (real-mark_processed id m s.queue found h.real);
        not_accepted = rw (may real) (flags.0 ∙ h.not_accepted);
        atomic = rw (may real) (flags.1 ∙ h.atomic);
      };
}

abbrev pub RealInput : Input → Type 0
RealInput (deposit_input t captured sig_count meta) = All (λ m. IsFresh m × IsReal m) captured
RealInput (relay_input t sig_count meta) = Unit

pub mutate_deposit-IsReal :
    (meta : Option CrossChainMutationMeta) (m : CrossChainMessage)
    → IsReal m
    → IsReal (mutate_deposit meta m)
unfolding mutate_deposit
mutate_deposit-IsReal none m h = h
mutate_deposit-IsReal (some meta) m h = h

module _ (any_nonce : HashSet → Option ℕ) where
  pub mutate_relay-is_fake :
      (meta : Option CrossChainMutationMeta) (nonces : HashSet) (m : CrossChainMessage)
      → (mutate_relay any_nonce meta nonces m).is_fake ≡ m.is_fake
  unfolding mutate_relay
  mutate_relay-is_fake none nonces m = refl
  mutate_relay-is_fake (some meta) nonces m = refl

  RealInput-IsAllowed : (input : Input) → RealInput input → IsAllowed Genuine-Keeps any_nonce input
  RealInput-IsAllowed (deposit_input t captured sig_count meta) h =
      All-mono (λ m. IsFresh m × IsReal m)
        (λ m. IsFresh (mutate_deposit meta m) × IsReal (mutate_deposit meta m)) captured
        (λ m f. (mutate_deposit-IsFresh meta m f.0, mutate_deposit-IsReal meta m f.1)) h
  RealInput-IsAllowed (relay_input t sig_count meta) h =
      λ nonces m p. mutate_relay-is_fake meta nonces m

  -- Without fake messages nothing is reported of them. From a state with only real messages and
  -- with the two flags clear, every run of deposits of fresh real messages and of relays, with any
  -- mutations, ends without a panic in a state for which the oracle reports neither an accepted fake
  -- message nor an atomicity violation.
  pub run_genuine :
      (inputs : List Input) (e : DualChainExecutor)
      → All RealInput inputs
      → Genuine (captured_count inputs) e.state
      → (e' : DualChainExecutor) × (run any_nonce inputs e ≡ some e')
        × (contains cross_chain_fake_msg_idx (inspect e'.state) ≡ false)
        × (contains cross_chain_atomicity_idx (inspect e'.state) ≡ false)
  run_genuine inputs e ok h =
      let (e', ran, g) =
        run-keeps Genuine-Keeps any_nonce inputs 0 e
          (All-mono RealInput (IsAllowed Genuine-Keeps any_nonce) inputs RealInput-IsAllowed ok)
          (Genuine-Keeps.weaken (captured_count inputs) (captured_count inputs + 0) e.state
            (omega arith) h) in
      let (mint, fake, replay, desync, queue, atomicity, drain, reentrancy) =
        inspect_each e'.state in
      (e', ran, fake ∙ g.not_accepted, atomicity ∙ g.atomic)
