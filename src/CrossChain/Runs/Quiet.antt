-- ===== src/CrossChain/Runs/Quiet.antt =====
-- Which bugs no run can report: the flags that nothing sets.
use ityfuzz_rl_src.Prelude.{
  ℕ, ◌≡◌, ◌∙◌, Bool, true, false, List, [], Option, some, arith, HashSet, All, All-mono, contains,
}
use ityfuzz_rl_src.CrossChain.Message.{CrossChainMessage}
use ityfuzz_rl_src.CrossChain.Queue
use ityfuzz_rl_src.CrossChain.Queue.Counts.{counts_partition}
use ityfuzz_rl_src.CrossChain.State.{DualChainState, lock_a}
use ityfuzz_rl_src.CrossChain.Oracle.{
  inspect, inspect_reentrancy, cross_chain_drain_idx, cross_chain_queue_idx,
  cross_chain_reentrancy_idx,
}
use ityfuzz_rl_src.CrossChain.Oracle.Report.{inspect_each}
use ityfuzz_rl_src.CrossChain.Executor.{DualChainExecutor, check_invariants, counts_differ}
use ityfuzz_rl_src.CrossChain.Deposit.{mutate_deposit}
use ityfuzz_rl_src.CrossChain.Relay.{settle, settle_and_close}
use ityfuzz_rl_src.CrossChain.Relay.Effects.{settle-queue}
use ityfuzz_rl_src.CrossChain.Runs.{Input, deposit_input, relay_input, captured_count, run}
use ityfuzz_rl_src.CrossChain.Runs.Rule.{Keeps, IsAllowed, run-keeps}
use ityfuzz_rl_src.CrossChain.Runs.Tidy.{
  IsFresh, FreshInput, mutate_deposit-IsFresh, Tidy, Tidy-Keeps,
}

-- None of the three flags is set.
pub record IsQuiet (s : DualChainState) : Type 0 where
  pub consistent : s.queue_consistency_violated ≡ false
  pub undrained : s.drain_detected ≡ false
  pub not_reentered : s.reentrancy_detected ≡ false

counts_agree : (s : DualChainState) → counts_differ s ≡ false
counts_agree s = ground (arith, counts_partition s.queue)

-- The pending count that a relay samples is the one it started with.
not_reentrant :
    (reverted : Bool) (token : ℕ) (msg : CrossChainMessage) (s : DualChainState)
    → inspect_reentrancy
        (Queue.pending_count s.queue)
        (Queue.pending_count (settle reverted token msg s).queue)
        true
      ≡ []
unfolding inspect_reentrancy
not_reentrant reverted token msg s = rw (settle-queue reverted token msg s) (ground arith)

settle-IsQuiet :
    (reverted : Bool) (token : ℕ) (msg : CrossChainMessage) (s : DualChainState)
    → IsQuiet s
    → IsQuiet (settle reverted token msg s)
unfolding settle
settle-IsQuiet true token msg s h = record {
  consistent = h.consistent;
  undrained = h.undrained;
  not_reentered = h.not_reentered;
}
settle-IsQuiet false token msg s h = record {
  consistent = h.consistent;
  undrained = h.undrained;
  not_reentered = h.not_reentered;
}

check_invariants-IsQuiet : (s : DualChainState) → IsQuiet s → IsQuiet (check_invariants s)
unfolding check_invariants
check_invariants-IsQuiet s h = record {
  consistent = rw (counts_agree s) h.consistent;
  undrained = h.undrained;
  not_reentered = h.not_reentered;
}

settle_and_close-IsQuiet :
    (reverted : Bool) (token id : ℕ) (msg : CrossChainMessage) (s : DualChainState)
    → IsQuiet s
    → IsQuiet (settle_and_close (Queue.pending_count s.queue) reverted token id msg s)
unfolding settle_and_close
settle_and_close-IsQuiet reverted token id msg s h =
    let s' = settle reverted token msg s in
    let q = settle-IsQuiet reverted token msg s h in
    rw (not_reentrant reverted token msg s) (
      check_invariants-IsQuiet (record s' { queue = Queue.mark_processed id s'.queue })
        (record {
          consistent = q.consistent;
          undrained = q.undrained;
          not_reentered = q.not_reentered;
        }))

pub record TidyQuiet (room : ℕ) (s : DualChainState) : Type 0 where
  pub tidy : Tidy room s
  pub quiet : IsQuiet s

pub TidyQuiet-Keeps : Keeps TidyQuiet (λ token. IsFresh) (λ token m msg. Unit)
unfolding lock_a
TidyQuiet-Keeps = record {
  well_formed = λ n s h. h.tidy.well_formed;
  weaken = λ n k s le h. record { tidy = Tidy-Keeps.weaken n k s le h.tidy; quiet = h.quiet };
  flag = λ n b s h. record {
    tidy = Tidy-Keeps.flag n b s h.tidy;
    quiet = record {
      consistent = h.quiet.consistent;
      undrained = h.quiet.undrained;
      not_reentered = h.quiet.not_reentered;
    };
  };
  push = λ n token m s fresh h. record {
    tidy = Tidy-Keeps.push n token m s fresh h.tidy;
    quiet = record {
      consistent = h.quiet.consistent;
      undrained = h.quiet.undrained;
      not_reentered = h.quiet.not_reentered;
    };
  };
  drop = λ n id m s found fresh h. record {
    tidy = Tidy-Keeps.drop n id m s found fresh h.tidy;
    quiet = record {
      consistent = h.quiet.consistent;
      undrained = h.quiet.undrained;
      not_reentered = h.quiet.not_reentered;
    };
  };
  settle = λ n reverted token id m msg s found fresh r real h. record {
    tidy = Tidy-Keeps.settle n reverted token id m msg s found fresh r real h.tidy;
    quiet = settle_and_close-IsQuiet reverted token id msg s h.quiet;
  };
}

pub FreshInput-IsAllowed :
    (any_nonce : HashSet → Option ℕ) (input : Input)
    → FreshInput input
    → IsAllowed TidyQuiet-Keeps any_nonce input
FreshInput-IsAllowed any_nonce (deposit_input token captured sig_count meta) h =
    All-mono IsFresh (λ m. IsFresh (mutate_deposit meta m)) captured (mutate_deposit-IsFresh meta) h
FreshInput-IsAllowed any_nonce (relay_input token sig_count meta) h = λ nonces m p. tt

-- The flags that no step sets are never reported. From a well-formed queue with room in the id
-- counter, and with the queue, drain and reentrancy flags clear, every run of deposits of freshly
-- captured messages and of relays ends in a state for which the oracle reports neither a drain, nor a
-- queue inconsistency, nor a reentrancy.
pub run_quiet :
    (any_nonce : HashSet → Option ℕ) (inputs : List Input) (e : DualChainExecutor)
    → All FreshInput inputs
    → Tidy (captured_count inputs) e.state
    → IsQuiet e.state
    → (e' : DualChainExecutor) × (run any_nonce inputs e ≡ some e')
      × (contains cross_chain_drain_idx (inspect e'.state) ≡ false)
      × (contains cross_chain_queue_idx (inspect e'.state) ≡ false)
      × (contains cross_chain_reentrancy_idx (inspect e'.state) ≡ false)
run_quiet any_nonce inputs e fresh t q =
    let (e', ran, h) =
      run-keeps TidyQuiet-Keeps any_nonce inputs 0 e
        (All-mono FreshInput (IsAllowed TidyQuiet-Keeps any_nonce) inputs
          (FreshInput-IsAllowed any_nonce) fresh)
        (record {
          tidy = record { well_formed = t.well_formed; has_room = omega (arith, t.has_room) };
          quiet = q;
        }) in
    let (mint, fake, replay, desync, queue, atomicity, drain, reentrancy) = inspect_each e'.state in
    (
      e',
      ran,
      drain ∙ h.quiet.undrained,
      queue ∙ h.quiet.consistent,
      reentrancy ∙ h.quiet.not_reentered,
    )
