-- ===== src/CrossChain/Runs/Tidy.antt =====
-- Every run of deposits and relays ends, with a well-formed queue.
use ityfuzz_rl_src.Prelude.{
  ℕ, ◌+◌, ◌<◌, ◌≡◌, List, Option, none, some, arith, find, HashSet, All, All-mono, u64_mod,
}
use ityfuzz_rl_src.CrossChain.Message.{pending, CrossChainMessage}
use ityfuzz_rl_src.CrossChain.Queue
use ityfuzz_rl_src.CrossChain.Queue.{has_id}
use ityfuzz_rl_src.CrossChain.Queue.Invariant.{
  IsWellFormed, push-IsWellFormed, mark_processed-IsWellFormed, mark_dropped-IsWellFormed,
}
use ityfuzz_rl_src.CrossChain.State.{DualChainState, lock_a}
use ityfuzz_rl_src.CrossChain.ExploitStep.{CrossChainMutationMeta}
use ityfuzz_rl_src.CrossChain.Executor.{DualChainExecutor}
use ityfuzz_rl_src.CrossChain.Deposit.{mutate_deposit}
use ityfuzz_rl_src.CrossChain.Relay.Effects.{settle_and_close-queue}
use ityfuzz_rl_src.CrossChain.Runs.{Input, deposit_input, relay_input, captured_count, run}
use ityfuzz_rl_src.CrossChain.Runs.Rule.{Keeps, IsAllowed, run-keeps}

-- A captured message comes from `CrossChainMessage::new`.
abbrev pub IsFresh : CrossChainMessage → Type 0
IsFresh m = m.status ≡ pending

abbrev pub FreshInput : Input → Type 0
FreshInput (deposit_input token captured sig_count meta) = All IsFresh captured
FreshInput (relay_input token sig_count meta) = Unit

pub mutate_deposit-IsFresh :
    (meta : Option CrossChainMutationMeta) (m : CrossChainMessage)
    → IsFresh m
    → IsFresh (mutate_deposit meta m)
unfolding mutate_deposit
mutate_deposit-IsFresh none m h = h
mutate_deposit-IsFresh (some meta) m h = h

pub record Tidy (room : ℕ) (s : DualChainState) : Type 0 where
  pub well_formed : IsWellFormed s.queue
  pub has_room : s.queue.next_id + room < u64_mod

pub mark_processed-next_id :
    (id : ℕ) (m : CrossChainMessage) (q : Queue.CrossChainMessageQueue)
    → find (has_id id) q.messages ≡ some m
    → (Queue.mark_processed id q).next_id ≡ q.next_id
unfolding Queue.mark_processed
mark_processed-next_id id m q found = rw (found, Queue.mark_processed)

pub Tidy-Keeps : Keeps Tidy (λ token. IsFresh) (λ token m msg. Unit)
unfolding lock_a Queue.push Queue.mark_dropped
Tidy-Keeps = record {
  well_formed = λ n s h. h.well_formed;
  weaken =
      λ n k s le h. record { well_formed = h.well_formed; has_room = omega (arith, h.has_room) };
  flag = λ n b s h. record { well_formed = h.well_formed; has_room = h.has_room };
  push = λ n token m s fresh h. record {
    well_formed = push-IsWellFormed m s.queue fresh (omega (arith, h.has_room)) h.well_formed;
    has_room = omega (arith, h.has_room);
  };
  drop = λ n id m s found fresh h. record {
    well_formed = mark_dropped-IsWellFormed id s.queue h.well_formed;
    has_room = h.has_room;
  };
  settle = λ n reverted token id m msg s found fresh r real h. record {
    well_formed =
        rw (settle_and_close-queue (Queue.pending_count s.queue) reverted token id msg s)
          (mark_processed-IsWellFormed id s.queue h.well_formed);
    has_room =
        rw (settle_and_close-queue (Queue.pending_count s.queue) reverted token id msg s)
          (rw (mark_processed-next_id id m s.queue found) h.has_room);
  };
}

module _ (any_nonce : HashSet → Option ℕ) where
  FreshInput-IsAllowed : (input : Input) → FreshInput input → IsAllowed Tidy-Keeps any_nonce input
  FreshInput-IsAllowed (deposit_input token captured sig_count meta) h =
      All-mono IsFresh (λ m. IsFresh (mutate_deposit meta m)) captured (mutate_deposit-IsFresh meta)
        h
  FreshInput-IsAllowed (relay_input token sig_count meta) h = λ nonces m p. tt

  -- Every sequence of deposits of freshly captured messages and of relays, from a well-formed queue
  -- with room in the 64-bit id counter for the captured messages, ends without a panic, and the
  -- queue is well formed again: ids are positions, and processed nonces are recorded.
  pub run_total :
      (inputs : List Input) (e : DualChainExecutor)
      → All FreshInput inputs
      → IsWellFormed e.state.queue
      → e.state.queue.next_id + captured_count inputs < u64_mod
      → (e' : DualChainExecutor) × (run any_nonce inputs e ≡ some e') × IsWellFormed e'.state.queue
  run_total inputs e fresh v room =
      let (e', ran, h) =
        run-keeps Tidy-Keeps any_nonce inputs 0 e
          (All-mono FreshInput (IsAllowed Tidy-Keeps any_nonce) inputs FreshInput-IsAllowed fresh)
          (record { well_formed = v; has_room = omega arith }) in
      (e', ran, h.well_formed)
