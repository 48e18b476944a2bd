-- ===== src/CrossChain/Runs/Backed.antt =====
-- A run for one token without value inflation keeps every minted token backed by a lock.
use ityfuzz_rl_src.Prelude.{
  ℕ, suc, ◌+◌, ◌≤◌, ◌<◌, ◌≡◌, refl, ◌∙◌, Bool, true, false, List, [], ◌∷◌, ◌++◌, Option, none, some,
  arith, find, HashMap, HashSet, lookup_or, keys, All, All-mono, u64_mod, contains,
}
use ityfuzz_rl_src.CrossChain.Message.{pending, processed, CrossChainMessage}
use ityfuzz_rl_src.CrossChain.Queue
use ityfuzz_rl_src.CrossChain.Queue.{has_id}
use ityfuzz_rl_src.CrossChain.Queue.Values.{value_of-le-total_value}
use ityfuzz_rl_src.CrossChain.State.{DualChainState, lock_a}
use ityfuzz_rl_src.CrossChain.Backing.{
  Backed, Backed-push, Backed-mark_processed, Backed-mint, Backed-mark_dropped, Backed-minted-le,
}
use ityfuzz_rl_src.CrossChain.Oracle.{
  mint_exceeds_lock, inspect, inspect_reentrancy, cross_chain_mint_idx, cross_chain_desync_idx,
}
use ityfuzz_rl_src.CrossChain.Oracle.Report.{inspect_each}
use ityfuzz_rl_src.CrossChain.ExploitStep.{CrossChainMutationMeta}
use ityfuzz_rl_src.CrossChain.Executor.{DualChainExecutor, desync_in, collect_set, check_invariants}
use ityfuzz_rl_src.CrossChain.Deposit.{mutate_deposit}
use ityfuzz_rl_src.CrossChain.Relay.{mutate_relay, settle, settle_and_close, flag_reentrancy}
use ityfuzz_rl_src.CrossChain.Runs.{Input, deposit_input, relay_input, captured_count, run}
use ityfuzz_rl_src.CrossChain.Runs.Rule.{Keeps, IsAllowed, run-keeps}
use ityfuzz_rl_src.CrossChain.Runs.Tidy.{IsFresh, mutate_deposit-IsFresh, mark_processed-next_id}

-- The state is backed, reports no desynchronisation, and has room for `room` more messages.
pub record Sound (token room : ℕ) (s : DualChainState) : Type 0 where
  pub backed : Backed token s.queue s.locked_a s.minted_b
  pub in_sync : s.state_desync_detected ≡ false
  pub has_room : s.queue.next_id + room < u64_mod

desync_in-false :
    (locked minted : HashMap ℕ) (tokens : List ℕ)
    → ((t : ℕ) → lookup_or t 0 minted ≤ lookup_or t 0 locked)
    → desync_in locked minted tokens false ≡ false
desync_in-false locked minted [] le = refl
desync_in-false locked minted (t ∷ tokens) le =
    ground (arith, le t, desync_in-false locked minted tokens le)

check_invariants-Sound :
    (token room : ℕ) (s : DualChainState)
    → Sound token room s
    → Sound token room (check_invariants s)
unfolding check_invariants
check_invariants-Sound token room s h = record {
  backed = h.backed;
  in_sync = rw h.in_sync (
      desync_in-false s.locked_a s.minted_b (collect_set (keys s.locked_a ++ keys s.minted_b) [])
        (λ t. Backed-minted-le token t s.queue s.locked_a s.minted_b h.backed));
  has_room = h.has_room;
}

abbrev close : ℕ → DualChainState → DualChainState
close id s = record s { queue = Queue.mark_processed id s.queue }

flag_reentrancy-Sound :
    (bugs : List ℕ) (token room id : ℕ) (s : DualChainState)
    → Sound token room (close id s)
    → Sound token room (close id (flag_reentrancy bugs s))
flag_reentrancy-Sound [] token room id s h = h
flag_reentrancy-Sound (bug ∷ bugs) token room id s h = record {
  backed = h.backed;
  in_sync = h.in_sync;
  has_room = h.has_room;
}

module _ (token room id : ℕ) (m : CrossChainMessage) (s : DualChainState)
    (found : find (has_id id) s.queue.messages ≡ some m) (is_pending : m.status ≡ pending)
    (h : Sound token room s) where
  closed_room : (Queue.mark_processed id s.queue).next_id + room < u64_mod
  closed_room = omega (arith, mark_processed-next_id id m s.queue found, h.has_room)

  settle-Sound :
      (reverted : Bool) (msg : CrossChainMessage)
      → msg.value ≡ m.value
      → Sound token room (close id (settle reverted token msg s))
  unfolding settle
  settle-Sound true msg same = record {
    backed =
        Backed-mark_processed token id m s.queue s.locked_a s.minted_b found is_pending h.backed;
    in_sync = h.in_sync;
    has_room = closed_room;
  }
  settle-Sound false msg same = record {
    backed =
        rw same (Backed-mint token id m s.queue s.locked_a s.minted_b found is_pending h.backed);
    in_sync = h.in_sync;
    has_room = closed_room;
  }

  settle_and_close-Sound :
      (before : ℕ) (reverted : Bool) (msg : CrossChainMessage)
      → msg.value ≡ m.value
      → Sound token room (settle_and_close before reverted token id msg s)
  unfolding settle_and_close
  settle_and_close-Sound before reverted msg same =
      let s' = settle reverted token msg s in
      let bugs = inspect_reentrancy before (Queue.pending_count s'.queue) true in
      check_invariants-Sound token room (close id (flag_reentrancy bugs s'))
        (flag_reentrancy-Sound bugs token room id s' (settle-Sound reverted msg same))

  mark_dropped-Sound : Sound token room (record s { queue = Queue.mark_dropped id s.queue })
  unfolding Queue.mark_dropped
  mark_dropped-Sound = record {
    backed = Backed-mark_dropped token id m s.queue s.locked_a s.minted_b found is_pending h.backed;
    in_sync = h.in_sync;
    has_room = h.has_room;
  }

push-Sound :
    (token room : ℕ) (m : CrossChainMessage) (s : DualChainState)
    → IsFresh m
    → Sound token (suc room) s
    → Sound token room (lock_a token m.value (record s { queue = (Queue.push m s.queue).0 }))
unfolding lock_a Queue.push
push-Sound token room m s fresh h = record {
  backed =
      Backed-push token m s.queue s.locked_a s.minted_b fresh (omega (arith, h.has_room)) h.backed;
  in_sync = h.in_sync;
  has_room = omega (arith, h.has_room);
}

-- The maps hold at most the one token, so no locked token has more minted.
not_exceeds :
    (token room : ℕ) (s : DualChainState) → Sound token room s → mint_exceeds_lock s ≡ false
not_exceeds token room s h = ground (
  arith,
  h.backed.locked_total,
  h.backed.minted_only,
  h.backed.minted_le,
  value_of-le-total_value processed s.queue.messages,
)

module _ (token : ℕ) where
  Sound-Keeps :
      Keeps
        (Sound token)
        (λ t m. (t ≡ token) × IsFresh m)
        (λ t m msg. (t ≡ token) × (msg.value ≡ m.value))
  Sound-Keeps = record {
    well_formed = λ n s h. h.backed.well_formed;
    weaken = λ n k s le h. record {
      backed = h.backed;
      in_sync = h.in_sync;
      has_room = omega (arith, h.has_room);
    };
    flag = λ n b s h. record { backed = h.backed; in_sync = h.in_sync; has_room = h.has_room };
    push = λ n t m s ok h. rw ok.0 (push-Sound token n m s ok.1 h);
    drop = λ n id m s found fresh h. mark_dropped-Sound token n id m s found fresh h;
    settle = λ n reverted t id m msg s found fresh ok real h. rw ok.0 (
        settle_and_close-Sound token n id m s found fresh h (Queue.pending_count s.queue) reverted
          msg ok.1);
  }

  -- The relay leaves the value of its message as it is.
  abbrev pub KeepsValue : Option CrossChainMutationMeta → Type 0
  KeepsValue none = Unit
  KeepsValue (some m) = m.force_inflate_value ≡ false

  -- An input for the token that inflates no relayed value. Deposits may carry any mutation.
  abbrev pub HonestInput : Input → Type 0
  HonestInput (deposit_input t captured sig_count meta) = (t ≡ token) × All IsFresh captured
  HonestInput (relay_input t sig_count meta) = (t ≡ token) × KeepsValue meta

  module _ (any_nonce : HashSet → Option ℕ) where
    mutate_relay-value :
        (meta : Option CrossChainMutationMeta) (nonces : HashSet) (m : CrossChainMessage)
        → KeepsValue meta
        → (mutate_relay any_nonce meta nonces m).value ≡ m.value
    unfolding mutate_relay
    mutate_relay-value none nonces m k = refl
    mutate_relay-value (some meta) nonces m k = ground arith

    HonestInput-IsAllowed :
        (input : Input) → HonestInput input → IsAllowed Sound-Keeps any_nonce input
    HonestInput-IsAllowed (deposit_input t captured sig_count meta) (e, fresh) =
        All-mono IsFresh (λ m. (t ≡ token) × IsFresh (mutate_deposit meta m)) captured
          (λ m f. (e, mutate_deposit-IsFresh meta m f)) fresh
    HonestInput-IsAllowed (relay_input t sig_count meta) (e, k) =
        λ nonces m p. (e, mutate_relay-value meta nonces m k)

    -- Total backing. From a sound state for a token, every run of deposits for it (with any
    -- mutation) and relays for it that inflate no value ends without a panic in a state where each
    -- token's minted amount is at most its locked amount, and for which the oracle reports neither
    -- a mint above the lock nor a desynchronisation.
    pub run_backed :
        (inputs : List Input) (e : DualChainExecutor)
        → All HonestInput inputs
        → Sound token (captured_count inputs) e.state
        → (e' : DualChainExecutor) × (run any_nonce inputs e ≡ some e')
          × ((t : ℕ) → lookup_or t 0 e'.state.minted_b ≤ lookup_or t 0 e'.state.locked_a)
          × (contains cross_chain_mint_idx (inspect e'.state) ≡ false)
          × (contains cross_chain_desync_idx (inspect e'.state) ≡ false)
    run_backed inputs e ok h =
        let (e', ran, s) =
          run-keeps Sound-Keeps any_nonce inputs 0 e
            (All-mono HonestInput (IsAllowed Sound-Keeps any_nonce) inputs HonestInput-IsAllowed ok)
            (record {
              backed = h.backed;
              in_sync = h.in_sync;
              has_room = omega (arith, h.has_room);
            }) in
        let (mint, fake, replay, desync, queue, atomicity, drain, reentrancy) =
          inspect_each e'.state in
        (
          e',
          ran,
          (λ t.
              Backed-minted-le token t e'.state.queue e'.state.locked_a e'.state.minted_b s.backed),
          mint ∙ not_exceeds token 0 e'.state s,
          desync ∙ s.in_sync,
        )
