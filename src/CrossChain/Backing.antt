-- ===== src/CrossChain/Backing.antt =====
-- Every token minted on Chain B is backed by a lock on Chain A, as long as no relay inflates the
-- value (evm/cross_chain/executor.rs).
use ityfuzz_rl_src.Prelude.{
  ℕ, ◌+◌, ◌≤◌, ◌<◌, ◌≡◌, ◌⊎◌, inl, inr, [], ◌∷◌, some, arith, find, modify_first, min, u256_max,
  u64_mod, HashMap, lookup_or,
}
use ityfuzz_rl_src.CrossChain.Message.{pending, processed, dropped, CrossChainMessage}
use ityfuzz_rl_src.CrossChain.Queue
use ityfuzz_rl_src.CrossChain.Queue.{CrossChainMessageQueue, has_id, set_status}
use ityfuzz_rl_src.CrossChain.Queue.Invariant.{
  IsWellFormed, push-IsWellFormed, mark_processed-IsWellFormed, mark_dropped-IsWellFormed,
}
use ityfuzz_rl_src.CrossChain.Queue.Values.{
  value_of, total_value, value_of-le-total_value, total_value-append, value_of-append,
  total_value-set_status, value_of_processed, value_of_dropped,
}
use ityfuzz_rl_src.CrossChain.State.{add_amount}

-- The map holds the amount for the one token, or is empty and the amount is 0.
abbrev pub HoldsOnly : ℕ → ℕ → HashMap ℕ → Type 0
HoldsOnly token amount m = ((m ≡ []) × (amount ≡ 0)) ⊎ (m ≡ (token, amount) ∷ [])

pub record Backed (token : ℕ) (q : CrossChainMessageQueue) (locked minted : HashMap ℕ)
    : Type 0 where
  pub well_formed : IsWellFormed q
  pub locked_total : HoldsOnly token (min (total_value q.messages) u256_max) locked
  pub minted_amount : ℕ
  pub minted_only : HoldsOnly token minted_amount minted
  pub minted_le : minted_amount ≤ min (value_of processed q.messages) u256_max

add_amount-HoldsOnly :
    (token amount more : ℕ) (m : HashMap ℕ)
    → HoldsOnly token amount m
    → add_amount token more m ≡ (token, min (amount + more) u256_max) ∷ []
add_amount-HoldsOnly token amount more m (inl (e, z)) = ground arith
add_amount-HoldsOnly token amount more m (inr e) = ground arith

-- Enqueuing a pending message and locking its value keeps the backing.
pub Backed-push :
    (token : ℕ) (m : CrossChainMessage) (q : CrossChainMessageQueue) (locked minted : HashMap ℕ)
    → m.status ≡ pending
    → q.next_id + 1 < u64_mod
    → Backed token q locked minted
    → Backed token (Queue.push m q).0 (add_amount token m.value locked) minted
unfolding Queue.push
Backed-push token m q locked minted fresh room b =
    let m' : CrossChainMessage = record m { id = q.next_id } in
    record {
      well_formed = push-IsWellFormed m q fresh room b.well_formed;
      locked_total = inr (
          ground (
            arith,
            add_amount-HoldsOnly token (min (total_value q.messages) u256_max) m.value locked
                b.locked_total,
            total_value-append q.messages m',
          ));
      minted_amount = b.minted_amount;
      minted_only = b.minted_only;
      minted_le = ground (arith, b.minted_le, value_of-append processed q.messages m');
    }

module _ (token id : ℕ) (m : CrossChainMessage) (q : CrossChainMessageQueue)
    (locked minted : HashMap ℕ) (found : find (has_id id) q.messages ≡ some m)
    (is_pending : m.status ≡ pending) (b : Backed token q locked minted) where
  marked :
      (Queue.mark_processed id q).messages
      ≡ modify_first (has_id id) (set_status processed) q.messages
  unfolding Queue.mark_processed
  marked = rw (found, Queue.mark_processed)

  locked_kept :
      HoldsOnly token (min (total_value (Queue.mark_processed id q).messages) u256_max) locked
  locked_kept = rw marked (rw (total_value-set_status processed id q.messages) b.locked_total)

  value_added :
      value_of processed (Queue.mark_processed id q).messages
      ≡ value_of processed q.messages + m.value
  value_added = rw marked (value_of_processed id q.messages m found is_pending)

  -- A relay that reverted closes the message and mints nothing.
  pub Backed-mark_processed : Backed token (Queue.mark_processed id q) locked minted
  Backed-mark_processed = record {
    well_formed = mark_processed-IsWellFormed id q b.well_formed;
    locked_total = locked_kept;
    minted_amount = b.minted_amount;
    minted_only = b.minted_only;
    minted_le = omega (arith, b.minted_le, value_added);
  }

  -- A relay that went through mints the value of the message that it closes.
  pub Backed-mint :
      Backed token (Queue.mark_processed id q) locked (add_amount token m.value minted)
  Backed-mint = record {
    well_formed = mark_processed-IsWellFormed id q b.well_formed;
    locked_total = locked_kept;
    minted_amount = min (b.minted_amount + m.value) u256_max;
    minted_only = inr (add_amount-HoldsOnly token b.minted_amount m.value minted b.minted_only);
    minted_le = omega (arith, b.minted_le, value_added);
  }

  -- Dropping the message keeps the backing.
  pub Backed-mark_dropped : Backed token (Queue.mark_dropped id q) locked minted
  unfolding Queue.mark_dropped
  Backed-mark_dropped = record {
    well_formed = mark_dropped-IsWellFormed id q b.well_formed;
    locked_total = rw (total_value-set_status dropped id q.messages) b.locked_total;
    minted_amount = b.minted_amount;
    minted_only = b.minted_only;
    minted_le = omega (arith, b.minted_le, value_of_dropped id q.messages m found is_pending);
  }

-- What is minted never exceeds what is locked, token by token.
pub Backed-minted-le :
    (token t : ℕ) (q : CrossChainMessageQueue) (locked minted : HashMap ℕ)
    → Backed token q locked minted
    → lookup_or t 0 minted ≤ lookup_or t 0 locked
Backed-minted-le token t q locked minted b = ground (
  arith,
  b.locked_total,
  b.minted_only,
  b.minted_le,
  value_of-le-total_value processed q.messages,
)
