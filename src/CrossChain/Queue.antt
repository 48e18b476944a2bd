-- ===== src/CrossChain/Queue.antt =====
-- evm/cross_chain/mod.rs: `CrossChainMessageQueue`.
pub mod Invariant
pub mod Counts
pub mod Values
use ityfuzz_rl_src.Prelude.{
  ℕ, ◌+◌, Bool, true, false, List, [], ◌∷◌, ◌++◌, Option, none, some, ◌==◌, length, filter, find,
  modify_first, HashSet, contains, insert_set, wrapping_add,
}
use ityfuzz_rl_src.CrossChain.Message.{
  MessageStatus, pending, processed, dropped, status_eq, CrossChainMessage,
}

pub record CrossChainMessageQueue : Type 0 where
  pub messages : List CrossChainMessage
  pub next_id : ℕ
  pub processed_nonces : HashSet

unfoldable pub new : CrossChainMessageQueue
new = record { messages = []; next_id = 0; processed_nonces = [] }

-- The new queue and the id that the message got.
unfoldable pub push : CrossChainMessage → CrossChainMessageQueue → CrossChainMessageQueue × ℕ
push msg q =
    let id = q.next_id in
    (
      record q {
        messages = q.messages ++ record msg { id = id } ∷ [];
        next_id = wrapping_add q.next_id 1;
      },
      id,
    )

abbrev pub has_status : MessageStatus → CrossChainMessage → Bool
has_status s m = status_eq m.status s

abbrev pub has_id : ℕ → CrossChainMessage → Bool
has_id id m = m.id == id

unfoldable pub pending_messages : CrossChainMessageQueue → List CrossChainMessage
pending_messages q = filter (has_status pending) q.messages

abbrev pub set_status : MessageStatus → CrossChainMessage → CrossChainMessage
set_status s m = record m { status = s }

unfoldable pub mark_processed : ℕ → CrossChainMessageQueue → CrossChainMessageQueue
mark_processed id q = elim (find (has_id id) q.messages) [
  | none ↦ q
  | some msg ↦ record q {
    messages = modify_first (has_id id) (set_status processed) q.messages;
    processed_nonces = insert_set msg.nonce q.processed_nonces;
  }
]

unfoldable pub mark_dropped : ℕ → CrossChainMessageQueue → CrossChainMessageQueue
mark_dropped id q = record q { messages = modify_first (has_id id) (set_status dropped) q.messages }

unfoldable pub is_nonce_replayed : ℕ → CrossChainMessageQueue → Bool
is_nonce_replayed nonce q = contains nonce q.processed_nonces

abbrev pub count_of : MessageStatus → List CrossChainMessage → ℕ
count_of s ms = length (filter (has_status s) ms)

unfoldable pub pending_count : CrossChainMessageQueue → ℕ
pending_count q = count_of pending q.messages

unfoldable pub processed_count : CrossChainMessageQueue → ℕ
processed_count q = count_of processed q.messages

unfoldable pub dropped_count : CrossChainMessageQueue → ℕ
dropped_count q = count_of dropped q.messages

unfoldable pub total_count : CrossChainMessageQueue → ℕ
total_count q = length q.messages
