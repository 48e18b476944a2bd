-- ===== src/CrossChain/Queue/Counts.antt =====
-- Counting the queue's messages by status.
use ityfuzz_rl_src.Prelude.{
  ℕ, ◌+◌, ◌≡◌, List, [], ◌∷◌, ◌++◌, arith, find, modify_first, some, if◌then◌else◌, length,
}
use ityfuzz_rl_src.CrossChain.Message.{
  MessageStatus, status_eq, pending, processed, dropped, CrossChainMessage,
}
use ityfuzz_rl_src.CrossChain.Queue.{
  CrossChainMessageQueue, has_id, set_status, count_of, pending_count, processed_count,
  dropped_count, total_count,
}

count_of_partition :
    (ms : List CrossChainMessage)
    → count_of pending ms + count_of processed ms + count_of dropped ms ≡ length ms
count_of_partition [] = omega arith
count_of_partition (m ∷ ms) = ground (arith, count_of_partition ms)

-- Pending, processed and dropped messages make up the whole queue.
pub counts_partition :
    (q : CrossChainMessageQueue)
    → pending_count q + processed_count q + dropped_count q ≡ total_count q
unfolding pending_count processed_count dropped_count total_count
counts_partition q = count_of_partition q.messages

pub count_of-append :
    (s : MessageStatus) (ms : List CrossChainMessage) (m : CrossChainMessage)
    → count_of s (ms ++ m ∷ []) ≡ count_of s ms + count_of s (m ∷ [])
count_of-append s [] m = omega arith
count_of-append s (x ∷ ms) m = ground (arith, count_of-append s ms m)

-- Closing a pending message moves it from the pending count to the count of its new status.
pub count_of-set_status :
    (s t : MessageStatus) (id : ℕ) (ms : List CrossChainMessage) (m : CrossChainMessage)
    → find (has_id id) ms ≡ some m
    → m.status ≡ pending
    → count_of t (modify_first (has_id id) (set_status s) ms)
        + (if status_eq pending t then 1 else 0)
      ≡ count_of t ms + (if status_eq s t then 1 else 0)
count_of-set_status s t id [] m e p = cc
count_of-set_status s t id (x ∷ ms) m e p = ground (arith, count_of-set_status s t id ms m)
