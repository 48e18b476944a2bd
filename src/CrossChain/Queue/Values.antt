-- ===== src/CrossChain/Queue/Values.antt =====
-- What the closing of a pending message does to the counts and to the bridged values.
use ityfuzz_rl_src.Prelude.{
  ℕ, suc, ◌+◌, ◌≤◌, ◌≡◌, refl, inl, inr, List, [], ◌∷◌, ◌++◌, some, arith, Bool-cases, find,
  modify_first, filter, All, All-mono, if◌then◌else◌, map,
}
use ityfuzz_rl_src.CrossChain.Message.{
  MessageStatus, pending, processed, dropped, status_eq, CrossChainMessage,
}
use ityfuzz_rl_src.CrossChain.Queue.{
  CrossChainMessageQueue, has_id, has_status, set_status, pending_messages,
}
use ityfuzz_rl_src.CrossChain.Queue.Invariant.{Ids}

-- The value carried by the messages of a status, and by all messages.
abbrev pub value_of : MessageStatus → List CrossChainMessage → ℕ
value_of s [] = 0
value_of s (m ∷ ms) = (if status_eq m.status s then m.value else 0) + value_of s ms

abbrev pub total_value : List CrossChainMessage → ℕ
total_value [] = 0
total_value (m ∷ ms) = m.value + total_value ms

pub value_of-le-total_value :
    (s : MessageStatus) (ms : List CrossChainMessage) → value_of s ms ≤ total_value ms
value_of-le-total_value s [] = omega arith
value_of-le-total_value s (m ∷ ms) = ground (arith, value_of-le-total_value s ms)

pub total_value-append :
    (ms : List CrossChainMessage) (m : CrossChainMessage)
    → total_value (ms ++ m ∷ []) ≡ total_value ms + m.value
total_value-append [] m = omega arith
total_value-append (x ∷ ms) m = omega (arith, total_value-append ms m)

pub value_of-append :
    (s : MessageStatus) (ms : List CrossChainMessage) (m : CrossChainMessage)
    → value_of s (ms ++ m ∷ []) ≡ value_of s ms + (if status_eq m.status s then m.value else 0)
value_of-append s [] m = omega arith
value_of-append s (x ∷ ms) m = omega (arith, value_of-append s ms m)

pub total_value-set_status :
    (s : MessageStatus) (id : ℕ) (ms : List CrossChainMessage)
    → total_value (modify_first (has_id id) (set_status s) ms) ≡ total_value ms
total_value-set_status s id [] = refl
total_value-set_status s id (m ∷ ms) = ground (arith, total_value-set_status s id ms)

-- A pending message becomes processed: its value moves over.
pub value_of_processed :
    (id : ℕ) (ms : List CrossChainMessage) (m : CrossChainMessage)
    → find (has_id id) ms ≡ some m
    → m.status ≡ pending
    → value_of processed (modify_first (has_id id) (set_status processed) ms)
      ≡ value_of processed ms + m.value
value_of_processed id [] m e p = cc
value_of_processed id (x ∷ ms) m e p = ground (arith, value_of_processed id ms m)

pub value_of_dropped :
    (id : ℕ) (ms : List CrossChainMessage) (m : CrossChainMessage)
    → find (has_id id) ms ≡ some m
    → m.status ≡ pending
    → value_of processed (modify_first (has_id id) (set_status dropped) ms) ≡ value_of processed ms
value_of_dropped id [] m e p = cc
value_of_dropped id (x ∷ ms) m e p = ground (arith, value_of_dropped id ms m)

-- The id names a pending message.
abbrev pub Pending : List CrossChainMessage → ℕ → Type 0
Pending ms id = (m : CrossChainMessage) × (find (has_id id) ms ≡ some m) × (m.status ≡ pending)

Pending-cons :
    (lo id : ℕ) (m : CrossChainMessage) (ms : List CrossChainMessage)
    → m.id ≡ lo
    → (suc lo ≤ id) × Pending ms id
    → (lo ≤ id) × Pending (m ∷ ms) id
Pending-cons lo id m ms e (le, (x, f, p)) = (omega arith, (x, ground arith, p))

abbrev ids_of : List CrossChainMessage → List ℕ
ids_of ms = map (λ (m : CrossChainMessage). m.id) ms

pending-Ids_from :
    (lo hi : ℕ) (ms : List CrossChainMessage)
    → Ids lo ms hi
    → All (λ id. (lo ≤ id) × Pending ms id) (ids_of (filter (has_status pending) ms))
pending-Ids_from lo hi [] h = tt
pending-Ids_from lo hi (m ∷ ms) h =
    let rest =
      All-mono (λ id. (suc lo ≤ id) × Pending ms id) (λ id. (lo ≤ id) × Pending (m ∷ ms) id)
        (ids_of (filter (has_status pending) ms)) (λ id. Pending-cons lo id m ms h.0)
        (pending-Ids_from (suc lo) hi ms h.1) in
    elim (Bool-cases (has_status pending m)) [
      | inl t ↦ rw t ((omega arith, (m, ground arith, ground arith)), rest)
      | inr t ↦ rw t rest
    ]

-- Each id that the relay may pick finds a pending message.
pub pending_messages-Pending :
    (hi : ℕ) (q : CrossChainMessageQueue)
    → Ids 0 q.messages hi
    → All (Pending q.messages) (map (λ (m : CrossChainMessage). m.id) (pending_messages q))
unfolding pending_messages
pending_messages-Pending hi q h =
    All-mono _ (Pending q.messages) _ (λ id (le, p). p) (pending-Ids_from 0 hi q.messages h)
