-- ===== src/CrossChain/Queue/Invariant.antt =====
-- The queue's well-formedness, kept by each operation (evm/cross_chain/mod.rs).
use ityfuzz_rl_src.Prelude.{
  ℕ, suc, ◌+◌, ◌%◌, ◌<◌, ◌≡◌, refl, inl, inr, true, List, [], ◌∷◌, ◌++◌, some, arith, Bool-cases,
  Option-cases, contains, contains-insert_set, insert_set, find, modify_first, All, All-append,
  All-mono, u64_mod, HashSet,
}
use ityfuzz_rl_src.CrossChain.Message.{
  MessageStatus, pending, processed, dropped, CrossChainMessage,
}
use ityfuzz_rl_src.CrossChain.Queue.{
  CrossChainMessageQueue, new, push, has_id, set_status, mark_processed, mark_dropped,
}

-- The ids are consecutive: a message's id is its position.
abbrev pub Ids : ℕ → List CrossChainMessage → ℕ → Type 0
Ids lo [] hi = lo ≡ hi
Ids lo (m ∷ ms) hi = (m.id ≡ lo) × Ids (suc lo) ms hi

-- The nonce of a processed message is recorded.
abbrev pub Recorded : HashSet → CrossChainMessage → Type 0
Recorded nonces m = m.status ≡ processed → contains m.nonce nonces ≡ true

pub record IsWellFormed (q : CrossChainMessageQueue) : Type 0 where
  pub ids : Ids 0 q.messages q.next_id
  pub recorded : All (Recorded q.processed_nonces) q.messages

pub new-IsWellFormed : IsWellFormed new
unfolding new
new-IsWellFormed = record { ids = refl; recorded = tt }

Ids-append :
    (lo hi : ℕ) (ms : List CrossChainMessage) (m : CrossChainMessage)
    → Ids lo ms hi
    → m.id ≡ hi
    → Ids lo (ms ++ m ∷ []) (suc hi)
Ids-append lo hi [] m h e = (omega arith, omega arith)
Ids-append lo hi (x ∷ ms) m h e = (h.0, Ids-append (suc lo) hi ms m h.1 e)

Ids-set_status :
    (s : MessageStatus) (id lo hi : ℕ) (ms : List CrossChainMessage)
    → Ids lo ms hi
    → Ids lo (modify_first (has_id id) (set_status s) ms) hi
Ids-set_status s id lo hi [] h = h
Ids-set_status s id lo hi (m ∷ ms) h = elim (Bool-cases (has_id id m)) [
  | inl e ↦ rw e (h.0, h.1)
  | inr e ↦ rw e (h.0, Ids-set_status s id (suc lo) hi ms h.1)
]

-- A push keeps the queue well formed, while the 64-bit id counter has room.
pub push-IsWellFormed :
    (m : CrossChainMessage) (q : CrossChainMessageQueue)
    → m.status ≡ pending
    → q.next_id + 1 < u64_mod
    → IsWellFormed q
    → IsWellFormed (push m q).0
unfolding push
push-IsWellFormed m q fresh room v = record {
  ids =
      let e : (q.next_id + 1) % u64_mod ≡ suc q.next_id = omega arith in
      rw e (Ids-append 0 q.next_id q.messages (record m { id = q.next_id }) v.ids refl);
  recorded = All-append (Recorded q.processed_nonces) q.messages _ v.recorded ((λ p. cc), tt);
}

Recorded-insert_set :
    (n : ℕ) (nonces : HashSet) (m : CrossChainMessage)
    → Recorded nonces m
    → Recorded (insert_set n nonces) m
Recorded-insert_set n nonces m h p = ground (arith, h p, contains-insert_set n m.nonce nonces)

Recorded-processed :
    (id : ℕ) (nonces : HashSet) (ms : List CrossChainMessage) (m : CrossChainMessage)
    → find (has_id id) ms ≡ some m
    → All (Recorded nonces) ms
    → All
        (Recorded (insert_set m.nonce nonces))
        (modify_first (has_id id) (set_status processed) ms)
Recorded-processed id nonces [] m e h = cc
Recorded-processed id nonces (x ∷ ms) m e h = elim (Bool-cases (has_id id x)) [
  | inl t ↦ rw t (
    (λ p. ground (arith, contains-insert_set m.nonce x.nonce nonces)),
    All-mono (Recorded nonces) (Recorded (insert_set m.nonce nonces)) ms
        (Recorded-insert_set m.nonce nonces) h.1,
  )
  | inr t ↦
      rw t (
        Recorded-insert_set m.nonce nonces x h.0,
        Recorded-processed id nonces ms m (rw t at e) h.1,
      )
]

pub mark_processed-IsWellFormed :
    (id : ℕ) (q : CrossChainMessageQueue) → IsWellFormed q → IsWellFormed (mark_processed id q)
unfolding mark_processed
mark_processed-IsWellFormed id q v = elim (Option-cases (find (has_id id) q.messages)) [
  | inl e ↦ rw (e, mark_processed) v
  | inr (m, e) ↦
      rw (e, mark_processed)
        (record {
          ids = Ids-set_status processed id 0 q.next_id q.messages v.ids;
          recorded = Recorded-processed id q.processed_nonces q.messages m e v.recorded;
        })
]

Recorded-dropped :
    (id : ℕ) (nonces : HashSet) (ms : List CrossChainMessage)
    → All (Recorded nonces) ms
    → All (Recorded nonces) (modify_first (has_id id) (set_status dropped) ms)
Recorded-dropped id nonces [] h = h
Recorded-dropped id nonces (x ∷ ms) h = elim (Bool-cases (has_id id x)) [
  | inl t ↦ rw t ((λ p. cc), h.1)
  | inr t ↦ rw t (h.0, Recorded-dropped id nonces ms h.1)
]

pub mark_dropped-IsWellFormed :
    (id : ℕ) (q : CrossChainMessageQueue) → IsWellFormed q → IsWellFormed (mark_dropped id q)
unfolding mark_dropped
mark_dropped-IsWellFormed id q v = record {
  ids = Ids-set_status dropped id 0 q.next_id q.messages v.ids;
  recorded = Recorded-dropped id q.processed_nonces q.messages v.recorded;
}
