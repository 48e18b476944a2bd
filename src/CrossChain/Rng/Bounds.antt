-- ===== src/CrossChain/Rng/Bounds.antt =====
-- The choice of a pending message does not panic and stays among the pending messages
-- (evm/cross_chain/executor.rs).
use ityfuzz_rl_src.Prelude.{
  ℕ, zero, suc, ◌+◌, ◌-◌, ◌%◌, ◌<◌, ◌≡◌, refl, subst, ◌∙◌, List, [], ◌∷◌, Option, none, some, arith,
  get_elem?, set, length, length-set, All, All-set, map,
}
use ityfuzz_rl_src.CrossChain.Message.{CrossChainMessage}
use ityfuzz_rl_src.CrossChain.Queue
use ityfuzz_rl_src.CrossChain.Queue.{CrossChainMessageQueue}
use ityfuzz_rl_src.CrossChain.Rng.{
  xorshift64, MessageOrdering, fifo, random, shuffled, swap, shuffle, choose, choose_pending,
  pick_ordering, select_pending_id,
}

module _ {κ} (P : ℕ → Type κ) where
  get_elem-All :
      (xs : List ℕ) (i : ℕ) → i < length xs → All P xs → (x : ℕ) × (get_elem? xs i ≡ some x) × P x
  get_elem-All [] i few h = elim few [ ]
  get_elem-All (x ∷ xs) zero few h = (x, refl, h.0)
  get_elem-All (x ∷ xs) (suc i) few h = get_elem-All xs i (omega arith) h.1

  -- A swap within the list succeeds, and keeps what holds of every id and their number.
  swap-All :
      (ids : List ℕ) (i j : ℕ)
      → i < length ids
      → j < length ids
      → All P ids
      → (ids' : List ℕ) × (swap ids i j ≡ some ids') × (length ids' ≡ length ids) × All P ids'
  swap-All ids i j hi hj h =
      let (a, found, p) = get_elem-All ids i hi h in
      let (b, found', q) = get_elem-All ids j hj h in
      (
        set (set ids i b) j a,
        rw (found, found') refl,
        length-set (set ids i b) j a ∙ length-set ids i b,
        All-set P (set ids i b) j a (All-set P ids i b h q) p,
      )

  shuffle-All :
      (i rng : ℕ) (ids : List ℕ)
      → i < length ids
      → All P ids
      → (ids' : List ℕ) × (rng' : ℕ) × (shuffle i rng ids ≡ some (ids', rng'))
        × (length ids' ≡ length ids)
        × All P ids'
  unfolding shuffle
  shuffle-All zero rng ids few h = (ids, rng, refl, refl, h)
  shuffle-All (suc i) rng ids few h =
      let r = xorshift64 rng in
      let (ids', s, size, h') = swap-All ids (suc i) (r % (suc i + 1)) few (omega arith) h in
      let (ids'', rng', s', size', h'') = shuffle-All i r ids' (omega (arith, size)) h' in
      (ids'', rng', rw s s', size' ∙ size, h'')

  choose-All :
      (o : MessageOrdering) (rng first : ℕ) (rest : List ℕ)
      → All P (first ∷ rest)
      → (id : ℕ) × (rng' : ℕ) × (choose o rng (first ∷ rest) ≡ some (id, rng')) × P id
  unfolding choose
  choose-All fifo rng first rest h = (first, rng, refl, h.0)
  choose-All random rng first rest h =
      let r = xorshift64 rng in
      let (id, found, p) = get_elem-All (first ∷ rest) (r % suc (length rest)) (omega arith) h in
      (id, r, rw found refl, p)
  choose-All shuffled rng first rest h =
      let ids = first ∷ rest in
      let (ids', rng', s, size, h') = shuffle-All (length ids - 1) rng ids (omega arith) h in
      let (id, found, p) = get_elem-All ids' 0 (omega (arith, size)) h' in
      (id, rng', rw (s, found) refl, p)

  -- What a choice among some ids returns: an id of which `P` holds, or no id when there is none.
  pub record Picks (ids : List ℕ) (r : Option (Option ℕ × ℕ)) : Type κ where
    pub selected : Option ℕ
    pub rng : ℕ
    pub returned : r ≡ some (selected, rng)
    pub none_there : selected ≡ none → ids ≡ []
    pub holds : (id : ℕ) → selected ≡ some id → P id

  choose_pending-Picks : (rng : ℕ) (ids : List ℕ) → All P ids → Picks ids (choose_pending rng ids)
  unfolding choose_pending
  choose_pending-Picks rng [] h = record {
    selected = none;
    rng = rng;
    returned = refl;
    none_there = λ e. refl;
    holds = λ id e. cc e;
  }
  choose_pending-Picks rng (first ∷ rest) h =
      let o = (pick_ordering rng).0 in
      let r = (pick_ordering rng).1 in
      let (id, rng', e, p) = choose-All o r first rest h in
      record {
        selected = some id;
        rng = rng';
        returned = rw e refl;
        none_there = λ n. cc n;
        holds = λ other same. subst P (cc same) p;
      }

  -- What holds of every pending id holds of the one selected.
  pub select_pending_id-Picks :
      (rng : ℕ) (q : CrossChainMessageQueue)
      → All P (map (λ (m : CrossChainMessage). m.id) (Queue.pending_messages q))
      → Picks
          (map (λ (m : CrossChainMessage). m.id) (Queue.pending_messages q))
          (select_pending_id rng q)
  unfolding select_pending_id
  select_pending_id-Picks rng q h =
      choose_pending-Picks rng (map (λ (m : CrossChainMessage). m.id) (Queue.pending_messages q)) h
