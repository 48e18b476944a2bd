-- ===== src/CrossChain/Rng.antt =====
-- evm/cross_chain/executor.rs: the xorshift64 generator, the message ordering and the choice of a
-- pending message. A function that draws random words takes the generator's state and returns the
-- new one.
pub mod Bounds
use ityfuzz_rl_src.Prelude.{
  ℕ, zero, suc, ◌+◌, ◌-◌, ◌*◌, ◌/◌, ◌%◌, ◌^◌, bit_xor, List, [], ◌∷◌, Option, none, some, map,
  u64_mod, get_elem?, set, length,
}
use ityfuzz_rl_src.CrossChain.Message.{CrossChainMessage}
use ityfuzz_rl_src.CrossChain.Queue
use ityfuzz_rl_src.CrossChain.Queue.{CrossChainMessageQueue}

-- `x << k` drops the bits that leave the 64-bit word.
abbrev shl64 : ℕ → ℕ → ℕ
shl64 x k = x * 2 ^ k % u64_mod

-- The word drawn, which is also the generator's next state.
unfoldable pub xorshift64 : ℕ → ℕ
xorshift64 x =
    let a = bit_xor x (shl64 x 13) in let b = bit_xor a (a / 2 ^ 7) in bit_xor b (shl64 b 17)

pub data MessageOrdering : Type 0 where
  fifo random shuffled : MessageOrdering

abbrev ordering_of : ℕ → MessageOrdering
ordering_of zero = fifo
ordering_of (suc zero) = random
ordering_of (suc (suc n)) = shuffled

unfoldable pub pick_ordering : ℕ → MessageOrdering × ℕ
pick_ordering rng = let r = xorshift64 rng in (ordering_of (r % 3), r)

-- `ids.swap(i, j)`; an index out of range is a panic.
abbrev swapped : List ℕ → ℕ → ℕ → (at_i at_j : Option ℕ) → Option (List ℕ)
swapped ids i j none at_j = none
swapped ids i j (some a) none = none
swapped ids i j (some a) (some b) = some (set (set ids i b) j a)

abbrev pub swap : List ℕ → ℕ → ℕ → Option (List ℕ)
swap ids i j = swapped ids i j (get_elem? ids i) (get_elem? ids j)

abbrev pub shuffle_on : (List ℕ → Option (List ℕ × ℕ)) → Option (List ℕ) → Option (List ℕ × ℕ)
shuffle_on rest none = none
shuffle_on rest (some ids) = rest ids

-- `for i in (1..len).rev()`, from the round for index `i`.
unfoldable pub shuffle : ℕ → ℕ → List ℕ → Option (List ℕ × ℕ)
shuffle zero rng ids = some (ids, rng)
shuffle (suc i) rng ids =
    let r = xorshift64 rng in shuffle_on (shuffle i r) (swap ids (suc i) (r % (suc i + 1)))

abbrev with_rng : ℕ → Option ℕ → Option (ℕ × ℕ)
with_rng rng none = none
with_rng rng (some id) = some (id, rng)

abbrev pub first_of : Option (List ℕ × ℕ) → Option (ℕ × ℕ)
first_of none = none
first_of (some (ids, rng)) = with_rng rng (get_elem? ids 0)

-- The choice among the ids of the pending messages.
unfoldable pub choose : MessageOrdering → ℕ → List ℕ → Option (ℕ × ℕ)
unfolding shuffle
choose fifo rng ids = with_rng rng (get_elem? ids 0)
choose random rng ids = let r = xorshift64 rng in with_rng r (get_elem? ids (r % length ids))
choose shuffled rng ids = first_of (shuffle (length ids - 1) rng ids)

abbrev pub picked : Option (ℕ × ℕ) → Option (Option ℕ × ℕ)
picked none = none
picked (some (id, rng)) = some (some id, rng)

-- The outer `none` is a panic.
unfoldable pub choose_pending : ℕ → List ℕ → Option (Option ℕ × ℕ)
unfolding pick_ordering choose
choose_pending rng [] = some (none, rng)
choose_pending rng (first ∷ rest) =
    let (ordering, r) = pick_ordering rng in picked (choose ordering r (first ∷ rest))

unfoldable pub select_pending_id : ℕ → CrossChainMessageQueue → Option (Option ℕ × ℕ)
unfolding choose_pending Queue.pending_messages
select_pending_id rng q =
    choose_pending rng (map (λ (m : CrossChainMessage). m.id) (Queue.pending_messages q))
