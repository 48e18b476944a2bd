-- ===== src/CrossChain/Mutator.antt =====
-- evm/mutator.rs: `CrossChainMutator`. A method takes the mutator's parts that it uses; `none` is a
-- panic of a slice index.
pub mod Total
use ityfuzz_rl_src.Prelude.{
  ℕ, zero, suc, ◌+◌, ◌-◌, ◌*◌, ◌/◌, ◌%◌, ◌^◌, min, bit_xor, Bool, true, false, not, ◌&&◌, ◌||◌,
  List, [], ◌∷◌, ◌++◌, Option, none, some, if◌then◌else◌, ltb, leb, ◌==◌, length, get_or, set,
  Floats, replicate,
}
use ityfuzz_rl_src.CrossChain.Rng.{xorshift64}
use ityfuzz_rl_src.CrossChain.ExploitStep.{CrossChainMutationMeta, default_meta}

-- Bytes and the generator's state, after a mutation.
abbrev pub Mutated : Type 0
Mutated = Option (List ℕ × ℕ)

-- `data[start..end].fill(v)` and `data[start..end]` overwritten by bytes, for `n` bytes.
abbrev pub fill_from : ℕ → ℕ → ℕ → List ℕ → List ℕ
fill_from start n v [] = []
fill_from zero zero v (x ∷ xs) = x ∷ xs
fill_from zero (suc n) v (x ∷ xs) = v ∷ fill_from zero n v xs
fill_from (suc start) n v (x ∷ xs) = x ∷ fill_from start n v xs

abbrev pub write_from : ℕ → List ℕ → List ℕ → List ℕ
write_from start bytes [] = []
write_from zero [] (x ∷ xs) = x ∷ xs
write_from zero (b ∷ bytes) (x ∷ xs) = b ∷ write_from zero bytes xs
write_from (suc start) bytes (x ∷ xs) = x ∷ write_from start bytes xs

-- A slice `start..end` of the data, or a panic.
abbrev pub in_slice : ℕ → ℕ → List ℕ → (List ℕ → List ℕ) → Option (List ℕ)
in_slice start end bytes f =
    if leb start end && leb end (length bytes) then some (f bytes) else none

abbrev pub with_rng : Option (List ℕ) → ℕ → Mutated
with_rng none rng = none
with_rng (some bytes) rng = some (bytes, rng)

-- `data[i] = f(data[i])`
abbrev pub update_at : ℕ → (ℕ → ℕ) → List ℕ → Option (List ℕ)
update_at i f bytes =
    if ltb i (length bytes) then some (set bytes i (f (get_or bytes i 0))) else none

unfoldable pub apply_bit_flip : ℕ → List ℕ → Mutated
apply_bit_flip rng [] = some ([], rng)
apply_bit_flip rng (x ∷ xs) =
    let bytes = x ∷ xs in
    let r = xorshift64 rng in
    let r' = xorshift64 r in
    let mask = (2 ^ (r' % 8 + 1) - 1) % 256 in
    with_rng (update_at (r % length bytes) (λ b. bit_xor b mask) bytes) r'

-- The random bytes of the last case: one draw for each of `n` bytes.
abbrev pub random_bytes : ℕ → ℕ → List ℕ × ℕ
random_bytes zero rng = ([], rng)
random_bytes (suc n) rng =
    let r = xorshift64 rng in let rest = random_bytes n r in ((r % 256) ∷ rest.0, rest.1)

abbrev pub mutate_field : ℕ → ℕ → ℕ → List ℕ → Mutated
mutate_field choice rng start bytes =
    if choice == 0
    then with_rng (in_slice start (start + 32) bytes (fill_from start 32 0)) rng
    else if choice == 1
    then with_rng (in_slice start (start + 32) bytes (fill_from start 32 0xff)) rng
    else if choice == 2
    then with_rng (update_at (start + 32 - 1) (λ b. (b + 1) % 256) bytes) rng
    else if choice == 3
    then with_rng (update_at (start + 32 - 1) (λ b. (b + 255) % 256) bytes) rng
    else (let drawn = random_bytes 32 rng in
        with_rng (in_slice start (start + 32) bytes (write_from start drawn.0)) drawn.1)

unfoldable pub apply_abi_field_mutate : ℕ → List ℕ → Mutated
apply_abi_field_mutate rng bytes =
    if ltb (length bytes) 36
    then some (bytes, rng)
    else (let fields = (length bytes - 4) / 32 in
        if fields == 0
        then some (bytes, rng)
        else (let r = xorshift64 rng in
            let start = 4 + r % fields * 32 in
            if ltb (length bytes) (start + 32)
            then some (bytes, r)
            else (let r' = xorshift64 r in mutate_field (r' % 5) r' start bytes)))

unfoldable pub apply_abi_field_zero : ℕ → List ℕ → Mutated
apply_abi_field_zero rng bytes =
    if ltb (length bytes) 36
    then some (bytes, rng)
    else (let fields = (length bytes - 4) / 32 in
        if fields == 0
        then some (bytes, rng)
        else (let r = xorshift64 rng in
            let start = 4 + r % fields * 32 in
            let end = min (start + 32) (length bytes) in
            with_rng (in_slice start end bytes (fill_from start (end - start) 0)) r))

abbrev pub boundaries : List ℕ
boundaries = 0 ∷ (2 ^ 64 - 1) ∷ (2 ^ 64 - 1) ∷ (2 ^ 32 - 1) ∷ 1 ∷ []

-- `to_be_bytes`: the last `n` bytes of the big-endian word.
abbrev pub be_bytes : ℕ → ℕ → List ℕ
be_bytes zero v = []
be_bytes (suc n) v = (v / 256 ^ n % 256) ∷ be_bytes n v

unfoldable pub apply_boundary_value : ℕ → ℕ → List ℕ → Mutated
apply_boundary_value field_offset rng bytes =
    let r = xorshift64 rng in
    let val = get_or boundaries (r % length boundaries) 0 in
    let slot_end = min (field_offset + 32) (length bytes) in
    if leb slot_end field_offset
    then some (bytes, r)
    else (let write_start = slot_end - 8 in
        let avail = slot_end - write_start in
        with_rng (in_slice write_start slot_end bytes (write_from write_start (be_bytes avail val)))
          r)

unfoldable pub apply_boundary_max : ℕ → ℕ → List ℕ → Mutated
apply_boundary_max field_offset rng bytes =
    let slot_end = min (field_offset + 32) (length bytes) in
    if leb slot_end field_offset
    then some (bytes, rng)
    else with_rng
        (in_slice field_offset slot_end bytes
          (fill_from field_offset (slot_end - field_offset) 0xff))
        rng

-- A mutation with the meta flags that it asks for.
abbrev pub with_meta :
    CrossChainMutationMeta → Mutated → Option (CrossChainMutationMeta × List ℕ × ℕ)
with_meta meta none = none
with_meta meta (some (bytes, rng)) = some (meta, bytes, rng)

unfoldable pub mutate_deposit : ℕ → List ℕ → Option (CrossChainMutationMeta × List ℕ × ℕ)
unfolding default_meta apply_boundary_value apply_bit_flip apply_abi_field_mutate
mutate_deposit rng bytes =
    let r = xorshift64 rng in
    let roll = r % 4 in
    with_meta default_meta (
      if ltb roll 2
      then apply_boundary_value 4 r bytes
      else if roll == 2
      then apply_bit_flip r bytes
      else apply_abi_field_mutate r bytes)

-- The bit flip in the first 64 bytes.
abbrev pub flip_in_front : ℕ → List ℕ → Mutated
flip_in_front rng [] = some ([], rng)
flip_in_front rng (x ∷ xs) =
    let bytes = x ∷ xs in
    let r = xorshift64 rng in
    let r' = xorshift64 r in
    with_rng (update_at (r % min (length bytes) 64) (λ b. bit_xor b (2 ^ (r' % 8))) bytes) r'

unfoldable pub mutate_relay : ℕ → List ℕ → Option (CrossChainMutationMeta × List ℕ × ℕ)
unfolding default_meta apply_abi_field_zero apply_boundary_max
mutate_relay rng bytes =
    let r = xorshift64 rng in
    let choice = r % 5 in
    if ltb choice 2
    then (let r1 = xorshift64 r in
        let r2 = xorshift64 r1 in
        let r3 = xorshift64 r2 in
        some (
          record {
            force_zero_merkle_root = r1 % 2 == 0;
            force_replay_nonce = r2 % 2 == 0;
            force_inflate_value = r3 % 2 == 0;
          },
          bytes,
          r3,
        ))
    else if choice == 2
    then with_meta default_meta (apply_abi_field_zero r bytes)
    else if choice == 3
    then with_meta default_meta (flip_in_front r bytes)
    else with_meta (record default_meta { force_inflate_value = true })
        (apply_boundary_max 4 r bytes)

pub data CrossChainMutationStrategy : Type 0 where
  bit_flip abi_field_mutate state_aware_mutate boundary_value : CrossChainMutationStrategy

module _ (fl : Floats) where
  open fl use {F, of_nat, literal, add, sub, mul, div, fmin, fmax, le}

  pub record CorpusEnergyEntry : Type 0 where
    pub energy : F
    pub last_strategy : Option CrossChainMutationStrategy

  unfoldable pub default_entry : CorpusEnergyEntry
  default_entry = record { energy = literal 1 0; last_strategy = none }

  -- `CorpusEnergyEntry::reward` and `CorpusEnergyEntry::decay`.
  unfoldable pub reward : CorpusEnergyEntry → CorpusEnergyEntry
  reward entry = record entry { energy = fmin (mul entry.energy (literal 15 1)) (literal 10 0) }

  unfoldable pub decay : CorpusEnergyEntry → CorpusEnergyEntry
  decay entry = record entry { energy = fmax (mul entry.energy (literal 9 1)) (literal 1 1) }

  pub record CrossChainMutator : Type 0 where
    pub corpus : List (List ℕ × CorpusEnergyEntry)
    pub rng : ℕ
    pub abi_available : Bool

  unfoldable pub new : ℕ → CrossChainMutator
  new seed = record {
    corpus = [];
    rng = if seed == 0 then 0xdeadbeef else seed;
    abi_available = false;
  }

  unfoldable pub add_seed : List ℕ → CrossChainMutator → CrossChainMutator
  unfolding default_entry
  add_seed bytes m = record m { corpus = m.corpus ++ (bytes, default_entry) ∷ [] }

  abbrev total_energy : F → List (List ℕ × CorpusEnergyEntry) → F
  total_energy acc [] = acc
  total_energy acc ((bytes, entry) ∷ corpus) = total_energy (add acc entry.energy) corpus

  -- The loop from entry `i` on; past the end it falls back to the last entry, `i - 1`.
  abbrev pub pick_from : F → ℕ → List (List ℕ × CorpusEnergyEntry) → ℕ
  pick_from pick i [] = i - 1
  pick_from pick i ((bytes, entry) ∷ corpus) =
      let left = sub pick entry.energy in
      let rest = pick_from left (i + 1) corpus in if le left (literal 0 0) then i else rest

  abbrev pub select_from : ℕ → List (List ℕ × CorpusEnergyEntry) → Option ℕ
  select_from r [] = none
  select_from r (first ∷ corpus) = some (
      pick_from
        (mul (div (of_nat r) (of_nat (2 ^ 64 - 1))) (total_energy (literal 0 0) (first ∷ corpus))) 0
        (first ∷ corpus))

  abbrev draw_if_any : List (List ℕ × CorpusEnergyEntry) → ℕ → ℕ
  draw_if_any [] rng = rng
  draw_if_any (first ∷ corpus) rng = xorshift64 rng

  unfoldable pub select_next : CrossChainMutator → Option ℕ × CrossChainMutator
  select_next m =
      (select_from (xorshift64 m.rng) m.corpus, record m { rng = draw_if_any m.corpus m.rng })

  abbrev at_entry :
      (CorpusEnergyEntry → CorpusEnergyEntry)
      → ℕ
      → List (List ℕ × CorpusEnergyEntry)
      → List (List ℕ × CorpusEnergyEntry)
  at_entry f i [] = []
  at_entry f zero ((bytes, entry) ∷ corpus) = (bytes, f entry) ∷ corpus
  at_entry f (suc i) (first ∷ corpus) = first ∷ at_entry f i corpus

  unfoldable pub notify_new_signal : ℕ → CrossChainMutator → CrossChainMutator
  unfolding reward
  notify_new_signal i m = record m { corpus = at_entry reward i m.corpus }

  unfoldable pub notify_no_signal : ℕ → CrossChainMutator → CrossChainMutator
  unfolding decay
  notify_no_signal i m = record m { corpus = at_entry decay i m.corpus }
