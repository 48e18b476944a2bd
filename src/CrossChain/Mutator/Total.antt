-- ===== src/CrossChain/Mutator/Total.antt =====
-- The mutations of calldata stay inside the buffer: no slice panics, and its length is kept
-- (evm/mutator.rs).
use ityfuzz_rl_src.Prelude.{
  ℕ, zero, suc, ◌+◌, ◌-◌, ◌*◌, ◌/◌, ◌%◌, ◌^◌, bit_xor, ◌≤◌, ◌<◌, ◌≡◌, refl, ap, min, Bool, true,
  false, List, [], ◌∷◌, Option, some, arith, leb, ltb, ◌&&◌, ◌==◌, length, length-set, get_or, set,
  if◌then◌else◌,
}
use ityfuzz_rl_src.CrossChain.ExploitStep.{CrossChainMutationMeta, default_meta}
use ityfuzz_rl_src.CrossChain.Rng.{xorshift64}
use ityfuzz_rl_src.CrossChain.Mutator.{
  Mutated, fill_from, write_from, in_slice, with_rng, update_at, apply_bit_flip, random_bytes,
  mutate_field, apply_abi_field_mutate, apply_abi_field_zero, apply_boundary_value,
  apply_boundary_max, with_meta, boundaries, be_bytes, mutate_deposit, flip_in_front, mutate_relay,
}

length-fill_from : (start n v : ℕ) (xs : List ℕ) → length (fill_from start n v xs) ≡ length xs
length-fill_from start n v [] = refl
length-fill_from zero zero v (x ∷ xs) = refl
length-fill_from zero (suc n) v (x ∷ xs) = ap suc (length-fill_from zero n v xs)
length-fill_from (suc start) n v (x ∷ xs) = ap suc (length-fill_from start n v xs)

length-write_from : (start : ℕ) (bs xs : List ℕ) → length (write_from start bs xs) ≡ length xs
length-write_from start bs [] = refl
length-write_from zero [] (x ∷ xs) = refl
length-write_from zero (b ∷ bs) (x ∷ xs) = ap suc (length-write_from zero bs xs)
length-write_from (suc start) bs (x ∷ xs) = ap suc (length-write_from start bs xs)

-- The mutation ends with as many bytes as it was given.
abbrev pub Fits : List ℕ → Mutated → Type 0
Fits xs m = (r : List ℕ × ℕ) × (m ≡ some r) × (length r.0 ≡ length xs)

in_slice-Fits :
    (start end rng : ℕ) (xs : List ℕ) (f : List ℕ → List ℕ)
    → start ≤ end
    → end ≤ length xs
    → length (f xs) ≡ length xs
    → Fits xs (with_rng (in_slice start end xs f) rng)
in_slice-Fits start end rng xs f p q e =
    let t : (leb start end && leb end (length xs)) ≡ true = ground arith in ((f xs, rng), rw t, e)

update_at-Fits :
    (i rng : ℕ) (f : ℕ → ℕ) (xs : List ℕ)
    → i < length xs
    → Fits xs (with_rng (update_at i f xs) rng)
update_at-Fits i rng f xs p =
    let t : ltb i (length xs) ≡ true = ground arith in
    ((set xs i (f (get_or xs i 0)), rng), rw t, length-set xs i (f (get_or xs i 0)))

apply_bit_flip-Fits : (rng : ℕ) (xs : List ℕ) → Fits xs (apply_bit_flip rng xs)
unfolding apply_bit_flip
apply_bit_flip-Fits rng [] = (([], rng), refl, refl)
apply_bit_flip-Fits rng (x ∷ xs) =
    let r = xorshift64 rng in
    let r' = xorshift64 r in
    update_at-Fits (r % length (x ∷ xs)) r' (λ b. bit_xor b ((2 ^ (r' % 8 + 1) - 1) % 256)) (x ∷ xs)
      (omega arith)

-- To prove a fact about a conditional, prove it on both branches.
if-Fits :
    (xs : List ℕ) (b : Bool) (m n : Mutated)
    → (b ≡ true → Fits xs m)
    → (b ≡ false → Fits xs n)
    → Fits xs (if b then m else n)
if-Fits xs true m n p q = p refl
if-Fits xs false m n p q = q refl

same-Fits : (rng : ℕ) (xs : List ℕ) → Fits xs (some (xs, rng))
same-Fits rng xs = ((xs, rng), refl, refl)

mutate_field-Fits :
    (choice rng start : ℕ) (xs : List ℕ)
    → start + 32 ≤ length xs
    → Fits xs (mutate_field choice rng start xs)
mutate_field-Fits choice rng start xs p =
    let drawn = random_bytes 32 rng in
    if-Fits xs (choice == 0) _ _
      (λ t.
        in_slice-Fits start (start + 32) rng xs (fill_from start 32 0) (omega arith) p
          (length-fill_from start 32 0 xs))
      (λ t.
        if-Fits xs (choice == 1) _ _
          (λ t.
            in_slice-Fits start (start + 32) rng xs (fill_from start 32 0xff) (omega arith) p
              (length-fill_from start 32 0xff xs))
          (λ t.
            if-Fits xs (choice == 2) _ _
              (λ t. update_at-Fits (start + 32 - 1) rng (λ b. (b + 1) % 256) xs (omega arith))
              (λ t.
                if-Fits xs (choice == 3) _ _
                  (λ t. update_at-Fits (start + 32 - 1) rng (λ b. (b + 255) % 256) xs (omega arith))
                  (λ t.
                    in_slice-Fits start (start + 32) drawn.1 xs (write_from start drawn.0)
                      (omega arith) p (length-write_from start drawn.0 xs)))))

-- An ABI field of 32 bytes behind the 4-byte selector ends inside the data.
field_in_range : (r n : ℕ) → 36 ≤ n → 4 + r % ((n - 4) / 32) * 32 + 32 ≤ n
field_in_range r n h = let below : r % ((n - 4) / 32) < (n - 4) / 32 = omega arith in omega arith

module _ (rng : ℕ) (xs : List ℕ) where
  apply_abi_field_mutate-Fits : Fits xs (apply_abi_field_mutate rng xs)
  unfolding apply_abi_field_mutate
  apply_abi_field_mutate-Fits =
      let fields = (length xs - 4) / 32 in
      let r = xorshift64 rng in
      let start = 4 + r % fields * 32 in
      if-Fits xs (ltb (length xs) 36) _ _ (λ t. same-Fits rng xs)
        (λ t.
          if-Fits xs (fields == 0) _ _ (λ t. same-Fits rng xs)
            (λ t.
              if-Fits xs (ltb (length xs) (start + 32)) _ _ (λ t. same-Fits r xs)
                (λ t. mutate_field-Fits (xorshift64 r % 5) (xorshift64 r) start xs (ground arith))))

  apply_abi_field_zero-Fits : Fits xs (apply_abi_field_zero rng xs)
  unfolding apply_abi_field_zero
  apply_abi_field_zero-Fits =
      let fields = (length xs - 4) / 32 in
      let r = xorshift64 rng in
      let start = 4 + r % fields * 32 in
      let end = min (start + 32) (length xs) in
      if-Fits xs (ltb (length xs) 36) _ _ (λ t. same-Fits rng xs)
        (λ t.
          if-Fits xs (fields == 0) _ _ (λ t. same-Fits rng xs)
            (λ u.
              in_slice-Fits start end r xs (fill_from start (end - start) 0)
                (omega (arith, field_in_range r (length xs) (ground arith))) (omega arith)
                (length-fill_from start (end - start) 0 xs)))

  apply_boundary_value-Fits : (offset : ℕ) → Fits xs (apply_boundary_value offset rng xs)
  unfolding apply_boundary_value
  apply_boundary_value-Fits offset =
      let r = xorshift64 rng in
      let slot_end = min (offset + 32) (length xs) in
      let bytes =
        be_bytes (slot_end - (slot_end - 8)) (get_or boundaries (r % length boundaries) 0) in
      if-Fits xs (leb slot_end offset) _ _ (λ t. same-Fits r xs)
        (λ t.
          in_slice-Fits (slot_end - 8) slot_end r xs (write_from (slot_end - 8) bytes) (omega arith)
            (omega arith) (length-write_from (slot_end - 8) bytes xs))

  apply_boundary_max-Fits : (offset : ℕ) → Fits xs (apply_boundary_max offset rng xs)
  unfolding apply_boundary_max
  apply_boundary_max-Fits offset =
      let slot_end = min (offset + 32) (length xs) in
      if-Fits xs (leb slot_end offset) _ _ (λ t. same-Fits rng xs)
        (λ t.
          in_slice-Fits offset slot_end rng xs (fill_from offset (slot_end - offset) 0xff)
            (ground arith) (omega arith) (length-fill_from offset (slot_end - offset) 0xff xs))

flip_in_front-Fits : (rng : ℕ) (xs : List ℕ) → Fits xs (flip_in_front rng xs)
flip_in_front-Fits rng [] = (([], rng), refl, refl)
flip_in_front-Fits rng (x ∷ xs) =
    let r = xorshift64 rng in
    let r' = xorshift64 r in
    update_at-Fits (r % min (length (x ∷ xs)) 64) r' (λ b. bit_xor b (2 ^ (r' % 8))) (x ∷ xs)
      (let pos : 0 < min (length (x ∷ xs)) 64 = omega arith in
        let below : r % min (length (x ∷ xs)) 64 < min (length (x ∷ xs)) 64 = omega arith in
        omega arith)

-- The mutation ends, with meta flags that meet `Q` and as many bytes as it was given.
abbrev pub EndsWith :
    (CrossChainMutationMeta → Type 0)
    → List ℕ
    → Option (CrossChainMutationMeta × List ℕ × ℕ)
    → Type 0
EndsWith Q xs m =
    (r : CrossChainMutationMeta × List ℕ × ℕ) × (m ≡ some r) × Q r.0 × (length r.1 ≡ length xs)

with_meta-EndsWith :
    (Q : CrossChainMutationMeta → Type 0) (meta : CrossChainMutationMeta) (xs : List ℕ)
    (m : Mutated)
    → Q meta
    → Fits xs m
    → EndsWith Q xs (with_meta meta m)
with_meta-EndsWith Q meta xs m q (r, e, l) = ((meta, r.0, r.1), rw e, q, l)

-- A deposit mutation never panics, keeps the length of the calldata, and asks for no mutation of the
-- message itself.
pub mutate_deposit_total :
    (rng : ℕ) (xs : List ℕ)
    → EndsWith
        (λ meta.
          (meta.force_zero_merkle_root ≡ false)
          × (meta.force_replay_nonce ≡ false)
          × (meta.force_inflate_value ≡ false))
        xs
        (mutate_deposit rng xs)
unfolding mutate_deposit
mutate_deposit_total rng xs =
    let r = xorshift64 rng in
    with_meta-EndsWith _ default_meta xs _ (refl, refl, refl)
      (if-Fits xs (ltb (r % 4) 2) _ _ (λ t. apply_boundary_value-Fits r xs 4)
        (λ t.
          if-Fits xs (r % 4 == 2) _ _ (λ t. apply_bit_flip-Fits r xs)
            (λ t. apply_abi_field_mutate-Fits r xs)))

if-EndsWith :
    (Q : CrossChainMutationMeta → Type 0) (xs : List ℕ) (b : Bool)
    (m n : Option (CrossChainMutationMeta × List ℕ × ℕ))
    → EndsWith Q xs m
    → EndsWith Q xs n
    → EndsWith Q xs (if b then m else n)
if-EndsWith Q xs true m n p q = p
if-EndsWith Q xs false m n p q = q

-- A relay mutation never panics and keeps the length of the calldata.
pub mutate_relay_total : (rng : ℕ) (xs : List ℕ) → EndsWith (λ meta. Unit) xs (mutate_relay rng xs)
unfolding mutate_relay
mutate_relay_total rng xs =
    let r = xorshift64 rng in
    if-EndsWith _ xs (ltb (r % 5) 2) _ _ (_, refl, tt, refl)
      (if-EndsWith _ xs (r % 5 == 2) _ _
        (with_meta-EndsWith _ default_meta xs _ tt (apply_abi_field_zero-Fits r xs))
        (if-EndsWith _ xs (r % 5 == 3) _ _
          (with_meta-EndsWith _ default_meta xs _ tt (flip_in_front-Fits r xs))
          (with_meta-EndsWith _ (record default_meta { force_inflate_value = true }) xs _ tt
            (apply_boundary_max-Fits r xs 4))))
