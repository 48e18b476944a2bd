-- ===== src/Bytecode/Starts.antt =====
-- evm/bytecode_iterator.rs: the walk finds the instructions that a code is made of.
use mathlib.Core.List.{append_assoc}
use ityfuzz_rl_src.Prelude.{
  ℕ, zero, suc, ◌+◌, ◌<◌, ◌≡◌, refl, sym, ap, ◌∙◌, true, false, List, [], ◌∷◌, ◌++◌, some, arith,
  ltb, length, length-append, get_elem?, wrapping_sub, u64_mod, inl, inr, Bool-cases, ◌≤◌, ◌==◌,
  All, ◌⊎◌, replicate,
}
use ityfuzz_rl_src.Bytecode.{
  trimmed, push_len, walk_ops, cbor_len, has_cbor, last_or, all_bytecode, walk_code,
}

pub record Instruction : Type 0 where
  pub op : ℕ
  pub immediate : List ℕ

-- PUSH1 to PUSH32, 0x60 to 0x7f, carry one to thirty-two bytes of data; no other opcode carries any.
abbrev pub IsComplete : Instruction → Type 0
IsComplete x =
    ((x.op ≡ 0x5f + length x.immediate) × (1 ≤ length x.immediate) × (length x.immediate ≤ 32))
    ⊎ ((x.immediate ≡ []) × ((x.op < 0x60) ⊎ (0x7f < x.op)))

push_len-immediate : (x : Instruction) → IsComplete x → push_len x.op ≡ length x.immediate
push_len-immediate x (inl (op, some_data, few)) = ground (arith, op)
push_len-immediate x (inr (no_data, inl below)) = rw no_data (ground arith)
push_len-immediate x (inr (no_data, inr above)) = rw no_data (ground arith)

abbrev pub assemble : List Instruction → List ℕ
assemble [] = []
assemble (x ∷ xs) = x.op ∷ (x.immediate ++ assemble xs)

-- Where the instructions start, counted from `i`.
abbrev pub starts : ℕ → List Instruction → List (ℕ × ℕ)
starts i [] = []
starts i (x ∷ xs) = (i, x.op) ∷ starts (i + 1 + length x.immediate) xs

get_elem-append :
    (before : List ℕ) (b : ℕ) (after : List ℕ)
    → get_elem? (before ++ (b ∷ after)) (length before) ≡ some b
get_elem-append [] b after = refl
get_elem-append (x ∷ before) b after = get_elem-append before b after

walk_lem :
    (xs : List Instruction) (fuel i limit : ℕ) (bytes before : List ℕ)
    → All IsComplete xs
    → bytes ≡ before ++ assemble xs
    → i ≡ length before
    → limit ≡ length bytes
    → length (assemble xs) < fuel
    → walk_ops fuel i limit bytes ≡ some (starts i xs)
unfolding walk_ops
walk_lem xs zero i limit bytes before complete e at_i at_end enough = elim enough [ ]
walk_lem [] (suc fuel) i limit bytes before complete e at_i at_end enough =
    let size = ap (λ (l : List ℕ). length l) e in
    let done : ltb i limit ≡ false = ground (arith, size, length-append before []) in rw done refl
walk_lem (x ∷ xs) (suc fuel) i limit bytes before complete e at_i at_end enough =
    let code = x.immediate ++ assemble xs in
    let size : length bytes ≡ length before + suc (length code) =
      ap (λ (l : List ℕ). length l) e ∙ length-append before (x.op ∷ code) in
    let inside : ltb i limit ≡ true = ground (arith, size) in
    let found : get_elem? bytes i ≡ some x.op =
      ap (λ l. get_elem? l i) e
      ∙ ap (λ n. get_elem? (before ++ (x.op ∷ code)) n) at_i
      ∙ get_elem-append before x.op code in
    let next = before ++ (x.op ∷ x.immediate) in
    let split : bytes ≡ next ++ assemble xs =
      e ∙ sym (append_assoc before (x.op ∷ x.immediate) (assemble xs)) in
    let at_next : i + 1 + length x.immediate ≡ length next =
      omega (arith, length-append before (x.op ∷ x.immediate)) in
    rw
      (
        inside,
        found,
        push_len-immediate x complete.0,
        walk_lem xs fuel (i + 1 + length x.immediate) limit bytes next complete.1 split at_next
            at_end (omega (arith, enough, length-append x.immediate (assemble xs))),
      )
      refl

cbor_len_skipped : (bytes : List ℕ) → cbor_len true bytes ≡ some 0
cbor_len_skipped bytes = elim (Bool-cases (has_cbor (last_or 0xf3 bytes))) [
  | inl e ↦ rw e refl
  | inr e ↦ rw e refl
]

trimmed-zeros : (n : ℕ) → trimmed (replicate n 0) ≡ []
unfolding trimmed
trimmed-zeros zero = refl
trimmed-zeros (suc n) = rw (trimmed-zeros n) refl

-- Trimming takes off the bytes 0 after the last other byte, and no more.
trimmed-append :
    (front : List ℕ) (b n : ℕ)
    → ¬ (b ≡ 0)
    → trimmed ((front ++ (b ∷ [])) ++ replicate n 0) ≡ front ++ (b ∷ [])
unfolding trimmed
trimmed-append [] b n other =
    let kept : (b == 0) ≡ false = ground arith in rw (trimmed-zeros n) (rw kept refl)
trimmed-append (x ∷ []) b n other = rw (trimmed-append [] b n other) refl
trimmed-append (x ∷ y ∷ front) b n other = rw (trimmed-append (y ∷ front) b n other) refl

walked :
    (xs : List Instruction)
    → All IsComplete xs
    → length (assemble xs) < u64_mod
    → walk_code (assemble xs) (cbor_len true (assemble xs)) ≡ some (starts 0 xs)
walked xs complete small =
    let code = assemble xs in
    let limit : wrapping_sub (length code) 0 ≡ length code = omega arith in
    rw (cbor_len_skipped code, limit)
      (walk_lem xs (suc (length code)) 0 (length code) code [] complete refl refl refl
        (omega arith))

-- Take instructions that are each complete (a PUSH with its one to thirty-two bytes of data, any other
-- opcode with none) and whose code ends in a byte `b` other than 0, and put any number of bytes 0 behind
-- it. Where the code is shorter than 2 ^ 64 bytes and metadata is skipped, the walk ends and finds exactly
-- the instructions, each at its start.
pub all_bytecode-assemble :
    (xs : List Instruction) (front : List ℕ) (b padding : ℕ)
    → All IsComplete xs
    → assemble xs ≡ front ++ (b ∷ [])
    → ¬ (b ≡ 0)
    → length (assemble xs) < u64_mod
    → all_bytecode true (assemble xs ++ replicate padding 0) ≡ some (starts 0 xs)
unfolding all_bytecode
all_bytecode-assemble [] [] b padding complete ends other small = cc ends
all_bytecode-assemble [] (y ∷ front) b padding complete ends other small = cc ends
all_bytecode-assemble (x ∷ xs) front b padding complete ends other small =
    let code = assemble (x ∷ xs) in
    let same : trimmed (code ++ replicate padding 0) ≡ code =
      ap (λ (l : List ℕ). trimmed (l ++ replicate padding 0)) ends
      ∙ trimmed-append front b padding other
      ∙ sym ends in
    rw same (walked (x ∷ xs) complete small)
