-- ===== src/Bytecode.antt =====
-- evm/bytecode_iterator.rs: `all_bytecode`, the instructions of a contract's code. `none` is a panic, or
-- fuel that runs out.
use ityfuzz_rl_src.Prelude.{
  ℕ, zero, suc, ◌+◌, ◌-◌, ◌*◌, Bool, true, false, not, ◌&&◌, ◌||◌, List, [], ◌∷◌, Option, none,
  some, if◌then◌else◌, ltb, leb, ◌==◌, length, get_elem?, wrapping_add, wrapping_sub,
}
mod Tests
pub mod Starts

-- `while bytes.last().unwrap_or(&1) == &0 { bytes.pop(); }`
abbrev pub put_back : ℕ → List ℕ → List ℕ
put_back b [] = if b == 0 then [] else b ∷ []
put_back b (c ∷ bytes) = b ∷ c ∷ bytes

unfoldable pub trimmed : List ℕ → List ℕ
trimmed [] = []
trimmed (b ∷ bytes) = put_back b (trimmed bytes)

abbrev pub last_or : ℕ → List ℕ → ℕ
last_or d [] = d
last_or d (b ∷ bytes) = last_or b bytes

-- JUMP, JUMPI, STOP, INVALID, REVERT and RETURN.
abbrev pub has_cbor : ℕ → Bool
has_cbor op = not (
    (op == 0x56)
    || ((op == 0x57) || ((op == 0x00) || ((op == 0xfe) || ((op == 0xfd) || (op == 0xf3))))))

abbrev pub two_bytes : Option ℕ → Option ℕ → Option ℕ
two_bytes none last_1 = none
two_bytes (some last_2) none = none
two_bytes (some last_2) (some last_1) = some (last_2 * 256 + last_1 + 2)

abbrev pub cbor_len : (skip_cbor : Bool) → List ℕ → Option ℕ
cbor_len skip_cbor bytes =
    if has_cbor (last_or 0xf3 bytes) && not skip_cbor
    then two_bytes (get_elem? bytes (wrapping_sub (length bytes) 2))
        (get_elem? bytes (wrapping_sub (length bytes) 1))
    else some 0

-- The bytes of data after an opcode.
abbrev pub push_len : ℕ → ℕ
push_len op = if leb 0x60 op && leb op 0x7f then op - 0x5f else 0

abbrev pub add_op : ℕ → ℕ → Option (List (ℕ × ℕ)) → Option (List (ℕ × ℕ))
add_op i op none = none
add_op i op (some res) = some ((i, op) ∷ res)

abbrev pub at_op : ℕ → (ℕ → Option (List (ℕ × ℕ))) → Option ℕ → Option (List (ℕ × ℕ))
at_op i rest none = some []
at_op i rest (some op) = add_op i op (rest (push_len op))

unfoldable pub walk_ops : (fuel i limit : ℕ) → List ℕ → Option (List (ℕ × ℕ))
walk_ops zero i limit bytes = none
walk_ops (suc fuel) i limit bytes =
    let found = at_op i (λ len. walk_ops fuel (i + 1 + len) limit bytes) (get_elem? bytes i) in
    if ltb i limit then found else some []

abbrev pub walk_code : List ℕ → Option ℕ → Option (List (ℕ × ℕ))
walk_code bytes none = none
walk_code bytes (some cbor) =
    walk_ops (suc (length bytes)) 0 (wrapping_sub (length bytes) cbor) bytes

unfoldable pub all_bytecode : (skip_cbor : Bool) → List ℕ → Option (List (ℕ × ℕ))
unfolding walk_ops trimmed
all_bytecode skip_cbor [] = some []
all_bytecode skip_cbor (b ∷ bytes) =
    let code = trimmed (b ∷ bytes) in walk_code code (cbor_len skip_cbor code)
