-- ===== src/Abi/Encode.antt =====
-- evm/abi.rs: `get_bytes` of the implementors of `ABI`, and of `BoxedABI`.
use ityfuzz_rl_src.Prelude.{
  ℕ, ◌+◌, ◌-◌, Bool, true, false, List, [], ◌∷◌, ◌++◌, if◌then◌else◌, length, replicate,
}
use ityfuzz_rl_src.Abi.Words.{roundup, set_size}
use ityfuzz_rl_src.Abi.Syntax.{
  Abi, a_empty, a256, a_dynamic, a_array, a_unknown, Items, nil, cons, BoxedAbi, is_static,
}

-- An element of an array: whether it is static, and its encoding.
pub record Part : Type 0 where
  pub static : Bool
  pub encoded : List ℕ

abbrev pub head_of : Part → List ℕ
head_of p = if p.static then p.encoded else []

abbrev pub tail_of : Part → List ℕ
tail_of p = if p.static then [] else p.encoded

unfoldable pub head_size : List Part → ℕ
head_size [] = 0
head_size (p ∷ parts) = (if p.static then length p.encoded else 32) + head_size parts

abbrev pub or_offset : ℕ → List ℕ → List ℕ
or_offset offset [] = set_size offset
or_offset offset (b ∷ head) = b ∷ head

-- The head data: an empty head becomes the offset of the tail, which is counted from the first head.
unfoldable pub heads : (head_size tails_offset : ℕ) → List Part → List ℕ
heads hs off [] = []
heads hs off (p ∷ parts) =
    or_offset (off + hs) (head_of p) ++ heads hs (off + length (tail_of p)) parts

unfoldable pub tails : List Part → List ℕ
tails [] = []
tails (p ∷ parts) = tail_of p ++ tails parts

abbrev pub size_word : Bool → ℕ → List ℕ
size_word true len = set_size len
size_word false len = []

unfoldable pub encode_array : Bool → List Part → List ℕ
unfolding heads tails head_size
encode_array dynamic_size parts =
    size_word dynamic_size (length parts) ++ (heads (head_size parts) 0 parts ++ tails parts)

-- The whole encoding of an `a256` and of an `a_dynamic`.
abbrev pub encode_word : List ℕ → List ℕ
encode_word bytes = replicate (32 - length bytes) 0 ++ bytes

abbrev pub encode_dynamic : List ℕ → ℕ → List ℕ
encode_dynamic bytes multiplier =
    set_size (length bytes)
    ++ (bytes ++ replicate (roundup (length bytes) multiplier - length bytes) 0)

-- For `a256` with more than 32 bytes the source writes in front of its buffer; here the bytes stay
-- as they are.
unfoldable mutual
  unfolding encode_array

  pub get_bytes : Abi → List ℕ
  get_bytes a_empty = []
  get_bytes (a256 bytes is_address dont_mutate inner_type) = encode_word bytes
  get_bytes (a_dynamic bytes multiplier) = encode_dynamic bytes multiplier
  get_bytes (a_array items dynamic_size) = encode_array dynamic_size (parts items)
  get_bytes (a_unknown concrete function size) = get_bytes concrete

  pub parts : Items → List Part
  parts nil = []
  parts (cons item function items) =
      record { static = is_static item; encoded = get_bytes item } ∷ parts items

-- The function hash and the encoded arguments.
unfoldable pub boxed_bytes : BoxedAbi → List ℕ
unfolding get_bytes
boxed_bytes boxed = boxed.function ++ get_bytes boxed.b
