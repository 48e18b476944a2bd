-- ===== src/Abi/Decode.antt =====
-- evm/abi.rs: `set_bytes` of the implementors of `ABI`, and of `BoxedABI`. `none` is a panic; the
-- Boolean is the returned one, and the value is what `self` is after the call.
use ityfuzz_rl_src.Prelude.{
  ℕ, ◌+◌, ◌-◌, Bool, true, false, List, [], ◌∷◌, ◌++◌, Option, none, some, if◌then◌else◌, ltb, leb,
  length, take, drop, replicate, wrapping_add,
}
use ityfuzz_rl_src.Abi.Words.{get_size}
use ityfuzz_rl_src.Abi.Syntax.{
  A256InnerType, AbiLossyType, t256, t_array, t_dynamic, t_empty, t_unknown, Abi, a_empty, a256,
  a_dynamic, a_array, a_unknown, Items, nil, cons, BoxedAbi, get_type, is_static, abi_size,
}

abbrev pub Decoded : Type 0
Decoded = Option (Abi × Bool)

-- `bytes[start..]`, and `bytes[start..end]`
abbrev pub slice_from : ℕ → List ℕ → Option (List ℕ)
slice_from start bytes = if leb start (length bytes) then some (drop start bytes) else none

abbrev pub slice : ℕ → ℕ → List ℕ → Option (List ℕ)
slice start end bytes =
    if leb end (length bytes)
    then (if leb start end then some (take (end - start) (drop start bytes)) else none)
    else none

-- An element of an array, with its own `set_bytes`.
pub record Slot : Type 0 where
  pub item : Abi
  pub function : List ℕ
  pub decode : List ℕ → Decoded

abbrev pub decode_empty : List ℕ → Decoded
decode_empty [] = some (a_empty, true)
decode_empty (b ∷ bytes) = none

abbrev pub as_dynamic : ℕ → Option (List ℕ) → Decoded
as_dynamic multiplier none = none
as_dynamic multiplier (some bytes) = some (a_dynamic bytes multiplier, true)

abbrev pub slice_sized : List ℕ → Option ℕ → Option (List ℕ)
slice_sized bytes none = none
slice_sized bytes (some size) = slice 32 (wrapping_add 32 size) bytes

unfoldable pub decode_dynamic : ℕ → List ℕ → Decoded
decode_dynamic multiplier [] = some (a_dynamic [] multiplier, true)
decode_dynamic multiplier (b ∷ bytes) =
    as_dynamic multiplier (slice_sized (b ∷ bytes) (get_size (b ∷ bytes)))

-- The array grows by clones of its first element, or is cut, to the size.
unfoldable pub resize : ℕ → List Slot → List Slot
resize n [] =
    replicate n (record { item = a_empty; function = replicate 4 0; decode = decode_empty })
resize n (first ∷ slots) = take n ((first ∷ slots) ++ replicate (n - length (first ∷ slots)) first)

abbrev pub size_of : Option (List ℕ) → Option ℕ
size_of none = none
size_of (some bytes) = get_size bytes

abbrev pub size_at : ℕ → List ℕ → Option ℕ
size_at start bytes = size_of (slice_from start bytes)

abbrev pub with_size : ℕ → Option ℕ → Option (ℕ × ℕ)
with_size size none = none
with_size size (some offset) = some (offset, size)

-- The offset of an element's encoding, and how far the head advances. An element of unknown type is a
-- panic.
abbrev pub place : AbiLossyType → Bool → ℕ → (base_offset offset : ℕ) → List ℕ → Option (ℕ × ℕ)
place t256 static size base offset bytes = some (offset, 32)
place t_array true size base offset bytes = some (offset, size)
place t_array false size base offset bytes = with_size 32 (size_at (offset + base) bytes)
place t_dynamic static size base offset bytes = with_size 32 (size_at (offset + base) bytes)
place t_empty static size base offset bytes = some (0, 0)
place t_unknown static size base offset bytes = none

abbrev pub items_of : List Slot → Items
items_of [] = nil
items_of (s ∷ slots) = cons s.item s.function (items_of slots)

abbrev pub decode_at : Slot → Option (List ℕ) → Decoded
decode_at s none = none
decode_at s (some bytes) = s.decode bytes

abbrev pub put : Slot → Decoded → Option (Items × Bool) → Option (Items × Bool)
put s none rest = none
put s (some (item, done)) none = none
put s (some (item, done)) (some (items, all_done)) = some (cons item s.function items, all_done)

abbrev pub read_placed :
    Slot
    → List Slot
    → ℕ
    → List ℕ
    → Option (ℕ × ℕ)
    → (ℕ → Option (Items × Bool))
    → Option (Items × Bool)
read_placed s slots base bytes none rest = none
read_placed s slots base bytes (some (item_offset, size)) rest =
    let start = wrapping_add item_offset base in
    if ltb (length bytes) (wrapping_add start size)
    then some (items_of (s ∷ slots), false)
    else put s (decode_at s (slice_from start bytes)) (rest size)

-- The loop over the elements. What an element's own `set_bytes` returns is not looked at.
unfoldable pub read_items : (base_offset offset : ℕ) → List ℕ → List Slot → Option (Items × Bool)
read_items base offset bytes [] = some (nil, true)
read_items base offset bytes (s ∷ slots) =
    read_placed s slots base bytes
      (place (get_type s.item) (is_static s.item) (abi_size s.item) base offset bytes)
      (λ size. read_items base (offset + size) bytes slots)

abbrev pub as_array : Bool → Option (Items × Bool) → Decoded
as_array dynamic_size none = none
as_array dynamic_size (some (items, done)) = some (a_array items dynamic_size, done)

abbrev pub sized_items : List Slot → List ℕ → Option ℕ → Option (Items × Bool)
sized_items slots bytes none = none
sized_items slots bytes (some array_size) = read_items 32 0 bytes (resize array_size slots)

unfoldable pub decode_array : Bool → List Slot → List ℕ → Decoded
unfolding read_items resize
decode_array true slots bytes = as_array true (sized_items slots bytes (get_size bytes))
decode_array false slots bytes = as_array false (read_items 0 0 bytes slots)

abbrev pub decode_a256 : Bool → Bool → A256InnerType → (old bytes : List ℕ) → Decoded
decode_a256 is_address dont_mutate inner_type old bytes =
    if ltb (length bytes) 32
    then some (a256 old is_address dont_mutate inner_type, false)
    else some (a256 (take 32 bytes) is_address dont_mutate inner_type, true)

abbrev as_unknown : List ℕ → ℕ → Decoded → Decoded
as_unknown function size none = none
as_unknown function size (some (concrete, done)) = some (a_unknown concrete function size, true)

unfoldable mutual
  unfolding decode_dynamic decode_array

  pub set_bytes : Abi → List ℕ → Decoded
  set_bytes a_empty bytes = decode_empty bytes
  set_bytes (a256 old is_address dont_mutate inner_type) bytes =
      decode_a256 is_address dont_mutate inner_type old bytes
  set_bytes (a_dynamic old multiplier) bytes = decode_dynamic multiplier bytes
  set_bytes (a_array items dynamic_size) bytes = decode_array dynamic_size (slots items) bytes
  set_bytes (a_unknown concrete function size) bytes =
      as_unknown function size (set_bytes concrete bytes)

  pub slots : Items → List Slot
  slots nil = []
  slots (cons item function items) =
      record { item = item; function = function; decode = set_bytes item } ∷ slots items

abbrev pub with_function : List ℕ → Decoded → Option (BoxedAbi × Bool)
with_function function none = none
with_function function (some (b, done)) = some (record { b = b; function = function }, done)

abbrev decode_opt : Abi → Option (List ℕ) → Decoded
unfolding set_bytes
decode_opt b none = none
decode_opt b (some bytes) = set_bytes b bytes

-- `BoxedABI::set_bytes`, which leaves the function hash as it is.
unfoldable pub boxed_set_bytes : BoxedAbi → List ℕ → Option (BoxedAbi × Bool)
unfolding set_bytes
boxed_set_bytes boxed bytes = with_function boxed.function (decode_opt boxed.b (slice_from 4 bytes))
