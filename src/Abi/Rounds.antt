-- ===== src/Abi/Rounds.antt =====
-- evm/abi.rs: what one round of the loop of `set_bytes` over the elements of an array reads.
use ityfuzz_rl_src.Prelude.{
  ℕ, ◌+◌, ◌-◌, ◌≤◌, ◌<◌, ◌≡◌, refl, sym, ◌∙◌, ap, true, false, List, [], ◌∷◌, ◌++◌, some, arith,
  ltb, leb, length, length-append, drop, drop-drop, drop-length_append, take-length_append,
  length-drop, wrapping_add, u64_mod,
}
use ityfuzz_rl_src.Abi.Words.{set_size, length-set_size, get_size, get_size-set_size}
use ityfuzz_rl_src.Abi.Syntax.{
  Abi, a_empty, a256, a_dynamic, a_array, a_unknown, Items, cons, get_type, is_static, abi_size,
}
use ityfuzz_rl_src.Abi.Encode.{get_bytes}
use ityfuzz_rl_src.Abi.Decode.{
  size_at, with_size, place, read_items, as_dynamic, slice_sized, decode_dynamic, set_bytes, slots,
}
use ityfuzz_rl_src.Abi.Template.{IsTemplate, WellFormed}
use ityfuzz_rl_src.Abi.Sizes.{min_length, static-template, static_size}

-- Where a suffix of the bytes starts.
pub drop_place :
    (n : ℕ) (bytes ys : List ℕ) → drop n bytes ≡ ys → 1 ≤ length ys → n + length ys ≡ length bytes
drop_place n bytes ys e few = omega (arith, ap (λ (l : List ℕ). length l) e, length-drop n bytes)

pub drop_on :
    (n : ℕ) (bytes xs ys : List ℕ) → drop n bytes ≡ xs ++ ys → drop (n + length xs) bytes ≡ ys
drop_on n bytes xs ys e =
    sym (drop-drop (length xs) n bytes) ∙ ap (drop (length xs)) e ∙ drop-length_append xs ys

size_at-word :
    (n len : ℕ) (bytes rest : List ℕ)
    → drop n bytes ≡ set_size len ++ rest
    → len < u64_mod
    → size_at n bytes ≡ some len
size_at-word n len bytes rest e small =
    let total : length (set_size len ++ rest) ≡ 32 + length rest =
      length-append (set_size len) rest ∙ omega (arith, length-set_size len) in
    let here = drop_place n bytes (set_size len ++ rest) e (omega arith) in
    let inside : leb n (length bytes) ≡ true = ground arith in
    rw (inside, e) (get_size-set_size len rest small)

place-static :
    (t a : Abi) (base offset : ℕ) (bytes : List ℕ)
    → IsTemplate t a
    → WellFormed a
    → is_static a ≡ true
    → place (get_type t) (is_static t) (abi_size t) base offset bytes
      ≡ some (offset, length (get_bytes a))
unfolding is_static abi_size
place-static t a_empty base offset bytes h wf s = elim wf [ ]
place-static t (a256 d is_address dont_mutate inner_type) base offset bytes (old, e) wf s =
    let size = static_size t (a256 d is_address dont_mutate inner_type) (old, e) wf refl in
    rw (e, sym size) (rw e refl)
place-static t (a_dynamic d multiplier) base offset bytes h wf s = cc s
place-static t (a_array items true) base offset bytes h wf s = cc s
place-static t (a_array items false) base offset bytes (ts, e, h) wf s =
    let same = static-template t (a_array items false) (ts, e, h) ∙ s in
    let type : get_type t ≡ get_type (a_array items false) = rw e refl in
    rw (type, same, static_size t (a_array items false) (ts, e, h) wf s) refl
place-static t (a_unknown concrete function size) base offset bytes h wf s = elim wf [ ]

place-dynamic :
    (t a : Abi) (base offset : ℕ) (bytes : List ℕ)
    → IsTemplate t a
    → WellFormed a
    → is_static a ≡ false
    → place (get_type t) (is_static t) (abi_size t) base offset bytes
      ≡ with_size 32 (size_at (offset + base) bytes)
unfolding is_static
place-dynamic t a_empty base offset bytes h wf s = elim wf [ ]
place-dynamic t (a256 d is_address dont_mutate inner_type) base offset bytes h wf s = cc s
place-dynamic t (a_dynamic d multiplier) base offset bytes (old, e) wf s = rw e refl
place-dynamic t (a_array items true) base offset bytes (ts, e, h) wf s = rw e refl
place-dynamic t (a_array items false) base offset bytes (ts, e, h) wf s =
    let same = static-template t (a_array items false) (ts, e, h) ∙ s in
    let type : get_type t ≡ get_type (a_array items false) = rw e refl in rw (type, same) refl
place-dynamic t (a_unknown concrete function size) base offset bytes h wf s = elim wf [ ]

step_placed :
    (t item : Abi) (function : List ℕ) (ts items : Items) (base offset : ℕ) (bytes : List ℕ)
    (item_offset size : ℕ) (enc : List ℕ)
    → place (get_type t) (is_static t) (abi_size t) base offset bytes ≡ some (item_offset, size)
    → drop (item_offset + base) bytes ≡ enc
    → 1 ≤ length enc
    → size ≤ length enc
    → length bytes < u64_mod
    → set_bytes t enc ≡ some (item, true)
    → read_items base (offset + size) bytes (slots ts) ≡ some (items, true)
    → read_items base offset bytes (slots (cons t function ts))
      ≡ some (cons item function items, true)
unfolding read_items slots
step_placed t item function ts items base offset bytes item_offset size enc placed here few fits
      small decoded rest =
    let total = drop_place (item_offset + base) bytes enc here few in
    let start : wrapping_add item_offset base ≡ item_offset + base = omega arith in
    let end : wrapping_add (item_offset + base) size ≡ item_offset + base + size = omega arith in
    let inside : ltb (length bytes) (item_offset + base + size) ≡ false = ground arith in
    let start_inside : leb (item_offset + base) (length bytes) ≡ true = ground arith in
    rw (placed, start, end, inside, start_inside, here, decoded, rest) refl

pub drop_word : (len : ℕ) (rest : List ℕ) → drop 32 (set_size len ++ rest) ≡ rest
drop_word len rest =
    ap (λ n. drop n (set_size len ++ rest)) (sym (length-set_size len))
    ∙ drop-length_append (set_size len) rest

dynamic_full :
    (multiplier : ℕ) (bytes : List ℕ)
    → 1 ≤ length bytes
    → decode_dynamic multiplier bytes ≡ as_dynamic multiplier (slice_sized bytes (get_size bytes))
unfolding decode_dynamic
dynamic_full multiplier [] few = elim few [ ]
dynamic_full multiplier (b ∷ bytes) few = refl

pub decode_dynamic-word :
    (d rest : List ℕ) (multiplier : ℕ)
    → 32 + length d + length rest < u64_mod
    → decode_dynamic multiplier (set_size (length d) ++ (d ++ rest))
      ≡ some (a_dynamic d multiplier, true)
decode_dynamic-word d rest multiplier small =
    let bytes = set_size (length d) ++ (d ++ rest) in
    let total : length bytes ≡ 32 + (length d + length rest) =
      length-append (set_size (length d)) (d ++ rest)
      ∙ omega (arith, length-set_size (length d), length-append d rest) in
    let end : wrapping_add 32 (length d) ≡ 32 + length d = omega arith in
    let inside : leb (32 + length d) (length bytes) ≡ true = ground arith in
    let ordered : leb 32 (32 + length d) ≡ true = ground arith in
    let count : 32 + length d - 32 ≡ length d = omega arith in
    dynamic_full multiplier bytes (omega arith)
    ∙ rw
        (
          get_size-set_size (length d) (d ++ rest) (omega arith),
          end,
          inside,
          ordered,
          count,
          drop_word (length d) (d ++ rest),
          take-length_append d rest,
        )
        refl

-- One round of the loop over the elements, at a static and at a dynamic element.
pub static_round :
    (t item : Abi) (function : List ℕ) (ts items : Items) (base pos : ℕ) (bytes rest : List ℕ)
    → IsTemplate t item
    → WellFormed item
    → is_static item ≡ true
    → drop (pos + base) bytes ≡ get_bytes item ++ rest
    → length bytes < u64_mod
    → set_bytes t (get_bytes item ++ rest) ≡ some (item, true)
    → read_items base (pos + length (get_bytes item)) bytes (slots ts) ≡ some (items, true)
    → read_items base pos bytes (slots (cons t function ts)) ≡ some (cons item function items, true)
static_round t item function ts items base pos bytes rest h wf s here small decoded later =
    let few = min_length item wf in
    let total = length-append (get_bytes item) rest in
    step_placed t item function ts items base pos bytes pos (length (get_bytes item))
      (get_bytes item ++ rest) (place-static t item base pos bytes h wf s) here (omega arith)
      (omega arith) small decoded later

pub dynamic_round :
    (t item : Abi) (function : List ℕ) (ts items : Items) (base pos at : ℕ)
    (bytes head rest : List ℕ)
    → IsTemplate t item
    → WellFormed item
    → is_static item ≡ false
    → drop (pos + base) bytes ≡ set_size at ++ head
    → drop (at + base) bytes ≡ get_bytes item ++ rest
    → length bytes < u64_mod
    → set_bytes t (get_bytes item ++ rest) ≡ some (item, true)
    → read_items base (pos + 32) bytes (slots ts) ≡ some (items, true)
    → read_items base pos bytes (slots (cons t function ts)) ≡ some (cons item function items, true)
dynamic_round t item function ts items base pos at bytes head rest h wf s here there small decoded
      later =
    let few = min_length item wf in
    let total = length-append (get_bytes item) rest in
    let inside = drop_place (at + base) bytes (get_bytes item ++ rest) there (omega arith) in
    let word = size_at-word (pos + base) at bytes head here (omega arith) in
    step_placed t item function ts items base pos bytes at 32 (get_bytes item ++ rest)
      (place-dynamic t item base pos bytes h wf s ∙ ap (with_size 32) word) there (omega arith)
      (omega arith) small decoded later
