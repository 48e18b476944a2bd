-- ===== src/Abi/RoundTrip.antt =====
-- evm/abi.rs: `set_bytes` undoes `get_bytes`.
use mathlib.Core.List.{append_assoc, append-nil}
use ityfuzz_rl_src.Prelude.{
  ℕ, zero, suc, ◌+◌, ◌-◌, ◌<◌, ◌≡◌, refl, sym, ◌∙◌, ap, inl, inr, Bool, true, false, List, [], ◌∷◌,
  ◌++◌, some, arith, ltb, length, length-append, replicate, take, drop, drop-length_append, leb,
  take-length_append, length-drop, u64_mod, Bool-cases,
}
use ityfuzz_rl_src.Abi.Words.{set_size, length-set_size, roundup, get_size-set_size}
use ityfuzz_rl_src.Abi.Syntax.{
  A256InnerType, Abi, a_empty, a256, a_dynamic, a_array, a_unknown, Items, nil, cons, is_static,
}
use ityfuzz_rl_src.Abi.Encode.{head_size, heads, tails, encode_array, get_bytes, parts, boxed_bytes}
use ityfuzz_rl_src.Abi.Decode.{
  Slot, boxed_set_bytes, read_items, resize, decode_array, set_bytes, slots,
}
use ityfuzz_rl_src.Abi.Template.{
  number, grow, regrow, IsTemplate, AreTemplates, WellFormed, AllWellFormed,
}
use ityfuzz_rl_src.Abi.Sizes.{static_head, min_length, length-heads, few_items}
use ityfuzz_rl_src.Abi.Rounds.{drop_word, drop_on, decode_dynamic-word, static_round, dynamic_round}

append_heads :
    (item : Abi) (function : List ℕ) (items : Items) (hs off : ℕ) (rest : List ℕ)
    → WellFormed item
    → is_static item ≡ true
    → heads hs off (parts (cons item function items)) ++ rest
      ≡ get_bytes item ++ (heads hs off (parts items) ++ rest)
unfolding heads get_bytes
append_heads item function items hs off rest wf s =
    let same : off + 0 ≡ off = omega arith in
    rw (s, same, static_head (off + hs) (get_bytes item) (min_length item wf))
      (append_assoc (get_bytes item) (heads hs off (parts items)) rest)

append_offset :
    (item : Abi) (function : List ℕ) (items : Items) (hs off : ℕ) (rest : List ℕ)
    → is_static item ≡ false
    → heads hs off (parts (cons item function items)) ++ rest
      ≡ set_size (off + hs) ++ (heads hs (off + length (get_bytes item)) (parts items) ++ rest)
unfolding heads get_bytes
append_offset item function items hs off rest s = rw s (
    append_assoc (set_size (off + hs)) (heads hs (off + length (get_bytes item)) (parts items))
      rest)

length-parts : (items : Items) → length (parts items) ≡ number items
unfolding get_bytes
length-parts nil = refl
length-parts (cons item function items) = ap suc (length-parts items)

abbrev slot_of : Abi → List ℕ → Slot
slot_of t function = record { item = t; function = function; decode = set_bytes t }

slots-grow :
    (t : Abi) (function : List ℕ) (n : ℕ) (ts : Items)
    → take n (slots ts ++ replicate (n - length (slots ts)) (slot_of t function))
      ≡ slots (grow t function n ts)
unfolding slots set_bytes
slots-grow t function zero ts = refl
slots-grow t function (suc n) nil =
    let all : suc n - 0 ≡ suc n = omega arith in
    let others : n - 0 ≡ n = omega arith in
    let rest = slots-grow t function n nil in
    rw all (ap (λ l. slot_of t function ∷ l) (rw others at rest))
slots-grow t function (suc n) (cons item function' ts) =
    let less : suc n - suc (length (slots ts)) ≡ n - length (slots ts) = omega arith in
    rw less (ap (λ l. slot_of item function' ∷ l) (slots-grow t function n ts))

resize-slots : (n : ℕ) (ts : Items) → resize n (slots ts) ≡ slots (regrow n ts)
unfolding resize slots set_bytes
resize-slots zero nil = refl
resize-slots (suc n) nil = ap (λ l. slot_of a_empty (replicate 4 0) ∷ l) (resize-slots n nil)
resize-slots n (cons t function ts) = slots-grow t function n (cons t function ts)

decode_word :
    (old bytes rest : List ℕ) (is_address dont_mutate : Bool) (inner_type : A256InnerType)
    → length bytes ≡ 32
    → set_bytes
        (a256 old is_address dont_mutate inner_type)
        (get_bytes (a256 bytes is_address dont_mutate inner_type) ++ rest)
      ≡ some (a256 bytes is_address dont_mutate inner_type, true)
unfolding get_bytes set_bytes
decode_word old bytes rest is_address dont_mutate inner_type full =
    let none_missing : 32 - length bytes ≡ 0 = omega arith in
    let enough : ltb (length (bytes ++ rest)) 32 ≡ false =
      ground (arith, length-append bytes rest) in
    let word : take 32 (bytes ++ rest) ≡ bytes =
      ap (λ n. take n (bytes ++ rest)) (sym full) ∙ take-length_append bytes rest in
    rw (none_missing, enough, word) refl

-- A suffix of the bytes is no longer than they are.
drop_small :
    (n : ℕ) (bytes ys : List ℕ) → drop n bytes ≡ ys → length bytes < u64_mod → length ys < u64_mod
drop_small n bytes ys e small = omega (arith, ap (λ (l : List ℕ). length l) e, length-drop n bytes)

-- The tails of an array start where its heads end.
tails_start :
    (items : Items) (base : ℕ) (bytes later : List ℕ)
    → AllWellFormed items
    → drop base bytes ≡ heads (head_size (parts items)) 0 (parts items) ++ later
    → drop (0 + head_size (parts items) + base) bytes ≡ later
tails_start items base bytes later wf here =
    let hs = head_size (parts items) in
    let size : 0 + hs + base ≡ base + length (heads hs 0 (parts items)) =
      omega (arith, length-heads hs 0 items wf) in
    rw size (drop_on base bytes (heads hs 0 (parts items)) later here)

mutual
  unfolding get_bytes set_bytes encode_array tails decode_array read_items

  pub decode-encode :
      (t a : Abi) (rest : List ℕ)
      → IsTemplate t a
      → WellFormed a
      → length (get_bytes a ++ rest) < u64_mod
      → set_bytes t (get_bytes a ++ rest) ≡ some (a, true)
  decode-encode t a_empty rest h wf small = elim wf [ ]
  decode-encode t (a256 bytes is_address dont_mutate inner_type) rest (old, e) wf small =
      rw e (decode_word old bytes rest is_address dont_mutate inner_type wf)
  decode-encode t (a_dynamic bytes multiplier) rest (old, e) wf small =
      let pad : List ℕ = replicate (roundup (length bytes) multiplier - length bytes) 0 in
      let word : List ℕ = set_size (length bytes) in
      rw (e, append_assoc word (bytes ++ pad) rest, append_assoc bytes pad rest)
        (decode_dynamic-word bytes (pad ++ rest) multiplier (
          omega (
            arith,
            length-append (word ++ (bytes ++ pad)) rest,
            length-append word (bytes ++ pad),
            length-append bytes pad,
            length-append pad rest,
            length-set_size (length bytes),
          )))
  decode-encode t (a_array items true) rest (ts, e, h) wf small =
      let ps = parts items in
      let hs = head_size ps in
      let word : List ℕ = set_size (length ps) in
      let body : List ℕ = heads hs 0 ps ++ tails ps in
      let bytes = word ++ (body ++ rest) in
      let same : (word ++ body) ++ rest ≡ bytes = append_assoc word body rest in
      let size = ap (λ (l : List ℕ). length l) same in
      let few : length ps < u64_mod = omega (
        arith,
        few_items items wf.1,
        length-heads hs 0 items wf.1,
        size,
        length-append word (body ++ rest),
        length-append body rest,
        length-append (heads hs 0 ps) (tails ps),
      ) in
      let here : drop 32 bytes ≡ heads hs 0 ps ++ (tails ps ++ rest) =
        drop_word (length ps) (body ++ rest) ∙ append_assoc (heads hs 0 ps) (tails ps) rest in
      let all =
        read-encoded (regrow (number items) ts) items 32 0 0 hs bytes (tails ps ++ rest) rest h wf.1
          (omega arith) here (tails_start items 32 bytes (tails ps ++ rest) wf.1 here) in
      let grown : resize (length ps) (slots ts) ≡ slots (regrow (number items) ts) =
        rw (length-parts items) (resize-slots (number items) ts) in
      rw (e, same, get_size-set_size (length ps) (body ++ rest) few, grown, all) refl
  decode-encode t (a_array items false) rest (ts, e, h) wf small =
      let ps = parts items in
      let hs = head_size ps in
      let bytes = (heads hs 0 ps ++ tails ps) ++ rest in
      let here : drop 0 bytes ≡ heads hs 0 ps ++ (tails ps ++ rest) =
        append_assoc (heads hs 0 ps) (tails ps) rest in
      let all =
        read-encoded ts items 0 0 0 hs bytes (tails ps ++ rest) rest h wf.1 small here
          (tails_start items 0 bytes (tails ps ++ rest) wf.1 here) in
      rw (e, all) refl
  decode-encode t (a_unknown concrete function size) rest h wf small = elim wf [ ]

  pub read-encoded :
      (ts items : Items) (base pos off hs : ℕ) (bytes later rest : List ℕ)
      → AreTemplates ts items
      → AllWellFormed items
      → length bytes < u64_mod
      → drop (pos + base) bytes ≡ heads hs off (parts items) ++ later
      → drop (off + hs + base) bytes ≡ tails (parts items) ++ rest
      → read_items base pos bytes (slots ts) ≡ some (items, true)
  read-encoded ts nil base pos off hs bytes later rest e wf small here there = rw e refl
  read-encoded ts (cons item function items) base pos off hs bytes later rest (t, ts', e, h, hs') wf
        small here there =
      rw e (elim (Bool-cases (is_static item)) [
        | inl s ↦
            let next = heads hs off (parts items) ++ later in
            let enc = get_bytes item in
            let here' = here ∙ append_heads item function items hs off later wf.0 s in
            let on : drop (pos + length enc + base) bytes ≡ next =
              (let e : pos + length enc + base ≡ pos + base + length enc = omega arith in
                rw e (drop_on (pos + base) bytes enc next here')) in
            static_round t item function ts' items base pos bytes next h wf.0 s here' small
              (decode-encode t item next h wf.0
                (drop_small (pos + base) bytes (enc ++ next) here' small))
              (read-encoded ts' items base (pos + length enc) off hs bytes later rest hs' wf.1 small
                on (rw s at there))
        | inr s ↦
            let enc = get_bytes item in
            let next = heads hs (off + length enc) (parts items) ++ later in
            let after = tails (parts items) ++ rest in
            let here' = here ∙ append_offset item function items hs off later s in
            let there' : drop (off + hs + base) bytes ≡ enc ++ after =
              (rw s at there) ∙ append_assoc enc (tails (parts items)) rest in
            let on : drop (pos + 32 + base) bytes ≡ next =
              (let e : pos + 32 + base ≡ pos + base + length (set_size (off + hs)) =
                  omega (arith, length-set_size (off + hs)) in
                rw e (drop_on (pos + base) bytes (set_size (off + hs)) next here')) in
            let on' : drop (off + length enc + hs + base) bytes ≡ after =
              (let e : off + length enc + hs + base ≡ off + hs + base + length enc = omega arith in
                rw e (drop_on (off + hs + base) bytes enc after there')) in
            dynamic_round t item function ts' items base pos (off + hs) bytes next after h wf.0 s
              here' there' small
              (decode-encode t item after h wf.0
                (drop_small (off + hs + base) bytes (enc ++ after) there' small))
              (read-encoded ts' items base (pos + 32) (off + length enc) hs bytes later rest hs'
                wf.1 small on on')
      ])

-- A boxed value that is well formed (full words, a positive multiplier, tuples with elements, nothing
-- empty or unknown), with a four-byte function hash and an encoding below 2 ^ 64 bytes, written out as
-- transaction data, is read back by any template of it with the same hash: one with the types and
-- flags of the value and any data, whose arrays of dynamic size may be shorter or longer.
pub boxed_set_bytes-boxed_bytes :
    (t a : Abi) (function : List ℕ)
    → length function ≡ 4
    → IsTemplate t a
    → WellFormed a
    → length (get_bytes a) < u64_mod
    → boxed_set_bytes
        (record { b = t; function = function })
        (boxed_bytes (record { b = a; function = function }))
      ≡ some (record { b = a; function = function }, true)
unfolding boxed_set_bytes boxed_bytes
boxed_set_bytes-boxed_bytes t a function four h wf small =
    let bytes = get_bytes a in
    let total = length-append function bytes in
    let inside : leb 4 (length (function ++ bytes)) ≡ true = ground (arith, total) in
    let args : drop 4 (function ++ bytes) ≡ bytes =
      ap (λ n. drop n (function ++ bytes)) (sym four) ∙ drop-length_append function bytes in
    let none_after : bytes ++ [] ≡ bytes = append-nil bytes in
    let read : set_bytes t bytes ≡ some (a, true) =
      (rw none_after at (decode-encode t a [] h wf (rw none_after small))) in
    rw (inside, args, read) refl
