-- ===== src/Abi/Sizes.antt =====
-- evm/abi.rs: how long encodings are.
use ityfuzz_rl_src.Prelude.{
  ℕ, ◌+◌, ◌-◌, ◌≤◌, ◌≡◌, refl, sym, ap, Bool, true, false, List, [], ◌∷◌, ◌++◌, arith,
  if◌then◌else◌, length, length-append, replicate,
}
use ityfuzz_rl_src.Abi.Words.{set_size, length-set_size, roundup}
use ityfuzz_rl_src.Abi.Syntax.{
  Abi, a_empty, a256, a_dynamic, a_array, a_unknown, Items, nil, cons, is_static, all_static,
  abi_size, sum_sizes,
}
use ityfuzz_rl_src.Abi.Encode.{
  Part, head_of, tail_of, head_size, heads, tails, encode_array, get_bytes, parts, or_offset,
}
use ityfuzz_rl_src.Abi.Template.{IsTemplate, AreTemplates, WellFormed, AllWellFormed}

-- A static part that is not empty is its own head.
pub static_head : (n : ℕ) (enc : List ℕ) → 32 ≤ length enc → or_offset n enc ≡ enc
static_head n [] few = elim few [ ]
static_head n (b ∷ enc) few = refl

length-or_offset :
    (n : ℕ) (static : Bool) (enc : List ℕ)
    → 32 ≤ length enc
    → length (or_offset n (if static then enc else [])) ≡ (if static then length enc else 32)
length-or_offset n true enc few = ap length (static_head n enc few)
length-or_offset n false enc few = length-set_size n

mutual
  unfolding get_bytes heads tails head_size encode_array

  pub min_length : (a : Abi) → WellFormed a → 32 ≤ length (get_bytes a)
  min_length a_empty wf = elim wf [ ]
  min_length (a256 bytes is_address dont_mutate inner_type) wf =
      omega (arith, length-append (replicate (32 - length bytes) 0) bytes)
  min_length (a_dynamic bytes multiplier) wf =
      let rest = bytes ++ replicate (roundup (length bytes) multiplier - length bytes) 0 in
      omega (arith, length-append (set_size (length bytes)) rest, length-set_size (length bytes))
  min_length (a_array items true) wf =
      let ps = parts items in
      omega (
        arith,
        length-append (set_size (length ps)) (heads (head_size ps) 0 ps ++ tails ps),
        length-set_size (length ps),
      )
  min_length (a_array nil false) wf = elim wf.0 [ ]
  min_length (a_array (cons item function items) false) wf =
      let ps = parts (cons item function items) in
      ground (
        arith,
        length-append (heads (head_size ps) 0 ps) (tails ps),
        length-heads (head_size ps) 0 (cons item function items) wf.1,
        min_length item wf.1.0,
      )
  min_length (a_unknown concrete function size) wf = elim wf [ ]

  pub length-heads :
      (hs off : ℕ) (items : Items)
      → AllWellFormed items
      → length (heads hs off (parts items)) ≡ head_size (parts items)
  length-heads hs off nil wf = refl
  length-heads hs off (cons item function items) wf =
      let p : Part = record { static = is_static item; encoded = get_bytes item } in
      let off' = off + length (tail_of p) in
      omega (
        arith,
        length-append (or_offset (off + hs) (head_of p)) (heads hs off' (parts items)),
        length-or_offset (off + hs) (is_static item) (get_bytes item) (min_length item wf.0),
        length-heads hs off' items wf.1,
      )

mutual
  unfolding is_static

  pub static-template : (t a : Abi) → IsTemplate t a → is_static t ≡ is_static a
  static-template t a_empty h = elim h [ ]
  static-template t (a256 bytes is_address dont_mutate inner_type) (old, e) = rw e refl
  static-template t (a_dynamic bytes multiplier) (old, e) = rw e refl
  static-template t (a_array items true) (ts, e, h) = rw e refl
  static-template t (a_array items false) (ts, e, h) = rw e (all_static-templates ts items h)
  static-template t (a_unknown concrete function size) h = elim h [ ]

  pub all_static-templates :
      (ts items : Items) → AreTemplates ts items → all_static ts ≡ all_static items
  all_static-templates ts nil e = rw e refl
  all_static-templates ts (cons item function items) (t, rest, e, h, hs) =
      rw (e, static-template t item h, all_static-templates rest items hs) refl

mutual
  unfolding is_static abi_size get_bytes encode_array heads tails head_size

  pub static_size :
      (t a : Abi)
      → IsTemplate t a
      → WellFormed a
      → is_static a ≡ true
      → abi_size t ≡ length (get_bytes a)
  static_size t a_empty h wf s = elim wf [ ]
  static_size t (a256 bytes is_address dont_mutate inner_type) (old, e) wf s =
      let none_missing : 32 - length bytes ≡ 0 = omega arith in rw (e, none_missing) (sym wf)
  static_size t (a_dynamic bytes multiplier) h wf s = cc s
  static_size t (a_array items true) h wf s = cc s
  static_size t (a_array items false) (ts, e, h) wf s =
      let ps = parts items in
      let (sizes, no_tails) = static_sizes ts items h wf.1 s in
      rw e (
        omega (
          arith,
          sizes,
          ap (λ (xs : List ℕ). length xs) no_tails,
          length-append (heads (head_size ps) 0 ps) (tails ps),
          length-heads (head_size ps) 0 items wf.1,
        ))
  static_size t (a_unknown concrete function size) h wf s = elim wf [ ]

  static_sizes :
      (ts items : Items)
      → AreTemplates ts items
      → AllWellFormed items
      → all_static items ≡ true
      → (sum_sizes ts ≡ head_size (parts items)) × (tails (parts items) ≡ [])
  static_sizes ts nil e wf s = (rw e refl, refl)
  static_sizes ts (cons item function items) (t, rest, e, h, hs) wf s =
      let first : is_static item ≡ true = ground arith in
      let others : all_static items ≡ true = ground arith in
      let (sizes, no_tails) = static_sizes rest items hs wf.1 others in
      rw (e, first, no_tails) (omega (arith, sizes, static_size t item h wf.0 first), refl)

-- The decoder needs no more than the encoding of each element for its head.
pub few_items :
    (items : Items) → AllWellFormed items → length (parts items) ≤ head_size (parts items)
unfolding get_bytes head_size
few_items nil wf = omega arith
few_items (cons item function items) wf = ground (arith, few_items items wf.1, min_length item wf.0)
