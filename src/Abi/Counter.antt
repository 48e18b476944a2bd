-- ===== src/Abi/Counter.antt =====
-- evm/abi.rs: the counter of parentheses in `split_with_parenthesis`.
use ityfuzz_rl_src.Prelude.{
  ℕ, ◌+◌, ◌-◌, ◌%◌, ◌<◌, ◌≤◌, ◌≡◌, length, inl, inr, true, false, List, [], ◌∷◌, ◌++◌, arith, ◌==◌,
  Bool-cases,
}
use ityfuzz_rl_src.Abi.TypeNames.{i32_mod, after, is_separator, count}

-- The counter after so many opening and closing parentheses.
abbrev pub level : (opened closed : ℕ) → ℕ
level opened closed = (opened + (i32_mod - closed)) % i32_mod

pub after-level :
    (c opened closed : ℕ)
    → opened + 1 < i32_mod
    → closed + 1 < i32_mod
    → after c (level opened closed)
      ≡ level (opened + count 40 (c ∷ [])) (closed + count 41 (c ∷ []))
after-level c opened closed few few' = elim (Bool-cases (c == 40)) [
  | inl e ↦ (let other : (c == 41) ≡ false = ground arith in rw (e, other) (omega arith))
  | inr e ↦ elim (Bool-cases (c == 41)) [
    | inl f ↦ rw (e, f) (omega arith)
    | inr f ↦ rw (e, f) (omega arith)
  ]
]

-- Between equally many parentheses the counter is 0, and only there.
is_level :
    (opened closed : ℕ)
    → opened < i32_mod
    → closed < i32_mod
    → (level opened closed == 0) ≡ true
    → opened ≡ closed
is_level opened closed few few' e =
    let zero : level opened closed ≡ 0 = ground (arith, e) in omega (arith, zero)

pub level-same : (n : ℕ) → n < i32_mod → level n n ≡ 0
level-same n few = omega arith

pub is_comma :
    (c opened closed : ℕ)
    → opened + 1 < i32_mod
    → closed + 1 < i32_mod
    → is_separator c (level (opened + count 40 (c ∷ [])) (closed + count 41 (c ∷ []))) ≡ true
    → (c ≡ 44) × (opened ≡ closed)
is_comma c opened closed few few' e =
    let comma : c ≡ 44 = ground (arith, e) in
    let not_open : (c == 40) ≡ false = ground (arith, comma) in
    let not_close : (c == 41) ≡ false = ground (arith, comma) in
    let here : (level (opened + count 40 (c ∷ [])) (closed + count 41 (c ∷ [])) == 0) ≡ true =
      ground (arith, e) in
    let same =
      is_level (opened + count 40 (c ∷ [])) (closed + count 41 (c ∷ [])) (ground (arith, not_open))
        (ground (arith, not_close)) here in
    (comma, ground (arith, same, not_open, not_close))

pub no_separator :
    (c opened closed : ℕ)
    → opened + 1 < i32_mod
    → closed + 1 < i32_mod
    → (c ≡ 44 → ¬ (opened ≡ closed))
    → is_separator c (level (opened + count 40 (c ∷ [])) (closed + count 41 (c ∷ []))) ≡ false
no_separator c opened closed few few' inside =
    elim (Bool-cases
      (is_separator c (level (opened + count 40 (c ∷ [])) (closed + count 41 (c ∷ []))))) [
        | inl e ↦
            (let (comma, same) = is_comma c opened closed few few' e in
              elim (inside comma same) [ ])
        | inr e ↦ e
      ]

-- A comma between equally many parentheses is a separator.
pub cut :
    (c o d : ℕ)
    → o + 1 < i32_mod
    → c ≡ 44
    → o ≡ d
    → is_separator c (level (o + count 40 (c ∷ [])) (d + count 41 (c ∷ []))) ≡ false
    → ⊥
cut c o d few comma same e =
    let off : is_separator 44 (level (o + 0) (d + 0)) ≡ false = rw comma at e in
    let zero : level o d ≡ 0 = omega arith in ground (arith, off, zero)

pub count-append : (k : ℕ) (xs ys : List ℕ) → count k (xs ++ ys) ≡ count k xs + count k ys
count-append k [] ys = omega arith
count-append k (x ∷ xs) ys = omega (arith, count-append k xs ys)

count-cons : (k c : ℕ) (s : List ℕ) → count k (c ∷ s) ≡ count k (c ∷ []) + count k s
count-cons k c s = omega arith

pub count_one : (k c : ℕ) → count k (c ∷ []) ≤ 1
count_one k c = ground arith

pub count-length : (k : ℕ) (s : List ℕ) → count k s ≤ length s
count-length k [] = omega arith
count-length k (x ∷ s) = omega (arith, count-length k s, count_one k x)
