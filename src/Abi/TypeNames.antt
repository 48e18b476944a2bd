-- ===== src/Abi/TypeNames.antt =====
-- evm/abi.rs: `split_with_parenthesis`, on texts as lists of characters.
use ityfuzz_rl_src.Prelude.{
  ℕ, ◌+◌, ◌-◌, ◌%◌, ◌≡◌, Bool, ◌&&◌, List, [], ◌∷◌, ◌++◌, if◌then◌else◌, ◌==◌,
}

-- The counter is an `i32`, kept as its 32 bits; it wraps around.
abbrev pub i32_mod : ℕ
i32_mod = 4294967296

-- The counter after a character, 40 and 41 being the parentheses.
abbrev pub after : ℕ → ℕ → ℕ
after c parenthesis =
    if c == 40
    then (parenthesis + 1) % i32_mod
    else (if c == 41 then (parenthesis + (i32_mod - 1)) % i32_mod else parenthesis)

-- A comma, 44, outside of parentheses.
abbrev pub is_separator : ℕ → ℕ → Bool
is_separator c parenthesis = (c == 44) && (parenthesis == 0)

unfoldable pub split_loop : (current : List ℕ) → ℕ → List ℕ → List (List ℕ)
split_loop current parenthesis [] = current ∷ []
split_loop current parenthesis (c ∷ s) =
    let parenthesis' = after c parenthesis in
    let next = split_loop [] parenthesis' s in
    let longer = split_loop (current ++ (c ∷ [])) parenthesis' s in
    if is_separator c parenthesis' then current ∷ next else longer

unfoldable pub split_with_parenthesis : List ℕ → List (List ℕ)
unfolding split_loop
split_with_parenthesis s = split_loop [] 0 s

-- The parts with commas between them.
abbrev pub join : List (List ℕ) → List ℕ
join [] = []
join (x ∷ []) = x
join (x ∷ y ∷ parts) = x ++ (44 ∷ join (y ∷ parts))

-- How often a character is in a text.
abbrev pub count : ℕ → List ℕ → ℕ
count c [] = 0
count c (x ∷ s) = (if x == c then 1 else 0) + count c s

-- After `opened` and `closed` parentheses, no comma of the text follows as many closing as opening ones.
abbrev pub NoCut : (opened closed : ℕ) → List ℕ → Type 0
NoCut opened closed [] = Unit
NoCut opened closed (c ∷ s) =
    (c ≡ 44 → ¬ (opened ≡ closed))
    × NoCut (opened + count 40 (c ∷ [])) (closed + count 41 (c ∷ [])) s

-- The parts of a text: none has a comma to cut at, and each that a comma follows has as many opening
-- as closing parentheses.
abbrev pub AreParts : List (List ℕ) → Type 0
AreParts [] = ⊥
AreParts (x ∷ []) = NoCut 0 0 x
AreParts (x ∷ y ∷ parts) = NoCut 0 0 x × (count 40 x ≡ count 41 x) × AreParts (y ∷ parts)
