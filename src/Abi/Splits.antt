-- ===== src/Abi/Splits.antt =====
-- evm/abi.rs: what `split_with_parenthesis` splits a text into.
use mathlib.Core.List.{append_assoc, append-nil}
use ityfuzz_rl_src.Prelude.{
  ℕ, ◌+◌, ◌<◌, ◌≡◌, length, length-append, refl, sym, ap, ◌∙◌, inl, inr, List, [], ◌∷◌, ◌++◌, arith,
  Bool-cases,
}
use ityfuzz_rl_src.Abi.TypeNames.{
  i32_mod, after, is_separator, split_loop, split_with_parenthesis, join, count, NoCut, AreParts,
}
use ityfuzz_rl_src.Abi.Counter.{
  level, after-level, is_comma, no_separator, count-append, cut, count_one, count-length,
  level-same,
}

join-cons :
    (current : List ℕ) (p : ℕ) (s x : List ℕ)
    → join (x ∷ split_loop current p s) ≡ x ++ (44 ∷ join (split_loop current p s))
unfolding split_loop
join-cons current p [] x = refl
join-cons current p (c ∷ s) x = elim (Bool-cases (is_separator c (after c p))) [
  | inl e ↦ rw e refl
  | inr e ↦ rw e (join-cons (current ++ (c ∷ [])) (after c p) s x)
]

join-split_loop :
    (current : List ℕ) (p : ℕ) (s : List ℕ) → join (split_loop current p s) ≡ current ++ s
unfolding split_loop
join-split_loop current p [] = sym (append-nil current)
join-split_loop current p (c ∷ s) = elim (Bool-cases (is_separator c (after c p))) [
  | inl e ↦
      (let comma : c ≡ 44 = ground (arith, e) in
        rw e (
          join-cons [] (after c p) s current
          ∙ ap (λ r. current ++ (44 ∷ r)) (join-split_loop [] (after c p) s)
          ∙ ap (λ k. current ++ (k ∷ s)) (sym comma)))
  | inr e ↦
      rw e (join-split_loop (current ++ (c ∷ [])) (after c p) s ∙ append_assoc current (c ∷ []) s)
]

-- A text without a comma to cut at goes to the current part.
split_loop-append :
    (current : List ℕ) (o d : ℕ) (x rest : List ℕ)
    → NoCut o d x
    → o + length x < i32_mod
    → d + length x < i32_mod
    → split_loop current (level o d) (x ++ rest)
      ≡ split_loop (current ++ x) (level (o + count 40 x) (d + count 41 x)) rest
unfolding split_loop
split_loop-append current o d [] rest whole few few' =
    let same : o + 0 ≡ o = omega arith in
    let same' : d + 0 ≡ d = omega arith in
    rw (same, same') (ap (λ l. split_loop l (level o d) rest) (sym (append-nil current)))
split_loop-append current o d (c ∷ x) rest whole few few' =
    let next = after-level c o d (omega arith) (omega arith) in
    let inside = no_separator c o d (omega arith) (omega arith) whole.0 in
    let o' = o + count 40 (c ∷ []) in
    let d' = d + count 41 (c ∷ []) in
    let same : o + count 40 (c ∷ x) ≡ o' + count 40 x = omega arith in
    let same' : d + count 41 (c ∷ x) ≡ d' + count 41 x = omega arith in
    rw (next, inside, same, same')
      (split_loop-append (current ++ (c ∷ [])) o' d' x rest whole.1 (omega (arith, count_one 40 c))
          (omega (arith, count_one 41 c))
        ∙ ap (λ l. split_loop l (level (o' + count 40 x) (d' + count 41 x)) rest)
            (append_assoc current (c ∷ []) x))

split_joined :
    (parts : List (List ℕ))
    → AreParts parts
    → length (join parts) < i32_mod
    → split_loop [] 0 (join parts) ≡ parts
unfolding split_loop
split_joined [] whole small = elim whole [ ]
split_joined (x ∷ []) whole small =
    ap (λ l. split_loop [] 0 l) (sym (append-nil x))
    ∙ split_loop-append [] 0 0 x [] whole (omega (arith, small)) (omega (arith, small))
split_joined (x ∷ y ∷ parts) whole small =
    let rest = join (y ∷ parts) in
    let total = length-append x (44 ∷ rest) in
    let equal : level (0 + count 40 x) (0 + count 41 x) ≡ 0 =
      rw whole.1 (level-same (0 + count 41 x) (omega (arith, count-length 41 x))) in
    split_loop-append [] 0 0 x (44 ∷ rest) whole.0 (omega arith) (omega arith)
    ∙ rw equal (ap (λ r. x ∷ r) (split_joined (y ∷ parts) whole.2 (omega arith)))

-- Splitting undoes joining: the split of the joined text is the parts, where there is one part or
-- more, no part has a comma that follows as many closing as opening parentheses of that part, each
-- part but the last has as many opening as closing ones, and the text has fewer than 2 ^ 32 characters.
pub split_with_parenthesis-join :
    (parts : List (List ℕ))
    → AreParts parts
    → length (join parts) < i32_mod
    → split_with_parenthesis (join parts) ≡ parts
unfolding split_with_parenthesis
split_with_parenthesis-join parts whole small = split_joined parts whole small

NoCut-append :
    (o d : ℕ) (x : List ℕ) (c : ℕ)
    → NoCut o d x
    → (c ≡ 44 → ¬ (o + count 40 x ≡ d + count 41 x))
    → NoCut o d (x ++ (c ∷ []))
NoCut-append o d [] c whole inside = (λ comma same. inside comma (omega (arith, same)), tt)
NoCut-append o d (y ∷ x) c whole inside = (
  whole.0,
  NoCut-append (o + count 40 (y ∷ [])) (d + count 41 (y ∷ [])) x c whole.1
      (λ comma same. inside comma (omega (arith, same))),
)

AreParts-cons :
    (x : List ℕ) (parts : List (List ℕ))
    → NoCut 0 0 x
    → count 40 x ≡ count 41 x
    → AreParts parts
    → AreParts (x ∷ parts)
AreParts-cons x [] whole equal others = elim others [ ]
AreParts-cons x (y ∷ parts) whole equal others = (whole, equal, others)

split_loop-AreParts :
    (current s : List ℕ)
    → NoCut 0 0 current
    → length current + length s < i32_mod
    → AreParts (split_loop current (level (count 40 current) (count 41 current)) s)
unfolding split_loop
split_loop-AreParts current [] whole small = whole
split_loop-AreParts current (c ∷ s) whole small =
    let o = count 40 current in
    let d = count 41 current in
    let few : o + 1 < i32_mod = omega (arith, count-length 40 current) in
    let few' : d + 1 < i32_mod = omega (arith, count-length 41 current) in
    let next = after-level c o d few few' in
    elim (Bool-cases (is_separator c (level (o + count 40 (c ∷ [])) (d + count 41 (c ∷ []))))) [
      | inl e ↦
          (let (comma, same) = is_comma c o d few few' e in
            let at_level : level (o + count 40 (c ∷ [])) (d + count 41 (c ∷ [])) ≡ 0 =
              ground (arith, e) in
            rw (next, e, at_level)
              (AreParts-cons current (split_loop [] 0 s) whole same
                (split_loop-AreParts [] s tt (omega arith))))
      | inr e ↦
          (let inside : c ≡ 44 → ¬ (o ≡ d) = λ comma same. elim (cut c o d few comma same e) [ ] in
            let longer = current ++ (c ∷ []) in
            let size = length-append current (c ∷ []) in
            rw
              (
                next,
                e,
                sym (count-append 40 current (c ∷ [])),
                sym (count-append 41 current (c ∷ [])),
              )
              (split_loop-AreParts longer s
                (NoCut-append 0 0 current c whole
                  (λ comma same. inside comma (omega (arith, same))))
                (omega arith)))
    ]

-- The split of a text of fewer than 2 ^ 32 characters consists of such parts, and joining them again
-- gives the text, whatever its parentheses.
pub join-split_with_parenthesis :
    (s : List ℕ)
    → length s < i32_mod
    → (join (split_with_parenthesis s) ≡ s) × AreParts (split_with_parenthesis s)
unfolding split_with_parenthesis
join-split_with_parenthesis s small =
    (join-split_loop [] 0 s, split_loop-AreParts [] s tt (omega (arith, small)))
