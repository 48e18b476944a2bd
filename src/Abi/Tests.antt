-- ===== src/Abi/Tests.antt =====
-- The theorems on ABI values at concrete values.
use ityfuzz_rl_src.Prelude.{ℕ, ◌≡◌, refl, true, false, List, [], ◌∷◌, ◌++◌, some, arith, replicate}
use ityfuzz_rl_src.Abi.Words
use ityfuzz_rl_src.Abi.Words.{set_size, get_size, get_size-set_size}
use ityfuzz_rl_src.Abi.Syntax.{Abi, uint_type, a256, a_dynamic, a_array, Items, nil, cons, BoxedAbi}
use ityfuzz_rl_src.Abi.Syntax
use ityfuzz_rl_src.Abi.Encode
use ityfuzz_rl_src.Abi.Encode.{get_bytes, boxed_bytes, heads}
use ityfuzz_rl_src.Abi.Decode.{boxed_set_bytes}
use ityfuzz_rl_src.Abi.Template.{IsTemplate}
use ityfuzz_rl_src.Abi.RoundTrip.{boxed_set_bytes-boxed_bytes}
use ityfuzz_rl_src.Abi.TypeNames.{split_with_parenthesis, join, AreParts}
use ityfuzz_rl_src.Abi.Splits.{split_with_parenthesis-join, join-split_with_parenthesis}

abbrev word_of : ℕ → Abi
word_of n = a256 (replicate 31 0 ++ (n ∷ [])) false false uint_type

abbrev hash : List ℕ
hash = 169 ∷ 5 ∷ 156 ∷ 187 ∷ []

abbrev pair_of : Abi → Abi → Abi
pair_of x y = a_array (cons x [] (cons y [] nil)) false

-- (uint256, bytes, (uint256, uint256)[])
abbrev with_parts : Abi → List ℕ → Items → Abi
with_parts n bytes pairs =
    a_array (cons n [] (cons (a_dynamic bytes 32) [] (cons (a_array pairs true) [] nil))) false

abbrev arguments : Abi
arguments =
    with_parts (word_of 7) (1 ∷ 2 ∷ 3 ∷ [])
      (cons (pair_of (word_of 1) (word_of 2)) [] (cons (pair_of (word_of 3) (word_of 4)) [] nil))

abbrev blank_word : Abi
blank_word = a256 [] false false uint_type

-- Its array has one element, and has to grow.
abbrev template : Abi
template = with_parts blank_word (9 ∷ []) (cons (pair_of blank_word (word_of 9)) [] nil)

boxed_set_bytes-boxed_bytes_example :
    boxed_set_bytes
      (record { b = template; function = hash })
      (boxed_bytes (record { b = arguments; function = hash }))
    ≡ some (record { b = arguments; function = hash }, true)
unfolding get_bytes Words.set_size Words.size_bytes Words.roundup Encode.encode_array heads
    Encode.tails Encode.head_size Syntax.is_static
boxed_set_bytes-boxed_bytes_example =
    let pair_IsTemplate : IsTemplate (pair_of blank_word (word_of 9))
        (pair_of (word_of 1) (word_of 2)) =
      (_, refl, (_, _, refl, (_, refl), (_, _, refl, (_, refl), refl))) in
    let pair_IsTemplate' : IsTemplate (pair_of blank_word (word_of 9))
        (pair_of (word_of 3) (word_of 4)) =
      (_, refl, (_, _, refl, (_, refl), (_, _, refl, (_, refl), refl))) in
    boxed_set_bytes-boxed_bytes template arguments hash refl
      (
        _,
        refl,
        (
          _,
          _,
          refl,
          (_, refl),
          (
            _,
            _,
            refl,
            (_, refl),
            (
              _,
              _,
              refl,
              (_, refl, (_, _, refl, pair_IsTemplate, (_, _, refl, pair_IsTemplate', refl))),
              refl,
            ),
          ),
        ),
      )
      (omega arith) (omega arith)

get_size-set_size_example : get_size (set_size 4660 ++ (9 ∷ [])) ≡ some 4660
get_size-set_size_example = get_size-set_size 4660 (9 ∷ []) (omega arith)

-- "(b,c)" and "d"
abbrev two_types : List (List ℕ)
two_types = (40 ∷ 98 ∷ 44 ∷ 99 ∷ 41 ∷ []) ∷ (100 ∷ []) ∷ []

split_with_parenthesis-join_example : split_with_parenthesis (join two_types) ≡ two_types
split_with_parenthesis-join_example =
    split_with_parenthesis-join two_types
      (
        (
          λ e. omega (arith, e),
          (
            λ e. omega (arith, e),
            ((λ e same. omega (arith, same)), (λ e. omega (arith, e), (λ e. omega (arith, e), tt))),
          ),
        ),
        refl,
        (λ e. omega (arith, e), tt),
      )
      (omega arith)

join-split_with_parenthesis_example :
    (join (split_with_parenthesis (97 ∷ 44 ∷ 41 ∷ 44 ∷ [])) ≡ 97 ∷ 44 ∷ 41 ∷ 44 ∷ [])
    × AreParts (split_with_parenthesis (97 ∷ 44 ∷ 41 ∷ 44 ∷ []))
join-split_with_parenthesis_example =
    join-split_with_parenthesis (97 ∷ 44 ∷ 41 ∷ 44 ∷ []) (omega arith)
