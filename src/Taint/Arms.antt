-- ===== src/Taint/Arms.antt =====
-- evm/middlewares/sha3_bypass.rs: each arm of the match has its effect on the size of the stack.
use ityfuzz_rl_src.Prelude.{
  ℕ, zero, suc, ◌+◌, ◌-◌, ◌≤◌, ◌<◌, ◌≡◌, refl, ap, Bool, true, false, ◌||◌, List, [], ◌∷◌, ◌++◌,
  some, arith, leb, length, length-append, take, drop, replicate, get_elem?, get_or, wrapping_add,
  u64_mod,
}
use ityfuzz_rl_src.Taint.State.{Sha3TaintAnalysis, slice}
use ityfuzz_rl_src.Taint.Step.{pop_n, pop_or, ensure_size, write_memory}

pub pop_n_lem :
    (n : ℕ) (xs : List Bool)
    → n ≤ length xs
    → (ys : List Bool) × (pop_n n xs ≡ some ys) × (length ys + n ≡ length xs)
pop_n_lem zero xs few = (xs, refl, omega arith)
pop_n_lem (suc n) [] few = elim few [ ]
pop_n_lem (suc n) (b ∷ xs) few =
    let (ys, e, size) = pop_n_lem n xs (omega arith) in (ys, e, omega arith)

pub pop_or_lem :
    (n : ℕ) (res : Bool) (xs : List Bool)
    → n ≤ length xs
    → (ys : List Bool) × (pop_or n res xs ≡ some ys) × (length ys + n ≡ suc (length xs))
pop_or_lem zero res xs few = (res ∷ xs, refl, omega arith)
pop_or_lem (suc n) res [] few = elim few [ ]
pop_or_lem (suc n) res (b ∷ xs) few =
    let (ys, e, size) = pop_or_lem n (res || b) xs (omega arith) in (ys, e, omega arith)

pub get_elem_lem :
    {T : Type 0} (xs : List T) (n : ℕ) → n < length xs → (x : T) × (get_elem? xs n ≡ some x)
get_elem_lem [] n lt = elim lt [ ]
get_elem_lem (x ∷ xs) zero lt = (x, refl)
get_elem_lem (x ∷ xs) (suc n) lt = get_elem_lem xs n (omega arith)

pub get_elem_or : (xs : List ℕ) (n : ℕ) → n < length xs → get_elem? xs n ≡ some (get_or xs n 0)
get_elem_or [] n lt = elim lt [ ]
get_elem_or (x ∷ xs) zero lt = refl
get_elem_or (x ∷ xs) (suc n) lt = get_elem_or xs n (omega arith)

length-replicate : (n : ℕ) (b : Bool) → length (replicate n b) ≡ n
length-replicate zero b = refl
length-replicate (suc n) b = ap suc (length-replicate n b)

pub length-ensure_size : (n : ℕ) (v : List Bool) → n ≤ length (ensure_size n v)
length-ensure_size n v =
    ground (
      arith,
      length-append v (replicate (n - length v) false),
      length-replicate (n - length v) false,
    )

pub fill_lem :
    (t : Sha3TaintAnalysis) (start size : ℕ) (b : Bool)
    → start + size < u64_mod
    → (memory : List Bool) × (write_memory t start size b
        ≡ some (record t { dirty_memory = memory }))
fill_lem t start size b small =
    let memory = ensure_size (start + size) t.dirty_memory in
    let end : wrapping_add start size ≡ start + size = omega arith in
    let inside : leb (start + size) (length memory) ≡ true =
      ground (arith, length-ensure_size (start + size) t.dirty_memory) in
    let ordered : leb (start + size) (start + size) ≡ true = ground arith in
    (
      take start memory ++ (replicate size b ++ drop (start + size) memory),
      rw (end, inside, ordered) refl,
    )

pub slice_lem :
    (start size : ℕ) (v : List Bool)
    → start + size < u64_mod
    → start + size ≤ length v
    → slice start size v ≡ some (take (start + size - start) (drop start v))
slice_lem start size v small inside =
    let end : wrapping_add size start ≡ start + size = omega arith in
    let in_v : leb (start + size) (length v) ≡ true = ground arith in
    let ordered : leb start (start + size) ≡ true = ground arith in rw (end, in_v, ordered) refl
