-- ===== src/Taint/Sizes.antt =====
-- evm/middlewares/sha3_bypass.rs: the shadow stack keeps the size of the interpreter's.
use ityfuzz_rl_src.Prelude.{
  ℕ, zero, suc, ◌+◌, ◌-◌, ◌≤◌, ◌<◌, ◌≡◌, refl, ap, inl, inr, Bool, true, false, List, [], ◌∷◌,
  Option, none, some, arith, ◌==◌, length, length-drop, length-set, take, drop, any, get_elem?,
  get_or, wrapping_add, set, lookup_or, insert, u64_mod, Bool-cases,
}
use ityfuzz_rl_src.Taint.State.{
  Interpreter, Sha3TaintAnalysisCtx, Sha3TaintAnalysis, slice, exactly, read_input, write_input,
  call_slots, push_at, push_ctx, cleanup,
}
use ityfuzz_rl_src.Taint.Opcodes.{
  Arm, nothing, sha3, calldataload, copy, mload, mstore, mstore8, sload, sstore, jumpi, pop_one,
  push_false, pop_push, constant, drops, dup, swap, call,
}
use ityfuzz_rl_src.Taint.Step.{
  tail, ensure_size, load_input, store_memory, store_storage, take_jump, swap_top, run_arm,
}
use ityfuzz_rl_src.Taint.Frames.{caller_stack, slot, InInput, InMemory, InBounds, entered_with}
use ityfuzz_rl_src.Taint.Arity.{arm_pops, arm_pushes}
use ityfuzz_rl_src.Taint.Arms.{
  pop_n_lem, pop_or_lem, get_elem_lem, get_elem_or, fill_lem, slice_lem, length-ensure_size,
}

-- What is left of the stack after `o`.
abbrev pub Leaves : Arm → ℕ → Option Sha3TaintAnalysis → Type 0
Leaves arm size o =
    (t' : Sha3TaintAnalysis) × (o ≡ some t')
    × (length (caller_stack arm t') + arm_pops arm ≡ size + arm_pushes arm)

length-tail : (xs : List Bool) → length (tail xs) ≡ length xs - 1
length-tail [] = refl
length-tail (x ∷ xs) = omega arith

take_exact : (n : ℕ) (xs : List Bool) → n ≤ length xs → length (take n xs) ≡ n
take_exact zero xs few = refl
take_exact (suc n) [] few = elim few [ ]
take_exact (suc n) (x ∷ xs) few = ap suc (take_exact n xs (omega arith))

exactly_lem :
    (start size : ℕ) (v : List Bool)
    → start + size < u64_mod
    → start + size ≤ length v
    → (part : List Bool) × (exactly size (slice start size v) ≡ some part)
exactly_lem start size v small inside =
    let part = take (start + size - start) (drop start v) in
    let whole : (length part == size) ≡ true = ground (
      arith,
      take_exact (start + size - start) (drop start v) (omega (arith, length-drop start v)),
      length-drop start v,
    ) in
    (part, rw (slice_lem start size v small inside, whole) refl)

load_input_lem :
    (interp : Interpreter) (t : Sha3TaintAnalysis) (ctxs : List Sha3TaintAnalysisCtx)
    → 1 ≤ length interp.stack
    → 1 ≤ length t.dirty_stack
    → InInput ctxs (slot interp 0)
    → Leaves calldataload (length t.dirty_stack) (load_input t ctxs (get_elem? interp.stack 0))
unfolding read_input
load_input_lem interp t [] few deep inside = (_, refl, omega (arith, length-tail t.dirty_stack))
load_input_lem interp t (ctx ∷ ctxs) few deep (inl at_start) = (
  record t { dirty_stack = false ∷ tail t.dirty_stack },
  rw (get_elem_or interp.stack 0 few, at_start) refl,
  omega (arith, length-tail t.dirty_stack),
)
load_input_lem interp t (ctx ∷ ctxs) few deep (inr (small, inside)) =
    let offset = slot interp 0 in
    elim (Bool-cases (offset == 0)) [
      | inl zero_offset ↦ (
        record t { dirty_stack = false ∷ tail t.dirty_stack },
        rw (get_elem_or interp.stack 0 few, zero_offset) refl,
        omega (arith, length-tail t.dirty_stack),
      )
      | inr not_zero ↦
          (let (part, read) = exactly_lem offset 32 ctx.input_data small inside in
            (
              record t { dirty_stack = any (λ b. b) part ∷ tail t.dirty_stack },
              rw (get_elem_or interp.stack 0 few, not_zero, read) refl,
              omega (arith, length-tail t.dirty_stack),
            ))
    ]

store_memory_lem :
    (interp : Interpreter) (t : Sha3TaintAnalysis) (size : ℕ) (xs : List Bool)
    → 1 ≤ length interp.stack
    → 2 ≤ length xs
    → slot interp 0 + size < u64_mod
    → Leaves mstore (length xs) (store_memory t xs size (get_elem? interp.stack 0))
store_memory_lem interp t size [] few deep small = elim deep [ ]
store_memory_lem interp t size (a ∷ []) few deep small = ground (arith, deep)
store_memory_lem interp t size (a ∷ b ∷ xs) few deep small =
    let (memory, written) = fill_lem (record t { dirty_stack = xs }) (slot interp 0) size b small in
    (
      record t { dirty_stack = xs; dirty_memory = memory },
      rw (get_elem_or interp.stack 0 few) written,
      omega arith,
    )

store_storage_lem :
    (interp : Interpreter) (t : Sha3TaintAnalysis) (xs : List Bool)
    → 1 ≤ length interp.stack
    → 1 ≤ length xs
    → (t' : Sha3TaintAnalysis) × (store_storage t xs (get_elem? interp.stack 0) ≡ some t')
      × (length t'.dirty_stack + 1 ≡ length xs)
store_storage_lem interp t [] few deep = elim deep [ ]
store_storage_lem interp t (b ∷ xs) few deep = (
  record t { dirty_stack = xs; dirty_storage = insert (get_or interp.stack 0 0) b t.dirty_storage },
  rw (get_elem_or interp.stack 0 few) refl,
  omega arith,
)

take_jump_lem :
    (interp : Interpreter) (t : Sha3TaintAnalysis) (xs : List Bool)
    → 1 ≤ length xs
    → (t' : Sha3TaintAnalysis) × (take_jump interp t xs ≡ some t')
      × (length t'.dirty_stack + 1 ≡ length xs)
take_jump_lem interp t [] deep = elim deep [ ]
take_jump_lem interp t (v ∷ xs) deep = (_, refl, omega arith)

swap_top_lem :
    (t : Sha3TaintAnalysis) (n : ℕ) (xs : List Bool)
    → 0 < n
    → n ≤ length xs
    → (t' : Sha3TaintAnalysis) × (swap_top t n xs (get_elem? xs (n - 1)) ≡ some t')
      × (length t'.dirty_stack ≡ length xs)
swap_top_lem t n [] some_n deep = ground (arith, some_n, deep)
swap_top_lem t n (b ∷ xs) some_n deep =
    let (other, e) = get_elem_lem (b ∷ xs) (n - 1) (omega arith) in
    (
      record t { dirty_stack = set (set (b ∷ xs) 0 other) (n - 1) b },
      rw e refl,
      omega (arith, length-set (set (b ∷ xs) 0 other) (n - 1) b),
    )

pub push_at_lem :
    (interp : Interpreter) (t : Sha3TaintAnalysis) (o : Option (ℕ × ℕ))
    → InMemory interp t o
    → (input : List Bool) × (push_at interp t o ≡ some (entered_with t input))
unfolding write_input cleanup
push_at_lem interp t none inside = elim inside [ ]
push_at_lem interp t (some (a, b)) (has_a, has_b, small, inside) =
    let (input, read) = exactly_lem (slot interp a) (slot interp b) t.dirty_memory small inside in
    (input, rw (get_elem_or interp.stack a has_a, get_elem_or interp.stack b has_b, read) refl)

pub run_arm_lem :
    (interp : Interpreter) (t : Sha3TaintAnalysis) (arm : Arm)
    → length t.dirty_stack ≡ length interp.stack
    → arm_pops arm ≤ length interp.stack
    → InBounds interp t arm
    → Leaves arm (length t.dirty_stack) (run_arm interp t arm)
unfolding run_arm push_ctx
run_arm_lem interp t nothing same few inside = (t, refl, refl)
run_arm_lem interp t sha3 same few inside =
    let (ys, e, size) = pop_n_lem 2 t.dirty_stack (omega arith) in
    (record t { dirty_stack = true ∷ ys }, rw e refl, omega arith)
run_arm_lem interp t calldataload same few inside =
    load_input_lem interp t t.ctxs few (omega arith) inside
run_arm_lem interp t copy same few inside =
    let (ys, e, size) = pop_n_lem 3 t.dirty_stack (omega arith) in
    let (memory, written) =
      fill_lem (record t { dirty_stack = ys }) (slot interp 0) (slot interp 2) false inside in
    (
      record t { dirty_stack = ys; dirty_memory = memory },
      rw (e, get_elem_or interp.stack 0 (omega arith), get_elem_or interp.stack 2 (omega arith))
          written,
      omega arith,
    )
run_arm_lem interp t mload same few inside =
    let start = slot interp 0 in
    let memory = ensure_size (start + 32) t.dirty_memory in
    let end : wrapping_add start 32 ≡ start + 32 = omega arith in
    let read = slice_lem start 32 memory inside (length-ensure_size (start + 32) t.dirty_memory) in
    (
      record t {
        dirty_memory = memory;
        dirty_stack =
            any (λ b. b) (take (start + 32 - start) (drop start memory)) ∷ tail t.dirty_stack;
      },
      rw (get_elem_or interp.stack 0 few, end, read) refl,
      omega (arith, length-tail t.dirty_stack),
    )
run_arm_lem interp t mstore same few inside =
    store_memory_lem interp t 32 t.dirty_stack (omega arith) (omega arith) inside
run_arm_lem interp t mstore8 same few inside =
    store_memory_lem interp t 1 t.dirty_stack (omega arith) (omega arith) inside
run_arm_lem interp t sload same few inside = (
  record t {
    dirty_stack = lookup_or (get_or interp.stack 0 0) false t.dirty_storage ∷ tail t.dirty_stack;
  },
  rw (get_elem_or interp.stack 0 few) refl,
  omega (arith, length-tail t.dirty_stack),
)
run_arm_lem interp t sstore same few inside =
    let (t', e, size) =
      store_storage_lem interp t (tail t.dirty_stack) (omega arith)
        (omega (arith, length-tail t.dirty_stack)) in
    (t', e, omega (arith, length-tail t.dirty_stack))
run_arm_lem interp t jumpi same few inside =
    let (t', e, size) =
      take_jump_lem interp t (tail t.dirty_stack) (omega (arith, length-tail t.dirty_stack)) in
    (t', e, omega (arith, length-tail t.dirty_stack))
run_arm_lem interp t pop_one same few inside =
    (record t { dirty_stack = tail t.dirty_stack }, refl, omega (arith, length-tail t.dirty_stack))
run_arm_lem interp t push_false same few inside =
    (record t { dirty_stack = false ∷ t.dirty_stack }, refl, omega arith)
run_arm_lem interp t (pop_push pops) same few inside =
    let (ys, e, size) = pop_or_lem pops false t.dirty_stack (omega arith) in
    (record t { dirty_stack = ys }, rw e refl, omega arith)
run_arm_lem interp t (constant pops) same few inside =
    let (ys, e, size) = pop_n_lem pops t.dirty_stack (omega arith) in
    (record t { dirty_stack = false ∷ ys }, rw e refl, omega arith)
run_arm_lem interp t (drops pops) same few inside =
    let (ys, e, size) = pop_n_lem pops t.dirty_stack (omega arith) in
    (record t { dirty_stack = ys }, rw e refl, omega arith)
run_arm_lem interp t (dup n) same few inside =
    let (b, e) = get_elem_lem t.dirty_stack (n - 1) (omega arith) in
    (record t { dirty_stack = b ∷ t.dirty_stack }, rw e refl, omega arith)
run_arm_lem interp t (swap n) same few inside =
    let (t', e, size) = swap_top_lem t n t.dirty_stack inside (omega arith) in (t', e, omega arith)
run_arm_lem interp t (call pops) same few inside =
    let (ys, e, size) = pop_n_lem pops t.dirty_stack (omega arith) in
    let t1 = record t { dirty_stack = false ∷ ys } in
    let (input, entered_e) = push_at_lem interp t1 (call_slots interp.opcode) inside in
    (entered_with t1 input, rw e entered_e, omega arith)
