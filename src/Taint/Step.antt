-- ===== src/Taint/Step.antt =====
-- evm/middlewares/sha3_bypass.rs: `on_step` of `Sha3TaintAnalysis` and of `Sha3Bypass`.
use ityfuzz_rl_src.Prelude.{
  ℕ, zero, suc, ◌+◌, ◌-◌, ◌%◌, Bool, true, false, ◌&&◌, ◌||◌, List, [], ◌∷◌, ◌++◌, Option, none,
  some, if◌then◌else◌, ltb, leb, ◌==◌, length, take, drop, replicate, get_elem?, any, set,
  lookup_or, insert, wrapping_add,
}
use ityfuzz_rl_src.Taint.State.{
  Interpreter, Sha3TaintAnalysisCtx, Sha3TaintAnalysis, as_u64, slice, read_input, push_ctx,
}
use ityfuzz_rl_src.Taint.Opcodes.{
  Arm, nothing, sha3, calldataload, copy, mload, mstore, mstore8, sload, sstore, jumpi, pop_one,
  push_false, pop_push, constant, drops, dup, swap, call, arm_of,
}

abbrev pub max_call_depth : ℕ
max_call_depth = 3

-- `stack_pop_n!`, and the pops of `pop_push!` with the disjunction of what they return.
abbrev pub pop_n : ℕ → List Bool → Option (List Bool)
pop_n zero stack = some stack
pop_n (suc n) [] = none
pop_n (suc n) (b ∷ stack) = pop_n n stack

abbrev pub pop_or : ℕ → Bool → List Bool → Option (List Bool)
pop_or zero res stack = some (res ∷ stack)
pop_or (suc n) res [] = none
pop_or (suc n) res (b ∷ stack) = pop_or n (res || b) stack

-- A pop that does not look at what it returns.
abbrev pub tail : List Bool → List Bool
tail [] = []
tail (b ∷ stack) = stack

abbrev pub with_stack : Sha3TaintAnalysis → Option (List Bool) → Option Sha3TaintAnalysis
with_stack t none = none
with_stack t (some stack) = some (record t { dirty_stack = stack })

abbrev pub pushed : Bool → Option (List Bool) → Option (List Bool)
pushed b none = none
pushed b (some stack) = some (b ∷ stack)

-- `ensure_size!`, and a write to `memory[start..start + size]`.
abbrev pub ensure_size : ℕ → List Bool → List Bool
ensure_size size v = if ltb (length v) size then v ++ replicate (size - length v) false else v

abbrev pub fill : ℕ → ℕ → Bool → List Bool → Option (List Bool)
fill start size b v =
    let end = wrapping_add start size in
    if leb end (length v) && leb (start + size) end
    then some (take start v ++ (replicate size b ++ drop end v))
    else none

abbrev pub with_memory : Sha3TaintAnalysis → Option (List Bool) → Option Sha3TaintAnalysis
with_memory t none = none
with_memory t (some memory) = some (record t { dirty_memory = memory })

abbrev pub write_memory : Sha3TaintAnalysis → ℕ → ℕ → Bool → Option Sha3TaintAnalysis
write_memory t start size b =
    with_memory t (fill start size b (ensure_size (wrapping_add start size) t.dirty_memory))

-- `setup_mem!`, after its pops.
abbrev pub clear_memory : Option Sha3TaintAnalysis → Option ℕ → Option ℕ → Option Sha3TaintAnalysis
clear_memory none offset len = none
clear_memory (some t) none len = none
clear_memory (some t) (some offset) none = none
clear_memory (some t) (some offset) (some len) = write_memory t (as_u64 offset) (as_u64 len) false

abbrev pub push_any : Sha3TaintAnalysis → Option (List Bool) → Option Sha3TaintAnalysis
push_any t none = none
push_any t (some v) = some (record t { dirty_stack = any (λ b. b) v ∷ tail t.dirty_stack })

abbrev pub load_input :
    Sha3TaintAnalysis → List Sha3TaintAnalysisCtx → Option ℕ → Option Sha3TaintAnalysis
unfolding read_input
load_input t [] offset = some (record t { dirty_stack = false ∷ tail t.dirty_stack })
load_input t (ctx ∷ ctxs) none = none
load_input t (ctx ∷ ctxs) (some offset) =
    if as_u64 offset == 0
    then some (record t { dirty_stack = false ∷ tail t.dirty_stack })
    else push_any t (read_input ctx (as_u64 offset) 32)

abbrev pub load_memory : Sha3TaintAnalysis → Option ℕ → Option Sha3TaintAnalysis
load_memory t none = none
load_memory t (some offset) =
    let start = as_u64 offset in
    let memory = ensure_size (wrapping_add start 32) t.dirty_memory in
    push_any (record t { dirty_memory = memory }) (slice start 32 memory)

abbrev pub store_memory : Sha3TaintAnalysis → List Bool → ℕ → Option ℕ → Option Sha3TaintAnalysis
store_memory t (a ∷ b ∷ stack) size (some offset) =
    write_memory (record t { dirty_stack = stack }) (as_u64 offset) size b
store_memory t (a ∷ b ∷ stack) size none = none
store_memory t (a ∷ []) size offset = none
store_memory t [] size offset = none

abbrev pub load_storage : Sha3TaintAnalysis → Option ℕ → Option Sha3TaintAnalysis
load_storage t none = none
load_storage t (some key) =
    some (record t { dirty_stack = lookup_or key false t.dirty_storage ∷ tail t.dirty_stack })

abbrev pub store_storage : Sha3TaintAnalysis → List Bool → Option ℕ → Option Sha3TaintAnalysis
store_storage t [] key = none
store_storage t (b ∷ stack) none = none
store_storage t (b ∷ stack) (some key) =
    some (record t { dirty_stack = stack; dirty_storage = insert key b t.dirty_storage })

abbrev pub contains_pair : ℕ → ℕ → List (ℕ × ℕ) → Bool
contains_pair a b [] = false
contains_pair a b ((x, y) ∷ xs) = ((x == a) && (y == b)) || contains_pair a b xs

abbrev pub insert_pair : ℕ → ℕ → List (ℕ × ℕ) → List (ℕ × ℕ)
insert_pair a b xs = if contains_pair a b xs then xs else (a, b) ∷ xs

abbrev pub take_jump : Interpreter → Sha3TaintAnalysis → List Bool → Option Sha3TaintAnalysis
take_jump interp t [] = none
take_jump interp t (v ∷ stack) = some (record t {
  dirty_stack = stack;
  tainted_jumpi =
      if v
      then insert_pair interp.address interp.program_counter t.tainted_jumpi
      else t.tainted_jumpi;
})

abbrev pub push_copy : Sha3TaintAnalysis → Option Bool → Option Sha3TaintAnalysis
push_copy t none = none
push_copy t (some b) = some (record t { dirty_stack = b ∷ t.dirty_stack })

-- The top and the slot below it at `n - 1` change places.
abbrev pub swap_top : Sha3TaintAnalysis → ℕ → List Bool → Option Bool → Option Sha3TaintAnalysis
swap_top t n [] other = none
swap_top t n (b ∷ stack) none = none
swap_top t n (b ∷ stack) (some other) =
    some (record t { dirty_stack = set (set (b ∷ stack) 0 other) (n - 1) b })

abbrev pub then_push_ctx : Interpreter → Option Sha3TaintAnalysis → Option Sha3TaintAnalysis
unfolding push_ctx
then_push_ctx interp none = none
then_push_ctx interp (some t) = push_ctx interp t

unfoldable pub run_arm : Interpreter → Sha3TaintAnalysis → Arm → Option Sha3TaintAnalysis
run_arm interp t nothing = some t
run_arm interp t sha3 = with_stack t (pushed true (pop_n 2 t.dirty_stack))
run_arm interp t calldataload = load_input t t.ctxs (get_elem? interp.stack 0)
run_arm interp t copy =
    clear_memory (with_stack t (pop_n 3 t.dirty_stack)) (get_elem? interp.stack 0)
      (get_elem? interp.stack 2)
run_arm interp t mload = load_memory t (get_elem? interp.stack 0)
run_arm interp t mstore = store_memory t t.dirty_stack 32 (get_elem? interp.stack 0)
run_arm interp t mstore8 = store_memory t t.dirty_stack 1 (get_elem? interp.stack 0)
run_arm interp t sload = load_storage t (get_elem? interp.stack 0)
run_arm interp t sstore = store_storage t (tail t.dirty_stack) (get_elem? interp.stack 0)
run_arm interp t jumpi = take_jump interp t (tail t.dirty_stack)
run_arm interp t pop_one = some (record t { dirty_stack = tail t.dirty_stack })
run_arm interp t push_false = some (record t { dirty_stack = false ∷ t.dirty_stack })
run_arm interp t (pop_push pops) = with_stack t (pop_or pops false t.dirty_stack)
run_arm interp t (constant pops) = with_stack t (pushed false (pop_n pops t.dirty_stack))
run_arm interp t (drops pops) = with_stack t (pop_n pops t.dirty_stack)
run_arm interp t (dup n) = push_copy t (get_elem? t.dirty_stack (n - 1))
run_arm interp t (swap n) = swap_top t n t.dirty_stack (get_elem? t.dirty_stack (n - 1))
run_arm interp t (call pops) =
    then_push_ctx interp (with_stack t (pushed false (pop_n pops t.dirty_stack)))

abbrev pub run_opt : Interpreter → Sha3TaintAnalysis → Option Arm → Option Sha3TaintAnalysis
unfolding run_arm
run_opt interp t none = none
run_opt interp t (some arm) = run_arm interp t arm

unfoldable pub on_step :
    (call_depth : ℕ) → Interpreter → Sha3TaintAnalysis → Option Sha3TaintAnalysis
unfolding arm_of
on_step call_depth interp t =
    if ltb max_call_depth call_depth
    then some t
    else (if length interp.stack == length t.dirty_stack
        then run_opt interp t (arm_of interp.opcode)
        else none)

-- `Sha3Bypass::on_step` replaces the condition of a tainted `JUMPI`, the second slot from the top. A
-- stack with one slot, or an empty `randomness`, is a panic.
abbrev pub replaced : List ℕ → ℕ → List ℕ → Option (List ℕ)
replaced (a ∷ b ∷ stack) pc (r ∷ randomness) = some (a ∷ wrapping_add pc r % 2 ∷ stack)
replaced (a ∷ b ∷ stack) pc [] = none
replaced (a ∷ []) pc randomness = none
replaced [] pc randomness = none

unfoldable pub bypass : Sha3TaintAnalysis → List ℕ → Interpreter → Option (List ℕ)
bypass t randomness interp =
    if (interp.opcode == 0x57)
      && contains_pair interp.address interp.program_counter t.tainted_jumpi
    then replaced interp.stack interp.program_counter randomness
    else some interp.stack
