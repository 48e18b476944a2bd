-- ===== src/Taint/State.antt =====
-- evm/middlewares/sha3_bypass.rs: `Sha3TaintAnalysis`, its contexts, and the reads and writes of its
-- vectors. `none` is a panic. A stack is a list from its top.
use ityfuzz_rl_src.Prelude.{
  ℕ, ◌-◌, ◌%◌, Bool, ◌||◌, List, [], ◌∷◌, Option, none, some, HashMap, if◌then◌else◌, leb, ◌==◌,
  length, take, drop, get_elem?, wrapping_add, u64_mod,
}

-- What the source reads of revm's `Interpreter`.
pub record Interpreter : Type 0 where
  pub opcode : ℕ
  pub stack : List ℕ
  pub address : ℕ
  pub program_counter : ℕ

pub record Sha3TaintAnalysisCtx : Type 0 where
  pub dirty_memory : List Bool
  pub dirty_storage : HashMap Bool
  pub dirty_stack : List Bool
  pub input_data : List Bool

pub record Sha3TaintAnalysis : Type 0 where
  pub dirty_memory : List Bool
  pub dirty_storage : HashMap Bool
  pub dirty_stack : List Bool
  pub tainted_jumpi : List (ℕ × ℕ)
  pub ctxs : List Sha3TaintAnalysisCtx

unfoldable pub new : Sha3TaintAnalysis
new = record {
  dirty_memory = [];
  dirty_storage = [];
  dirty_stack = [];
  tainted_jumpi = [];
  ctxs = [];
}

unfoldable pub cleanup : Sha3TaintAnalysis → Sha3TaintAnalysis
cleanup t = record t { dirty_memory = []; dirty_storage = []; dirty_stack = [] }

-- `as_u64`, the low limb of a 256-bit word.
abbrev pub as_u64 : ℕ → ℕ
as_u64 v = v % u64_mod

-- The slice `v[start..length + start]`.
abbrev pub slice : ℕ → ℕ → List Bool → Option (List Bool)
slice start len v =
    let end = wrapping_add len start in
    if leb end (length v)
    then (if leb start end then some (take (end - start) (drop start v)) else none)
    else none

-- A vector of `length` elements is filled from a slice of that length; the lengths differ only where
-- the sum wraps around, and then it panics.
abbrev pub exactly : ℕ → Option (List Bool) → Option (List Bool)
exactly len none = none
exactly len (some v) = if length v == len then some v else none

unfoldable pub read_input : Sha3TaintAnalysisCtx → ℕ → ℕ → Option (List Bool)
read_input ctx start len = exactly len (slice start len ctx.input_data)

unfoldable pub write_input : Sha3TaintAnalysis → ℕ → ℕ → Option (List Bool)
write_input t start len = exactly len (slice start len t.dirty_memory)

-- The slots with the offset and the length of a call's arguments.
abbrev pub call_slots : ℕ → Option (ℕ × ℕ)
call_slots op =
    if (op == 0xf1) || (op == 0xf2)
    then some (3, 4)
    else (if (op == 0xf4) || (op == 0xfa) then some (2, 3) else none)

abbrev pub entered : Sha3TaintAnalysis → Option (List Bool) → Option Sha3TaintAnalysis
unfolding cleanup
entered t none = none
entered t (some input) = some (
    cleanup (record t {
      ctxs =
          record {
            dirty_memory = t.dirty_memory;
            dirty_storage = t.dirty_storage;
            dirty_stack = t.dirty_stack;
            input_data = input;
          }
          ∷ t.ctxs;
    }))

abbrev pub enter : Sha3TaintAnalysis → Option ℕ → Option ℕ → Option Sha3TaintAnalysis
unfolding write_input
enter t none len = none
enter t (some offset) none = none
enter t (some offset) (some len) = entered t (write_input t (as_u64 offset) (as_u64 len))

abbrev pub push_at : Interpreter → Sha3TaintAnalysis → Option (ℕ × ℕ) → Option Sha3TaintAnalysis
push_at interp t none = none
push_at interp t (some (offset, len)) =
    enter t (get_elem? interp.stack offset) (get_elem? interp.stack len)

unfoldable pub push_ctx : Interpreter → Sha3TaintAnalysis → Option Sha3TaintAnalysis
push_ctx interp t = push_at interp t (call_slots interp.opcode)

abbrev pub left_ctx : Sha3TaintAnalysis → List Sha3TaintAnalysisCtx → Option Sha3TaintAnalysis
left_ctx t [] = none
left_ctx t (ctx ∷ ctxs) = some (record t {
  dirty_memory = ctx.dirty_memory;
  dirty_storage = ctx.dirty_storage;
  dirty_stack = ctx.dirty_stack;
  ctxs = ctxs;
})

unfoldable pub pop_ctx : Sha3TaintAnalysis → Option Sha3TaintAnalysis
pop_ctx t = left_ctx t t.ctxs
