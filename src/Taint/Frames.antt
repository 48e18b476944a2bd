-- ===== src/Taint/Frames.antt =====
-- evm/middlewares/sha3_bypass.rs: the frames of the shadow stack, and the memory accesses that the
-- code does not panic on.
use ityfuzz_rl_src.Prelude.{
  ℕ, ◌+◌, ◌≤◌, ◌<◌, ◌≡◌, ◌⊎◌, Bool, List, [], ◌∷◌, Option, none, some, length, get_or, u64_mod,
}
use ityfuzz_rl_src.Taint.State.{
  Interpreter, Sha3TaintAnalysisCtx, Sha3TaintAnalysis, as_u64, call_slots,
}
use ityfuzz_rl_src.Taint.Opcodes.{
  Arm, nothing, sha3, calldataload, copy, mload, mstore, mstore8, sload, sstore, jumpi, pop_one,
  push_false, pop_push, constant, drops, dup, swap, call,
}

-- The stack of the frame that ran the instruction: a call has put it into a context.
abbrev pub top_stack : List Sha3TaintAnalysisCtx → List Bool
top_stack [] = []
top_stack (ctx ∷ ctxs) = ctx.dirty_stack

abbrev pub caller_stack : Arm → Sha3TaintAnalysis → List Bool
caller_stack (call pops) t = top_stack t.ctxs
caller_stack nothing t = t.dirty_stack
caller_stack sha3 t = t.dirty_stack
caller_stack calldataload t = t.dirty_stack
caller_stack copy t = t.dirty_stack
caller_stack mload t = t.dirty_stack
caller_stack mstore t = t.dirty_stack
caller_stack mstore8 t = t.dirty_stack
caller_stack sload t = t.dirty_stack
caller_stack sstore t = t.dirty_stack
caller_stack jumpi t = t.dirty_stack
caller_stack pop_one t = t.dirty_stack
caller_stack push_false t = t.dirty_stack
caller_stack (pop_push pops) t = t.dirty_stack
caller_stack (constant pops) t = t.dirty_stack
caller_stack (drops pops) t = t.dirty_stack
caller_stack (dup n) t = t.dirty_stack
caller_stack (swap n) t = t.dirty_stack

-- A slot of the interpreter's stack as a memory offset or a length.
abbrev pub slot : Interpreter → ℕ → ℕ
slot interp n = as_u64 (get_or interp.stack n 0)

abbrev pub InInput : List Sha3TaintAnalysisCtx → ℕ → Type 0
InInput [] offset = Unit
InInput (ctx ∷ ctxs) offset =
    (offset ≡ 0) ⊎ ((offset + 32 < u64_mod) × (offset + 32 ≤ length ctx.input_data))

abbrev pub InMemory : Interpreter → Sha3TaintAnalysis → Option (ℕ × ℕ) → Type 0
InMemory interp t none = ⊥
InMemory interp t (some (a, b)) =
    (a < length interp.stack)
    × (b < length interp.stack)
    × (slot interp a + slot interp b < u64_mod)
    × (slot interp a + slot interp b ≤ length t.dirty_memory)

-- Memory that is written ends below 2 ^ 64, and what is only read lies in the shadow of the memory or
-- of the input.
abbrev pub InBounds : Interpreter → Sha3TaintAnalysis → Arm → Type 0
InBounds interp t copy = slot interp 0 + slot interp 2 < u64_mod
InBounds interp t mload = slot interp 0 + 32 < u64_mod
InBounds interp t mstore = slot interp 0 + 32 < u64_mod
InBounds interp t mstore8 = slot interp 0 + 1 < u64_mod
InBounds interp t calldataload = InInput t.ctxs (slot interp 0)
InBounds interp t (call pops) = InMemory interp t (call_slots interp.opcode)
InBounds interp t nothing = Unit
InBounds interp t sha3 = Unit
InBounds interp t sload = Unit
InBounds interp t sstore = Unit
InBounds interp t jumpi = Unit
InBounds interp t pop_one = Unit
InBounds interp t push_false = Unit
InBounds interp t (pop_push pops) = Unit
InBounds interp t (constant pops) = Unit
InBounds interp t (drops pops) = Unit
InBounds interp t (dup n) = 0 < n
InBounds interp t (swap n) = 0 < n

abbrev pub AllInBounds : Interpreter → Sha3TaintAnalysis → Option Arm → Type 0
AllInBounds interp t none = Unit
AllInBounds interp t (some arm) = InBounds interp t arm

-- The state inside a call.
abbrev pub entered_with : Sha3TaintAnalysis → List Bool → Sha3TaintAnalysis
entered_with t input = record t {
  dirty_memory = [];
  dirty_storage = [];
  dirty_stack = [];
  ctxs =
      record {
        dirty_memory = t.dirty_memory;
        dirty_storage = t.dirty_storage;
        dirty_stack = t.dirty_stack;
        input_data = input;
      }
      ∷ t.ctxs;
}

abbrev pub caller_of : Option Arm → Sha3TaintAnalysis → List Bool
caller_of none t = t.dirty_stack
caller_of (some arm) t = caller_stack arm t
