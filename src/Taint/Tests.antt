-- ===== src/Taint/Tests.antt =====
-- The theorems on the taint analysis at concrete states.
use ityfuzz_rl_src.Prelude.{ℕ, ◌≡◌, refl, true, false, List, [], ◌∷◌, some, none, arith}
use ityfuzz_rl_src.Taint.State.{Interpreter, Sha3TaintAnalysis, push_ctx, pop_ctx}
use ityfuzz_rl_src.Taint.Step.{on_step}
use ityfuzz_rl_src.Taint.Follow.{extcodecopy_panics, pop_ctx-push_ctx}

abbrev at_opcode : ℕ → List ℕ → Interpreter
at_opcode opcode stack = record {
  opcode = opcode;
  stack = stack;
  address = 7;
  program_counter = 12;
}

-- The hash on top of three slots, and 64 bytes of memory.
abbrev hashed : Sha3TaintAnalysis
hashed = record {
  dirty_memory = true ∷ false ∷ [];
  dirty_storage = [];
  dirty_stack = false ∷ true ∷ false ∷ [];
  tainted_jumpi = [];
  ctxs = [];
}

abbrev mstore_here : Interpreter
mstore_here = at_opcode 0x52 (64 ∷ 9 ∷ 1 ∷ [])

abbrev four : Sha3TaintAnalysis
four = record hashed { dirty_stack = false ∷ false ∷ true ∷ false ∷ [] }

extcodecopy_panics_example :
    (t' : Sha3TaintAnalysis) × (on_step 1 (at_opcode 0x3c (7 ∷ 0 ∷ 0 ∷ 32 ∷ [])) four ≡ some t')
    × (on_step 1 (at_opcode 0x5b []) t' ≡ none)
extcodecopy_panics_example =
    extcodecopy_panics 1 (at_opcode 0x3c (7 ∷ 0 ∷ 0 ∷ 32 ∷ [])) (at_opcode 0x5b []) four
      (omega arith) refl refl refl (omega arith)

abbrev calling : Interpreter
calling = at_opcode 0xf1 (9 ∷ 8 ∷ 0 ∷ 1 ∷ 1 ∷ 0 ∷ 0 ∷ [])

pop_ctx-push_ctx_example :
    (t' : Sha3TaintAnalysis) × (push_ctx calling hashed ≡ some t')
    × (t'.dirty_stack ≡ [])
    × (pop_ctx (record four { ctxs = t'.ctxs })
        ≡ some (record hashed { tainted_jumpi = four.tainted_jumpi }))
pop_ctx-push_ctx_example = pop_ctx-push_ctx calling hashed four (omega arith)
