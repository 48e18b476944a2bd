-- ===== src/Taint/Follow.antt =====
-- evm/middlewares/sha3_bypass.rs: the shadow stack follows the interpreter's, and where it does not.
use ityfuzz_rl_src.Prelude.{
  ℕ, ◌+◌, ◌≤◌, ◌≡◌, refl, true, false, [], none, some, arith, ltb, ◌==◌, length,
}
use ityfuzz_rl_src.Taint.State.{Interpreter, Sha3TaintAnalysis, call_slots, push_ctx, pop_ctx}
use ityfuzz_rl_src.Taint.Opcodes.{Arm, copy, arm_of}
use ityfuzz_rl_src.Taint.Step.{max_call_depth, run_arm, on_step}
use ityfuzz_rl_src.Taint.Frames.{InBounds, InMemory, entered_with}
use ityfuzz_rl_src.Taint.Sizes.{run_arm_lem, push_at_lem}

-- Up to the largest depth, a step is the arm of its opcode.
on_step_arm :
    (call_depth : ℕ) (interp : Interpreter) (t : Sha3TaintAnalysis) (arm : Arm)
    → call_depth ≤ max_call_depth
    → length t.dirty_stack ≡ length interp.stack
    → arm_of interp.opcode ≡ some arm
    → on_step call_depth interp t ≡ run_arm interp t arm
unfolding on_step run_arm
on_step_arm call_depth interp t arm shallow same found =
    let not_deep : ltb max_call_depth call_depth ≡ false = ground arith in
    let equal : (length interp.stack == length t.dirty_stack) ≡ true = ground arith in
    rw (not_deep, equal, found) refl

-- After an EXTCODECOPY at a depth of at most 3, whose four operands are there and whose memory (as the
-- code reads it) ends below 2 ^ 64, the next step panics: the interpreter has taken four slots off its
-- stack, and the shadow stack has lost three.
pub extcodecopy_panics :
    (call_depth : ℕ) (interp next : Interpreter) (t : Sha3TaintAnalysis)
    → call_depth ≤ max_call_depth
    → length t.dirty_stack ≡ length interp.stack
    → interp.opcode ≡ 0x3c
    → length next.stack + 4 ≡ length interp.stack
    → InBounds interp t copy
    → (t' : Sha3TaintAnalysis) × (on_step call_depth interp t ≡ some t')
      × (on_step call_depth next t' ≡ none)
unfolding on_step arm_of
extcodecopy_panics call_depth interp next t shallow same op after inside =
    let found : arm_of interp.opcode ≡ some copy = rw op refl in
    let (t', ran, size) = run_arm_lem interp t copy same (omega arith) inside in
    let not_deep : ltb max_call_depth call_depth ≡ false = ground arith in
    let differ : (length next.stack == length t'.dirty_stack) ≡ false = ground arith in
    (
      t',
      rw (on_step_arm call_depth interp t copy shallow same found) ran,
      rw (not_deep, differ) refl,
    )

-- A call whose argument memory lies in the shadow memory opens a context; whatever the callee does,
-- as long as it closes the contexts that it opens, the return gives the caller its own memory,
-- storage and stack back, and keeps the tainted jumps that were found.
pub pop_ctx-push_ctx :
    (interp : Interpreter) (t callee : Sha3TaintAnalysis)
    → InMemory interp t (call_slots interp.opcode)
    → (t' : Sha3TaintAnalysis) × (push_ctx interp t ≡ some t')
      × (t'.dirty_stack ≡ [])
      × (pop_ctx (record callee { ctxs = t'.ctxs })
          ≡ some (record t { tainted_jumpi = callee.tainted_jumpi }))
unfolding push_ctx pop_ctx
pop_ctx-push_ctx interp t callee inside =
    let (input, e) = push_at_lem interp t (call_slots interp.opcode) inside in
    (entered_with t input, e, refl, refl)
