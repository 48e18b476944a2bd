-- ===== src/CrossChain/Executor.antt =====
-- evm/cross_chain/executor.rs: `DualChainExecutor`. A method takes the executor and returns the new
-- one; `none` is a panic. The trace file is the list of the records written to it, and every write
-- is taken to succeed. `any_nonce` is the first element in the iteration order of a `HashSet`,
-- which the standard library leaves open.
use ityfuzz_rl_src.Prelude.{
  ℕ, ◌+◌, Bool, true, not, List, [], ◌∷◌, ◌++◌, Option, none, some, String, if◌then◌else◌, ltb,
  ◌==◌, HashSet, HashMap, keys, lookup_or, insert_set, wrapping_add, u256_max,
}
use ityfuzz_rl_src.CrossChain.Message.{CrossChainMessage, zero_root}
use ityfuzz_rl_src.CrossChain.Queue
use ityfuzz_rl_src.CrossChain.Queue.{has_id}
use ityfuzz_rl_src.CrossChain.State.{DualChainState}
use ityfuzz_rl_src.CrossChain.Interceptor.{MockVerificationConfig}
use ityfuzz_rl_src.CrossChain.ExploitStep.{
  CrossChainMutationMeta, default_meta, ExploitPath, new_path,
}

pub data TraceOutcome : Type 0 where
  enqueued : ℕ → TraceOutcome
  no_pending rejection revert success : TraceOutcome

pub record TraceRecord : Type 0 where
  pub run_id : ℕ
  pub iteration : ℕ
  pub input_type : String
  pub message_id_selected : Option ℕ
  pub ordering_mode : String
  pub verification_result : TraceOutcome
  pub bugs_triggered : List String

pub record DualChainExecutor : Type 0 where
  pub state : DualChainState
  pub rng_state : ℕ
  pub fixed_seed : Option ℕ
  pub trace_log_path : Option String
  pub verify_config : MockVerificationConfig
  pub iteration : ℕ
  pub run_id : ℕ
  pub exploit_path : ExploitPath
  pub trace_file : List TraceRecord

abbrev seed_or : Option ℕ → ℕ → ℕ
seed_or none d = d
seed_or (some seed) d = seed

unfoldable pub new : DualChainState → Option ℕ → MockVerificationConfig → DualChainExecutor
unfolding new_path
new state seed verify_config = record {
  state = state;
  rng_state = seed_or seed 0xdeadbeef_cafebabe;
  fixed_seed = seed;
  trace_log_path = none;
  verify_config = verify_config;
  iteration = 0;
  run_id = 0;
  exploit_path = new_path;
  trace_file = [];
}

unfoldable pub set_trace_log : String → DualChainExecutor → DualChainExecutor
set_trace_log path e = record e { trace_log_path = some path }

-- I4: minted > locked, over every token of either map.
abbrev pub desync_in : HashMap ℕ → HashMap ℕ → List ℕ → Bool → Bool
desync_in locked minted [] flag = flag
desync_in locked minted (token ∷ tokens) flag =
    desync_in locked minted tokens
      (if ltb (lookup_or token 0 locked) (lookup_or token 0 minted) then true else flag)

abbrev pub collect_set : List ℕ → HashSet → HashSet
collect_set [] s = s
collect_set (k ∷ ks) s = collect_set ks (insert_set k s)

-- I5: pending + processed + dropped ≠ total.
abbrev pub counts_differ : DualChainState → Bool
counts_differ s = not (
    Queue.pending_count s.queue + Queue.processed_count s.queue + Queue.dropped_count s.queue
    == Queue.total_count s.queue)

unfoldable pub check_invariants : DualChainState → DualChainState
check_invariants s = record s {
  state_desync_detected =
      desync_in s.locked_a s.minted_b (collect_set (keys s.locked_a ++ keys s.minted_b) [])
        s.state_desync_detected;
  queue_consistency_violated = if counts_differ s then true else s.queue_consistency_violated;
}

abbrev label : Bool → String → List String
label flag name = if flag then name ∷ [] else []

unfoldable pub collect_bug_flags : DualChainState → List String
collect_bug_flags s =
    label s.fake_message_accepted "FAKE_MSG"
    ++ (label s.replay_detected "REPLAY"
        ++ (label s.state_desync_detected "DESYNC"
            ++ (label s.queue_consistency_violated "QUEUE"
                ++ (label s.atomicity_violated "ATOMICITY" ++ label s.drain_detected "DRAIN"))))

abbrev write_record : Option String → TraceRecord → List TraceRecord → List TraceRecord
write_record none r file = file
write_record (some path) r file = file ++ r ∷ []

unfoldable pub write_trace :
    (input_type : String) (selected : Option ℕ) (ordering_mode : String) (outcome : TraceOutcome)
    → DualChainExecutor
    → DualChainExecutor
unfolding collect_bug_flags
write_trace input_type selected ordering_mode outcome e = record e {
  trace_file =
      write_record e.trace_log_path
        (record {
          run_id = e.run_id;
          iteration = e.iteration;
          input_type = input_type;
          message_id_selected = selected;
          ordering_mode = ordering_mode;
          verification_result = outcome;
          bugs_triggered = collect_bug_flags e.state;
        })
        e.trace_file;
}

abbrev pub on_state : (DualChainState → DualChainState) → DualChainExecutor → DualChainExecutor
on_state f e = record e { state = f e.state }

abbrev pub flag_replay : Bool → DualChainState → DualChainState
flag_replay flag s = record s { replay_detected = if flag then true else s.replay_detected }

abbrev pub meta_or_default : Option CrossChainMutationMeta → CrossChainMutationMeta
unfolding default_meta
meta_or_default none = default_meta
meta_or_default (some m) = m

abbrev pub zero_the_root : Bool → CrossChainMessage → CrossChainMessage
zero_the_root flag msg = record msg { merkle_root = if flag then zero_root else msg.merkle_root }

abbrev pub inflate_the_value : Bool → CrossChainMessage → CrossChainMessage
inflate_the_value flag msg = record msg { value = if flag then u256_max else msg.value }

abbrev pub next_iteration : DualChainExecutor → DualChainExecutor
next_iteration e = record e { iteration = wrapping_add e.iteration 1 }
