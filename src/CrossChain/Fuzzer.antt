-- ===== src/CrossChain/Fuzzer.antt =====
-- fuzzers/cross_chain_fuzzer.rs: `CrossChainFuzzer::run`. Logging, printing, the trace log and the
-- replay files are left out. `expired n` is the answer of the clock's deadline test before round `n`,
-- `elapsed n` the time when a bug of round `n` is recorded. `none` is a panic of some call.
pub mod Rounds
pub mod Total
use ityfuzz_rl_src.Prelude.{
  ℕ, zero, suc, ◌+◌, ◌-◌, ◌%◌, ◌^◌, Bool, true, false, not, ◌&&◌, ◌||◌, List, [], ◌∷◌, ◌++◌, Option,
  none, some, if◌then◌else◌, ltb, ◌==◌, replicate, get_elem?, HashSet, contains, wrapping_add,
  u256_max, Floats,
}
use ityfuzz_rl_src.CrossChain.Message.{CrossChainMessage, new_message, zero_root}
use ityfuzz_rl_src.CrossChain.Queue
use ityfuzz_rl_src.CrossChain.State
use ityfuzz_rl_src.CrossChain.Interceptor.{MockVerificationConfig, default_config}
use ityfuzz_rl_src.CrossChain.Oracle.{inspect}
use ityfuzz_rl_src.CrossChain.ExploitStep.{CrossChainMutationMeta, ExploitPath}
use ityfuzz_rl_src.CrossChain.Executor
use ityfuzz_rl_src.CrossChain.Executor.{DualChainExecutor}
use ityfuzz_rl_src.CrossChain.Runs.{Input, deposit_input, relay_input, apply}
use ityfuzz_rl_src.CrossChain.ExploitPath.{reproduce}
use ityfuzz_rl_src.CrossChain.Mutator
use ityfuzz_rl_src.CrossChain.Mutator.{CrossChainMutator, CorpusEnergyEntry}

pub record CrossChainFuzzerConfig : Type 0 where
  pub seed : Option ℕ
  pub time_budget_secs : Option ℕ
  pub max_iterations : Option ℕ
  pub deterministic : Bool
  pub verify_config : MockVerificationConfig
  pub token : ℕ

unfoldable pub fuzzer_default_config : CrossChainFuzzerConfig
unfolding default_config
fuzzer_default_config = record {
  seed = none;
  time_budget_secs = some 1800;
  max_iterations = none;
  deterministic = false;
  verify_config = default_config;
  token = 0;
}

abbrev pub option_or : Option ℕ → ℕ → ℕ
option_or none d = d
option_or (some n) d = n

unfoldable pub synthesize_deposit_message : ℕ → CrossChainMutationMeta → CrossChainMessage
synthesize_deposit_message nonce meta =
    new_message nonce 0 0 (replicate 32 0xab) (if meta.force_inflate_value then u256_max else 1000)
      (if meta.force_zero_merkle_root then zero_root else replicate 32 1) false

unfoldable pub fuzz_sig_count : ℕ → ℕ
fuzz_sig_count iteration = if iteration % 7 == 0 then 1 else 5

abbrev pub has_deadline : Option ℕ → Bool
has_deadline none = false
has_deadline (some secs) = true

module _ (fl : Floats) where
  open fl use {F, literal, add}

  -- The fuzzer with the local variables of `run`.
  pub record FuzzState : Type 0 where
    pub executor : DualChainExecutor
    pub mutator : CrossChainMutator fl
    pub iteration : ℕ
    pub all_bugs : List ℕ
    pub first_bug_time : Option F
    pub total_reward : F
    pub exploit_paths : List ExploitPath

  abbrev third_seed : List ℕ
  third_seed = 0x12 ∷ 0x34 ∷ 0x56 ∷ 0x78 ∷ replicate 60 0

  -- `CrossChainFuzzer::new`, with the local variables as `run` initialises them.
  unfoldable pub new_fuzzer : CrossChainFuzzerConfig → FuzzState
  unfolding Executor.new State.new Mutator.new Mutator.add_seed
  new_fuzzer config = record {
    executor = Executor.new State.new config.seed config.verify_config;
    mutator = Mutator.add_seed fl third_seed (
        Mutator.add_seed fl (replicate 64 0xff) (
          Mutator.add_seed fl (replicate 64 0)
            (Mutator.new fl (option_or config.seed 0xdeadbeef))));
    iteration = 0;
    all_bugs = [];
    first_bug_time = none;
    total_reward = literal 0 0;
    exploit_paths = [];
  }

  abbrev pub corpus_data : ℕ → CrossChainMutator fl → List ℕ
  corpus_data i m = elim (get_elem? m.corpus i) [
    | none ↦ replicate 64 0
    | some (bytes, entry) ↦ bytes
  ]

  abbrev pub set_data :
      ℕ → List ℕ → List (List ℕ × CorpusEnergyEntry fl) → List (List ℕ × CorpusEnergyEntry fl)
  set_data i bytes [] = []
  set_data zero bytes ((old, entry) ∷ corpus) = (bytes, entry) ∷ corpus
  set_data (suc i) bytes (first ∷ corpus) = first ∷ set_data i bytes corpus

  -- `mutator.mutate_deposit(&mut data)` on a copy that is then put back, and
  -- `mutator.mutate_relay(&mut data)` on a copy that is dropped.
  unfoldable pub draw_deposit_meta :
      ℕ → CrossChainMutator fl → Option (CrossChainMutationMeta × CrossChainMutator fl)
  unfolding Mutator.mutate_deposit
  draw_deposit_meta i m = elim (Mutator.mutate_deposit m.rng (corpus_data i m)) [
    | none ↦ none
    | some (meta, bytes, rng) ↦
        some (meta, record m { corpus = set_data i bytes m.corpus; rng = rng })
  ]

  unfoldable pub draw_relay_meta :
      ℕ → CrossChainMutator fl → Option (CrossChainMutationMeta × CrossChainMutator fl)
  unfolding Mutator.mutate_relay
  draw_relay_meta i m = elim (Mutator.mutate_relay m.rng (corpus_data i m)) [
    | none ↦ none
    | some (meta, bytes, rng) ↦ some (meta, record m { rng = rng })
  ]

  -- The energy update. It stands twice in the source, so a new signal is rewarded twice.
  unfoldable pub update_energy : Bool → ℕ → CrossChainMutator fl → CrossChainMutator fl
  unfolding Mutator.notify_new_signal Mutator.notify_no_signal
  update_energy new_signal i m =
      let m' = if new_signal then Mutator.notify_new_signal fl i m else m in
      if new_signal then Mutator.notify_new_signal fl i m' else Mutator.notify_no_signal fl i m'

  abbrev pub time_or : Option F → F → Option F
  time_or none t = some t
  time_or (some t') t = some t'

  module _ (any_nonce : HashSet → Option ℕ) (elapsed : ℕ → F)
      (config : CrossChainFuzzerConfig) where
    abbrev pub with_path : ℕ → FuzzState → Option (ExploitPath × List ℕ) → Option FuzzState
    with_path bug st none = none
    with_path bug st (some (candidate, confirmed)) = some (record st {
      all_bugs = st.all_bugs ++ bug ∷ [];
      first_bug_time = time_or st.first_bug_time (elapsed st.iteration);
      exploit_paths = st.exploit_paths ++ candidate ∷ [];
    })

    unfoldable pub record_bug : ℕ → FuzzState → Option FuzzState
    unfolding reproduce
    record_bug bug st =
        if contains bug st.all_bugs
        then some st
        else with_path bug st
            (reproduce any_nonce config.verify_config (bug ∷ []) st.executor.exploit_path)

    abbrev pub and_then : Option FuzzState → (FuzzState → Option FuzzState) → Option FuzzState
    and_then none f = none
    and_then (some st) f = f st

    unfoldable pub record_bugs : List ℕ → FuzzState → Option FuzzState
    unfolding record_bug
    record_bugs [] st = some st
    record_bugs (bug ∷ bugs) st = and_then (record_bug bug st) (record_bugs bugs)

    abbrev is_nonempty : List ℕ → Bool
    is_nonempty [] = false
    is_nonempty (x ∷ xs) = true

    -- The end of a round, after the relay: oracle, reward, energy and bugs.
    unfoldable pub finish_round : (corpus_idx prev_processed : ℕ) → FuzzState → Option FuzzState
    unfolding record_bugs update_energy inspect Queue.processed_count
    finish_round corpus_idx prev_processed st =
        let bugs = inspect st.executor.state in
        let new_signal =
          is_nonempty bugs || ltb prev_processed (Queue.processed_count st.executor.state.queue) in
        record_bugs bugs (record st {
          total_reward = add st.total_reward (literal 100 1);
          mutator = update_energy new_signal corpus_idx st.mutator;
        })

    abbrev pub after_relay :
        (corpus_idx prev_processed : ℕ) → FuzzState → Option DualChainExecutor → Option FuzzState
    unfolding finish_round
    after_relay corpus_idx prev_processed st none = none
    after_relay corpus_idx prev_processed st (some e) =
        finish_round corpus_idx prev_processed (record st { executor = e })

    unfoldable pub relay_phase :
        (corpus_idx prev_processed : ℕ)
        → FuzzState
        → Option (CrossChainMutationMeta × CrossChainMutator fl)
        → Option FuzzState
    unfolding finish_round apply
    relay_phase corpus_idx prev_processed st none = none
    relay_phase corpus_idx prev_processed st (some (meta, m)) =
        after_relay corpus_idx prev_processed (record st { mutator = m })
          (apply any_nonce
            (relay_input config.token (fuzz_sig_count (wrapping_add st.iteration 1)) (some meta))
            st.executor)

    -- The call of `execute_deposit` with the one synthesized message.
    abbrev pub deposit_call : ℕ → CrossChainMutationMeta → Input
    deposit_call iteration meta =
        deposit_input config.token (synthesize_deposit_message iteration meta ∷ [])
          (fuzz_sig_count iteration) (some meta)

    abbrev pub after_deposit :
        (corpus_idx prev_processed : ℕ)
        → FuzzState
        → CrossChainMutator fl
        → Option DualChainExecutor
        → Option FuzzState
    unfolding relay_phase draw_relay_meta
    after_deposit corpus_idx prev_processed st m none = none
    after_deposit corpus_idx prev_processed st m (some e) =
        relay_phase corpus_idx prev_processed (record st { executor = e; mutator = m })
          (draw_relay_meta corpus_idx m)

    unfoldable pub deposit_phase :
        (corpus_idx prev_processed : ℕ)
        → FuzzState
        → Option (CrossChainMutationMeta × CrossChainMutator fl)
        → Option FuzzState
    unfolding relay_phase draw_relay_meta apply
    deposit_phase corpus_idx prev_processed st none = none
    deposit_phase corpus_idx prev_processed st (some (meta, m)) =
        after_deposit corpus_idx prev_processed st m
          (apply any_nonce (deposit_call st.iteration meta) st.executor)

    -- The body of the `while` loop after the deadline test.
    unfoldable pub round : FuzzState → Option FuzzState
    unfolding deposit_phase draw_deposit_meta Mutator.select_next Queue.processed_count
    round st =
        let (selected, m) = Mutator.select_next fl st.mutator in
        let corpus_idx = option_or selected 0 in
        deposit_phase corpus_idx (Queue.processed_count st.executor.state.queue)
          (record st { iteration = wrapping_add st.iteration 1; mutator = m })
          (draw_deposit_meta corpus_idx m)

    -- The loop with `rounds` left before `max_iter`.
    unfoldable pub fuzz_loop : (expired : ℕ → Bool) → ℕ → FuzzState → Option FuzzState
    fuzz_loop expired zero st = some st
    fuzz_loop expired (suc rounds) st =
        let rest = and_then (round st) (fuzz_loop expired rounds) in
        if not config.deterministic && expired st.iteration then some st else rest

    -- `run` on a fresh fuzzer. Without a time budget there is no deadline.
    unfoldable pub fuzz : (expired : ℕ → Bool) → Option FuzzState
    unfolding fuzz_loop new_fuzzer
    fuzz expired =
        fuzz_loop (λ n. has_deadline config.time_budget_secs && expired n)
          (option_or config.max_iterations (2 ^ 64 - 1)) (new_fuzzer config)
