-- ===== src/CrossChain/Tests.antt =====
-- The theorems on dual-chain fuzzing at concrete inputs.
use mathlib.Core.Logic.{◌↔◌}
use ityfuzz_rl_src.Prelude.{
  ℕ, ◌≤◌, ◌≡◌, ◌⊎◌, refl, inl, Bool, true, false, List, [], ◌∷◌, Option, none, some, arith,
  contains, lookup_or, length, All, replicate, get_elem?,
}
use ityfuzz_rl_src.Samples.{hundredths, first_nonce, start, real, loaded, loaded-IsWellFormed}
use ityfuzz_rl_src.CrossChain.Queue
use ityfuzz_rl_src.CrossChain.Queue.Invariant.{IsWellFormed, new-IsWellFormed}
use ityfuzz_rl_src.CrossChain.State
use ityfuzz_rl_src.CrossChain.Interceptor.{default_config}
use ityfuzz_rl_src.CrossChain.Oracle.{inspect}
use ityfuzz_rl_src.CrossChain.ExploitStep
use ityfuzz_rl_src.CrossChain.ExploitStep.{CrossChainMutationMeta, ExploitPath}
use ityfuzz_rl_src.CrossChain.Executor
use ityfuzz_rl_src.CrossChain.Executor.{DualChainExecutor}
use ityfuzz_rl_src.CrossChain.Runs.{Input, deposit_input, relay_input, captured_count, run}
use ityfuzz_rl_src.CrossChain.Runs.Tidy.{Tidy, run_total}
use ityfuzz_rl_src.CrossChain.Runs.Quiet.{run_quiet}
use ityfuzz_rl_src.CrossChain.Runs.Genuine.{run_genuine}
use ityfuzz_rl_src.CrossChain.Runs.Backed.{Sound, run_backed}
use ityfuzz_rl_src.CrossChain.Deposit.{execute_deposit}
use ityfuzz_rl_src.CrossChain.Rng.{xorshift64, fifo, pick_ordering, select_pending_id}
use ityfuzz_rl_src.CrossChain.Relay.ZeroSeed.{pending_ids, zero_seed}
use ityfuzz_rl_src.CrossChain.Oracle.Clean.{ExceedsIn, IsClean, inspect_exact}
use ityfuzz_rl_src.CrossChain.ExploitStep.{default_meta}
use ityfuzz_rl_src.CrossChain.ExploitPath.{reproduce}
use ityfuzz_rl_src.CrossChain.Mutator
use ityfuzz_rl_src.CrossChain.Mutator.Total.{EndsWith, mutate_deposit_total, mutate_relay_total}
use ityfuzz_rl_src.CrossChain.Fuzzer.{
  CrossChainFuzzerConfig, FuzzState, fuzz, fuzzer_default_config,
}
use ityfuzz_rl_src.CrossChain.Fuzzer.Rounds.{IsFindable, Distinct}
use ityfuzz_rl_src.CrossChain.Fuzzer.Total.{fuzz_total}
use ityfuzz_rl_src.CrossChain.Relay.{execute_relay, relay_message}
use ityfuzz_rl_src.CrossChain.Relay.Progress.{Closed, relay_progress}

-- Two deposits of 100 and 50 for token 7, and two relays, of which one forces a replay.
abbrev trip : List Input
trip =
    deposit_input 7 (real 1 100 ∷ real 2 50 ∷ []) 5 none
    ∷ relay_input 7 5 none
    ∷ relay_input 7 5 (
        some (record {
          force_zero_merkle_root = false;
          force_replay_nonce = true;
          force_inflate_value = false;
        }))
    ∷ []

trip_mints : Option ℕ
unfolding run default_config Executor.new State.new
trip_mints = elim (run first_nonce trip start) [
  | none ↦ none
  | some e ↦ some (lookup_or 7 0 e.state.minted_b)
]

trip_mints_all : trip_mints ≡ some 150
unfolding trip_mints execute_relay execute_deposit xorshift64 relay_message
trip_mints_all = refl

start-tidy : Tidy (captured_count trip) start.state
unfolding Executor.new State.new default_config
start-tidy = record { well_formed = new-IsWellFormed; has_room = omega arith }

start-sound : Sound 7 (captured_count trip) start.state
unfolding Executor.new State.new default_config
start-sound = record {
  backed = record {
    well_formed = new-IsWellFormed;
    locked_total = inl (refl, refl);
    minted_amount = 0;
    minted_only = inl (refl, refl);
    minted_le = omega arith;
  };
  in_sync = refl;
  has_room = omega arith;
}

run_backed_example :
    (e' : DualChainExecutor) × (run first_nonce trip start ≡ some e')
    × ((t : ℕ) → lookup_or t 0 e'.state.minted_b ≤ lookup_or t 0 e'.state.locked_a)
    × (contains 12 (inspect e'.state) ≡ false)
    × (contains 16 (inspect e'.state) ≡ false)
run_backed_example =
    run_backed 7 first_nonce trip start
      ((refl, (refl, (refl, tt))), ((refl, tt), ((refl, refl), tt))) start-sound

run_total_example :
    (e' : DualChainExecutor) × (run first_nonce trip start ≡ some e') × IsWellFormed e'.state.queue
unfolding Executor.new State.new default_config
run_total_example =
    run_total first_nonce trip start ((refl, (refl, tt)), (tt, (tt, tt))) new-IsWellFormed
      (omega arith)

run_quiet_example :
    (e' : DualChainExecutor) × (run first_nonce trip start ≡ some e')
    × (contains 15 (inspect e'.state) ≡ false)
    × (contains 17 (inspect e'.state) ≡ false)
    × (contains 21 (inspect e'.state) ≡ false)
unfolding Executor.new State.new default_config
run_quiet_example =
    run_quiet first_nonce trip start ((refl, (refl, tt)), (tt, (tt, tt))) start-tidy
      (record { consistent = refl; undrained = refl; not_reentered = refl })

run_genuine_example :
    (e' : DualChainExecutor) × (run first_nonce trip start ≡ some e')
    × (contains 13 (inspect e'.state) ≡ false)
    × (contains 18 (inspect e'.state) ≡ false)
unfolding Executor.new State.new default_config
run_genuine_example =
    run_genuine first_nonce trip start (((refl, refl), ((refl, refl), tt)), (tt, (tt, tt)))
      (record { tidy = start-tidy; real = (tt); not_accepted = refl; atomic = refl })

relay_progress_example :
    (r : DualChainExecutor × Bool) × (execute_relay first_nonce 7 5 none loaded ≡ some r)
    × (((Queue.pending_count loaded.state.queue ≡ 0) × (r.1 ≡ false) × (r.0.state ≡ loaded.state))
        ⊎ Closed r.1 loaded.state.queue r.0.state.queue)
relay_progress_example = relay_progress first_nonce 7 5 none loaded loaded-IsWellFormed

zero_seed_example :
    (e : DualChainExecutor) × (run first_nonce trip (Executor.new State.new (some 0) default_config)
      ≡ some e)
    × (e.rng_state ≡ 0)
    × (pick_ordering e.rng_state ≡ (fifo, 0))
    × (select_pending_id e.rng_state e.state.queue
        ≡ some (get_elem? (pending_ids e.state.queue) 0, 0))
zero_seed_example =
    zero_seed first_nonce default_config trip ((refl, (refl, tt)), (tt, (tt, tt))) (omega arith)

abbrev path : ExploitPath
unfolding ExploitStep.deposit ExploitStep.relay default_meta
path = record {
  steps =
      ExploitStep.deposit (real 1 100) 7 5 default_meta
      ∷ ExploitStep.relay (real 1 100) 7 5 (record default_meta { force_inflate_value = true })
      ∷ [];
  confirmed_bugs = [];
  is_confirmed = false;
}

path_reproduces :
    (elim (reproduce first_nonce default_config (16 ∷ []) path) [
      | none ↦ []
      | some (p, found) ↦ found
    ])
    ≡ 12 ∷ 16 ∷ []
unfolding reproduce execute_relay execute_deposit xorshift64 relay_message default_config
    ExploitStep.deposit ExploitStep.relay default_meta run inspect Queue.processed_count
    Queue.dropped_count Queue.total_count
path_reproduces = refl

inspect_exact_example :
    let s = start.state in
    (contains 12 (inspect s) ≡ true ↔ ExceedsIn s.locked_a s.minted_b)
    × (inspect s ≡ [] ↔ IsClean s)
inspect_exact_example = inspect_exact start.state

mutate_deposit_total_example :
    EndsWith
      (λ meta.
        (meta.force_zero_merkle_root ≡ false)
        × (meta.force_replay_nonce ≡ false)
        × (meta.force_inflate_value ≡ false))
      (replicate 64 7)
      (Mutator.mutate_deposit 42 (replicate 64 7))
mutate_deposit_total_example = mutate_deposit_total 42 (replicate 64 7)

mutate_relay_total_example :
    EndsWith (λ meta. Unit {0}) (replicate 40 7) (Mutator.mutate_relay 9 (replicate 40 7))
mutate_relay_total_example = mutate_relay_total 9 (replicate 40 7)

abbrev three_rounds : CrossChainFuzzerConfig
unfolding default_config fuzzer_default_config
three_rounds = record fuzzer_default_config {
  seed = some 99;
  time_budget_secs = none;
  max_iterations = some 3;
  deterministic = true;
}

fuzz_total_example :
    (st : FuzzState hundredths) × (fuzz hundredths first_nonce (λ n. n) three_rounds (λ n. false)
      ≡ some st)
    × (st.iteration ≤ 3)
    × (three_rounds.deterministic ≡ true → st.iteration ≡ 3)
    × All IsFindable st.all_bugs
    × Distinct st.all_bugs
    × (length st.exploit_paths ≡ length st.all_bugs)
unfolding default_config fuzzer_default_config
fuzz_total_example =
    fuzz_total hundredths first_nonce (λ n. n) three_rounds (λ n. false) 3 refl (omega arith)
