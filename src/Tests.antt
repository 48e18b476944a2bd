-- ===== src/Tests.antt =====
-- The theorems on the corpus, the schedulers and the snapshot oracles at concrete inputs.
use ityfuzz_rl_src.Prelude.{
  false, ℕ, ◌+◌, ◌-◌, ◌%◌, ◌^◌, ◌≤◌, ◌≡◌, ◌⊎◌, refl, Bool, true, false, List, [], ◌∷◌, none, some,
  ltb, leb, keys, length, All, HashMap, arith,
}
use mathlib.Core.Logic.{inl, inr}
use ityfuzz_rl_src.Samples.{hundredths, first_nonce, loaded, loaded-IsWellFormed}
use ityfuzz_rl_src.Corpus
use ityfuzz_rl_src.Corpus.{IndexedInMemoryCorpus}
use ityfuzz_rl_src.Corpus.History.{
  Event, added, removed, empty, Refines, replay, replay_abstract, replay-Refines,
}
use ityfuzz_rl_src.Oracles.AccessControl.{
  AccessControlState, add_privileged, add_sensitive_slot, inspect, inspect_relay,
  add_privileged-inspect,
}
use ityfuzz_rl_src.Oracles.IntegerOverflow.{check_slot, check_slot_underflow, check_slot_overflow}
use ityfuzz_rl_src.Oracles.PriceOracle.{PoolState, PriceOracleOracle}
use ityfuzz_rl_src.Oracles.Gap.{run_gap_oracles}
use ityfuzz_rl_src.Scheduler.State.{VoteData, FuzzerState, indexed_corpus, new_metadata}
use ityfuzz_rl_src.Scheduler.Tree.{DependencyTree, Node, done, add_node}
use ityfuzz_rl_src.Scheduler.Walks.{Ordered, Ordered-insert, add_node-Ordered}
use ityfuzz_rl_src.Scheduler.Votes
use ityfuzz_rl_src.Scheduler.Voting.{MayDrop, on_remove-set_up, to_drop_lem}
use ityfuzz_rl_src.Rl.Pruning.{MayGo, to_prune, on_remove, to_prune_lem}
use ityfuzz_rl_src.Rl.Schedule.{
  vote, report_corpus, sponsor_state, next, empty_corpus, Chooses, credited, next_total,
}
use ityfuzz_rl_src.Rl.Removal.{HasArm, Forgotten, removed_returns}
use ityfuzz_rl_src.CrossChain.Queue
use ityfuzz_rl_src.CrossChain.State
use ityfuzz_rl_src.CrossChain.Interceptor.{default_config}
use ityfuzz_rl_src.CrossChain.Executor
use ityfuzz_rl_src.CrossChain.Executor.{DualChainExecutor}
use ityfuzz_rl_src.CrossChain.Relay.{execute_relay}
use ityfuzz_rl_src.Rl.RelaySignal.{signal_of, relay_signal}

abbrev events : List (Event ℕ)
events = added 7 ∷ added 8 ∷ removed 0 ∷ added 9 ∷ []

replay-Refines_example :
    Refines ℕ (replay ℕ events (Corpus.new ℕ)) (replay_abstract ℕ events (empty ℕ))
replay-Refines_example = replay-Refines ℕ events (omega arith)

check_slot_underflow_example : check_slot 5 ((5 + 2 ^ 256 - 7) % 2 ^ 256) ≡ ltb 5 7
check_slot_underflow_example = check_slot_underflow 5 7 (omega arith) (omega arith)

check_slot_overflow_example :
    check_slot (2 ^ 256 - 1) ((2 ^ 256 - 1 + 3) % 2 ^ 256) ≡ leb (2 ^ 256) (2 ^ 256 - 1 + 3)
check_slot_overflow_example =
    check_slot_overflow (2 ^ 256 - 1) 3 (omega arith) (omega arith) (omega arith)

abbrev owned : AccessControlState
owned = record { privileged_addrs = 1 ∷ []; sensitive_slots = 0 ∷ [] }

add_privileged-inspect_example :
    (inspect (add_sensitive_slot 4 (add_privileged 2 owned)) 2 ((4, 1) ∷ []) ((4, 2) ∷ []) ≡ [])
    × (inspect_relay (add_sensitive_slot 4 (add_privileged 2 owned)) 2 true ≡ [])
add_privileged-inspect_example = add_privileged-inspect owned 2 4 ((4, 1) ∷ []) ((4, 2) ∷ []) true

abbrev changes : List (ℕ × ℕ × ℕ)
changes = (0, 5, 2 ^ 256 - 1) ∷ (3, 1, 1) ∷ []

abbrev pool : ℕ → PoolState
pool a = record { pool_addr = 9; reserve_a = a; reserve_b = 100 }

abbrev watched : PriceOracleOracle hundredths
watched = record { pre_pools = pool 100 ∷ []; threshold = 50 }

gap_run : run_gap_oracles hundredths 2 changes [] (pool 900 ∷ []) owned watched ≡ 19 ∷ 11 ∷ 20 ∷ []
unfolding run_gap_oracles inspect
gap_run = refl

abbrev voted : VoteData
voted = record {
  votes_and_visits = (3, (5, 2)) ∷ (4, (3, 1)) ∷ [];
  sorted_votes = 3 ∷ 4 ∷ [];
  visits_total = 4;
  votes_total = 9;
  deps = [];
  to_remove = [];
}

on_remove-set_up_example : Votes.on_remove 5 (Votes.set_up 5 voted) ≡ some voted
on_remove-set_up_example = on_remove-set_up 5 voted refl refl (omega arith) (omega arith)

to_drop_lem_example :
    (length (Votes.to_drop hundredths 4 voted.votes_and_visits) ≤ 250)
    × All (MayDrop 4) (Votes.to_drop hundredths 4 voted.votes_and_visits)
to_drop_lem_example = to_drop_lem hundredths 4 voted.votes_and_visits

abbrev means : HashMap ℕ
means = (0, 1) ∷ (3, 5) ∷ (4, 700) ∷ (5, 9) ∷ []

to_prune_lem_example :
    (length (to_prune hundredths 5 means) ≤ 250)
    × All (MayGo hundredths 5 means) (to_prune hundredths 5 means)
to_prune_lem_example = to_prune_lem hundredths 5 means

pruned : to_prune hundredths 5 means ≡ 3 ∷ []
unfolding to_prune
pruned = refl

abbrev learning : FuzzerState hundredths (indexed_corpus ℕ)
unfolding new_metadata indexed_corpus
learning = record {
  rl = some (record (new_metadata hundredths) { mean_reward = means; last_selected = some 4 });
  votes = some voted;
  reward = none;
  corpus = record { entries = (3, 7) ∷ (4, 8) ∷ []; current_idx = 6; current = none };
}

next_total_example :
    ((keys (credited hundredths learning).mean_reward ≡ [])
      × (next hundredths 77 learning
          ≡ empty_corpus (record learning { rl = some (credited hundredths learning) })))
    ⊎ Chooses hundredths
        (credited hundredths learning).mean_reward
        learning
        (next hundredths 77 learning)
next_total_example = next_total hundredths 77 learning

removed_returns_example :
    Forgotten hundredths 4 (on_remove hundredths 4 learning)
    × HasArm hundredths 4 (vote hundredths 4 1 (on_remove hundredths 4 learning))
    × HasArm hundredths 4 (report_corpus hundredths 4 (on_remove hundredths 4 learning))
    × HasArm hundredths 4 (sponsor_state hundredths 4 1 (on_remove hundredths 4 learning))
removed_returns_example = removed_returns hundredths 4 1 learning

relay_signal_example :
    (r : DualChainExecutor × Bool) × (execute_relay first_nonce 7 5 none loaded ≡ some r)
    × ((signal_of hundredths loaded r.0).message_dispatched ≡ false)
    × ((signal_of hundredths loaded r.0).message_relayed ≡ r.1)
unfolding Executor.new State.new default_config Queue.total_count Queue.push Queue.new
relay_signal_example =
    relay_signal hundredths first_nonce 7 5 none loaded loaded-IsWellFormed (omega arith)

-- The tree of the nodes 1 and 2, each under the one before.
abbrev node_under : ℕ → ℕ → Node
node_under parent ref_count = record {
  parent = parent;
  ref_count = ref_count;
  pending_delete = false;
  never_delete = false;
}

abbrev one_node : DependencyTree
one_node = (1, node_under 0 2) ∷ []

abbrev chain : DependencyTree
chain = (1, node_under 0 2) ∷ (2, node_under 1 1) ∷ []

one_node-Ordered : Ordered one_node
one_node-Ordered =
    Ordered-insert 1 (node_under 0 2) [] (omega arith) (inl refl) (λ p node found. cc found)

chain-Ordered : Ordered chain
chain-Ordered =
    Ordered-insert 2 (node_under 1 1) one_node (omega arith) (inr (node_under 0 2, refl))
      one_node-Ordered

add_node-Ordered_example :
    (nodes' : DependencyTree) × (add_node 3 5 2 chain ≡ done nodes') × Ordered nodes'
add_node-Ordered_example =
    add_node-Ordered 3 5 2 chain (omega arith) (omega arith) (inr (node_under 1 1, refl))
      chain-Ordered
