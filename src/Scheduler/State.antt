-- ===== src/Scheduler/State.antt =====
-- scheduler.rs and rl_scheduler.rs: what the schedulers keep in the fuzzer's state. Its corpus is
-- an interface, which indexed_corpus.rs fills.
use ityfuzz_rl_src.Prelude.{ℕ, Bool, List, [], Option, none, some, HashMap, Floats}
use ityfuzz_rl_src.Corpus
use ityfuzz_rl_src.Corpus.{IndexedInMemoryCorpus}
use ityfuzz_rl_src.Scheduler.Tree.{DependencyTree}

-- `Corpus::count` and `Corpus::remove`, which panics on a missing entry.
pub record CorpusOps : Type 1 where
  pub C : Type 0
  pub count : C → ℕ
  pub remove : ℕ → C → Option C

abbrev forget_entry : {A B : Type 0} → Option (A × B) → Option A
forget_entry none = none
forget_entry (some (a, b)) = some a

unfoldable pub indexed_corpus : Type 0 → CorpusOps
unfolding Corpus.count Corpus.remove_entry
indexed_corpus T = record {
  C = IndexedInMemoryCorpus T;
  count = Corpus.count T;
  remove = λ idx c. forget_entry (Corpus.remove_entry T idx c);
}

pub record VoteData : Type 0 where
  -- (votes, visits)
  pub votes_and_visits : HashMap (ℕ × ℕ)
  pub sorted_votes : List ℕ
  pub visits_total : ℕ
  pub votes_total : ℕ
  pub deps : DependencyTree
  pub to_remove : List ℕ

unfoldable pub initial_votes : VoteData
initial_votes = record {
  votes_and_visits = [];
  sorted_votes = [];
  visits_total = 1;
  votes_total = 1;
  deps = [];
  to_remove = [];
}

module _ (fl : Floats) where
  open fl use {F, literal}

  pub record RlMetadata : Type 0 where
    pub mean_reward : HashMap F
    pub visit_count : HashMap ℕ
    pub total_visits : ℕ
    pub last_selected : Option ℕ
    pub epsilon : F
    pub total_reward : F
    pub exploit_count : ℕ
    pub explore_count : ℕ
    pub deps : DependencyTree
    pub to_remove : List ℕ

  -- `RLMetadata::new`.
  unfoldable pub new_metadata : RlMetadata
  new_metadata = record {
    mean_reward = [];
    visit_count = [];
    total_visits = 1;
    last_selected = none;
    epsilon = literal 3 1;
    total_reward = literal 0 0;
    exploit_count = 0;
    explore_count = 0;
    deps = [];
    to_remove = [];
  }

  pub record RewardSignal : Type 0 where
    pub cmp_improvement : F
    pub new_coverage : Bool
    pub bug_found : Bool

  pub record FuzzerState (ops : CorpusOps) : Type 0 where
    pub rl : Option RlMetadata
    pub votes : Option VoteData
    pub reward : Option RewardSignal
    pub corpus : ops.C
