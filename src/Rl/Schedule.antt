-- ===== src/Rl/Schedule.antt =====
-- rl_scheduler.rs: `RLScheduler`'s `vote`, `on_add`, `next`, `report_corpus` and `sponsor_state`,
-- built without the feature `full_trace`. `none` is a panic: the corpus has no entry to remove.
use ityfuzz_rl_src.Prelude.{
  ℕ, ◌≡◌, refl, ◌⊎◌, inl, inr, true, List, [], ◌∷◌, Option, none, some, if◌then◌else◌, ltb, HashMap,
  insert, contains_key, keys, All, All-mono, Floats, ap, arith,
}
use ityfuzz_rl_src.Scheduler.State.{
  VoteData, initial_votes, RlMetadata, new_metadata, RewardSignal, CorpusOps, FuzzerState,
}
use ityfuzz_rl_src.Rl.Metadata.{rl_init_q, update, select, select-Selects}
use ityfuzz_rl_src.Rl.Reward.{rl_reward_cmp_improve, rl_reward_cov_new, compute_reward}
use ityfuzz_rl_src.Rl.Pruning.{drop_threshold, to_prune, on_remove}

-- `entry(idx).or_insert(v)`
abbrev or_insert : {V : Type 0} → ℕ → V → HashMap V → HashMap V
or_insert idx v m = if contains_key idx m then m else insert idx v m

pub data NextOutcome (S : Type 0) : Type 0 where
  chosen : ℕ → S → NextOutcome S
  empty_corpus : S → NextOutcome S
  panicked : NextOutcome S

module _ (fl : Floats) where
  open fl use {F, of_nat, literal, mul, div}

  -- The metadata, made when it is missing.
  abbrev pub metadata_or_new : Option (RlMetadata fl) → RlMetadata fl
  unfolding new_metadata
  metadata_or_new none = new_metadata fl
  metadata_or_new (some m) = m

  abbrev pub votes_or_new : Option VoteData → VoteData
  unfolding initial_votes
  votes_or_new none = initial_votes
  votes_or_new (some v) = v

  -- The update by the reward of the last selection.
  unfoldable pub credit : Option ℕ → Option (RewardSignal fl) → RlMetadata fl → RlMetadata fl
  unfolding update compute_reward
  credit (some last_idx) (some signal) m = update fl last_idx (compute_reward fl signal) m
  credit (some last_idx) none m = m
  credit none signal m = m

  module _ {ops : CorpusOps} where
    unfoldable pub vote : ℕ → (increment : ℕ) → FuzzerState fl ops → FuzzerState fl ops
    unfolding update new_metadata
    vote idx increment st = record st {
      rl = some (update fl idx (rl_reward_cmp_improve fl) (metadata_or_new st.rl));
    }

    unfoldable pub report_corpus : ℕ → FuzzerState fl ops → FuzzerState fl ops
    unfolding update new_metadata
    report_corpus state_idx st = record st {
      rl =
          some (
            update fl state_idx (mul (rl_reward_cov_new fl) (literal 2 0)) (metadata_or_new st.rl));
    }

    unfoldable pub sponsor_state : ℕ → (amt : ℕ) → FuzzerState fl ops → FuzzerState fl ops
    unfolding update new_metadata
    sponsor_state state_idx amt st = record st {
      rl = some (update fl state_idx (rl_reward_cmp_improve fl) (metadata_or_new st.rl));
    }

    -- The metadata that `on_add` sets up for the entry.
    unfoldable pub set_up : ℕ → FuzzerState fl ops → RlMetadata fl
    unfolding new_metadata
    set_up idx st =
        let m = metadata_or_new st.rl in
        record m {
          mean_reward = or_insert idx (rl_init_q fl) m.mean_reward;
          visit_count = or_insert idx 1 m.visit_count;
        }

    abbrev and_then :
        Option ops.C → (ops.C → Option (FuzzerState fl ops)) → Option (FuzzerState fl ops)
    and_then none f = none
    and_then (some c) f = f c

    -- The removals, each from the metadata and then from the corpus.
    unfoldable pub prune : List ℕ → FuzzerState fl ops → Option (FuzzerState fl ops)
    unfolding on_remove
    prune [] st = some st
    prune (x ∷ to_remove) st =
        and_then (ops.remove x st.corpus)
          (λ c. prune to_remove (record (on_remove fl x st) { corpus = c }))

    abbrev record_removed : List ℕ → Option (FuzzerState fl ops) → Option (FuzzerState fl ops)
    unfolding new_metadata
    record_removed to_remove none = none
    record_removed to_remove (some st) =
        some (record st { rl = some (record (metadata_or_new st.rl) { to_remove = to_remove }) })

    unfoldable pub on_add : ℕ → FuzzerState fl ops → Option (FuzzerState fl ops)
    unfolding set_up prune to_prune initial_votes
    on_add idx st =
        let m = set_up idx st in
        let st' = record st { rl = some m; votes = some (votes_or_new st.votes) } in
        let to_remove = to_prune fl idx m.mean_reward in
        let pruned = record_removed to_remove (prune to_remove st') in
        if ltb drop_threshold (ops.count st.corpus) then pruned else some st'

    abbrev store_choice :
        FuzzerState fl ops → Option (RlMetadata fl × ℕ) → NextOutcome (FuzzerState fl ops)
    store_choice st none = panicked
    store_choice st (some (m, selected)) =
        chosen selected (record st { rl = some (record m { last_selected = some selected }) })

    abbrev choose_arm :
        List ℕ → F → RlMetadata fl → FuzzerState fl ops → NextOutcome (FuzzerState fl ops)
    unfolding select
    choose_arm [] rand_val m st = empty_corpus (record st { rl = some m })
    choose_arm (first ∷ rest) rand_val m st = store_choice st (select fl (first ∷ rest) rand_val m)

    -- `draw` is the number drawn below 10000.
    unfoldable pub next : (draw : ℕ) → FuzzerState fl ops → NextOutcome (FuzzerState fl ops)
    unfolding credit select new_metadata
    next draw st =
        let m = metadata_or_new st.rl in
        let m' = credit m.last_selected st.reward m in
        choose_arm (keys m'.mean_reward) (div (of_nat draw) (literal 10000 0)) m' st

  -- What `next` does with a table of arms: an error when it is empty, and else a choice of one of its
  -- keys, which is stored, with the table and the corpus as they were.
  pub record Chooses {ops : CorpusOps} (mean_reward : HashMap F) (st : FuzzerState fl ops)
      (r : NextOutcome (FuzzerState fl ops)) : Type 0 where
    pub idx : ℕ
    pub after : FuzzerState fl ops
    pub metadata : RlMetadata fl
    pub returned : r ≡ chosen idx after
    pub is_known : contains_key idx mean_reward ≡ true
    pub stored : after.rl ≡ some metadata
    pub is_last : metadata.last_selected ≡ some idx
    pub same_means : metadata.mean_reward ≡ mean_reward
    pub same_corpus : after.corpus ≡ st.corpus

  choose_arm-Chooses :
      {ops : CorpusOps} (m : RlMetadata fl) (rand_val : F) (st : FuzzerState fl ops) (first : ℕ)
      (rest : List ℕ)
      → All (λ k. contains_key k m.mean_reward ≡ true) (first ∷ rest)
      → Chooses m.mean_reward st (choose_arm (first ∷ rest) rand_val m st)
  unfolding choose_arm select
  choose_arm-Chooses m rand_val st first rest known =
      let s =
        select-Selects fl (λ k. contains_key k m.mean_reward ≡ true) first rest rand_val m known in
      record {
        idx = s.chosen;
        after = record st { rl = some (record (s.after) { last_selected = some s.chosen }) };
        metadata = record (s.after) { last_selected = some s.chosen };
        returned = ap (store_choice st) s.returned;
        is_known = s.picked;
        stored = refl;
        is_last = refl;
        same_means = s.same_means;
        same_corpus = refl;
      }

  keys-known : (m : HashMap F) → All (λ k. contains_key k m ≡ true) (keys m)
  keys-known [] = tt
  keys-known ((k, q) ∷ m) = (
    ground arith,
    All-mono (λ j. contains_key j m ≡ true) (λ j. contains_key j ((k, q) ∷ m) ≡ true) (keys m)
        (λ j h. ground arith) (keys-known m),
  )

  choose_arm-total :
      {ops : CorpusOps} (m : RlMetadata fl) (rand_val : F) (st : FuzzerState fl ops) (ks : List ℕ)
      → All (λ k. contains_key k m.mean_reward ≡ true) ks
      → ((ks ≡ []) × (choose_arm ks rand_val m st ≡ empty_corpus (record st { rl = some m })))
        ⊎ Chooses m.mean_reward st (choose_arm ks rand_val m st)
  unfolding choose_arm
  choose_arm-total m rand_val st [] known = inl (refl, refl)
  choose_arm-total m rand_val st (first ∷ rest) known =
      inr (choose_arm-Chooses m rand_val st first rest known)

  -- The table of arms when `next` chooses: with the last reward credited to the last choice.
  unfoldable pub credited : {ops : CorpusOps} → FuzzerState fl ops → RlMetadata fl
  unfolding credit new_metadata
  credited st = let m = metadata_or_new st.rl in credit m.last_selected st.reward m

  -- `next` never panics. It reports an empty corpus exactly when the table of arms is empty after
  -- the last reward is credited; else it chooses a key of that table and stores it as the last choice,
  -- and leaves the table's means and the corpus as they are.
  pub next_total :
      {ops : CorpusOps} (draw : ℕ) (st : FuzzerState fl ops)
      → ((keys (credited st).mean_reward ≡ [])
          × (next draw st ≡ empty_corpus (record st { rl = some (credited st) })))
        ⊎ Chooses (credited st).mean_reward st (next draw st)
  unfolding next credited
  next_total draw st =
      choose_arm-total (credited st) _ st (keys (credited st).mean_reward)
        (keys-known (credited st).mean_reward)
