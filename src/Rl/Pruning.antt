-- ===== src/Rl/Pruning.antt =====
-- rl_scheduler.rs: what `RLScheduler::on_add` prunes, and `on_remove`.
use ityfuzz_rl_src.Prelude.{
  ℕ, ◌≤◌, ◌≡◌, ◌≢◌, inl, inr, Bool, true, false, not, ◌&&◌, ◌||◌, List, [], ◌∷◌, Option, none, some,
  if◌then◌else◌, ltb, ◌==◌, HashMap, remove, length, take, filter, All, All-mono, All-take,
  length-take, Floats, Bool-cases, arith,
}
use ityfuzz_rl_src.Scheduler.Sort.{sort_by, sort_by-All}
use ityfuzz_rl_src.Scheduler.State.{VoteData, RlMetadata, CorpusOps, FuzzerState}

abbrev pub prune_amt : ℕ
prune_amt = 250

abbrev pub drop_threshold : ℕ
drop_threshold = 500

module _ (fl : Floats) where
  open fl use {F, literal, lt, le}

  abbrev pub lower_q : ℕ × F → ℕ × F → Bool
  lower_q (a, q) (b, r) = lt q r

  -- The loop over the candidates.
  abbrev pub prunable : ℕ → List (ℕ × F) → List ℕ
  prunable idx [] = []
  prunable idx ((candidate_idx, q_val) ∷ candidates) =
      let rest = prunable idx candidates in
      if ltb candidate_idx 3 || candidate_idx == idx
      then rest
      else if le q_val (literal 1 1)
      then candidate_idx ∷ rest
      else rest

  unfoldable pub to_prune : ℕ → HashMap F → List ℕ
  to_prune idx mean_reward = prunable idx (take prune_amt (sort_by lower_q mean_reward))

  abbrev pub forget_selected : ℕ → Option ℕ → Option ℕ
  forget_selected idx none = none
  forget_selected idx (some last) = if last == idx then none else some last

  abbrev pub forget_arm : ℕ → Option (RlMetadata fl) → Option (RlMetadata fl)
  forget_arm idx none = none
  forget_arm idx (some m) = some (record m {
    mean_reward = remove idx m.mean_reward;
    visit_count = remove idx m.visit_count;
    last_selected = forget_selected idx m.last_selected;
  })

  abbrev pub forget_votes : ℕ → Option VoteData → Option VoteData
  forget_votes idx none = none
  forget_votes idx (some v) = some (record v {
    votes_and_visits = remove idx v.votes_and_visits;
    sorted_votes = filter (λ x. not (x == idx)) v.sorted_votes;
  })

  unfoldable pub on_remove : {ops : CorpusOps} → ℕ → FuzzerState fl ops → FuzzerState fl ops
  on_remove idx st = record st { rl = forget_arm idx st.rl; votes = forget_votes idx st.votes }

  -- Whether the table has an arm under `k` whose mean is at most the threshold.
  abbrev pub low_arm : HashMap F → ℕ → Bool
  low_arm [] k = false
  low_arm ((j, q) ∷ mean_reward) k = ((j == k) && le q (literal 1 1)) || low_arm mean_reward k

  abbrev pub MayGo : ℕ → HashMap F → ℕ → Type 0
  MayGo idx mean_reward k = (3 ≤ k) × (k ≢ idx) × (low_arm mean_reward k ≡ true)

  abbrev IsKnown : HashMap F → ℕ × F → Type 0
  IsKnown mean_reward (k, q) = le q (literal 1 1) ≡ true → low_arm mean_reward k ≡ true

  all-IsKnown : (mean_reward : HashMap F) → All (IsKnown mean_reward) mean_reward
  all-IsKnown [] = tt
  all-IsKnown ((j, q) ∷ m) = (
    λ low. ground arith,
    All-mono (IsKnown m) (IsKnown ((j, q) ∷ m)) m (λ (k, r) known low. ground (arith, known low))
        (all-IsKnown m),
  )

  prunable-MayGo :
      (idx : ℕ) (mean_reward : HashMap F) (candidates : List (ℕ × F))
      → All (IsKnown mean_reward) candidates
      → All (MayGo idx mean_reward) (prunable idx candidates)
  prunable-MayGo idx m [] h = tt
  prunable-MayGo idx m ((k, q) ∷ candidates) h =
      let rest = prunable-MayGo idx m candidates h.1 in
      elim (Bool-cases (ltb k 3 || k == idx)) [
        | inl e ↦ rw e rest
        | inr e ↦ elim (Bool-cases (le q (literal 1 1))) [
          | inl low ↦ rw (e, low) ((ground arith, ground arith, h.0 low), rest)
          | inr high ↦ rw (e, high) rest
        ]
      ]

  length-prunable :
      (idx : ℕ) (candidates : List (ℕ × F)) → length (prunable idx candidates) ≤ length candidates
  length-prunable idx [] = omega arith
  length-prunable idx ((k, q) ∷ candidates) = ground (arith, length-prunable idx candidates)

  -- What the addition of an entry prunes: at most 250 indices, none of them an artifact (below 3)
  -- or the added entry, and each with an arm in the table whose mean is at most 0.1.
  pub to_prune_lem :
      (idx : ℕ) (mean_reward : HashMap F)
      → (length (to_prune idx mean_reward) ≤ 250)
        × All (MayGo idx mean_reward) (to_prune idx mean_reward)
  unfolding to_prune
  to_prune_lem idx mean_reward =
      let candidates = take prune_amt (sort_by lower_q mean_reward) in
      (
        omega
            (arith, length-prunable idx candidates, length-take 250 (sort_by lower_q mean_reward)),
        prunable-MayGo idx mean_reward candidates (
            All-take (IsKnown mean_reward) prune_amt (sort_by lower_q mean_reward)
              (sort_by-All lower_q (IsKnown mean_reward) mean_reward (all-IsKnown mean_reward))),
      )
