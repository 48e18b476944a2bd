-- ===== src/Rl/Removal.antt =====
-- rl_scheduler.rs: what a removal forgets, and what brings the index back.
use ityfuzz_rl_src.Prelude.{
  ℕ, ◌≡◌, ◌≢◌, refl, true, false, not, List, [], ◌∷◌, Option, none, some, ◌==◌, HashMap, insert,
  remove, contains, contains_key, filter, Floats, arith,
}
use ityfuzz_rl_src.Scheduler.State.{
  VoteData, initial_votes, RlMetadata, new_metadata, CorpusOps, FuzzerState,
}
use ityfuzz_rl_src.Rl.Metadata.{update}
use ityfuzz_rl_src.Rl.Pruning.{forget_selected, forget_arm, forget_votes, on_remove}
use ityfuzz_rl_src.Rl.Schedule.{metadata_or_new, votes_or_new, vote, report_corpus, sponsor_state}

module _ (fl : Floats) where
  abbrev pub HasArm : {ops : CorpusOps} → ℕ → FuzzerState fl ops → Type 0
  HasArm idx st = contains_key idx (metadata_or_new fl st.rl).mean_reward ≡ true

  abbrev pub Forgotten : {ops : CorpusOps} → ℕ → FuzzerState fl ops → Type 0
  Forgotten idx st =
      (contains_key idx (metadata_or_new fl st.rl).mean_reward ≡ false)
      × (contains_key idx (metadata_or_new fl st.rl).visit_count ≡ false)
      × ((metadata_or_new fl st.rl).last_selected ≢ some idx)
      × (contains_key idx (votes_or_new fl st.votes).votes_and_visits ≡ false)
      × (contains idx (votes_or_new fl st.votes).sorted_votes ≡ false)

  contains_key-remove : {V : Type 0} (k : ℕ) (m : HashMap V) → contains_key k (remove k m) ≡ false
  contains_key-remove k [] = refl
  contains_key-remove k ((j, v) ∷ m) = ground (arith, contains_key-remove k m)

  contains_key-insert :
      {V : Type 0} (k : ℕ) (v : V) (m : HashMap V) → contains_key k (insert k v m) ≡ true
  contains_key-insert k v [] = ground arith
  contains_key-insert k v ((j, w) ∷ m) = ground (arith, contains_key-insert k v m)

  contains-retain : (k : ℕ) (xs : List ℕ) → contains k (filter (λ x. not (x == k)) xs) ≡ false
  contains-retain k [] = refl
  contains-retain k (x ∷ xs) = ground (arith, contains-retain k xs)

  forget_selected_lem : (idx : ℕ) (o : Option ℕ) → forget_selected fl idx o ≢ some idx
  forget_selected_lem idx none p = cc p
  forget_selected_lem idx (some k) p = ground arith

  arm-Forgotten :
      (idx : ℕ) (o : Option (RlMetadata fl))
      → (contains_key idx (metadata_or_new fl (forget_arm fl idx o)).mean_reward ≡ false)
        × (contains_key idx (metadata_or_new fl (forget_arm fl idx o)).visit_count ≡ false)
        × ((metadata_or_new fl (forget_arm fl idx o)).last_selected ≢ some idx)
  unfolding new_metadata
  arm-Forgotten idx none = (refl, refl, λ p. cc p)
  arm-Forgotten idx (some m) = (
    contains_key-remove idx m.mean_reward,
    contains_key-remove idx m.visit_count,
    forget_selected_lem idx m.last_selected,
  )

  votes-Forgotten :
      (idx : ℕ) (o : Option VoteData)
      → (contains_key idx (votes_or_new fl (forget_votes fl idx o)).votes_and_visits ≡ false)
        × (contains idx (votes_or_new fl (forget_votes fl idx o)).sorted_votes ≡ false)
  unfolding initial_votes
  votes-Forgotten idx none = (refl, refl)
  votes-Forgotten idx (some v) =
      (contains_key-remove idx v.votes_and_visits, contains-retain idx v.sorted_votes)

  -- After a removal the scheduler has forgotten the index: no arm, no visits, no votes, and not the
  -- last choice. A vote for it, a report or a sponsorship then makes an arm for it again.
  pub removed_returns :
      {ops : CorpusOps} (idx amount : ℕ) (st : FuzzerState fl ops)
      → Forgotten idx (on_remove fl idx st)
        × HasArm idx (vote fl idx amount (on_remove fl idx st))
        × HasArm idx (report_corpus fl idx (on_remove fl idx st))
        × HasArm idx (sponsor_state fl idx amount (on_remove fl idx st))
  unfolding on_remove vote report_corpus sponsor_state update
  removed_returns idx amount st =
      let (arm, visits, last) = arm-Forgotten idx st.rl in
      let (votes, order) = votes-Forgotten idx st.votes in
      (
        (arm, visits, last, votes, order),
        contains_key-insert idx _ _,
        contains_key-insert idx _ _,
        contains_key-insert idx _ _,
      )
