-- ===== src/Scheduler/Voting.antt =====
-- scheduler.rs: what the votes of the sorted dropping scheduler keep.
use ityfuzz_rl_src.Prelude.{
  ℕ, ◌<◌, ◌≤◌, ◌≡◌, ◌≢◌, refl, ◌∙◌, ap, inl, inr, false, not, ◌&&◌, List, [], ◌∷◌, ◌++◌, some, leb,
  ◌==◌, HashMap, lookup, lookup-insert, insert, remove, contains, contains_key, filter, take,
  length, All, length-take, u64_mod, wrapping_add, wrapping_sub, Floats, Bool-cases, arith,
}
use ityfuzz_rl_src.Scheduler.Sort.{sort_by}
use ityfuzz_rl_src.Scheduler.State.{VoteData}
use ityfuzz_rl_src.Scheduler.Votes.{prune_amt, set_up, on_remove, lower_score, to_drop, droppable}

remove-insert :
    {V : Type 0} (k : ℕ) (v : V) (m : HashMap V)
    → contains_key k m ≡ false
    → remove k (insert k v m) ≡ m
remove-insert k v [] h = ground arith
remove-insert k v ((j, w) ∷ m) h = elim (Bool-cases (j == k)) [
  | inl e ↦ cc (e, h)
  | inr e ↦ rw e (rw e (ap (λ r. (j, w) ∷ r) (remove-insert k v m (ground arith))))
]

retain-append :
    (k : ℕ) (xs : List ℕ) → contains k xs ≡ false → filter (λ x. not (x == k)) (xs ++ k ∷ []) ≡ xs
retain-append k [] h = ground arith
retain-append k (x ∷ xs) h = elim (Bool-cases (x == k)) [
  | inl e ↦ cc (e, h)
  | inr e ↦ rw e (ap (λ r. x ∷ r) (retain-append k xs (ground arith)))
]

-- An entry that is set up for a new index and then removed leaves the votes as they were: the map,
-- the order, and the two totals.
pub on_remove-set_up :
    (idx : ℕ) (v : VoteData)
    → contains_key idx v.votes_and_visits ≡ false
    → contains idx v.sorted_votes ≡ false
    → v.votes_total < u64_mod
    → v.visits_total < u64_mod
    → on_remove idx (set_up idx v) ≡ some v
unfolding on_remove set_up
on_remove-set_up idx v fresh absent few_votes few_visits =
    let found : lookup idx (insert idx (3, 1) v.votes_and_visits) ≡ some (3, 1) =
      lookup-insert idx idx (3, 1) v.votes_and_visits ∙ ground arith in
    let votes : wrapping_sub (wrapping_add v.votes_total 3) 3 ≡ v.votes_total = omega arith in
    let visits : wrapping_sub (wrapping_add v.visits_total 1) 1 ≡ v.visits_total = omega arith in
    rw
      (
        found,
        remove-insert idx (3, 1) v.votes_and_visits fresh,
        retain-append idx v.sorted_votes absent,
        votes,
        visits,
      )
      refl

abbrev pub MayDrop : ℕ → ℕ → Type 0
MayDrop idx k = (3 ≤ k) × (k ≢ idx)

droppable-MayDrop :
    (idx : ℕ) (entries : HashMap (ℕ × ℕ)) → All (MayDrop idx) (droppable idx entries)
droppable-MayDrop idx [] = tt
droppable-MayDrop idx ((k, votes) ∷ entries) = elim (Bool-cases (leb 3 k && not (k == idx))) [
  | inl e ↦ rw e ((ground arith, ground arith), droppable-MayDrop idx entries)
  | inr e ↦ rw e (droppable-MayDrop idx entries)
]

length-droppable :
    (idx : ℕ) (entries : HashMap (ℕ × ℕ)) → length (droppable idx entries) ≤ length entries
length-droppable idx [] = omega arith
length-droppable idx ((k, votes) ∷ entries) = ground (arith, length-droppable idx entries)

-- What the addition of an entry drops: at most 250 indices, and neither an artifact (below 3) nor
-- the added entry, whatever the scores.
pub to_drop_lem :
    (fl : Floats) (idx : ℕ) (votes_and_visits : HashMap (ℕ × ℕ))
    → (length (to_drop fl idx votes_and_visits) ≤ 250)
      × All (MayDrop idx) (to_drop fl idx votes_and_visits)
unfolding to_drop
to_drop_lem fl idx votes_and_visits =
    let sorted = sort_by (lower_score fl) votes_and_visits in
    (
      omega (arith, length-droppable idx (take prune_amt sorted), length-take 250 sorted),
      droppable-MayDrop idx (take prune_amt sorted),
    )
