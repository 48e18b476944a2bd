-- ===== src/Scheduler/Votes.antt =====
-- scheduler.rs: `SortedDroppingScheduler`'s `on_add`, `next`, `on_remove`, `vote`, `report_corpus` and
-- `sponsor_state`, built without the feature `full_trace`. `none` is a panic.
use ityfuzz_rl_src.Prelude.{
  ℕ, ◌-◌, ◌^◌, Bool, true, not, ◌&&◌, List, [], ◌∷◌, ◌++◌, Option, none, some, if◌then◌else◌, ltb,
  leb, ◌==◌, HashMap, lookup, lookup_or, insert, remove, contains_key, filter, take, all,
  wrapping_add, wrapping_sub, Floats,
}
use ityfuzz_rl_src.Scheduler.Sort.{sort_by}
use ityfuzz_rl_src.Scheduler.State.{VoteData, initial_votes, CorpusOps}

abbrev pub drop_threshold : ℕ
drop_threshold = 500

abbrev pub prune_amt : ℕ
prune_amt = 250

abbrev pub corpus_initial_votes : ℕ
corpus_initial_votes = 3

-- The votes and visits of the entry that is removed are taken off the totals.
abbrev take_off : VoteData → ℕ → Option (ℕ × ℕ) → Option VoteData
take_off v idx none = none
take_off v idx (some (votes, visits)) = some (record v {
  votes_total = wrapping_sub v.votes_total votes;
  visits_total = wrapping_sub v.visits_total visits;
  votes_and_visits = remove idx v.votes_and_visits;
  sorted_votes = filter (λ x. not (x == idx)) v.sorted_votes;
})

unfoldable pub on_remove : ℕ → VoteData → Option VoteData
on_remove idx v = take_off v idx (lookup idx v.votes_and_visits)

abbrev pub add_votes : ℕ → ℕ → HashMap (ℕ × ℕ) → HashMap (ℕ × ℕ)
add_votes idx increment [] = []
add_votes idx increment ((k, (votes, visits)) ∷ m) =
    let rest = (k, (votes, visits)) ∷ add_votes idx increment m in
    if k == idx then (k, (wrapping_add votes increment, visits)) ∷ m else rest

abbrev pub add_visit : ℕ → HashMap (ℕ × ℕ) → HashMap (ℕ × ℕ)
add_visit idx [] = []
add_visit idx ((k, (votes, visits)) ∷ m) =
    let rest = (k, (votes, visits)) ∷ add_visit idx m in
    if k == idx then (k, (votes, wrapping_add visits 1)) ∷ m else rest

abbrev pub votes_of : HashMap (ℕ × ℕ) → ℕ → ℕ
votes_of m idx = (lookup_or idx (0, 0) m).0

-- `votes_y.cmp(votes_x)`: more votes come first.
abbrev more_votes : HashMap (ℕ × ℕ) → ℕ → ℕ → Bool
more_votes m x y = ltb (votes_of m y) (votes_of m x)

-- The comparisons of the sort panic on an index without votes, when there are two to compare.
abbrev all_known : HashMap (ℕ × ℕ) → List ℕ → Bool
all_known m [] = true
all_known m (x ∷ xs) = contains_key x m && all_known m xs

abbrev can_sort : HashMap (ℕ × ℕ) → List ℕ → Bool
can_sort m [] = true
can_sort m (x ∷ []) = true
can_sort m (x ∷ y ∷ xs) = all_known m (x ∷ y ∷ xs)

unfoldable pub vote : ℕ → (increment : ℕ) → VoteData → Option VoteData
vote idx increment v =
    let counts = add_votes idx increment v.votes_and_visits in
    if can_sort counts v.sorted_votes
    then some (record v {
      votes_total = wrapping_add v.votes_total increment;
      votes_and_visits = counts;
      sorted_votes = sort_by (more_votes counts) v.sorted_votes;
    })
    else none

unfoldable pub report_corpus : ℕ → VoteData → Option VoteData
unfolding vote
report_corpus state_idx = vote state_idx corpus_initial_votes

unfoldable pub sponsor_state : ℕ → ℕ → VoteData → Option VoteData
unfolding vote
sponsor_state state_idx amt = vote state_idx amt

unfoldable pub set_up : ℕ → VoteData → VoteData
set_up idx v = record v {
  votes_and_visits = insert idx (corpus_initial_votes, 1) v.votes_and_visits;
  visits_total = wrapping_add v.visits_total 1;
  votes_total = wrapping_add v.votes_total corpus_initial_votes;
  sorted_votes = v.sorted_votes ++ idx ∷ [];
}

abbrev pub votes_or_new : Option VoteData → VoteData
unfolding initial_votes
votes_or_new none = initial_votes
votes_or_new (some v) = v

-- The loop over the worst entries: no artifacts (below 3) and not the added entry.
abbrev pub droppable : ℕ → HashMap (ℕ × ℕ) → List ℕ
droppable idx [] = []
droppable idx ((k, votes) ∷ entries) =
    let rest = droppable idx entries in if leb 3 k && not (k == idx) then k ∷ rest else rest

module _ (fl : Floats) where
  open fl use {F, of_nat, literal, mul, div, add, lt, feq}

  abbrev pub score : ℕ × ℕ → F
  score (votes, visits) = div (of_nat votes) (of_nat visits)

  abbrev pub lower_score : ℕ × (ℕ × ℕ) → ℕ × (ℕ × ℕ) → Bool
  lower_score (a, s) (b, t) = lt (score s) (score t)

  -- `partial_cmp(...).unwrap()` panics on a score that is not a number, when there are two to compare.
  abbrev is_number : ℕ × (ℕ × ℕ) → Bool
  is_number (k, s) = feq (score s) (score s)

  abbrev can_compare : HashMap (ℕ × ℕ) → Bool
  can_compare [] = true
  can_compare (x ∷ []) = true
  can_compare (x ∷ y ∷ xs) = all is_number (x ∷ y ∷ xs)

  unfoldable pub to_drop : ℕ → HashMap (ℕ × ℕ) → List ℕ
  to_drop idx votes_and_visits =
      droppable idx (take prune_amt (sort_by lower_score votes_and_visits))

  module _ (ops : CorpusOps) where
    abbrev drop_next :
        Option VoteData
        → Option ops.C
        → (VoteData → ops.C → Option (VoteData × ops.C))
        → Option (VoteData × ops.C)
    drop_next none c f = none
    drop_next (some v) none f = none
    drop_next (some v) (some c) f = f v c

    -- The removals, each from the metadata and then from the corpus.
    unfoldable pub drop_all : List ℕ → VoteData → ops.C → Option (VoteData × ops.C)
    unfolding on_remove
    drop_all [] v c = some (v, c)
    drop_all (x ∷ to_remove) v c = drop_next (on_remove x v) (ops.remove x c) (drop_all to_remove)

    abbrev record_removed : List ℕ → Option (VoteData × ops.C) → Option (VoteData × ops.C)
    record_removed to_remove none = none
    record_removed to_remove (some (v, c)) = some (record v { to_remove = to_remove }, c)

    unfoldable pub on_add : ℕ → Option VoteData → ops.C → Option (VoteData × ops.C)
    unfolding set_up to_drop drop_all initial_votes
    on_add idx votes c =
        let v = set_up idx (votes_or_new votes) in
        let to_remove = to_drop idx v.votes_and_visits in
        let dropped = record_removed to_remove (drop_all to_remove v c) in
        if ltb drop_threshold (ops.count c)
        then (if can_compare v.votes_and_visits then dropped else none)
        else some (v, c)

  -- The sampling loop: the index where the sum of the votes exceeds the threshold, or `usize::MAX`.
  abbrev sample : F → F → HashMap (ℕ × ℕ) → List ℕ → Option ℕ
  sample threshold s m [] = some (2 ^ 64 - 1)
  sample threshold s m (i ∷ idxs) = elim (lookup i m) [
    | none ↦ none
    | some (votes, visits) ↦
        let s' = add s (of_nat votes) in
        let rest = sample threshold s' m idxs in if lt threshold s' then some i else rest
  ]

  abbrev last_of : List ℕ → Option ℕ
  last_of [] = none
  last_of (x ∷ []) = some x
  last_of (x ∷ y ∷ xs) = last_of (y ∷ xs)

  -- If the loop did not find an input, the last one is used.
  abbrev or_last : Option ℕ → List ℕ → Option ℕ
  or_last none idxs = none
  or_last (some idx) idxs = if idx == 2 ^ 64 - 1 then last_of idxs else some idx

  abbrev visit : VoteData → Option ℕ → Option (VoteData × ℕ)
  visit v none = none
  visit v (some idx) =
      if contains_key idx v.votes_and_visits
      then some (
        record v {
          votes_and_visits = add_visit idx v.votes_and_visits;
          visits_total = wrapping_add v.visits_total 1;
        },
        idx,
      )
      else none

  -- `draw` is the number drawn below 1000.
  unfoldable pub next : (draw : ℕ) → VoteData → Option (VoteData × ℕ)
  next draw v =
      let threshold = mul (div (of_nat draw) (literal 1000 0)) (of_nat v.votes_total) in
      visit v
        (or_last (sample threshold (literal 0 0) v.votes_and_visits v.sorted_votes) v.sorted_votes)
