-- ===== src/Reentrancy/Pattern.antt =====
-- evm/middlewares/reentrancy.rs: the tracer finds the slots that are read, read deeper and written.
use ityfuzz_rl_src.Prelude.{
  ℕ, ◌+◌, ◌-◌, ◌%◌, ◌^◌, ◌<◌, ◌≡◌, refl, ap, ◌∙◌, inl, inr, Bool, true, false, ◌&&◌, ◌||◌, List, [],
  ◌∷◌, arith, ltb, leb, ◌==◌, contains, Bool-cases, ==→≡,
}
use ityfuzz_rl_src.Reentrancy.Tracer.{
  Slot, Entry, same_slot, depths_of, is_found, merge_sorted_vec_dedup, found_smaller, add_read,
  add_needs, ReentrancyData, on_sload, on_sstore, before_execute,
}
use ityfuzz_rl_src.Reentrancy.Sorted.{
  IsSorted, contains-merge, contains-found_smaller, contains-add_read, add_read-IsSorted,
  depths_of-update, depths_of-retain, contains-filter, is_found-insert,
}

-- An SLOAD or an SSTORE of a slot at a depth, or the resumption of a call with pending
-- post-executions.
pub data Step : Type 0 where
  sload sstore : (k : Slot) (depth : ℕ) → Step
  resume : (pending : ℕ) → Step

abbrev pub step : Step → ReentrancyData → ReentrancyData
unfolding on_sload on_sstore before_execute
step (sload k depth) r = on_sload k depth r
step (sstore k depth) r = on_sstore k depth r
step (resume pending) r = before_execute true pending r

-- Steps are listed from the latest one.
unfoldable pub state_after : List Step → ReentrancyData
unfolding step
state_after [] = record { reads = []; need_writes = []; found = [] }
state_after (e ∷ es) = step e (state_after es)

-- The slot was read at the depth.
abbrev pub was_read : Slot → ℕ → List Step → Bool
was_read j d [] = false
was_read j d (sload k depth ∷ es) = (same_slot k j && (depth == d)) || was_read j d es
was_read j d (sstore k depth ∷ es) = was_read j d es
was_read j d (resume pending ∷ es) = was_read j d es

-- The slot was read at the depth, then read at a larger depth, and no resumption at or below the depth
-- came after that.
abbrev pub was_reread : Slot → ℕ → List Step → Bool
was_reread j d [] = false
was_reread j d (sload k depth ∷ es) =
    (same_slot k j && (was_read j d es && ltb d depth)) || was_reread j d es
was_reread j d (sstore k depth ∷ es) = was_reread j d es
was_reread j d (resume pending ∷ es) = ltb d pending && was_reread j d es

-- The slot was written at a depth with such reads before.
abbrev pub reentered : Slot → List Step → Bool
reentered j [] = false
reentered j (sload k depth ∷ es) = reentered j es
reentered j (sstore k depth ∷ es) = (same_slot k j && was_reread j depth es) || reentered j es
reentered j (resume pending ∷ es) = reentered j es

abbrev pub Resumes : List Step → Type 0
Resumes [] = Unit
Resumes (sload k depth ∷ es) = Resumes es
Resumes (sstore k depth ∷ es) = Resumes es
Resumes (resume pending ∷ es) = (0 < pending) × (pending < 2 ^ 32) × Resumes es

same_slot→≡ : (k j : Slot) → same_slot k j ≡ true → k ≡ j
same_slot→≡ k j e =
    let first : (k.address == j.address) ≡ true = ground arith in
    let second : (k.index == j.index) ≡ true = ground arith in
    λ i. record {
      address = ==→≡ k.address j.address first i;
      index = ==→≡ k.index j.index second i;
    }

or_comm : (a b : Bool) → (a || b) ≡ (b || a)
or_comm true true = refl
or_comm true false = refl
or_comm false true = refl
or_comm false false = refl

contains-add_needs :
    (j k : Slot) (d : ℕ) (smaller : List ℕ) (m : List Entry)
    → contains d (depths_of j (add_needs k smaller m))
      ≡ ((same_slot k j && contains d smaller) || contains d (depths_of j m))
contains-add_needs j k d [] m = elim (Bool-cases (same_slot k j)) [
  | inl e ↦ rw e refl
  | inr e ↦ rw e refl
]
contains-add_needs j k d (x ∷ smaller) m =
    let merged = merge_sorted_vec_dedup (depths_of k m) (x ∷ smaller) in
    elim (Bool-cases (same_slot k j)) [
      | inl e ↦
          rw
            (
              depths_of-update k j merged m,
              e,
              contains-merge d (depths_of k m) (x ∷ smaller),
              ap (λ s. depths_of s m) (same_slot→≡ k j e),
            )
            (or_comm (contains d (depths_of j m)) (contains d (x ∷ smaller)))
      | inr e ↦ rw (depths_of-update k j merged m, e) refl
    ]

-- What the data say of one slot and one depth after some steps.
record Tells (es : List Step) (j : Slot) (d : ℕ) : Type 0 where
  sorted : IsSorted (depths_of j (state_after es).reads)
  reads : contains d (depths_of j (state_after es).reads) ≡ was_read j d es
  needs : contains d (depths_of j (state_after es).need_writes) ≡ was_reread j d es
  found : is_found j (state_after es).found ≡ reentered j es

after_sload :
    (k j : Slot) (depth d : ℕ) (es : List Step)
    → Tells es k d
    → Tells es j d
    → Tells (sload k depth ∷ es) j d
unfolding state_after step on_sload
after_sload k j depth d es at_k at_j =
    let r = state_after es in
    let entry = depths_of k r.reads in
    elim (Bool-cases (same_slot k j)) [
      | inl e ↦
          (let p = same_slot→≡ k j e in
            let read_j : was_read k d es ≡ was_read j d es = ap (λ s. was_read s d es) p in
            record {
              sorted =
                  rw (depths_of-update k j (add_read depth entry) r.reads, e)
                    (add_read-IsSorted depth entry at_k.sorted);
              reads =
                  rw
                    (
                      depths_of-update k j (add_read depth entry) r.reads,
                      e,
                      contains-add_read d depth entry,
                      at_k.reads,
                      read_j,
                    )
                    (or_comm (was_read j d es) (depth == d));
              needs =
                  contains-add_needs j k d (found_smaller depth entry) r.need_writes
                  ∙ rw
                      (
                        e,
                        contains-found_smaller d depth entry at_k.sorted,
                        at_k.reads,
                        read_j,
                        at_j.needs,
                      )
                      refl;
              found = at_j.found;
            })
      | inr e ↦ record {
        sorted = rw (depths_of-update k j (add_read depth entry) r.reads, e) at_j.sorted;
        reads = rw (depths_of-update k j (add_read depth entry) r.reads, e) at_j.reads;
        needs =
            contains-add_needs j k d (found_smaller depth entry) r.need_writes ∙ rw e at_j.needs;
        found = at_j.found;
      }
    ]

after_sstore :
    (k j : Slot) (depth d : ℕ) (es : List Step)
    → Tells es k depth
    → Tells es j d
    → Tells (sstore k depth ∷ es) j d
unfolding state_after step on_sstore
after_sstore k j depth d es at_k at_j =
    let r = state_after es in
    let entry = depths_of k r.need_writes in
    let hit = is_found-insert (contains depth entry) k j r.found in
    elim (Bool-cases (same_slot k j)) [
      | inl e ↦
          (let p = same_slot→≡ k j e in
            record {
              sorted = at_j.sorted;
              reads = at_j.reads;
              needs =
                  rw (depths_of-update k j entry r.need_writes, e)
                    (ap (λ s. contains d (depths_of s r.need_writes)) p ∙ at_j.needs);
              found = hit ∙ rw (e, at_k.needs, ap (λ s. was_reread s depth es) p, at_j.found) refl;
            })
      | inr e ↦ record {
        sorted = at_j.sorted;
        reads = at_j.reads;
        needs = rw (depths_of-update k j entry r.need_writes, e) at_j.needs;
        found = hit ∙ rw e at_j.found;
      }
    ]

after_resume :
    (pending d : ℕ) (j : Slot) (es : List Step)
    → 0 < pending
    → pending < 2 ^ 32
    → Tells es j d
    → Tells (resume pending ∷ es) j d
unfolding state_after step before_execute
after_resume pending d j es some_pending word at_j =
    let r = state_after es in
    let depth = (pending % 2 ^ 32 + (2 ^ 32 - 1)) % 2 ^ 32 in
    let below : leb d depth ≡ ltb d pending =
      (let e : depth ≡ pending - 1 = omega arith in ground (arith, e)) in
    record {
      sorted = at_j.sorted;
      reads = at_j.reads;
      needs =
          rw (depths_of-retain j depth r.need_writes)
            (contains-filter d depth (depths_of j r.need_writes) ∙ rw (below, at_j.needs) refl);
      found = at_j.found;
    }

tells : (es : List Step) → Resumes es → (j : Slot) (d : ℕ) → Tells es j d
unfolding state_after
tells [] valid j d = record { sorted = tt; reads = refl; needs = refl; found = refl }
tells (sload k depth ∷ es) valid j d =
    after_sload k j depth d es (tells es valid k d) (tells es valid j d)
tells (sstore k depth ∷ es) valid j d =
    after_sstore k j depth d es (tells es valid k depth) (tells es valid j d)
tells (resume pending ∷ es) valid j d =
    after_resume pending d j es valid.0 valid.1 (tells es valid.2 j d)

-- After any steps from empty data, where a resumption has between 1 and 2 ^ 32 - 1 pending
-- post-executions, the found slots are exactly those that were written at a depth where they had been
-- read before, with a read at a larger depth between the two, after which no call was resumed with
-- pending post-executions at most as many as that depth.
pub found_lem :
    (es : List Step) (j : Slot) → Resumes es → is_found j (state_after es).found ≡ reentered j es
found_lem es j valid = (tells es valid j 0).found

-- The depths that are kept for the reads of a slot are sorted without duplicates, and are exactly the
-- depths at which it was read, under the same condition.
pub reads_lem :
    (es : List Step) (j : Slot) (d : ℕ)
    → Resumes es
    → IsSorted (depths_of j (state_after es).reads)
      × (contains d (depths_of j (state_after es).reads) ≡ was_read j d es)
reads_lem es j d valid = let t = tells es valid j d in (t.sorted, t.reads)
