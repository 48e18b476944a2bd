-- ===== src/Corpus.antt =====
-- indexed_corpus.rs: `IndexedInMemoryCorpus`. `none` is a panic, and for `get` the error that the
-- key is not found. The field `dummy` is never read, and is left out.
pub mod History
use ityfuzz_rl_src.Prelude.{
  ℕ, ◌+◌, Bool, ◌&&◌, List, [], Option, none, some, if◌then◌else◌, ltb, HashMap, lookup, insert,
  remove, wrapping_add, wrapping_sub,
}

module _ {ℓ} (T : Type ℓ) where
  pub record IndexedInMemoryCorpus : Type ℓ where
    pub entries : HashMap T
    pub current_idx : ℕ
    pub current : Option ℕ

  unfoldable pub new : IndexedInMemoryCorpus
  new = record { entries = []; current_idx = 0; current = none }

  unfoldable pub count : IndexedInMemoryCorpus → ℕ
  count c = c.current_idx

  -- The corpus, and the index that the testcase got.
  unfoldable pub add : T → IndexedInMemoryCorpus → IndexedInMemoryCorpus × ℕ
  add testcase c =
      let next_idx = wrapping_add c.current_idx 1 in
      (
        record c { entries = insert c.current_idx testcase c.entries; current_idx = next_idx },
        wrapping_sub next_idx 1,
      )

  unfoldable pub replace : ℕ → T → IndexedInMemoryCorpus → Option (IndexedInMemoryCorpus × T)
  replace idx testcase c = elim (lookup idx c.entries) [
    | none ↦ none
    | some original ↦ some (record c { entries = insert idx testcase c.entries }, original)
  ]

  abbrev taken : IndexedInMemoryCorpus → Option T → Option (IndexedInMemoryCorpus × T)
  taken c none = none
  taken c (some original) = some (c, original)

  unfoldable pub remove_entry : ℕ → IndexedInMemoryCorpus → Option (IndexedInMemoryCorpus × T)
  remove_entry idx c = taken (record c { entries = remove idx c.entries }) (lookup idx c.entries)

  unfoldable pub get : ℕ → IndexedInMemoryCorpus → Option T
  get idx c = lookup idx c.entries

  unfoldable pub next : ℕ → IndexedInMemoryCorpus → Option ℕ
  next idx c = if ltb idx (wrapping_sub c.current_idx 1) then some (wrapping_add idx 1) else none

  unfoldable pub prev : ℕ → IndexedInMemoryCorpus → Option ℕ
  prev idx c = if ltb 0 idx && ltb idx c.current_idx then some (wrapping_sub idx 1) else none

  unfoldable pub first : IndexedInMemoryCorpus → Option ℕ
  first c = if ltb 0 c.current_idx then some 0 else none

  unfoldable pub last : IndexedInMemoryCorpus → Option ℕ
  last c = if ltb 0 c.current_idx then some (wrapping_sub c.current_idx 1) else none
