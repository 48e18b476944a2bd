-- ===== src/Corpus/History.antt =====
-- indexed_corpus.rs: sequences of additions and removals.
use ityfuzz_rl_src.Prelude.{
  ℕ, suc, ◌+◌, ◌<◌, ◌≡◌, refl, inl, inr, List, [], ◌∷◌, Option, none, some, if◌then◌else◌, ◌==◌,
  lookup, remove, u64_mod, lookup-insert, lookup-remove, Option-cases, arith, ◌∙◌, sym,
}
use ityfuzz_rl_src.Corpus
use ityfuzz_rl_src.Corpus.{IndexedInMemoryCorpus}

pub data Event (T : Type 0) : Type 0 where
  added : T → Event T
  removed : ℕ → Event T

module _ (T : Type 0) where
  abbrev and_then : {A : Type 0} → Option A → (A → Option A) → Option A
  and_then none f = none
  and_then (some a) f = f a

  abbrev forget_entry : Option (IndexedInMemoryCorpus T × T) → Option (IndexedInMemoryCorpus T)
  forget_entry none = none
  forget_entry (some (c, t)) = some c

  -- The corpus after an event, and after events; `none` is the panic of a removal of a missing entry.
  unfoldable pub happen : Event T → IndexedInMemoryCorpus T → Option (IndexedInMemoryCorpus T)
  unfolding Corpus.add Corpus.remove_entry
  happen (added t) c = some (Corpus.add T t c).0
  happen (removed idx) c = forget_entry (Corpus.remove_entry T idx c)

  unfoldable pub replay :
      List (Event T) → IndexedInMemoryCorpus T → Option (IndexedInMemoryCorpus T)
  unfolding happen
  replay [] c = some c
  replay (event ∷ events) c = and_then (happen event c) (replay events)

  -- How many entries the events add.
  abbrev pub additions : List (Event T) → ℕ
  additions [] = 0
  additions (added t ∷ events) = suc (additions events)
  additions (removed idx ∷ events) = additions events

  -- The abstract corpus: how many entries were ever added, and what each index names.
  pub record Abstract : Type 0 where
    pub size : ℕ
    pub entry : ℕ → Option T

  abbrev pub empty : Abstract
  empty = record { size = 0; entry = λ idx. none }

  abbrev forget_old : Option T → Abstract → Option Abstract
  forget_old none a = none
  forget_old (some t) a = some a

  unfoldable pub happen_abstract : Event T → Abstract → Option Abstract
  happen_abstract (added t) a =
      some
        (record { size = a.size + 1; entry = λ idx. if a.size == idx then some t else a.entry idx })
  happen_abstract (removed i) a =
      forget_old (a.entry i)
        (record { size = a.size; entry = λ idx. if i == idx then none else a.entry idx })

  unfoldable pub replay_abstract : List (Event T) → Abstract → Option Abstract
  unfolding happen_abstract
  replay_abstract [] a = some a
  replay_abstract (event ∷ events) a = and_then (happen_abstract event a) (replay_abstract events)

  -- A corpus is as the abstract one says.
  pub record Represents (c : IndexedInMemoryCorpus T) (a : Abstract) : Type 0 where
    pub counted : Corpus.count T c ≡ a.size
    pub named : (idx : ℕ) → Corpus.get T idx c ≡ a.entry idx

  abbrev pub Refines : Option (IndexedInMemoryCorpus T) → Option Abstract → Type 0
  Refines none none = Unit
  Refines (some c) (some a) = Represents c a
  Refines _ _ = ⊥

  remove-Represents :
      (i : ℕ) (c : IndexedInMemoryCorpus T) (a : Abstract)
      → Represents c a
      → Represents
          (record c { entries = remove i c.entries })
          (record { size = a.size; entry = λ idx. if i == idx then none else a.entry idx })
  unfolding Corpus.count Corpus.get
  remove-Represents i c a r = record {
    counted = r.counted;
    named = λ idx. lookup-remove i idx c.entries ∙ rw (r.named idx) refl;
  }

  add-Represents :
      (t : T) (c : IndexedInMemoryCorpus T) (a : Abstract)
      → a.size + 1 < u64_mod
      → Represents c a
      → Represents (Corpus.add T t c).0 (record {
        size = a.size + 1;
        entry = λ idx. if a.size == idx then some t else a.entry idx;
      })
  unfolding Corpus.count Corpus.get Corpus.add
  add-Represents t c a room r =
      let size : c.current_idx ≡ a.size = r.counted in
      record {
        counted = rw size (omega arith);
        named = λ idx. lookup-insert c.current_idx idx t c.entries ∙ rw (size, r.named idx) refl;
      }

  events-Refines :
      (events : List (Event T)) (c : IndexedInMemoryCorpus T) (a : Abstract)
      → a.size + additions events < u64_mod
      → Represents c a
      → Refines (replay events c) (replay_abstract events a)
  unfolding replay replay_abstract happen happen_abstract Corpus.remove_entry Corpus.count
      Corpus.get
  events-Refines [] c a room r = r
  events-Refines (added t ∷ events) c a room r =
      events-Refines events _ _ (omega arith) (add-Represents t c a (omega arith) r)
  events-Refines (removed i ∷ events) c a room r = elim (Option-cases (lookup i c.entries)) [
    | inl e ↦ let gone : a.entry i ≡ none = sym (r.named i) ∙ e in rw (e, gone) tt
    | inr (t, e) ↦
        let found : a.entry i ≡ some t = sym (r.named i) ∙ e in
        rw (e, found) (events-Refines events _ _ room (remove-Represents i c a r))
  ]

  -- The indexed corpus does what the abstract one does: over every sequence of fewer than 2^64
  -- additions, and removals, it panics exactly when a removal finds no entry, its count is the number
  -- of additions ever made, whatever was removed, and each index names the entry that was added under
  -- it unless it was removed.
  pub replay-Refines :
      (events : List (Event T))
      → additions events < u64_mod
      → Refines (replay events (Corpus.new T)) (replay_abstract events empty)
  unfolding Corpus.count Corpus.get Corpus.new
  replay-Refines events room =
      events-Refines events (Corpus.new T) empty (omega arith)
        (record { counted = refl; named = λ idx. refl })
