-- ===== src/Minimizer/Minimal.antt =====
-- evm/minimizer.rs: `minimize` ends with transactions that reproduce the bug, none of which can go.
use ityfuzz_rl_src.Prelude.{
  ℕ, zero, suc, ◌+◌, ◌<◌, ◌≡◌, refl, ap, ◌∙◌, inl, inr, Bool, true, false, not, ◌&&◌, ◌||◌, List,
  [], ◌∷◌, Option, none, some, arith, if◌then◌else◌, ◌==◌, length, Bool-cases,
}
use ityfuzz_rl_src.Minimizer.{Executor, replay, first_skip, without, or_shorter, minimize}

-- The first list is the second with some elements left out.
pub data Sublist {A : Type 0} : List A → List A → Type 0 where
  empty : Sublist [] []
  keep : (x : A) {xs ys : List A} → Sublist xs ys → Sublist (x ∷ xs) (x ∷ ys)
  leave : (x : A) {xs ys : List A} → Sublist xs ys → Sublist xs (x ∷ ys)

Sublist-refl : {A : Type 0} (xs : List A) → Sublist xs xs
Sublist-refl [] = empty
Sublist-refl (x ∷ xs) = keep x (Sublist-refl xs)

Sublist-trans : {A : Type 0} {xs ys zs : List A} → Sublist xs ys → Sublist ys zs → Sublist xs zs
Sublist-trans p empty = p
Sublist-trans p (leave x q) = leave x (Sublist-trans p q)
Sublist-trans (keep x p) (keep _ q) = keep x (Sublist-trans p q)
Sublist-trans (leave x p) (keep _ q) = leave x (Sublist-trans p q)

joined :
    (sol hit stuck reverted later : Bool) {all : Bool}
    → all ≡ ((sol || hit) || later)
    → (if stuck then sol else (if reverted then sol || hit else all))
      ≡ (sol || (if stuck then false else (hit || (if reverted then false else later))))
joined sol hit stuck reverted later e = ground arith

module _ {Tx Vm : Type 0} (executor : Executor Tx Vm) where
  -- Whether the transactions, one after the other, reproduce the bug: up to a revert, and up to a
  -- step that finds nothing to go on with.
  abbrev pub reproduces : List Tx → Vm → Bool
  reproduces [] state = false
  reproduces (tx ∷ txs) state =
      let later = reproduces txs (executor.execute tx state).new_state in
      if executor.is_step tx && not (executor.has_post_execution state)
      then false
      else ((executor.execute tx state).reproduces
          || (if (executor.execute tx state).reverted then false else later))

  replay_past :
      (k i : ℕ) (txs : List Tx) (state : Vm) (sol : Bool)
      → k < i
      → replay executor k i txs state sol ≡ (sol || reproduces txs state)
  unfolding replay
  replay_past k i [] state sol past = ground arith
  replay_past k i (tx ∷ txs) state sol past =
      let other : (i == k) ≡ false = ground arith in
      let outcome = executor.execute tx state in
      rw other (
        joined sol outcome.reproduces
          (executor.is_step tx && not (executor.has_post_execution state)) outcome.reverted
          (reproduces txs outcome.new_state)
          (replay_past k (suc i) txs outcome.new_state (sol || outcome.reproduces) (omega arith)))

  -- Skipping one index is replaying the others.
  pub replay-without :
      (k i : ℕ) (txs : List Tx) (state : Vm) (sol : Bool)
      → replay executor (i + k) i txs state sol ≡ (sol || reproduces (without k txs) state)
  unfolding replay
  replay-without k i [] state sol = ground arith
  replay-without zero i (tx ∷ txs) state sol =
      let here : (i == i + 0) ≡ true = ground arith in
      rw here (replay_past (i + 0) (suc i) txs state sol (omega arith))
  replay-without (suc k) i (tx ∷ txs) state sol =
      let other : (i == i + suc k) ≡ false = ground arith in
      let next : i + suc k ≡ suc i + k = omega arith in
      let outcome = executor.execute tx state in
      rw other (
        joined sol outcome.reproduces
          (executor.is_step tx && not (executor.has_post_execution state)) outcome.reverted
          (reproduces (without k txs) outcome.new_state)
          (ap (λ n. replay executor n (suc i) txs outcome.new_state (sol || outcome.reproduces))
              next
            ∙ replay-without k (suc i) txs outcome.new_state (sol || outcome.reproduces)))

length-without :
    {A : Type 0} (k : ℕ) (txs : List A) → k < length txs → suc (length (without k txs)) ≡ length txs
length-without k [] lt = elim lt [ ]
length-without zero (tx ∷ txs) lt = refl
length-without (suc k) (tx ∷ txs) lt = ap suc (length-without k txs (omega arith))

without-Sublist : {A : Type 0} (k : ℕ) (txs : List A) → Sublist (without k txs) txs
without-Sublist k [] = empty
without-Sublist zero (tx ∷ txs) = leave tx (Sublist-refl txs)
without-Sublist (suc k) (tx ∷ txs) = keep tx (without-Sublist k txs)

module _ {Tx Vm : Type 0} (executor : Executor Tx Vm) (initial_state : Vm) where
  -- None of the next `n` transactions from index `k` can be left out.
  abbrev pub all_needed : (n k : ℕ) → List Tx → Bool
  all_needed zero k txs = true
  all_needed (suc n) k txs =
      not (reproduces executor (without k txs) initial_state) && all_needed n (suc k) txs

  abbrev IsSkip : (n k : ℕ) → List Tx → Option ℕ → Type 0
  IsSkip n k txs none = all_needed n k txs ≡ true
  IsSkip n k txs (some j) = (j < k + n) × (reproduces executor (without j txs) initial_state ≡ true)

  IsSkip-suc :
      (n k : ℕ) (txs : List Tx) (o : Option ℕ)
      → reproduces executor (without k txs) initial_state ≡ false
      → IsSkip n (suc k) txs o
      → IsSkip (suc n) k txs o
  IsSkip-suc n k txs none here rest = rw here rest
  IsSkip-suc n k txs (some j) here rest = (omega (arith, rest.0), rest.1)

  first_skip-IsSkip :
      (n k : ℕ) (txs : List Tx) → IsSkip n k txs (first_skip executor initial_state n k txs)
  unfolding first_skip
  first_skip-IsSkip zero k txs = refl
  first_skip-IsSkip (suc n) k txs =
      let tried : replay executor k 0 txs initial_state false
          ≡ reproduces executor (without k txs) initial_state =
        ap (λ i. replay executor i 0 txs initial_state false) (omega arith)
        ∙ replay-without executor k 0 txs initial_state false in
      elim (Bool-cases (reproduces executor (without k txs) initial_state)) [
        | inl e ↦ rw (tried, e) (omega arith, e)
        | inr e ↦ rw (tried, e) (IsSkip-suc n k txs _ e (first_skip-IsSkip n (suc k) txs))
      ]

  abbrev Minimized : List Tx → Option (List Tx) → Type 0
  Minimized txs o =
      (out : List Tx) × (o ≡ some out)
      × (reproduces executor out initial_state ≡ true)
      × Sublist out txs
      × (all_needed (length out) 0 out ≡ true)

  minimized :
      (fuel : ℕ) (txs : List Tx) (o : Option ℕ)
      → ((less : List Tx)
          → length less < fuel
          → reproduces executor less initial_state ≡ true
          → Minimized less (minimize executor initial_state fuel less))
      → length txs < suc fuel
      → reproduces executor txs initial_state ≡ true
      → IsSkip (length txs) 0 txs o
      → Minimized txs (or_shorter txs (minimize executor initial_state fuel) o)
  minimized fuel txs none again few bug skip = (txs, refl, bug, Sublist-refl txs, skip)
  minimized fuel txs (some j) again few bug (inside, still) =
      let (out, e, bug', sub, minimal) =
        again (without j txs) (omega (arith, length-without j txs (omega arith))) still in
      (out, e, bug', Sublist-trans sub (without-Sublist j txs), minimal)

  -- For transactions that reproduce the bug from the initial state, more rounds than there are
  -- transactions are enough: the loop ends, with some of the transactions in their order, which still
  -- reproduce the bug, and none of which can be left out alone.
  pub minimize_lem :
      (fuel : ℕ) (txs : List Tx)
      → length txs < fuel
      → reproduces executor txs initial_state ≡ true
      → (out : List Tx) × (minimize executor initial_state fuel txs ≡ some out)
        × (reproduces executor out initial_state ≡ true)
        × Sublist out txs
        × (all_needed (length out) 0 out ≡ true)
  unfolding minimize
  minimize_lem zero txs few bug = elim few [ ]
  minimize_lem (suc fuel) txs few bug =
      minimized fuel txs _ (minimize_lem fuel) few bug (first_skip-IsSkip (length txs) 0 txs)
