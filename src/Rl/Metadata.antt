-- ===== src/Rl/Metadata.antt =====
-- rl_scheduler.rs: the methods of `RLMetadata`, with the constants of const.rs. `none` is a panic.
use ityfuzz_rl_src.Prelude.{
  ℕ, suc, ◌≡◌, refl, inl, inr, min, Bool, true, false, List, [], ◌∷◌, Option, none, some,
  if◌then◌else◌, lookup_or, insert, length, get_elem?, zero, ◌-◌, ◌<◌, arith, wrapping_add, Floats,
  All, Bool-cases,
}
use ityfuzz_rl_src.Scheduler.State.{RlMetadata}

module _ (fl : Floats) where
  open fl use {F, of_nat, literal, to_nat, add, sub, mul, div, fmax, ln, sqrt, lt}

  abbrev pub rl_init_q : F
  rl_init_q = literal 1 0

  unfoldable pub get_mean : ℕ → RlMetadata fl → F
  get_mean idx m = lookup_or idx rl_init_q m.mean_reward

  unfoldable pub ucb_score : ℕ → RlMetadata fl → F
  unfolding get_mean
  ucb_score idx m =
      let visits = of_nat (lookup_or idx 1 m.visit_count) in
      let bonus = mul (literal 15 1) (sqrt (div (ln (of_nat m.total_visits)) visits)) in
      add (get_mean idx m) bonus

  unfoldable pub update : ℕ → F → RlMetadata fl → RlMetadata fl
  update idx reward m =
      let visits = wrapping_add (lookup_or idx 0 m.visit_count) 1 in
      let mean = lookup_or idx rl_init_q m.mean_reward in
      record m {
        visit_count = insert idx visits m.visit_count;
        mean_reward = insert idx (add mean (div (sub reward mean) (of_nat visits))) m.mean_reward;
        total_visits = wrapping_add m.total_visits 1;
        total_reward = add m.total_reward reward;
      }

  unfoldable pub decay_epsilon : RlMetadata fl → RlMetadata fl
  decay_epsilon m = record m { epsilon = fmax (mul m.epsilon (literal 9995 4)) (literal 5 2) }

  -- `max_by` over the rest of the indices: the last of the best ones.
  unfoldable pub best_of : RlMetadata fl → ℕ → List ℕ → ℕ
  unfolding ucb_score
  best_of m best [] = best
  best_of m best (idx ∷ indices) =
      best_of m (if lt (ucb_score idx m) (ucb_score best m) then best else idx) indices

  abbrev with_metadata : RlMetadata fl → Option ℕ → Option (RlMetadata fl × ℕ)
  with_metadata m none = none
  with_metadata m (some idx) = some (m, idx)

  -- An index out of range is a panic.
  abbrev explore : RlMetadata fl → F → List ℕ → Option (RlMetadata fl × ℕ)
  explore m rand_val indices =
      let i = to_nat (mul (div rand_val m.epsilon) (of_nat (length indices))) in
      with_metadata (record m { explore_count = wrapping_add m.explore_count 1 })
        (get_elem? indices (min i (length indices - 1)))

  abbrev exploit : RlMetadata fl → ℕ → List ℕ → Option (RlMetadata fl × ℕ)
  unfolding best_of
  exploit m first rest =
      let m' = record m { exploit_count = wrapping_add m.exploit_count 1 } in
      some (m', best_of m' first rest)

  unfoldable pub select : List ℕ → F → RlMetadata fl → Option (RlMetadata fl × ℕ)
  unfolding decay_epsilon best_of
  select [] rand_val m = none
  select (first ∷ rest) rand_val m =
      let m' = decay_epsilon m in
      if lt rand_val m'.epsilon then explore m' rand_val (first ∷ rest) else exploit m' first rest

  best_of-All :
      (P : ℕ → Type 0) (m : RlMetadata fl) (best : ℕ) (indices : List ℕ)
      → P best
      → All P indices
      → P (best_of m best indices)
  unfolding best_of
  best_of-All P m best [] p h = p
  best_of-All P m best (idx ∷ indices) p h =
      elim (Bool-cases (lt (ucb_score idx m) (ucb_score best m))) [
        | inl e ↦ rw e (best_of-All P m best indices p h.1)
        | inr e ↦ rw e (best_of-All P m idx indices h.0 h.1)
      ]

  -- A selection from some indices: it does not panic, picks one of them, and keeps the table.
  pub record Selects (P : ℕ → Type 0) (m : RlMetadata fl) (r : Option (RlMetadata fl × ℕ))
      : Type 0 where
    pub after : RlMetadata fl
    pub chosen : ℕ
    pub returned : r ≡ some (after, chosen)
    pub picked : P chosen
    pub same_means : after.mean_reward ≡ m.mean_reward

  either-Selects :
      (P : ℕ → Type 0) (m : RlMetadata fl) (b : Bool) (x y : Option (RlMetadata fl × ℕ))
      → Selects P m x
      → Selects P m y
      → Selects P m (if b then x else y)
  either-Selects P m true x y sx sy = sx
  either-Selects P m false x y sx sy = sy

  -- An index that is cut to the last one is in range.
  get_elem-All :
      (P : ℕ → Type 0) (xs : List ℕ) (i : ℕ)
      → i < length xs
      → All P xs
      → (x : ℕ) × (get_elem? xs i ≡ some x) × P x
  get_elem-All P [] i few h = elim few [ ]
  get_elem-All P (x ∷ xs) zero few h = (x, refl, h.0)
  get_elem-All P (x ∷ xs) (suc i) few h = get_elem-All P xs i (omega arith) h.1

  explore-Selects :
      (P : ℕ → Type 0) (old m : RlMetadata fl) (rand_val : F) (first : ℕ) (rest : List ℕ)
      → m.mean_reward ≡ old.mean_reward
      → All P (first ∷ rest)
      → Selects P old (explore m rand_val (first ∷ rest))
  explore-Selects P old m rand_val first rest same h =
      let i = to_nat (mul (div rand_val m.epsilon) (of_nat (length (first ∷ rest)))) in
      let (idx, found, p) =
        get_elem-All P (first ∷ rest) (min i (length (first ∷ rest) - 1)) (omega arith) h in
      record {
        after = record m { explore_count = wrapping_add m.explore_count 1 };
        chosen = idx;
        returned = rw found refl;
        picked = p;
        same_means = same;
      }

  exploit-Selects :
      (P : ℕ → Type 0) (old m : RlMetadata fl) (first : ℕ) (rest : List ℕ)
      → m.mean_reward ≡ old.mean_reward
      → All P (first ∷ rest)
      → Selects P old (exploit m first rest)
  unfolding best_of
  exploit-Selects P old m first rest same h =
      let m' : RlMetadata fl = record m { exploit_count = wrapping_add m.exploit_count 1 } in
      record {
        after = m';
        chosen = best_of m' first rest;
        returned = refl;
        picked = best_of-All P m' first rest h.0 h.1;
        same_means = same;
      }

  pub select-Selects :
      (P : ℕ → Type 0) (first : ℕ) (rest : List ℕ) (rand_val : F) (m : RlMetadata fl)
      → All P (first ∷ rest)
      → Selects P m (select (first ∷ rest) rand_val m)
  unfolding select decay_epsilon best_of
  select-Selects P first rest rand_val m h =
      let m' = decay_epsilon m in
      either-Selects P m _ (explore m' rand_val (first ∷ rest)) (exploit m' first rest)
        (explore-Selects P m m' rand_val first rest refl h)
        (exploit-Selects P m m' first rest refl h)
