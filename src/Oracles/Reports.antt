-- ===== src/Oracles/Reports.antt =====
-- What `run_gap_oracles` reports (fuzzers/cross_chain_fuzzer.rs and the three snapshot oracles).
use ityfuzz_rl_src.Prelude.{
  ℕ, ◌^◌, ◌<◌, ◌≡◌, ◌⊎◌, Bool, true, false, List, [], ◌∷◌, ◌++◌, some, if◌then◌else◌, ◌==◌, find,
  Floats,
}
use ityfuzz_rl_src.Oracles.AccessControl
use ityfuzz_rl_src.Oracles.IntegerOverflow
use ityfuzz_rl_src.Oracles.PriceOracle
use ityfuzz_rl_src.Oracles.PriceOracle.{PoolState, PriceOracleOracle, price}

-- Some element satisfies the predicate.
abbrev pub Any {ℓ} : {A : Type ℓ} → (A → Type 0) → List A → Type 0
Any P [] = ⊥
Any P (x ∷ xs) = P x ⊎ Any P xs

-- The value of a slot before and after: of its last change, and else the one given.
abbrev pub value_before : ℕ → List (ℕ × ℕ × ℕ) → ℕ → ℕ
value_before slot [] value = value
value_before slot ((s, pre, post) ∷ changes) value =
    value_before slot changes (if s == slot then pre else value)

abbrev pub value_after : ℕ → List (ℕ × ℕ × ℕ) → ℕ → ℕ
value_after slot [] value = value
value_after slot ((s, pre, post) ∷ changes) value =
    value_after slot changes (if s == slot then post else value)

-- The slot's value differs; a slot that no change names holds zero.
abbrev pub Differs : List (ℕ × ℕ × ℕ) → ℕ → Type 0
Differs changes slot = ¬ (value_before slot changes 0 ≡ value_after slot changes 0)

-- From below a million to above 2^255, or back.
abbrev pub Wraps : ℕ × ℕ × ℕ → Type 0
Wraps (slot, pre, post) =
    ((pre < 1000000) × (2 ^ 255 < post)) ⊎ ((2 ^ 255 < pre) × (post < 1000000))

abbrev three : Bool → Bool → Bool → List ℕ
three a b c =
    (if a then 19 ∷ [] else []) ++ ((if b then 11 ∷ [] else []) ++ (if c then 20 ∷ [] else []))

module _ (fl : Floats) where
  open fl use {literal, sub, div, abs, lt, feq, max_value}

  -- The pool has a snapshot with a price other than 0 and the largest number, and the price moved by
  -- more than the threshold, as a part of the snapshot's price.
  abbrev pub PriceMoved : PriceOracleOracle fl → PoolState → Type 0
  PriceMoved o post =
      (pre : PoolState) × (find (λ (p : PoolState). p.pool_addr == post.pool_addr) o.pre_pools
        ≡ some pre)
      × (feq (price fl pre) (literal 0 0) ≡ false)
      × (feq (price fl pre) max_value ≡ false)
      × (lt o.threshold (abs (div (sub (price fl post) (price fl pre)) (price fl pre))) ≡ true)
