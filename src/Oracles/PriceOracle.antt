-- ===== src/Oracles/PriceOracle.antt =====
-- evm/oracles/price_oracle_manip.rs: `PoolState` and `PriceOracleOracle`. Prices are `f64` values.
use ityfuzz_rl_src.Prelude.{
  ℕ, ◌-◌, ◌^◌, ◌≡◌, refl, inl, inr, Bool, false, ◌||◌, List, [], ◌∷◌, none, some, min,
  if◌then◌else◌, ◌==◌, find, any, Bool-cases, Floats,
}

abbrev pub price_oracle_bug_idx : ℕ
price_oracle_bug_idx = 20

pub record PoolState : Type 0 where
  pub pool_addr : ℕ
  pub reserve_a : ℕ
  pub reserve_b : ℕ

-- `saturating_to::<u128>()`
abbrev pub saturating_u128 : ℕ → ℕ
saturating_u128 v = min v (2 ^ 128 - 1)

module _ (fl : Floats) where
  open fl use {F, of_nat, literal, sub, div, abs, lt, feq, max_value}

  abbrev pub price_deviation_threshold : F
  price_deviation_threshold = literal 5 1

  unfoldable pub price : PoolState → F
  price p =
      let a = of_nat (saturating_u128 p.reserve_a) in
      let b = of_nat (saturating_u128 p.reserve_b) in
      if feq b (literal 0 0) then max_value else div a b

  pub record PriceOracleOracle : Type 0 where
    pub pre_pools : List PoolState
    pub threshold : F

  unfoldable pub new : F → PriceOracleOracle
  new threshold = record { pre_pools = []; threshold = threshold }

  unfoldable pub snapshot : List PoolState → PriceOracleOracle → PriceOracleOracle
  snapshot pools o = record o { pre_pools = pools }

  -- Whether the price moved too far from `pre` to `post`; a pool without a usable price is skipped.
  unfoldable pub deviates : F → PoolState → PoolState → Bool
  unfolding price
  deviates threshold pre post =
      if feq (price pre) (literal 0 0) || feq (price pre) max_value
      then false
      else lt threshold (abs (div (sub (price post) (price pre)) (price pre)))

  -- The test of one pool after the execution against its snapshot, if there is one.
  unfoldable pub manipulated : PriceOracleOracle → PoolState → Bool
  unfolding deviates
  manipulated o post = elim (find (λ (p : PoolState). p.pool_addr == post.pool_addr) o.pre_pools) [
    | none ↦ false
    | some pre ↦ deviates o.threshold pre post
  ]

  unfoldable pub inspect : PriceOracleOracle → List PoolState → List ℕ
  unfolding manipulated
  inspect o [] = []
  inspect o (post ∷ post_pools) =
      let rest = inspect o post_pools in
      if manipulated o post then price_oracle_bug_idx ∷ [] else rest

  unfoldable pub inspect_twap_bypass : F → List ℕ
  inspect_twap_bypass swap_size_ratio =
      if lt (literal 3 1) swap_size_ratio then price_oracle_bug_idx ∷ [] else []

  -- The report in closed form: once when some pool is manipulated, and else nothing.
  pub inspect-closed :
      (o : PriceOracleOracle) (post_pools : List PoolState)
      → inspect o post_pools ≡ (if any (manipulated o) post_pools then 20 ∷ [] else [])
  unfolding inspect
  inspect-closed o [] = refl
  inspect-closed o (post ∷ post_pools) = elim (Bool-cases (manipulated o post)) [
    | inl e ↦ rw e refl
    | inr e ↦ rw e (inspect-closed o post_pools)
  ]
