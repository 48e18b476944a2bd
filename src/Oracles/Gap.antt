-- ===== src/Oracles/Gap.antt =====
-- fuzzers/cross_chain_fuzzer.rs: `run_gap_oracles`.
use ityfuzz_rl_src.Prelude.{ℕ, List, [], ◌∷◌, ◌++◌, HashMap, insert, Floats}
use ityfuzz_rl_src.Oracles.AccessControl
use ityfuzz_rl_src.Oracles.AccessControl.{AccessControlState, changed}
use ityfuzz_rl_src.Oracles.IntegerOverflow
use ityfuzz_rl_src.Oracles.IntegerOverflow.{check_slot, flag_slot}
use ityfuzz_rl_src.Oracles.PriceOracle
use ityfuzz_rl_src.Oracles.PriceOracle.{PoolState, PriceOracleOracle, manipulated}

-- `collect` into a map: a later pair for the same slot replaces an earlier one.
abbrev pub collect_before : List (ℕ × ℕ × ℕ) → HashMap ℕ → HashMap ℕ
collect_before [] m = m
collect_before ((slot, pre, post) ∷ changes) m = collect_before changes (insert slot pre m)

abbrev pub collect_after : List (ℕ × ℕ × ℕ) → HashMap ℕ → HashMap ℕ
collect_after [] m = m
collect_after ((slot, pre, post) ∷ changes) m = collect_after changes (insert slot post m)

module _ (fl : Floats) where
  -- The argument `pre_pools` is not used: the snapshot in the price oracle is.
  unfoldable pub run_gap_oracles :
      (caller : ℕ) (slot_changes : List (ℕ × ℕ × ℕ)) (pre_pools post_pools : List PoolState)
      → AccessControlState
      → PriceOracleOracle fl
      → List ℕ
  unfolding AccessControl.inspect IntegerOverflow.inspect PriceOracle.inspect
  run_gap_oracles caller slot_changes pre_pools post_pools ac_oracle price_oracle =
      AccessControl.inspect ac_oracle caller (collect_before slot_changes [])
        (collect_after slot_changes [])
      ++ (IntegerOverflow.inspect slot_changes ++ PriceOracle.inspect fl price_oracle post_pools)
