-- ===== src/Rl/Reward.antt =====
-- rl_scheduler.rs: `RewardSignal`, `CrossChainRewardSignal` and `build_cross_chain_signal`, with the
-- constants of const.rs.
use ityfuzz_rl_src.Prelude.{
  ℕ, ◌-◌, ◌^◌, min, Bool, [], ◌∷◌, some, if◌then◌else◌, ltb, HashMap, lookup_or, wrapping_add,
  Floats,
}
use ityfuzz_rl_src.CrossChain.State.{DualChainState}
use ityfuzz_rl_src.Scheduler.State.{RewardSignal, CorpusOps, FuzzerState}

module _ (fl : Floats) where
  open fl use {F, of_nat, literal, neg, add, sub, mul, div, ln, ln_1p, lt, feq}

  abbrev pub rl_reward_cmp_improve : F
  rl_reward_cmp_improve = literal 5 0

  abbrev pub rl_reward_cov_new : F
  rl_reward_cov_new = literal 3 0

  abbrev add_if : Bool → F → F → F
  add_if flag amount r = if flag then add r amount else r

  -- `RewardSignal::compute_reward`.
  unfoldable pub compute_reward : RewardSignal fl → F
  compute_reward s = add_if s.new_coverage rl_reward_cov_new (
      add_if (lt (literal 0 0) s.cmp_improvement)
        (mul rl_reward_cmp_improve (ln_1p s.cmp_improvement))
        (add_if s.bug_found (literal 100 0) (neg (literal 1 1))))

  unfoldable pub set_reward_signal :
      {ops : CorpusOps} (cmp_improvement : F) (new_coverage bug_found : Bool)
      → FuzzerState fl ops
      → FuzzerState fl ops
  set_reward_signal cmp_improvement new_coverage bug_found st = record st {
    reward = some (record {
      cmp_improvement = cmp_improvement;
      new_coverage = new_coverage;
      bug_found = bug_found;
    });
  }

  pub record CrossChainRewardSignal : Type 0 where
    pub message_dispatched : Bool
    pub message_relayed : Bool
    pub invariant_delta : F

  -- `CrossChainRewardSignal::compute_reward`.
  unfoldable pub cross_chain_reward : CrossChainRewardSignal → F
  cross_chain_reward s =
      add_if (lt (literal 0 0) s.invariant_delta)
        (mul (literal 10 0) (ln (add (literal 1 0) s.invariant_delta)))
        (add_if s.message_relayed (literal 8 0)
          (add_if s.message_dispatched (literal 4 0) (literal 0 0)))

  -- `saturating_to::<u128>() as f64`
  abbrev u128_float : ℕ → F
  u128_float v = of_nat (min v (2 ^ 128 - 1))

  -- The loop over the locked amounts.
  unfoldable pub largest_delta : HashMap ℕ → HashMap ℕ → F → F
  largest_delta [] minted_b max_delta = max_delta
  largest_delta ((token, locked) ∷ rest) minted_b max_delta =
      let locked_f = u128_float locked in
      let delta = div (sub (u128_float (lookup_or token 0 minted_b)) locked_f) locked_f in
      largest_delta rest minted_b (
        if feq locked_f (literal 0 0)
        then max_delta
        else if lt max_delta delta
        then delta
        else max_delta)

  unfoldable pub build_cross_chain_signal :
      (prev_pending prev_processed curr_pending curr_processed : ℕ)
      → DualChainState
      → CrossChainRewardSignal
  unfolding largest_delta
  build_cross_chain_signal prev_pending prev_processed curr_pending curr_processed state = record {
    message_dispatched =
        ltb (wrapping_add prev_pending prev_processed) (wrapping_add curr_pending curr_processed);
    message_relayed = ltb prev_processed curr_processed;
    invariant_delta = largest_delta state.locked_a state.minted_b (literal 0 0);
  }
