-- ===== src/CrossChain/Fuzzer/Total.antt =====
-- Whole runs of the cross-chain fuzzer (fuzzers/cross_chain_fuzzer.rs).
use ityfuzz_rl_src.Prelude.{
  ℕ, zero, suc, ◌+◌, ◌*◌, ◌≤◌, ◌<◌, ◌≡◌, ◌∙◌, ap, ◌-◌, ◌^◌, refl, inl, inr, Bool, true, not, ◌&&◌,
  Option, some, arith, HashSet, length, All, Bool-cases, u64_mod, Floats,
}
use ityfuzz_rl_src.CrossChain.State
use ityfuzz_rl_src.CrossChain.Queue.Invariant.{new-IsWellFormed}
use ityfuzz_rl_src.CrossChain.Runs.Tidy.{Tidy}
use ityfuzz_rl_src.CrossChain.Fuzzer.{
  CrossChainFuzzerConfig, FuzzState, fuzz_loop, fuzz, new_fuzzer, has_deadline, option_or,
}
use ityfuzz_rl_src.CrossChain.Fuzzer.Rounds.{
  Honest-Keeps, IsFindable, Distinct, IsGoing, round-IsGoing,
}

module _ (fl : Floats) (any_nonce : HashSet → Option ℕ) (elapsed : ℕ → fl.F)
    (config : CrossChainFuzzerConfig) (expired : ℕ → Bool) where
  IsGoing-stop : (rounds : ℕ) (st : FuzzState fl) → IsGoing fl rounds 0 st → IsGoing fl 0 0 st
  IsGoing-stop rounds st g = record {
    honest = Honest-Keeps.weaken rounds 0 st.executor.state (omega arith) g.honest;
    path_room = omega (arith, g.path_room);
    findable = g.findable;
    distinct = g.distinct;
    one_path_each = g.one_path_each;
  }

  fuzz_loop-IsGoing :
      (rounds : ℕ) (st : FuzzState fl)
      → IsGoing fl rounds 0 st
      → st.iteration + rounds < u64_mod
      → (st' : FuzzState fl) × (fuzz_loop fl any_nonce elapsed config expired rounds st ≡ some st')
        × IsGoing fl 0 0 st'
        × (st'.iteration ≤ st.iteration + rounds)
        × (config.deterministic ≡ true → st'.iteration ≡ st.iteration + rounds)
  unfolding fuzz_loop
  fuzz_loop-IsGoing zero st g room = (st, refl, g, omega arith, λ d. omega arith)
  fuzz_loop-IsGoing (suc rounds) st g room =
      elim (Bool-cases (not config.deterministic && expired st.iteration)) [
        | inl stop ↦
            (st, rw stop, IsGoing-stop (suc rounds) st g, omega arith, λ d. absurd (ground arith))
        | inr go ↦
            let (st1, e1, g1, i1) = round-IsGoing fl any_nonce elapsed config rounds st g in
            let step : st1.iteration ≡ st.iteration + 1 = omega arith in
            let (st2, e2, g2, le2, exact2) = fuzz_loop-IsGoing rounds st1 g1 (omega arith) in
            (st2, rw go (rw e1 e2), g2, omega arith, λ d. omega (arith, exact2 d))
      ]

  new_fuzzer-IsGoing : (n : ℕ) → 2 * n < u64_mod → IsGoing fl n 0 (new_fuzzer fl config)
  unfolding new_fuzzer
  new_fuzzer-IsGoing n room =
      let tidy : Tidy n State.new = record {
        well_formed = new-IsWellFormed;
        has_room = unfold State.new in omega arith;
      } in
      record {
        honest = (
          record { tidy = tidy; real = tt; not_accepted = refl; atomic = refl },
          record {
            tidy = tidy;
            quiet = record { consistent = refl; undrained = refl; not_reentered = refl };
          },
        );
        path_room = omega arith;
        findable = tt;
        distinct = tt;
        one_path_each = refl;
      }

-- Every run of the cross-chain fuzzer with a bound of n rounds, 2 * n < 2^64, ends without a panic
-- after at most n rounds, and after exactly n when it is deterministic. It finds only the bugs 12
-- (mint above lock), 14 (replay) and 16 (desynchronisation), each at most once, with one exploit
-- path for each bug found.
pub fuzz_total :
    (fl : Floats) (any_nonce : HashSet → Option ℕ) (elapsed : ℕ → fl.F)
    (config : CrossChainFuzzerConfig) (expired : ℕ → Bool) (n : ℕ)
    → config.max_iterations ≡ some n
    → 2 * n < u64_mod
    → (st : FuzzState fl) × (fuzz fl any_nonce elapsed config expired ≡ some st)
      × (st.iteration ≤ n)
      × (config.deterministic ≡ true → st.iteration ≡ n)
      × All IsFindable st.all_bugs
      × Distinct st.all_bugs
      × (length st.exploit_paths ≡ length st.all_bugs)
unfolding fuzz
fuzz_total fl any_nonce elapsed config expired n bound room =
    let deadline = λ (k : ℕ). has_deadline config.time_budget_secs && expired k in
    let (st, ran, g, le, exact) =
      fuzz_loop-IsGoing fl any_nonce elapsed config deadline n (new_fuzzer fl config)
        (new_fuzzer-IsGoing fl any_nonce elapsed config expired n room) (omega arith) in
    (
      st,
      ap
            (λ (m : Option ℕ).
              fuzz_loop fl any_nonce elapsed config deadline (option_or m (2 ^ 64 - 1))
                (new_fuzzer fl config))
            bound
          ∙ ran,
      omega (arith, le),
      (λ d. omega (arith, exact d)),
      g.findable,
      g.distinct,
      g.one_path_each,
    )
