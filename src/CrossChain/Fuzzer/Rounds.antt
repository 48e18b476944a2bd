-- ===== src/CrossChain/Fuzzer/Rounds.antt =====
-- What the rounds of the cross-chain fuzzer keep (fuzzers/cross_chain_fuzzer.rs).
use ityfuzz_rl_src.Prelude.{
  ℕ, suc, ◌+◌, ◌*◌, ◌<◌, ◌≡◌, refl, ◌∙◌, ◌⊎◌, inl, inr, Bool, true, false, ◌||◌, List, [], ◌∷◌,
  ◌++◌, Option, some, arith, HashSet, contains, length, length-append, All, All-append, Bool-cases,
  ◌==◌, wrapping_add, u64_mod, Floats,
}
use ityfuzz_rl_src.CrossChain.Queue
use ityfuzz_rl_src.CrossChain.State.{DualChainState}
use ityfuzz_rl_src.CrossChain.Oracle.{flagged, mint_exceeds_lock, inspect}
use ityfuzz_rl_src.CrossChain.ExploitStep.{CrossChainMutationMeta}
use ityfuzz_rl_src.CrossChain.Deposit.{execute_deposit}
use ityfuzz_rl_src.CrossChain.Runs.Rule.{
  Keeps, both-Keeps, execute_deposit-keeps, execute_relay-keeps,
}
use ityfuzz_rl_src.CrossChain.Runs.Tidy.{IsFresh, mutate_deposit-IsFresh}
use ityfuzz_rl_src.CrossChain.Runs.Quiet.{TidyQuiet, TidyQuiet-Keeps}
use ityfuzz_rl_src.CrossChain.Runs.Genuine.{
  IsReal, Genuine, Genuine-Keeps, mutate_relay-is_fake, mutate_deposit-IsReal,
}
use ityfuzz_rl_src.CrossChain.Runs.PathLength.{
  path_length, execute_deposit-path, execute_relay-path,
}
use ityfuzz_rl_src.CrossChain.ExploitPath.Replay.{reproduce_total}
use ityfuzz_rl_src.CrossChain.Mutator
use ityfuzz_rl_src.CrossChain.Mutator.{CrossChainMutator}
use ityfuzz_rl_src.CrossChain.Mutator.Total.{mutate_deposit_total, mutate_relay_total}
use ityfuzz_rl_src.CrossChain.Fuzzer.{
  CrossChainFuzzerConfig, FuzzState, record_bug, record_bugs, finish_round, relay_phase,
  deposit_phase, round, draw_deposit_meta, draw_relay_meta, synthesize_deposit_message,
  fuzz_sig_count, corpus_data, set_data, time_or, option_or,
}

-- A bug that the fuzzer can find: mint above lock, replay or desynchronisation.
abbrev pub IsFindable : ℕ → Type 0
IsFindable bug = (bug ≡ 12) ⊎ ((bug ≡ 14) ⊎ (bug ≡ 16))

-- No bug is listed twice.
abbrev pub Distinct : List ℕ → Type 0
Distinct [] = Unit
Distinct (x ∷ xs) = (contains x xs ≡ false) × Distinct xs

contains-append_one :
    (k b : ℕ) (xs : List ℕ) → contains k (xs ++ b ∷ []) ≡ (contains k xs || (b == k))
contains-append_one k b [] = ground arith
contains-append_one k b (x ∷ xs) = ground (arith, contains-append_one k b xs)

Distinct-append :
    (b : ℕ) (xs : List ℕ) → contains b xs ≡ false → Distinct xs → Distinct (xs ++ b ∷ [])
Distinct-append b [] new d = (refl, tt)
Distinct-append b (x ∷ xs) new d =
    (ground (arith, contains-append_one x b xs), Distinct-append b xs (ground arith) d.1)

-- The executor's state is genuine and quiet, with room for `n` more messages.
abbrev pub Honest : ℕ → DualChainState → Type 0
Honest n s = Genuine n s × TidyQuiet n s

pub Honest-Keeps :
    Keeps Honest
      (λ t m. (IsFresh m × IsReal m) × IsFresh m)
      (λ t m msg. (msg.is_fake ≡ m.is_fake) × Unit)
Honest-Keeps = both-Keeps Genuine-Keeps TidyQuiet-Keeps

flagged-IsFindable : (flag : Bool) (bug : ℕ) → IsFindable bug → All IsFindable (flagged flag bug)
flagged-IsFindable true bug f = (f, tt)
flagged-IsFindable false bug f = tt

flagged-none : (flag : Bool) (bug : ℕ) → flag ≡ false → All IsFindable (flagged flag bug)
flagged-none flag bug e = rw e tt

-- In an honest state the oracle reports findable bugs only.
inspect-IsFindable : (n : ℕ) (s : DualChainState) → Honest n s → All IsFindable (inspect s)
unfolding inspect
inspect-IsFindable n s (g, q) =
    All-append IsFindable _ _ (flagged-IsFindable (mint_exceeds_lock s) 12 (inl refl)) (
      All-append IsFindable _ _ (flagged-none _ 13 g.not_accepted) (
        All-append IsFindable _ _ (flagged-IsFindable s.replay_detected 14 (inr (inl refl))) (
          All-append IsFindable _ _ (flagged-IsFindable s.state_desync_detected 16 (inr (inr refl)))
            (All-append IsFindable _ _ (flagged-none _ 17 q.quiet.consistent) (
              All-append IsFindable _ _ (flagged-none _ 18 g.atomic) (
                All-append IsFindable _ _ (flagged-none _ 15 q.quiet.undrained)
                  (flagged-none _ 21 q.quiet.not_reentered)))))))

-- The synthesized message is pending and real.
synthesized :
    (nonce : ℕ) (meta : CrossChainMutationMeta)
    → IsFresh (synthesize_deposit_message nonce meta)
      × IsReal (synthesize_deposit_message nonce meta)
unfolding synthesize_deposit_message
synthesized nonce meta = (refl, refl)

module _ (fl : Floats) where
  -- The state with at most `rounds` rounds to come, and room in the path for `extra` steps besides.
  pub record IsGoing (rounds extra : ℕ) (st : FuzzState fl) : Type 0 where
    pub honest : Honest rounds st.executor.state
    pub path_room : 2 * rounds + extra + path_length st.executor < u64_mod
    pub findable : All IsFindable st.all_bugs
    pub distinct : Distinct st.all_bugs
    pub one_path_each : length st.exploit_paths ≡ length st.all_bugs

  module _ (any_nonce : HashSet → Option ℕ) (elapsed : ℕ → fl.F)
      (config : CrossChainFuzzerConfig) where
    -- The new state has the executor and the round number of the old one.
    abbrev Same : FuzzState fl → FuzzState fl → Type 0
    Same st st' = (st'.executor ≡ st.executor) × (st'.iteration ≡ st.iteration)

    record_bug-IsGoing :
        (rounds extra bug : ℕ) (st : FuzzState fl)
        → IsFindable bug
        → IsGoing rounds extra st
        → (st' : FuzzState fl) × (record_bug fl any_nonce elapsed config bug st ≡ some st')
          × IsGoing rounds extra st'
          × Same st st'
    unfolding record_bug
    record_bug-IsGoing rounds extra bug st f g = elim (Bool-cases (contains bug st.all_bugs)) [
      | inl old ↦ (st, rw old, g, (refl, refl))
      | inr new ↦
          let (e, path', ran, produced, bugs, confirmed, steps) =
            reproduce_total any_nonce config.verify_config (bug ∷ []) st.executor.exploit_path
              (omega (arith, g.path_room)) in
          let st' : FuzzState fl = record st {
            all_bugs = st.all_bugs ++ bug ∷ [];
            first_bug_time = time_or fl st.first_bug_time (elapsed st.iteration);
            exploit_paths = st.exploit_paths ++ path' ∷ [];
          } in
          (
            st',
            rw new (rw produced),
            record {
              honest = g.honest;
              path_room = g.path_room;
              findable = All-append IsFindable st.all_bugs (bug ∷ []) g.findable (f, tt);
              distinct = Distinct-append bug st.all_bugs new g.distinct;
              one_path_each = omega (
                arith,
                length-append {0} st.exploit_paths (path' ∷ []),
                length-append {0} st.all_bugs (bug ∷ []),
                g.one_path_each,
              );
            },
            (refl, refl),
          )
    ]

    record_bugs-IsGoing :
        (rounds extra : ℕ) (bugs : List ℕ) (st : FuzzState fl)
        → All IsFindable bugs
        → IsGoing rounds extra st
        → (st' : FuzzState fl) × (record_bugs fl any_nonce elapsed config bugs st ≡ some st')
          × IsGoing rounds extra st'
          × Same st st'
    unfolding record_bugs
    record_bugs-IsGoing rounds extra [] st f g = (st, refl, g, (refl, refl))
    record_bugs-IsGoing rounds extra (bug ∷ bugs) st f g =
        let (st1, e1, g1, same1) = record_bug-IsGoing rounds extra bug st f.0 g in
        let (st2, e2, g2, same2) = record_bugs-IsGoing rounds extra bugs st1 f.1 g1 in
        (st2, rw e1 e2, g2, (same2.0 ∙ same1.0, same2.1 ∙ same1.1))

    finish_round-IsGoing :
        (rounds extra corpus_idx prev : ℕ) (st : FuzzState fl)
        → IsGoing rounds extra st
        → (st' : FuzzState fl) × (finish_round fl any_nonce elapsed config corpus_idx prev st
            ≡ some st')
          × IsGoing rounds extra st'
          × Same st st'
    unfolding finish_round
    finish_round-IsGoing rounds extra corpus_idx prev st g =
        record_bugs-IsGoing rounds extra (inspect st.executor.state) _
          (inspect-IsFindable rounds st.executor.state g.honest)
          (record {
            honest = g.honest;
            path_room = g.path_room;
            findable = g.findable;
            distinct = g.distinct;
            one_path_each = g.one_path_each;
          })

    -- A drawn relay mutation is never a panic, nor is a drawn deposit mutation.
    draw_relay_meta_total :
        (i : ℕ) (m : CrossChainMutator fl)
        → (r : CrossChainMutationMeta × CrossChainMutator fl) × (draw_relay_meta fl i m ≡ some r)
    unfolding draw_relay_meta
    draw_relay_meta_total i m =
        let (r, e, q, l) = mutate_relay_total m.rng (corpus_data fl i m) in
        ((r.0, record m { rng = r.2 }), rw (e, draw_relay_meta))

    draw_deposit_meta_total :
        (i : ℕ) (m : CrossChainMutator fl)
        → (r : CrossChainMutationMeta × CrossChainMutator fl) × (draw_deposit_meta fl i m ≡ some r)
    unfolding draw_deposit_meta
    draw_deposit_meta_total i m =
        let (r, e, q, l) = mutate_deposit_total m.rng (corpus_data fl i m) in
        (
          (r.0, record m { corpus = set_data fl i r.1 m.corpus; rng = r.2 }),
          rw (e, draw_deposit_meta),
        )

    relay_phase-IsGoing :
        (rounds extra corpus_idx prev : ℕ) (st : FuzzState fl)
        (drawn : CrossChainMutationMeta × CrossChainMutator fl)
        → IsGoing rounds (suc extra) st
        → (st' : FuzzState fl) × (relay_phase fl any_nonce elapsed config corpus_idx prev st
              (some drawn)
            ≡ some st')
          × IsGoing rounds extra st'
          × (st'.iteration ≡ st.iteration)
    unfolding relay_phase
    relay_phase-IsGoing rounds extra corpus_idx prev st (meta, m) g =
        let sigs = fuzz_sig_count (wrapping_add st.iteration 1) in
        let ((e, done), ran, h) =
          execute_relay-keeps Honest-Keeps any_nonce config.token rounds sigs (some meta)
            st.executor
            (λ nonces msg p. (mutate_relay-is_fake any_nonce (some meta) nonces msg, tt))
            g.honest in
        let longer =
          execute_relay-path any_nonce config.token sigs (some meta) st.executor (e, done)
            (Honest-Keeps.well_formed rounds st.executor.state g.honest) ran in
        let (st', fin, g', same) =
          finish_round-IsGoing rounds extra corpus_idx prev
            (record st { mutator = m; executor = e })
            (record {
              honest = h;
              path_room = omega (arith, g.path_room, longer);
              findable = g.findable;
              distinct = g.distinct;
              one_path_each = g.one_path_each;
            }) in
        (st', rw ran fin, g', same.1)

    deposit_phase-IsGoing :
        (rounds extra corpus_idx prev : ℕ) (st : FuzzState fl)
        (drawn : CrossChainMutationMeta × CrossChainMutator fl)
        → Honest (suc rounds) st.executor.state
        → IsGoing rounds (suc (suc extra)) st
        → (st' : FuzzState fl) × (deposit_phase fl any_nonce elapsed config corpus_idx prev st
              (some drawn)
            ≡ some st')
          × IsGoing rounds extra st'
          × (st'.iteration ≡ st.iteration)
    unfolding deposit_phase
    deposit_phase-IsGoing rounds extra corpus_idx prev st (meta, m) room g =
        let sigs = fuzz_sig_count st.iteration in
        let msg = synthesize_deposit_message st.iteration meta in
        let e = execute_deposit config.token (msg ∷ []) sigs (some meta) st.executor in
        let fresh = mutate_deposit-IsFresh (some meta) msg (synthesized st.iteration meta).0 in
        let h =
          execute_deposit-keeps Honest-Keeps config.token rounds sigs (some meta) (msg ∷ [])
            st.executor
            (
              (
                (fresh, mutate_deposit-IsReal (some meta) msg (synthesized st.iteration meta).1),
                fresh,
              ),
              tt,
            )
            (Honest-Keeps.weaken (suc rounds) (1 + rounds) st.executor.state (omega arith) room) in
        let longer = execute_deposit-path config.token sigs (some meta) (msg ∷ []) st.executor in
        let (drawn, ran) = draw_relay_meta_total corpus_idx m in
        let (st', fin, g', same) =
          relay_phase-IsGoing rounds extra corpus_idx prev (record st { executor = e; mutator = m })
            drawn
            (record {
              honest = h;
              path_room = omega (arith, g.path_room, longer);
              findable = g.findable;
              distinct = g.distinct;
              one_path_each = g.one_path_each;
            }) in
        (st', rw ran fin, g', same)

    -- A round never panics, keeps the invariant and counts itself.
    pub round-IsGoing :
        (rounds : ℕ) (st : FuzzState fl)
        → IsGoing (suc rounds) 0 st
        → (st' : FuzzState fl) × (round fl any_nonce elapsed config st ≡ some st')
          × IsGoing rounds 0 st'
          × (st'.iteration ≡ wrapping_add st.iteration 1)
    unfolding round
    round-IsGoing rounds st g =
        let picked = Mutator.select_next fl st.mutator in
        let i = option_or picked.0 0 in
        let (drawn, ran) = draw_deposit_meta_total i picked.1 in
        let (st', fin, g', same) =
          deposit_phase-IsGoing rounds 0 i (Queue.processed_count st.executor.state.queue)
            (record st { iteration = wrapping_add st.iteration 1; mutator = picked.1 }) drawn
            g.honest
            (record {
              honest =
                  Honest-Keeps.weaken (suc rounds) rounds st.executor.state (omega arith) g.honest;
              path_room = omega (arith, g.path_room);
              findable = g.findable;
              distinct = g.distinct;
              one_path_each = g.one_path_each;
            }) in
        (st', rw ran fin, g', same)
