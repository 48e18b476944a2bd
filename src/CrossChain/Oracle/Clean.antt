-- ===== src/CrossChain/Oracle/Clean.antt =====
-- When the cross-chain oracle reports nothing (evm/oracles/cross_chain.rs).
use mathlib.Core.Logic.{◌↔◌}
use ityfuzz_rl_src.Prelude.{
  ℕ, ◌≡◌, ◌<◌, ◌≤◌, ◌⊎◌, inl, inr, refl, sym, ◌∙◌, [], ◌∷◌, ◌++◌, List, Bool, true, false, HashMap,
  lookup_or, any, All, ltb, Bool-cases, arith, contains,
}
use ityfuzz_rl_src.CrossChain.State.{DualChainState}
use ityfuzz_rl_src.CrossChain.Oracle.{flagged, inspect}
use ityfuzz_rl_src.CrossChain.Oracle.Report.{contains-inspect, or_false}

-- Some token of the first map has more in the second one.
abbrev pub ExceedsIn : (locked minted : HashMap ℕ) → Type 0
ExceedsIn [] minted = ⊥
ExceedsIn ((token, amount) ∷ locked) minted =
    (amount < lookup_or token 0 minted) ⊎ ExceedsIn locked minted

-- No token of the first map has more in the second one.
abbrev pub AllCovered : (locked minted : HashMap ℕ) → Type 0
AllCovered locked minted = All (λ (token, amount). lookup_or token 0 minted ≤ amount) locked

ExceedsIn-found :
    (locked minted : HashMap ℕ)
    → any (λ (token, amount). ltb amount (lookup_or token 0 minted)) locked ≡ true
    → ExceedsIn locked minted
ExceedsIn-found [] minted e = cc e
ExceedsIn-found ((token, amount) ∷ locked) minted e =
    elim (Bool-cases (ltb amount (lookup_or token 0 minted))) [
      | inl f ↦ inl (ground (arith, f))
      | inr f ↦ inr (ExceedsIn-found locked minted (rw f at e))
    ]

found-ExceedsIn :
    (locked minted : HashMap ℕ)
    → ExceedsIn locked minted
    → any (λ (token, amount). ltb amount (lookup_or token 0 minted)) locked ≡ true
found-ExceedsIn [] minted e = elim e [ ]
found-ExceedsIn ((token, amount) ∷ locked) minted (inl few) =
    let here : ltb amount (lookup_or token 0 minted) ≡ true = ground arith in rw here refl
found-ExceedsIn ((token, amount) ∷ locked) minted (inr others) =
    elim (Bool-cases (ltb amount (lookup_or token 0 minted))) [
      | inl f ↦ rw f refl
      | inr f ↦ rw f (found-ExceedsIn locked minted others)
    ]

AllCovered-none :
    (locked minted : HashMap ℕ)
    → any (λ (token, amount). ltb amount (lookup_or token 0 minted)) locked ≡ false
    → AllCovered locked minted
AllCovered-none [] minted e = tt
AllCovered-none ((token, amount) ∷ locked) minted e =
    elim (Bool-cases (ltb amount (lookup_or token 0 minted))) [
      | inl f ↦ cc (rw f at e)
      | inr f ↦ (ground (arith, f), AllCovered-none locked minted (rw f at e))
    ]

none-AllCovered :
    (locked minted : HashMap ℕ)
    → AllCovered locked minted
    → any (λ (token, amount). ltb amount (lookup_or token 0 minted)) locked ≡ false
none-AllCovered [] minted all = refl
none-AllCovered ((token, amount) ∷ locked) minted all =
    let here : ltb amount (lookup_or token 0 minted) ≡ false = ground (arith, all.0) in
    rw here (none-AllCovered locked minted all.1)

-- No token is minted above its lock, and no flag is set.
abbrev pub IsClean : DualChainState → Type 0
IsClean s =
    AllCovered s.locked_a s.minted_b
    × (s.fake_message_accepted ≡ false)
    × (s.replay_detected ≡ false)
    × (s.state_desync_detected ≡ false)
    × (s.queue_consistency_violated ≡ false)
    × (s.atomicity_violated ≡ false)
    × (s.drain_detected ≡ false)
    × (s.reentrancy_detected ≡ false)

flagged-nil :
    (b : Bool) (i : ℕ) (rest : List ℕ) → flagged b i ++ rest ≡ [] → (b ≡ false) × (rest ≡ [])
flagged-nil true i rest e = cc e
flagged-nil false i rest e = (refl, e)

last-nil : (b : Bool) (i : ℕ) → flagged b i ≡ [] → b ≡ false
last-nil true i e = cc e
last-nil false i e = refl

inspect-IsClean : (s : DualChainState) → inspect s ≡ [] → IsClean s
unfolding inspect
inspect-IsClean s e =
    let (mint, e1) = flagged-nil _ _ _ e in
    let (fake, e2) = flagged-nil _ _ _ e1 in
    let (replay, e3) = flagged-nil _ _ _ e2 in
    let (desync, e4) = flagged-nil _ _ _ e3 in
    let (queue, e5) = flagged-nil _ _ _ e4 in
    let (atomicity, e6) = flagged-nil _ _ _ e5 in
    let (drain, e7) = flagged-nil _ _ _ e6 in
    (
      AllCovered-none s.locked_a s.minted_b mint,
      fake,
      replay,
      desync,
      queue,
      atomicity,
      drain,
      last-nil _ _ e7,
    )

IsClean-inspect : (s : DualChainState) → IsClean s → inspect s ≡ []
unfolding inspect
IsClean-inspect s (covered, fake, replay, desync, queue, atomicity, drain, reentrancy) =
    rw
      (
        none-AllCovered s.locked_a s.minted_b covered,
        fake,
        replay,
        desync,
        queue,
        atomicity,
        drain,
        reentrancy,
      )
      refl

-- The oracle reports the bug index 12 exactly when some token locked on Chain A has more minted on Chain
-- B than is locked. It reports nothing at all exactly when every such token is covered by its lock and
-- none of the seven flags of the state is set.
pub inspect_exact :
    (s : DualChainState)
    → (contains 12 (inspect s) ≡ true ↔ ExceedsIn s.locked_a s.minted_b)
      × (inspect s ≡ [] ↔ IsClean s)
inspect_exact s = (
  (
    λ e. ExceedsIn-found s.locked_a s.minted_b (sym (contains-inspect 12 s ∙ or_false _) ∙ e),
    λ h. contains-inspect 12 s ∙ (or_false _ ∙ found-ExceedsIn s.locked_a s.minted_b h),
  ),
  (inspect-IsClean s, IsClean-inspect s),
)
