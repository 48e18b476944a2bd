-- ===== src/Oracles/AccessControl.antt =====
-- evm/oracles/access_control.rs: `AccessControlState` and `AccessControlOracle`.
use ityfuzz_rl_src.Prelude.{
  ℕ, ◌≡◌, refl, inl, inr, Bool, true, not, ◌&&◌, List, [], ◌∷◌, if◌then◌else◌, ◌==◌, HashMap,
  HashSet, contains, insert_set, lookup_or, any, Bool-cases, arith,
}

abbrev pub access_control_bug_idx : ℕ
access_control_bug_idx = 19

pub record AccessControlState : Type 0 where
  pub privileged_addrs : HashSet
  pub sensitive_slots : HashSet

unfoldable pub new_state : AccessControlState
new_state = record { privileged_addrs = []; sensitive_slots = [] }

unfoldable pub add_privileged : ℕ → AccessControlState → AccessControlState
add_privileged addr s = record s { privileged_addrs = insert_set addr s.privileged_addrs }

unfoldable pub add_sensitive_slot : ℕ → AccessControlState → AccessControlState
add_sensitive_slot slot s = record s { sensitive_slots = insert_set slot s.sensitive_slots }

-- Whether the slot's value differs, an absent slot holding zero.
abbrev pub changed : HashMap ℕ → HashMap ℕ → ℕ → Bool
changed before after slot = not (lookup_or slot 0 before == lookup_or slot 0 after)

-- The loop over the sensitive slots, which stops at the first changed one.
abbrev pub changed_slot : HashMap ℕ → HashMap ℕ → HashSet → List ℕ
changed_slot before after [] = []
changed_slot before after (slot ∷ slots) =
    let rest = changed_slot before after slots in
    if changed before after slot then access_control_bug_idx ∷ [] else rest

unfoldable pub inspect : AccessControlState → ℕ → HashMap ℕ → HashMap ℕ → List ℕ
inspect s caller slot_before slot_after =
    if contains caller s.privileged_addrs
    then []
    else changed_slot slot_before slot_after s.sensitive_slots

unfoldable pub inspect_relay : AccessControlState → ℕ → Bool → List ℕ
inspect_relay s caller queue_grew =
    if queue_grew && not (contains caller s.privileged_addrs)
    then access_control_bug_idx ∷ []
    else []

-- The report in closed form: at most once, for an unprivileged caller with a changed slot.
pub inspect-closed :
    (s : AccessControlState) (caller : ℕ) (before after : HashMap ℕ)
    → inspect s caller before after ≡ (
        if not (contains caller s.privileged_addrs) && any (changed before after) s.sensitive_slots
        then 19 ∷ []
        else [])
unfolding inspect
inspect-closed s caller before after = elim (Bool-cases (contains caller s.privileged_addrs)) [
  | inl e ↦ rw e refl
  | inr e ↦ rw e (slots s.sensitive_slots)
]
  where
    slots :
        (xs : HashSet)
        → changed_slot before after xs ≡ (if any (changed before after) xs then 19 ∷ [] else [])
    slots [] = refl
    slots (x ∷ xs) = elim (Bool-cases (changed before after x)) [
      | inl e ↦ rw e refl
      | inr e ↦ rw e (slots xs)
    ]

-- A caller that was made privileged is never reported, whatever else is made sensitive and whatever
-- slots change, and neither is its relay.
pub add_privileged-inspect :
    (s : AccessControlState) (caller slot : ℕ) (before after : HashMap ℕ) (queue_grew : Bool)
    → (inspect (add_sensitive_slot slot (add_privileged caller s)) caller before after ≡ [])
      × (inspect_relay (add_sensitive_slot slot (add_privileged caller s)) caller queue_grew ≡ [])
unfolding inspect inspect_relay add_privileged add_sensitive_slot
add_privileged-inspect s caller slot before after queue_grew =
    let known : contains caller (insert_set caller s.privileged_addrs) ≡ true = ground arith in
    (rw known refl, rw known (ground arith))
