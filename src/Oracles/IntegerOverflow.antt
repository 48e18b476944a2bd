-- ===== src/Oracles/IntegerOverflow.antt =====
-- evm/oracles/integer_overflow.rs: `IntegerOverflowOracle`, on 256-bit words.
use ityfuzz_rl_src.Prelude.{
  ℕ, ◌+◌, ◌-◌, ◌%◌, ◌^◌, ◌<◌, ◌≤◌, ◌≡◌, refl, inl, inr, Bool, true, false, ◌&&◌, List, [], ◌∷◌,
  if◌then◌else◌, ltb, leb, any, Bool-cases, arith,
}

abbrev pub integer_overflow_bug_idx : ℕ
integer_overflow_bug_idx = 11

-- `EVMU256::from(1) << 255`
abbrev pub overflow_threshold : ℕ
overflow_threshold = 2 ^ 255

abbrev pub small_value : ℕ
small_value = 1000000

unfoldable pub check_slot : ℕ → ℕ → Bool
check_slot pre post =
    if ltb pre small_value && ltb overflow_threshold post
    then true
    else if ltb overflow_threshold pre && ltb post small_value
    then true
    else false

abbrev pub flag_slot : ℕ × ℕ × ℕ → Bool
unfolding check_slot
flag_slot (slot, pre, post) = check_slot pre post

unfoldable pub inspect : List (ℕ × ℕ × ℕ) → List ℕ
unfolding check_slot
inspect [] = []
inspect (change ∷ changes) =
    let rest = inspect changes in if flag_slot change then integer_overflow_bug_idx ∷ [] else rest

unfoldable pub inspect_value : ℕ → ℕ → List ℕ
unfolding check_slot
inspect_value pre post = if check_slot pre post then integer_overflow_bug_idx ∷ [] else []

-- The report in closed form: once when some change is flagged, and else nothing.
pub inspect-closed :
    (changes : List (ℕ × ℕ × ℕ)) → inspect changes ≡ (if any flag_slot changes then 11 ∷ [] else [])
unfolding inspect check_slot
inspect-closed [] = refl
inspect-closed (change ∷ changes) = elim (Bool-cases (flag_slot change)) [
  | inl e ↦ rw e refl
  | inr e ↦ rw e (inspect-closed changes)
]

-- For a value below a million and an amount below 2^255, a subtraction modulo 2^256 is flagged
-- exactly when it underflows.
pub check_slot_underflow :
    (pre amount : ℕ)
    → pre < small_value
    → amount < 2 ^ 255
    → check_slot pre ((pre + 2 ^ 256 - amount) % 2 ^ 256) ≡ ltb pre amount
unfolding check_slot
check_slot_underflow pre amount small few = ground arith

-- For a 256-bit value above 2^255 and an amount of at most a million, an addition modulo 2^256 is
-- flagged exactly when it overflows.
pub check_slot_overflow :
    (pre amount : ℕ)
    → pre < 2 ^ 256
    → 2 ^ 255 < pre
    → amount ≤ small_value
    → check_slot pre ((pre + amount) % 2 ^ 256) ≡ leb (2 ^ 256) (pre + amount)
unfolding check_slot
check_slot_overflow pre amount word large few = ground arith
