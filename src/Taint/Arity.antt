-- ===== src/Taint/Arity.antt =====
-- evm/middlewares/sha3_bypass.rs: the stack effects of the EVM, which its match has to follow.
use ityfuzz_rl_src.Prelude.{
  ℕ, zero, suc, ◌-◌, ◌<◌, ◌≡◌, refl, Bool, true, false, not, ◌&&◌, ◌||◌, Option, none, some, arith,
  if◌then◌else◌, leb, ◌==◌, Bool-cases, inl, inr,
}
use ityfuzz_rl_src.Taint.Opcodes.{
  Arm, nothing, sha3, calldataload, copy, mload, mstore, mstore8, sload, sstore, jumpi, pop_one,
  push_false, pop_push, constant, drops, dup, swap, call, arm_of,
}

-- How many slots each instruction of the Shanghai rules takes off the stack and puts on it.
abbrev pub pops_of : ℕ → ℕ
pops_of op =
    if (op == 0x00)
      || ((op == 0xfe)
          || ((op == 0x30) || ((op == 0x32) || ((op == 0x33) || ((op == 0x34) || (op == 0x36))))))
    then 0
    else (if (op == 0x38) || ((op == 0x3a) || (op == 0x3d))
        then 0
        else (if leb 0x41 op && leb op 0x48
            then 0
            else (if (op == 0x58) || ((op == 0x59) || ((op == 0x5a) || (op == 0x5b)))
                then 0
                else (if leb 0x5f op && leb op 0x7f
                    then 0
                    else (if leb 0x80 op && leb op 0x8f
                        then op - 0x7f
                        else (if leb 0x90 op && leb op 0x9f
                            then op - 0x8e
                            else (if leb 0xa0 op && leb op 0xa4
                                then op - 0x9e
                                else (if (op == 0x08) || (op == 0x09)
                                    then 3
                                    else (if (op == 0x15) || (op == 0x19)
                                        then 1
                                        else (if (op == 0x31)
                                              || ((op == 0x35) || ((op == 0x3b) || (op == 0x3f)))
                                            then 1
                                            else (if (op == 0x37) || ((op == 0x39) || (op == 0x3e))
                                                then 3
                                                else (if op == 0x3c
                                                    then 4
                                                    else (if (op == 0x40)
                                                          || (op == 0xff)
                                                          || ((op == 0x50)
                                                            || ((op == 0x51)
                                                            || ((op == 0x54) || (op == 0x56))))
                                                        then 1
                                                        else (if (op == 0xf1) || (op == 0xf2)
                                                            then 7
                                                            else (if (op == 0xf4) || (op == 0xfa)
                                                            then 6
                                                            else (if op == 0xf0
                                                            then 3
                                                            else (if op == 0xf5
                                                            then 4
                                                            else 2)))))))))))))))))

abbrev pub pushes_of : ℕ → ℕ
pushes_of op =
    if leb 0x80 op && leb op 0x8f
    then op - 0x7e
    else (if leb 0x90 op && leb op 0x9f
        then op - 0x8e
        else (if leb 0xa0 op && leb op 0xa4
            then 0
            else (if (op == 0x00)
                  || ((op == 0x37) || ((op == 0x39) || ((op == 0x3c) || (op == 0x3e))))
                then 0
                else (if (op == 0x50) || ((op == 0x52) || ((op == 0x53) || (op == 0x55)))
                    then 0
                    else (if leb 0xfd op
                          || ((op == 0x56) || ((op == 0x57) || ((op == 0x5b) || (op == 0xf3))))
                        then 0
                        else 1)))))

-- The opcodes below 256 that are instructions of the Shanghai rules.
abbrev pub is_instruction : ℕ → Bool
is_instruction op =
    leb op 0x0b
    || ((leb 0x10 op && leb op 0x1d)
        || ((op == 0x20)
            || ((leb 0x30 op && leb op 0x48)
                || ((leb 0x50 op && leb op 0x5b)
                    || ((leb 0x5f op && leb op 0xa4)
                        || ((leb 0xf0 op && leb op 0xf5) || ((op == 0xfa) || leb 0xfd op)))))))

-- What an arm of the match does to the size of the stack.
abbrev pub arm_pops : Arm → ℕ
arm_pops nothing = 0
arm_pops sha3 = 2
arm_pops calldataload = 1
arm_pops copy = 3
arm_pops mload = 1
arm_pops mstore = 2
arm_pops mstore8 = 2
arm_pops sload = 1
arm_pops sstore = 2
arm_pops jumpi = 2
arm_pops pop_one = 1
arm_pops push_false = 0
arm_pops (pop_push pops) = pops
arm_pops (constant pops) = pops
arm_pops (drops pops) = pops
arm_pops (dup n) = n
arm_pops (swap n) = n
arm_pops (call pops) = pops

abbrev pub arm_pushes : Arm → ℕ
arm_pushes nothing = 0
arm_pushes sha3 = 1
arm_pushes calldataload = 1
arm_pushes copy = 0
arm_pushes mload = 1
arm_pushes mstore = 0
arm_pushes mstore8 = 0
arm_pushes sload = 1
arm_pushes sstore = 0
arm_pushes jumpi = 0
arm_pushes pop_one = 0
arm_pushes push_false = 1
arm_pushes (pop_push pops) = 1
arm_pushes (constant pops) = 1
arm_pushes (drops pops) = 0
arm_pushes (dup n) = suc n
arm_pushes (swap n) = n
arm_pushes (call pops) = 1

abbrev same_effect : ℕ → Option Arm → Bool
same_effect op none = false
same_effect op (some arm) = (arm_pops arm == pops_of op) && (arm_pushes arm == pushes_of op)

-- The opcodes on which the match agrees with the EVM: all instructions but EXTCODECOPY, 0x3c,
-- BLOCKHASH, 0x40, REVERT, 0xfd, and SELFDESTRUCT, 0xff.
abbrev pub is_followed : ℕ → Bool
is_followed op =
    is_instruction op
    && (not (op == 0x3c) && (not (op == 0x40) && (not (op == 0xfd) && not (op == 0xff))))

abbrev agrees : ℕ → Bool
unfolding arm_of
agrees op = not (is_followed op) || same_effect op (arm_of op)

abbrev all_below : (ℕ → Bool) → ℕ → Bool
all_below p zero = true
all_below p (suc n) = p n && all_below p n

all_agree : all_below agrees 256 ≡ true
unfolding arm_of
all_agree = refl

all_below-at : (p : ℕ → Bool) (n k : ℕ) → all_below p n ≡ true → k < n → p k ≡ true
all_below-at p zero k all lt = elim lt [ ]
all_below-at p (suc n) k all lt = elim (Bool-cases (k == n)) [
  | inl e ↦ (let same : k ≡ n = ground arith in rw same (ground (arith, all)))
  | inr e ↦ all_below-at p n k (ground arith) (ground arith)
]

both_equal : (a b c d : ℕ) → ((a == b) && (c == d)) ≡ true → (a ≡ b) × (c ≡ d)
both_equal a b c d h = (ground arith, ground arith)

effect_found :
    (op : ℕ) (o : Option Arm)
    → same_effect op o ≡ true
    → (arm : Arm) × (o ≡ some arm) × (arm_pops arm ≡ pops_of op) × (arm_pushes arm ≡ pushes_of op)
effect_found op none h = cc h
effect_found op (some arm) h = let (p, q) = both_equal _ _ _ _ h in (arm, refl, p, q)

-- The match has an arm for each of these opcodes, with the effect of the instruction.
pub arm_found :
    (op : ℕ)
    → op < 256
    → is_followed op ≡ true
    → (arm : Arm) × (arm_of op ≡ some arm)
      × (arm_pops arm ≡ pops_of op)
      × (arm_pushes arm ≡ pushes_of op)
unfolding agrees
arm_found op byte followed =
    let both = all_below-at agrees 256 op all_agree byte in
    effect_found op (arm_of op) (rw followed at both)
