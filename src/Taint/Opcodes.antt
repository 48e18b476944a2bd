-- ===== src/Taint/Opcodes.antt =====
-- evm/middlewares/sha3_bypass.rs: the match on the opcode in `on_step`, each arm as a value.
use ityfuzz_rl_src.Prelude.{
  List, [], ◌∷◌, ℕ, ◌+◌, ◌-◌, Bool, ◌&&◌, ◌||◌, Option, none, some, if◌then◌else◌, leb, ◌==◌,
}

pub data Arm : Type 0 where
  nothing sha3 calldataload copy mload mstore mstore8 sload sstore jumpi pop_one push_false : Arm
  pop_push : (pops : ℕ) → Arm
  constant : (pops : ℕ) → Arm
  drops : (pops : ℕ) → Arm
  dup swap : (n : ℕ) → Arm
  call : (pops : ℕ) → Arm

abbrev within : ℕ → ℕ → ℕ → Bool
within lo hi op = leb lo op && leb op hi

abbrev pub first_arm : List (Bool × Arm) → Option Arm
first_arm [] = none
first_arm ((test, arm) ∷ arms) = let rest = first_arm arms in if test then some arm else rest

-- `none` is the panic on an unknown opcode.
unfoldable pub arm_of : ℕ → Option Arm
arm_of op = first_arm (
    (op == 0x00, nothing)
    ∷ (within 0x01 0x07 op, pop_push 2)
    ∷ (within 0x08 0x09 op, pop_push 3)
    ∷ ((op == 0x0a) || (op == 0x0b) || within 0x10 0x14 op, pop_push 2)
    ∷ (op == 0x15, pop_push 1)
    ∷ (within 0x16 0x18 op, pop_push 2)
    ∷ (op == 0x19, pop_push 1)
    ∷ (within 0x1a 0x1d op, pop_push 2)
    ∷ (op == 0x20, sha3)
    ∷ (op == 0x30, push_false)
    ∷ (op == 0x31, pop_push 1)
    ∷ (within 0x32 0x34 op, push_false)
    ∷ (op == 0x35, calldataload)
    ∷ (op == 0x36, push_false)
    ∷ (op == 0x37, copy)
    ∷ (op == 0x38, push_false)
    ∷ (op == 0x39, copy)
    ∷ (op == 0x3a, push_false)
    ∷ ((op == 0x3b) || (op == 0x3f), constant 1)
    ∷ (op == 0x3c, copy)
    ∷ (op == 0x3d, push_false)
    ∷ (op == 0x3e, copy)
    ∷ (within 0x41 0x48 op, push_false)
    ∷ (op == 0x50, pop_one)
    ∷ (op == 0x51, mload)
    ∷ (op == 0x52, mstore)
    ∷ (op == 0x53, mstore8)
    ∷ (op == 0x54, sload)
    ∷ (op == 0x55, sstore)
    ∷ (op == 0x56, pop_one)
    ∷ (op == 0x57, jumpi)
    ∷ (within 0x58 0x5a op, push_false)
    ∷ (op == 0x5b, nothing)
    ∷ (within 0x5f 0x7f op, push_false)
    ∷ (within 0x80 0x8f op, dup (op - 0x80 + 1))
    ∷ (within 0x90 0x9f op, swap (op - 0x90 + 2))
    ∷ (within 0xa0 0xa4 op, drops (op - 0xa0 + 2))
    ∷ (op == 0xf0, constant 3)
    ∷ ((op == 0xf1) || (op == 0xf2), call 7)
    ∷ (op == 0xf3, drops 2)
    ∷ (op == 0xf4, call 6)
    ∷ (op == 0xf5, constant 4)
    ∷ (op == 0xfa, call 6)
    ∷ (within 0xfd 0xff op, nothing)
    ∷ [])
