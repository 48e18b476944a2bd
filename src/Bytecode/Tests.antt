-- ===== src/Bytecode/Tests.antt =====
-- The theorem on the walk over a code at a concrete code.
use ityfuzz_rl_src.Prelude.{◌≡◌, refl, true, List, [], ◌∷◌, ◌++◌, inl, inr, some, arith}
use ityfuzz_rl_src.Bytecode.{all_bytecode}
use ityfuzz_rl_src.Bytecode.Starts.{Instruction, assemble, starts, all_bytecode-assemble}

-- PUSH2 0x0157, JUMPDEST
abbrev small_code : List Instruction
small_code =
    record { op = 0x61; immediate = 1 ∷ 0x57 ∷ [] } ∷ record { op = 0x5b; immediate = [] } ∷ []

all_bytecode-assemble_example :
    all_bytecode true (assemble small_code ++ (0 ∷ 0 ∷ [])) ≡ some (starts 0 small_code)
all_bytecode-assemble_example =
    all_bytecode-assemble small_code (0x61 ∷ 1 ∷ 0x57 ∷ []) 0x5b 2
      (inl (refl, omega arith, omega arith), (inr (refl, inl (omega arith)), tt)) refl
      (λ e. omega (arith, e)) (omega arith)
