-- ===== src/Samples.antt =====
-- Sample data for the examples: a concrete arithmetic, and executors.
use Prim.Native.Nat.{max}
use ityfuzz_rl_src.Prelude.{
  ℕ, zero, suc, ◌+◌, ◌*◌, ◌-◌, ◌/◌, ◌^◌, min, false, [], ◌∷◌, Option, none, some, HashSet, refl,
  replicate, ltb, leb, ◌==◌, Floats,
}
use ityfuzz_rl_src.CrossChain.Message.{CrossChainMessage, new_message}
use ityfuzz_rl_src.CrossChain.Queue
use ityfuzz_rl_src.CrossChain.Queue.Invariant.{IsWellFormed}
use ityfuzz_rl_src.CrossChain.State
use ityfuzz_rl_src.CrossChain.Interceptor.{default_config}
use ityfuzz_rl_src.CrossChain.Executor
use ityfuzz_rl_src.CrossChain.Executor.{DualChainExecutor}

-- Floats as hundredths, without negative ones.
abbrev pub hundredths : Floats
hundredths = record {
  F = ℕ;
  of_nat = λ n. n * 100;
  literal = λ n k. elim k [ zero ↦ n * 100 | suc j ↦ elim j [ zero ↦ n * 10 | suc i ↦ n ] ];
  to_nat = λ x. x / 100;
  neg = λ x. 0;
  abs = λ x. x;
  add = λ x y. x + y;
  sub = λ x y. x - y;
  mul = λ x y. x * y / 100;
  div = λ x y. x * 100 / y;
  fmin = min;
  fmax = max;
  ln = λ x. x;
  ln_1p = λ x. x;
  sqrt = λ x. x;
  max_value = 2 ^ 64;
  lt = ltb;
  le = leb;
  feq = λ x y. x == y;
}

abbrev pub first_nonce : HashSet → Option ℕ
first_nonce [] = none
first_nonce (n ∷ ns) = some n

abbrev pub start : DualChainExecutor
unfolding Executor.new State.new default_config
start = Executor.new State.new (some 42) default_config

abbrev pub real : ℕ → ℕ → CrossChainMessage
real nonce value = new_message nonce 1 2 (replicate 32 0xab) value (replicate 32 1) false

-- One message pending, which the relay picks.
abbrev pub loaded : DualChainExecutor
unfolding Executor.new State.new default_config Queue.push
loaded = record start {
  state = record (start.state) { queue = (Queue.push (real 9 30) start.state.queue).0 };
}

pub loaded-IsWellFormed : IsWellFormed loaded.state.queue
unfolding Executor.new State.new default_config Queue.push Queue.new
loaded-IsWellFormed = record { ids = (refl, refl); recorded = ((λ e. cc), tt) }
