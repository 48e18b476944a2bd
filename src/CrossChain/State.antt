-- ===== src/CrossChain/State.antt =====
-- evm/cross_chain/mod.rs: `DualChainState`. Of `EVMState` (evm/vm.rs) only the storage map is read
-- here, so only that field is kept.
use ityfuzz_rl_src.Prelude.{ℕ, Bool, false, [], HashMap, lookup_or, insert, saturating_add}
use ityfuzz_rl_src.CrossChain.Queue
use ityfuzz_rl_src.CrossChain.Queue.{CrossChainMessageQueue}

pub record EvmState : Type 0 where
  pub state : HashMap (HashMap ℕ)

pub record DualChainState : Type 0 where
  pub state_a : EvmState
  pub state_b : EvmState
  pub queue : CrossChainMessageQueue
  pub locked_a : HashMap ℕ
  pub minted_b : HashMap ℕ
  pub fake_message_accepted : Bool
  pub replay_detected : Bool
  pub state_desync_detected : Bool
  pub queue_consistency_violated : Bool
  pub atomicity_violated : Bool
  pub drain_detected : Bool
  pub reentrancy_detected : Bool

unfoldable pub new : DualChainState
unfolding Queue.new
new = record {
  state_a = record { state = [] };
  state_b = record { state = [] };
  queue = Queue.new;
  locked_a = [];
  minted_b = [];
  fake_message_accepted = false;
  replay_detected = false;
  state_desync_detected = false;
  queue_consistency_violated = false;
  atomicity_violated = false;
  drain_detected = false;
  reentrancy_detected = false;
}

-- `*entry(token).or_insert(ZERO) = entry.saturating_add(amount)`.
abbrev pub add_amount : ℕ → ℕ → HashMap ℕ → HashMap ℕ
add_amount token amount m = insert token (saturating_add (lookup_or token 0 m) amount) m

unfoldable pub lock_a : ℕ → ℕ → DualChainState → DualChainState
lock_a token amount s = record s { locked_a = add_amount token amount s.locked_a }

unfoldable pub mint_b : ℕ → ℕ → DualChainState → DualChainState
mint_b token amount s = record s { minted_b = add_amount token amount s.minted_b }
