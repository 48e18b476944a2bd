-- ===== src/CrossChain/ExploitStep.antt =====
-- evm/cross_chain/exploit_path.rs: the recorded steps, and evm/cross_chain/executor.rs:
-- `CrossChainMutationMeta`.
use ityfuzz_rl_src.Prelude.{ℕ, Bool, false, List, [], ◌∷◌, ◌++◌}
use ityfuzz_rl_src.CrossChain.Message.{CrossChainMessage}

pub record CrossChainMutationMeta : Type 0 where
  pub force_zero_merkle_root : Bool
  pub force_replay_nonce : Bool
  pub force_inflate_value : Bool

unfoldable pub default_meta : CrossChainMutationMeta
default_meta = record {
  force_zero_merkle_root = false;
  force_replay_nonce = false;
  force_inflate_value = false;
}

pub data ExploitStepKind : Type 0 where
  deposit_kind relay_kind : ExploitStepKind

pub record ExploitStep : Type 0 where
  pub kind : ExploitStepKind
  pub nonce : ℕ
  pub sender : ℕ
  pub recipient : ℕ
  pub token : ℕ
  pub value : ℕ
  pub merkle_root : List ℕ
  pub sig_count : ℕ
  pub is_fake : Bool
  pub meta : CrossChainMutationMeta
  pub bugs_triggered : List ℕ

abbrev step_of : ExploitStepKind → CrossChainMessage → ℕ → ℕ → CrossChainMutationMeta → ExploitStep
step_of kind msg token sig_count meta = record {
  kind = kind;
  nonce = msg.nonce;
  sender = msg.sender;
  recipient = msg.recipient;
  token = token;
  value = msg.value;
  merkle_root = msg.merkle_root;
  sig_count = sig_count;
  is_fake = msg.is_fake;
  meta = meta;
  bugs_triggered = [];
}

unfoldable pub deposit : CrossChainMessage → ℕ → ℕ → CrossChainMutationMeta → ExploitStep
deposit = step_of deposit_kind

unfoldable pub relay : CrossChainMessage → ℕ → ℕ → CrossChainMutationMeta → ExploitStep
relay = step_of relay_kind

pub record ExploitPath : Type 0 where
  pub steps : List ExploitStep
  pub confirmed_bugs : List ℕ
  pub is_confirmed : Bool

unfoldable pub new_path : ExploitPath
new_path = record { steps = []; confirmed_bugs = []; is_confirmed = false }

unfoldable pub push_step : ExploitStep → ExploitPath → ExploitPath
push_step step path = record path { steps = path.steps ++ step ∷ [] }
