-- ===== src/CrossChain/Interceptor.antt =====
-- evm/middlewares/cross_chain_interceptor.rs: the verification pipeline.
use ityfuzz_rl_src.Prelude.{ℕ, Bool, true, ◌&&◌, ltb, if◌then◌else◌, HashSet, contains}
use ityfuzz_rl_src.CrossChain.Message.{CrossChainMessage, zero_root, bytes_eq}

pub data BypassReason : Type 0 where
  zero_merkle_root insufficient_signatures replayed_nonce : BypassReason

pub data VerificationResult : Type 0 where
  valid : VerificationResult
  bypass_accepted : BypassReason → VerificationResult
  rejected : VerificationResult

pub record MockVerificationConfig : Type 0 where
  pub signature_threshold : ℕ
  pub total_validators : ℕ
  pub allow_insufficient_sigs : Bool
  pub simulate_nomad_bypass : Bool

unfoldable pub default_config : MockVerificationConfig
default_config = record {
  signature_threshold = 5;
  total_validators = 7;
  allow_insufficient_sigs = true;
  simulate_nomad_bypass = true;
}

-- The verdict, and the flag behind `replay_flag` after the call.
unfoldable pub verify_message :
    MockVerificationConfig → CrossChainMessage → HashSet → ℕ → Bool → VerificationResult × Bool
verify_message config msg processed_nonces sig_count replay_flag =
    if bytes_eq msg.merkle_root zero_root && config.simulate_nomad_bypass
    then (bypass_accepted zero_merkle_root, replay_flag)
    else if ltb sig_count config.signature_threshold
    then (if config.allow_insufficient_sigs
        then (bypass_accepted insufficient_signatures, replay_flag)
        else (rejected, replay_flag))
    else if contains msg.nonce processed_nonces
    then (bypass_accepted replayed_nonce, true)
    else (valid, replay_flag)
