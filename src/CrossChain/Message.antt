-- ===== src/CrossChain/Message.antt =====
-- evm/cross_chain/mod.rs: `MessageStatus` and `CrossChainMessage`. An address is the number of its
-- 20 bytes; a Merkle root is its list of 32 bytes.
use ityfuzz_rl_src.Prelude.{ℕ, Bool, true, false, List, [], ◌∷◌, ◌&&◌, ◌==◌, replicate}

pub data MessageStatus : Type 0 where
  pending processed dropped : MessageStatus

-- `==` of the derived `PartialEq`.
abbrev pub status_eq : MessageStatus → MessageStatus → Bool
status_eq pending pending = true
status_eq processed processed = true
status_eq dropped dropped = true
status_eq _ _ = false

pub record CrossChainMessage : Type 0 where
  pub id : ℕ
  pub nonce : ℕ
  pub sender : ℕ
  pub recipient : ℕ
  pub payload : List ℕ
  pub value : ℕ
  pub merkle_root : List ℕ
  pub status : MessageStatus
  pub is_fake : Bool

abbrev pub new_message :
    (nonce sender recipient : ℕ) (payload : List ℕ) (value : ℕ) (merkle_root : List ℕ)
    (is_fake : Bool)
    → CrossChainMessage
new_message nonce sender recipient payload value merkle_root is_fake = record {
  id = 0;
  nonce = nonce;
  sender = sender;
  recipient = recipient;
  payload = payload;
  value = value;
  merkle_root = merkle_root;
  status = pending;
  is_fake = is_fake;
}

abbrev pub zero_root : List ℕ
zero_root = replicate 32 0

-- Equality of byte arrays.
abbrev pub bytes_eq : List ℕ → List ℕ → Bool
bytes_eq [] [] = true
bytes_eq [] (y ∷ ys) = false
bytes_eq (x ∷ xs) [] = false
bytes_eq (x ∷ xs) (y ∷ ys) = (x == y) && bytes_eq xs ys
