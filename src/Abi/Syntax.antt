-- ===== src/Abi/Syntax.antt =====
-- evm/abi.rs: the implementors of the trait `ABI`, `ABILossyType` and `BoxedABI`.
use ityfuzz_rl_src.Prelude.{ℕ, ◌+◌, Bool, true, false, ◌&&◌, List, length, replicate}

pub data A256InnerType : Type 0 where
  int_type uint_type bool_type bytes_type address_type : A256InnerType

pub data AbiLossyType : Type 0 where
  t256 t_array t_dynamic t_empty t_unknown : AbiLossyType

-- A `BoxedABI` inside another value is the value and its function hash, side by side.
mutual
  pub data Abi : Type 0 where
    a_empty : Abi
    a256 : (bytes : List ℕ) (is_address dont_mutate : Bool) (inner_type : A256InnerType) → Abi
    a_dynamic : (bytes : List ℕ) (multiplier : ℕ) → Abi
    a_array : (items : Items) (dynamic_size : Bool) → Abi
    a_unknown : (concrete : Abi) (function : List ℕ) (size : ℕ) → Abi

  pub data Items : Type 0 where
    nil : Items
    cons : (item : Abi) (function : List ℕ) (items : Items) → Items

pub record BoxedAbi : Type 0 where
  pub b : Abi
  pub function : List ℕ

-- `BoxedABI::new`, whose function hash is not set.
unfoldable pub new : Abi → BoxedAbi
new b = record { b = b; function = replicate 4 0 }

unfoldable pub set_func : List ℕ → BoxedAbi → BoxedAbi
set_func function boxed = record boxed { function = function }

abbrev pub get_type : Abi → AbiLossyType
get_type a_empty = t_empty
get_type (a256 bytes is_address dont_mutate inner_type) = t256
get_type (a_dynamic bytes multiplier) = t_dynamic
get_type (a_array items dynamic_size) = t_array
get_type (a_unknown concrete function size) = t_unknown

unfoldable mutual
  pub is_static : Abi → Bool
  is_static a_empty = true
  is_static (a256 bytes is_address dont_mutate inner_type) = true
  is_static (a_dynamic bytes multiplier) = false
  is_static (a_array items true) = false
  is_static (a_array items false) = all_static items
  is_static (a_unknown concrete function size) = is_static concrete

  pub all_static : Items → Bool
  all_static nil = true
  all_static (cons item function items) = is_static item && all_static items

abbrev pub size_of_array : Bool → ℕ → ℕ
size_of_array true data_size = 32 + data_size
size_of_array false data_size = data_size

-- The method `get_size` of the trait.
unfoldable mutual
  pub abi_size : Abi → ℕ
  abi_size a_empty = 0
  abi_size (a256 bytes is_address dont_mutate inner_type) = 32
  abi_size (a_dynamic bytes multiplier) = length bytes + 32
  abi_size (a_array items dynamic_size) = size_of_array dynamic_size (sum_sizes items)
  abi_size (a_unknown concrete function size) = abi_size concrete

  pub sum_sizes : Items → ℕ
  sum_sizes nil = 0
  sum_sizes (cons item function items) = abi_size item + sum_sizes items
