-- ===== src/Abi/Template.antt =====
-- evm/abi.rs: which values decode what they encode, their templates, and the sizes of encodings.
use ityfuzz_rl_src.Prelude.{ℕ, zero, suc, ◌<◌, ◌≡◌, Bool, true, false, List, length, replicate}
use ityfuzz_rl_src.Abi.Syntax.{Abi, a_empty, a256, a_dynamic, a_array, a_unknown, Items, nil, cons}

abbrev pub number : Items → ℕ
number nil = 0
number (cons item function items) = suc (number items)

-- The first `n` elements, filled up with copies of one element.
abbrev pub grow : Abi → (function : List ℕ) → ℕ → Items → Items
grow first function zero items = nil
grow first function (suc n) nil = cons first function (grow first function n nil)
grow first function (suc n) (cons item function' items) =
    cons item function' (grow first function n items)

-- Elements cut to `n`, or filled up to `n` with copies of the first one; an empty value stands in for
-- it where there is none.
abbrev pub regrow : ℕ → Items → Items
regrow n nil = grow a_empty (replicate 4 0) n nil
regrow n (cons item function items) = grow item function n (cons item function items)

-- A template of a value has its types and flags, and any data. A tuple or array of fixed size has a
-- template for each element; of an array of dynamic size, the elements that its template has when it
-- is cut or filled up to the number of elements of the value.
abbrev mutual
  pub IsTemplate : (template value : Abi) → Type 0
  IsTemplate t a_empty = ⊥
  IsTemplate t (a256 bytes is_address dont_mutate inner_type) =
      (old : List ℕ) × (t ≡ a256 old is_address dont_mutate inner_type)
  IsTemplate t (a_dynamic bytes multiplier) = (old : List ℕ) × (t ≡ a_dynamic old multiplier)
  IsTemplate t (a_array items true) =
      (ts : Items) × (t ≡ a_array ts true) × AreTemplates (regrow (number items) ts) items
  IsTemplate t (a_array items false) = (ts : Items) × (t ≡ a_array ts false) × AreTemplates ts items
  IsTemplate t (a_unknown concrete function size) = ⊥

  pub AreTemplates : (templates values : Items) → Type 0
  AreTemplates ts nil = ts ≡ nil
  AreTemplates ts (cons item function items) =
      (t : Abi) × (rest : Items) × (ts ≡ cons t function rest)
      × IsTemplate t item
      × AreTemplates rest items

abbrev pub HasItems : Bool → Items → Type 0
HasItems true items = Unit
HasItems false nil = ⊥
HasItems false (cons item function items) = Unit

-- Full words, rounding that does not divide by zero, tuples and fixed arrays with elements, and no
-- empty or unknown value.
abbrev mutual
  pub WellFormed : Abi → Type 0
  WellFormed a_empty = ⊥
  WellFormed (a256 bytes is_address dont_mutate inner_type) = length bytes ≡ 32
  WellFormed (a_dynamic bytes multiplier) = 0 < multiplier
  WellFormed (a_array items dynamic_size) = HasItems dynamic_size items × AllWellFormed items
  WellFormed (a_unknown concrete function size) = ⊥

  pub AllWellFormed : Items → Type 0
  AllWellFormed nil = Unit
  AllWellFormed (cons item function items) = WellFormed item × AllWellFormed items
