-- ===== src/Prelude/Maps.antt =====
-- `HashMap` and `HashSet` with number keys: an association list and a list, in iteration order.
use Prim.Native.Nat.{ℕ}
use mathlib.Core.Path.{◌≡◌, refl}
use mathlib.Core.Bool.{Bool, true, false, ◌||◌}
use mathlib.Core.List.{List, [], ◌∷◌}
use mathlib.Core.Option.{Option, none, some}
use native.Mathlib.Omega.{arith}
use ityfuzz_rl_src.Prelude.Tests.{if◌then◌else◌, ◌==◌}

abbrev pub HashMap {ℓ} : Type ℓ → Type ℓ
HashMap V = List (ℕ × V)

module _ {ℓ} {V : Type ℓ} where
  abbrev pub lookup : ℕ → HashMap V → Option V
  lookup k [] = none
  lookup k ((j, v) ∷ m) = let rest = lookup k m in if j == k then some v else rest

  abbrev pub lookup_or : ℕ → V → HashMap V → V
  lookup_or k d [] = d
  lookup_or k d ((j, v) ∷ m) = let rest = lookup_or k d m in if j == k then v else rest

  abbrev pub insert : ℕ → V → HashMap V → HashMap V
  insert k v [] = (k, v) ∷ []
  insert k v ((j, w) ∷ m) = let rest = (j, w) ∷ insert k v m in if j == k then (k, v) ∷ m else rest

  abbrev pub remove : ℕ → HashMap V → HashMap V
  remove k [] = []
  remove k ((j, w) ∷ m) = let rest = remove k m in if j == k then rest else (j, w) ∷ rest

  abbrev pub contains_key : ℕ → HashMap V → Bool
  contains_key k [] = false
  contains_key k ((j, w) ∷ m) = (j == k) || contains_key k m

  abbrev pub keys : HashMap V → List ℕ
  keys [] = []
  keys ((j, w) ∷ m) = j ∷ keys m

  pub lookup-insert :
      (k j : ℕ) (v : V) (m : HashMap V)
      → lookup j (insert k v m) ≡ (if k == j then some v else lookup j m)
  lookup-insert k j v [] = refl
  lookup-insert k j v ((i, w) ∷ m) = ground (arith, lookup-insert k j v m)

  pub lookup_or-insert :
      (k j : ℕ) (d v : V) (m : HashMap V)
      → lookup_or j d (insert k v m) ≡ (if k == j then v else lookup_or j d m)
  lookup_or-insert k j d v [] = refl
  lookup_or-insert k j d v ((i, w) ∷ m) = ground (arith, lookup_or-insert k j d v m)

  pub lookup-remove :
      (k j : ℕ) (m : HashMap V) → lookup j (remove k m) ≡ (if k == j then none else lookup j m)
  lookup-remove k j [] = ground arith
  lookup-remove k j ((i, w) ∷ m) = ground (arith, lookup-remove k j m)

abbrev pub HashSet : Type 0
HashSet = List ℕ

abbrev pub contains : ℕ → HashSet → Bool
contains k [] = false
contains k (x ∷ xs) = (x == k) || contains k xs

abbrev pub insert_set : ℕ → HashSet → HashSet
insert_set k s = if contains k s then s else k ∷ s

pub contains-insert_set :
    (k j : ℕ) (s : HashSet) → contains j (insert_set k s) ≡ ((k == j) || contains j s)
contains-insert_set k j s = ground (arith, sub s)
  where
    sub : (s : HashSet) → contains k s ≡ true → (k == j) ≡ true → contains j s ≡ true
    sub [] h e = cc
    sub (x ∷ xs) h e = ground (arith, sub xs)
