-- ===== src/Scheduler/Tree.antt =====
-- scheduler.rs: `Node` and `DependencyTree`. The walks up the parents are loops on fuel; they tell
-- a panic on a missing node from fuel that runs out, as it does on a cycle.
use ityfuzz_rl_src.Prelude.{
  ℕ, zero, suc, Bool, true, false, not, ◌&&◌, List, [], ◌∷◌, none, some, if◌then◌else◌, ◌==◌,
  HashMap, lookup, insert, remove, wrapping_add, wrapping_sub,
}

pub record Node : Type 0 where
  pub parent : ℕ
  pub ref_count : ℕ
  pub pending_delete : Bool
  pub never_delete : Bool

abbrev pub DependencyTree : Type 0
DependencyTree = HashMap Node

pub data Walk : Type 0 where
  done : DependencyTree → Walk
  panicked : Walk
  out_of_fuel : Walk

unfoldable pub new : DependencyTree
new = []

-- `while parent != 0`, with the update of the node.
unfoldable pub walk : (fuel : ℕ) → (Node → Node) → (parent : ℕ) → DependencyTree → Walk
walk zero update parent nodes = out_of_fuel
walk (suc fuel) update parent nodes =
    if parent == 0 then done nodes else elim (lookup parent nodes) [
      | none ↦ panicked
      | some node ↦ walk fuel update node.parent (insert parent (update node) nodes)
    ]

abbrev pub gain : Node → Node
gain node = record node { ref_count = wrapping_add node.ref_count 1 }

abbrev pub lose : Node → Node
lose node = record node { ref_count = wrapping_sub node.ref_count 1 }

abbrev pub keep_for_ever : Node → Node
keep_for_ever node = record node { never_delete = true }

unfoldable pub add_node : (fuel : ℕ) → (idx parent : ℕ) → DependencyTree → Walk
unfolding walk
add_node fuel idx parent nodes = walk fuel gain parent (
    insert idx
      (record { parent = parent; ref_count = 1; pending_delete = false; never_delete = false })
      nodes)

-- The update of the node itself, and the walk from its parent.
abbrev pub update_up : (fuel : ℕ) → (Node → Node) → (Node → Node) → ℕ → DependencyTree → Walk
unfolding walk
update_up fuel own update idx nodes = elim (lookup idx nodes) [
  | none ↦ panicked
  | some node ↦ walk fuel update node.parent (insert idx (own node) nodes)
]

unfoldable pub remove_node : (fuel : ℕ) → ℕ → DependencyTree → Walk
unfolding walk
remove_node fuel = update_up fuel (λ node. record (lose node) { pending_delete = true }) lose

unfoldable pub mark_never_delete : (fuel : ℕ) → ℕ → DependencyTree → Walk
unfolding walk
mark_never_delete fuel = update_up fuel keep_for_ever keep_for_ever

abbrev pub is_garbage : Node → Bool
is_garbage node = (node.ref_count == 0) && node.pending_delete && not node.never_delete

abbrev pub garbage : DependencyTree → List ℕ
garbage [] = []
garbage ((idx, node) ∷ nodes) =
    let rest = garbage nodes in if is_garbage node then idx ∷ rest else rest

abbrev pub remove_all : List ℕ → DependencyTree → DependencyTree
remove_all [] nodes = nodes
remove_all (idx ∷ idxs) nodes = remove_all idxs (remove idx nodes)

-- The removed indices, and the tree without them.
unfoldable pub garbage_collection : DependencyTree → List ℕ × DependencyTree
garbage_collection nodes = let to_remove = garbage nodes in (to_remove, remove_all to_remove nodes)
