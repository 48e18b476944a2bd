-- ===== src/Scheduler/Walks.antt =====
-- scheduler.rs: the walks up the dependency tree end.
use ityfuzz_rl_src.Prelude.{
  ℕ, zero, suc, ◌<◌, ◌≡◌, refl, sym, ◌∙◌, subst, ◌⊎◌, inl, inr, some, ◌==◌, ==→≡, lookup, insert,
  lookup-insert, Bool-cases, arith,
}
use ityfuzz_rl_src.Scheduler.Tree.{Node, DependencyTree, done, walk, add_node, gain}

-- Zero is no node but the root above all.
abbrev pub Present : ℕ → DependencyTree → Type 0
Present p nodes = (p ≡ 0) ⊎ ((node : Node) × (lookup p nodes ≡ some node))

-- Every parent comes before its child and is there.
abbrev pub Ordered : DependencyTree → Type 0
Ordered nodes =
    (p : ℕ) (node : Node)
    → lookup p nodes ≡ some node
    → (node.parent < p) × Present node.parent nodes

Present-insert :
    (k p : ℕ) (node : Node) (nodes : DependencyTree)
    → Present p nodes
    → Present p (insert k node nodes)
Present-insert k p node nodes (inl e) = inl e
Present-insert k p node nodes (inr (n, e)) = elim (Bool-cases (k == p)) [
  | inl t ↦ inr (node, lookup-insert k p node nodes ∙ rw t refl)
  | inr f ↦ inr (n, lookup-insert k p node nodes ∙ rw f e)
]

pub Ordered-insert :
    (k : ℕ) (node : Node) (nodes : DependencyTree)
    → node.parent < k
    → Present node.parent nodes
    → Ordered nodes
    → Ordered (insert k node nodes)
Ordered-insert k node nodes below there ordered p n found = elim (Bool-cases (k == p)) [
  | inl t ↦
      let same : some node ≡ some n = rw t at (sym (lookup-insert k p node nodes) ∙ found) in
      let e : n ≡ node = cc (same) in
      subst (λ (x : Node). (x.parent < p) × Present x.parent (insert k node nodes)) (sym e)
        (
          subst (λ q. node.parent < q) (==→≡ k p t) below,
          Present-insert k node.parent node nodes there,
        )
  | inr f ↦
      let old : lookup p nodes ≡ some n = rw f at (sym (lookup-insert k p node nodes) ∙ found) in
      let (less, present) = ordered p n old in (less, Present-insert k n.parent node nodes present)
]

pub walk-Ordered :
    (fuel : ℕ) (update : Node → Node) (parent : ℕ) (nodes : DependencyTree)
    → ((node : Node) → (update node).parent ≡ node.parent)
    → parent < fuel
    → Present parent nodes
    → Ordered nodes
    → (nodes' : DependencyTree) × (walk fuel update parent nodes ≡ done nodes') × Ordered nodes'
unfolding walk
walk-Ordered zero update parent nodes keeps lt there ordered = elim lt [ ]
walk-Ordered (suc fuel) update parent nodes keeps lt there ordered =
    elim (Bool-cases (parent == 0)) [
      | inl t ↦ (nodes, rw t refl, ordered)
      | inr f ↦ elim there [
        | inl e ↦ let no : ⊥ = ground arith in absurd no
        | inr (node, found) ↦
            let (less, present) = ordered parent node found in
            let below : (update node).parent < parent =
              subst (λ q. q < parent) (sym (keeps node)) less in
            let there' : Present (update node).parent nodes =
              subst (λ q. Present q nodes) (sym (keeps node)) present in
            let (nodes', ran, o) =
              walk-Ordered fuel update node.parent (insert parent (update node) nodes) keeps
                (omega arith) (Present-insert parent node.parent (update node) nodes present)
                (Ordered-insert parent (update node) nodes below there' ordered) in
            (nodes', rw (f, found) ran, o)
      ]
    ]

-- The addition of a node under a parent that comes before it and is there ends, with fuel above the
-- parent, without a panic, and leaves a tree where again every parent comes before its child.
pub add_node-Ordered :
    (fuel idx parent : ℕ) (nodes : DependencyTree)
    → parent < idx
    → parent < fuel
    → Present parent nodes
    → Ordered nodes
    → (nodes' : DependencyTree) × (add_node fuel idx parent nodes ≡ done nodes') × Ordered nodes'
unfolding add_node
add_node-Ordered fuel idx parent nodes below enough there ordered =
    walk-Ordered fuel gain parent (insert idx _ nodes) (λ node. refl) enough
      (Present-insert idx parent _ nodes there) (Ordered-insert idx _ nodes below there ordered)
