-- ===== src/Merkle/Reference.antt =====
-- The tree that the nodes stand for: a function of the leaves alone, as in the prover's tree
-- (prover/circuits/merkle.go), and how it changes when one leaf does.
use nowa_zk.Base.{
  ℕ, zero, suc, ◌+◌, ◌-◌, ◌*◌, ◌/◌, ◌%◌, ◌≡◌, ◌≢◌, Option, none, some, ◌==◌, if◌then◌else◌, arith,
  inl, inr, Bool-cases,
}
use nowa_zk.Mimc.{Mimc}
use nowa_zk.Merkle.{hash2, parent_hash, sibling}

abbrev pub Leaves : Type 0
Leaves = ℕ → Option ℕ

abbrev pub set_leaf : ℕ → ℕ → Leaves → Leaves
set_leaf index leaf leaves i = if i == index then some leaf else leaves i

-- The ancestor of a leaf at a level.
abbrev pub ancestor : ℕ → ℕ → ℕ
ancestor zero index = index
ancestor (suc level) index = ancestor level index / 2

module _ (h : Mimc) where
  -- The value of a node: a leaf that was never written is 0.
  unfoldable pub node_hash : Leaves → ℕ → ℕ → ℕ
  node_hash leaves zero index = elim (leaves index) [ none ↦ 0 | some v ↦ v ]
  node_hash leaves (suc level) index =
      hash2 h (node_hash leaves level (2 * index)) (node_hash leaves level (2 * index + 1))

  abbrev pub reference_root : ℕ → Leaves → ℕ
  reference_root depth leaves = node_hash leaves depth 0

  -- A node is the hash of a child on the way and of that child's sibling.
  pub node_hash-parent :
      (leaves : Leaves) (level index : ℕ)
      → node_hash leaves (suc level) (index / 2)
        ≡ parent_hash h
            (index % 2)
            (node_hash leaves level index)
            (node_hash leaves level (sibling index))
  unfolding node_hash
  node_hash-parent leaves level index = elim (Bool-cases ((index % 2) == 0)) [
    | inl even ↦
        let here : 2 * (index / 2) ≡ index = ground arith in
        let bit : index % 2 ≡ 0 = ground arith in rw (here, bit)
    | inr odd ↦
        let here : 2 * (index / 2) + 1 ≡ index = ground arith in
        let there : 2 * (index / 2) ≡ index - 1 = ground arith in
        let bit : index % 2 ≡ 1 = ground arith in rw (here, there, bit)
  ]

  module _ (leaves : Leaves) (index leaf : ℕ) where
    -- A node that is no ancestor of the leaf keeps its value.
    pub node_hash-set_leaf_ne :
        (level i : ℕ)
        → i ≢ ancestor level index
        → node_hash (set_leaf index leaf leaves) level i ≡ node_hash leaves level i
    unfolding node_hash
    node_hash-set_leaf_ne zero i ne = ground arith
    node_hash-set_leaf_ne (suc level) i ne = rw (
      node_hash-set_leaf_ne level (2 * i) (λ e. ne (omega arith)),
      node_hash-set_leaf_ne level (2 * i + 1) (λ e. ne (omega arith)),
    )

    pub node_hash-set_leaf_self : node_hash (set_leaf index leaf leaves) 0 index ≡ leaf
    unfolding node_hash
    node_hash-set_leaf_self = ground arith
