-- ===== src/Merkle/Proof.antt =====
-- `GetPath` gives a proof of the leaf: hashing up along it leads to the root, before an update with
-- the old leaf and after it with the new one.
use nowa_zk.Base.{
  some, inl, inr, Option-cases, ℕ, zero, suc, ◌+◌, ◌*◌, ◌/◌, ◌^◌, ◌≤◌, ◌<◌, ◌≡◌, refl, sym, ◌∙◌, ap,
  subst, ◌≢◌, List, [], ◌∷◌, arith, length, All,
}
use nowa_zk.Mimc.{Mimc}
use nowa_zk.Merkle.{Nodes, sibling, parent_hash, get_node, get_path_from, get_path, update, root}
use nowa_zk.Merkle.Reference.{
  Leaves, set_leaf, ancestor, node_hash, node_hash-parent, node_hash-set_leaf_ne,
  node_hash-set_leaf_self,
}
use nowa_zk.Merkle.Update.{Represents, update-Represents}
use native.Mathlib.Nat.{pow-suc}

-- Below 2 ^ (level + room) an index has an ancestor below 2 ^ room.
ancestor_lt : (level room index : ℕ) → index < 2 ^ (level + room) → ancestor level index < 2 ^ room
ancestor_lt zero room index lt = subst (λ n. index < 2 ^ n) (omega arith) lt
ancestor_lt (suc level) room index lt =
    let lt' : index < 2 ^ (level + suc room) = subst (λ n. index < 2 ^ n) (omega arith) lt in
    let ih : ancestor level index < 2 ^ room * 2 =
      subst (λ n. ancestor level index < n) (pow-suc 2 room)
        (ancestor_lt level (suc room) index lt') in
    omega arith

pub ancestor-top : (depth index : ℕ) → index < 2 ^ depth → ancestor depth index ≡ 0
ancestor-top depth index lt =
    let small : ancestor depth index < 2 ^ 0 =
      ancestor_lt depth 0 index (subst (λ n. index < 2 ^ n) (omega arith) lt) in
    omega arith

module _ (h : Mimc) where
  -- Hash up from `cur`: a bit says on which side it stands.
  unfoldable pub fold_path : ℕ → List ℕ → List ℕ → ℕ
  fold_path cur [] bits = cur
  fold_path cur (s ∷ path) [] = cur
  fold_path cur (s ∷ path) (b ∷ bits) = fold_path (parent_hash h b cur s) path bits

  module _ (depth : ℕ) (nodes : Nodes) (leaves : Leaves) (index : ℕ) where
    -- The siblings on the way up are those of the tree over `leaves`.
    abbrev pub HasSiblings : Type 0
    HasSiblings =
        (level : ℕ)
        → level < depth
        → get_node h nodes level (sibling (ancestor level index))
          ≡ node_hash h leaves level (sibling (ancestor level index))

    fold_path_from :
        (rounds level : ℕ)
        → HasSiblings
        → level + rounds ≡ depth
        → let (path, bits) = get_path_from h nodes rounds level (ancestor level index) in
          fold_path (node_hash h leaves level (ancestor level index)) path bits
          ≡ node_hash h leaves depth (ancestor depth index)
    unfolding fold_path get_path_from
    fold_path_from zero level s e =
        let e' : level ≡ depth = omega arith in ap (λ l. node_hash h leaves l (ancestor l index)) e'
    fold_path_from (suc rounds) level s e =
        rw (s level (omega arith), ← node_hash-parent h leaves level (ancestor level index))
          (fold_path_from rounds (suc level) s (omega arith))

    fold_path_root :
        HasSiblings
        → index < 2 ^ depth
        → let (path, bits) = get_path h depth nodes index in
          fold_path (node_hash h leaves 0 index) path bits ≡ node_hash h leaves depth 0
    fold_path_root s lt =
        fold_path_from depth 0 s (omega arith)
        ∙ ap (node_hash h leaves depth) (ancestor-top depth index lt)

  -- For an index that the tree has, the path from `GetPath` leads from the stored leaf to `Root`.
  pub get_path_proves :
      (depth : ℕ) (nodes : Nodes) (leaves : Leaves) (index : ℕ)
      → Represents h depth nodes leaves
      → index < 2 ^ depth
      → let (path, bits) = get_path h depth nodes index in
        fold_path (get_node h nodes 0 index) path bits ≡ root h depth nodes
  unfolding root
  get_path_proves depth nodes leaves index r lt =
      rw (r 0 index (omega arith), r depth 0 (omega arith))
        (fold_path_root depth nodes leaves index (λ level l. r level _ (omega arith)) lt)

  siblings_stay :
      (depth : ℕ) (nodes : Nodes) (leaves : Leaves) (index leaf : ℕ)
      → Represents h depth nodes leaves
      → HasSiblings depth nodes (set_leaf index leaf leaves) index
  siblings_stay depth nodes leaves index leaf r level l =
      let beside : sibling (ancestor level index) ≢ ancestor level index = ground arith in
      r level _ (omega arith)
      ∙ sym
          (node_hash-set_leaf_ne h leaves index leaf level (sibling (ancestor level index)) beside)

  -- The root after `Update` is the new leaf hashed up along the path of the old tree, as the
  -- circuit recomputes it.
  pub root-update :
      (depth : ℕ) (nodes : Nodes) (leaves : Leaves) (index leaf : ℕ)
      → Represents h depth nodes leaves
      → index < 2 ^ depth
      → let (path, bits) = get_path h depth nodes index in
        root h depth (update h depth index leaf nodes) ≡ fold_path leaf path bits
  unfolding root
  root-update depth nodes leaves index leaf r lt =
      let changed = set_leaf index leaf leaves in
      update-Represents h depth nodes leaves index leaf r depth 0 (omega arith)
      ∙ sym (
          fold_path_root depth nodes changed index (siblings_stay depth nodes leaves index leaf r)
            lt)
      ∙ ap (λ v. fold_path v (get_path h depth nodes index).0 (get_path h depth nodes index).1)
          (node_hash-set_leaf_self h leaves index leaf)

  -- What the path of `GetPath` looks like: an entry for each level, and bits that are bits.
  pub get_path_shape :
      (nodes : Nodes) (rounds level index : ℕ)
      → let (path, bits) = get_path_from h nodes rounds level index in
        (length path ≡ rounds) × (length bits ≡ rounds) × All (λ b. b ≤ 1) bits
  unfolding get_path_from
  get_path_shape nodes zero level index = (refl, refl, tt)
  get_path_shape nodes (suc rounds) level index =
      let (p, b, small) = get_path_shape nodes rounds (suc level) (index / 2) in
      (ap suc p, ap suc b, (omega arith, small))

  node_hash_lt :
      (leaves : Leaves)
      → ((i v : ℕ) → leaves i ≡ some v → v < h.modulus)
      → (level index : ℕ) → node_hash h leaves level index < h.modulus
  unfolding node_hash
  node_hash_lt leaves small zero index = elim (Option-cases (leaves index)) [
    | inl e ↦ let big = h.modulus_large in rw (e, node_hash) (omega arith)
    | inr (v, e) ↦ rw (e, node_hash) (small index v e)
  ]
  node_hash_lt leaves small (suc level) index = h.sum_lt _

  -- Every sibling of a path is an element of the field.
  pub get_path_small :
      (depth : ℕ) (nodes : Nodes) (leaves : Leaves)
      → Represents h depth nodes leaves
      → ((i v : ℕ) → leaves i ≡ some v → v < h.modulus)
      → (rounds level index : ℕ) → level + rounds ≤ depth
      → All (λ n. n < h.modulus) (get_path_from h nodes rounds level index).0
  unfolding get_path_from
  get_path_small depth nodes leaves r small zero level index le = tt
  get_path_small depth nodes leaves r small (suc rounds) level index le = (
    subst (λ n. n < h.modulus) (sym (r level (sibling index) (omega arith)))
        (node_hash_lt leaves small level (sibling index)),
    get_path_small depth nodes leaves r small rounds (suc level) (index / 2) (omega arith),
  )
