-- ===== src/Merkle/Update.antt =====
-- `Update` keeps the stored nodes equal to the reference tree.
use nowa_zk.Base.{
  ℕ, zero, suc, ◌+◌, ◌*◌, ◌%◌, ◌≤◌, ◌<◌, ◌≡◌, ◌≢◌, refl, sym, ◌∙◌, ap, subst, none, ◌==◌,
  if◌then◌else◌, arith, inl, inr, Bool-cases, ◌&&◌, true, false,
}
use nowa_zk.Mimc.{Mimc}
use nowa_zk.Merkle.{
  Nodes, no_nodes, Put, put_node, write_batch, sibling, parent_hash, zero_hash, get_node,
  climb_puts, update,
}
use nowa_zk.Merkle.Reference.{
  Leaves, set_leaf, ancestor, node_hash, node_hash-parent, node_hash-set_leaf_ne,
  node_hash-set_leaf_self,
}

module _ (h : Mimc) where
  -- Every node down to the root has the value that the leaves give it.
  abbrev pub Represents : ℕ → Nodes → Leaves → Type 0
  Represents depth nodes leaves =
      (level index : ℕ)
      → level ≤ depth
      → get_node h nodes level index ≡ node_hash h leaves level index

  zero_hash-node_hash : (level index : ℕ) → zero_hash h level ≡ node_hash h (λ _. none) level index
  unfolding zero_hash node_hash
  zero_hash-node_hash zero i = refl
  zero_hash-node_hash (suc l) i =
      rw (← zero_hash-node_hash l (2 * i), ← zero_hash-node_hash l (2 * i + 1))

  -- The empty database is the tree with no leaf.
  pub no_nodes-Represents : (depth : ℕ) → Represents depth no_nodes (λ _. none)
  unfolding get_node
  no_nodes-Represents depth level index le = zero_hash-node_hash level index

  get_node-put :
      (p : Put) (nodes : Nodes) (level index : ℕ)
      → get_node h (put_node p nodes) level index ≡ (
          if (level == p.level) && (index == p.index)
          then p.value
          else get_node h nodes level index)
  unfolding get_node put_node
  get_node-put p nodes level index = ground arith

  module _ (depth : ℕ) (nodes : Nodes) (leaves : Leaves) (index leaf : ℕ) where
    abbrev changed : Leaves
    changed = set_leaf index leaf leaves

    -- Written up to `top`, not above.
    record IsMixed (top : ℕ) (now : Nodes) : Type 0 where
      below :
          (level i : ℕ)
          → level ≤ top
          → level ≤ depth
          → get_node h now level i ≡ node_hash h changed level i
      above :
          (level i : ℕ)
          → top < level
          → level ≤ depth
          → get_node h now level i ≡ node_hash h leaves level i

    unlike :
        (level i top : ℕ)
        → (level == suc top) ≡ true
        → (i == ancestor (suc top) index) ≡ false
        → i ≢ ancestor level index
    unlike level i top at off same =
        let e : level ≡ suc top = ground arith in
        let e' : i ≡ ancestor (suc top) index = same ∙ ap (λ l. ancestor l index) e in ground arith

    -- One write, of the ancestor's new value one level up.
    put-IsMixed :
        (top : ℕ) (now : Nodes)
        → IsMixed top now
        → IsMixed (suc top) (
            put_node
              (record {
                level = suc top;
                index = ancestor (suc top) index;
                value = node_hash h changed (suc top) (ancestor (suc top) index);
              })
              now)
    put-IsMixed top now m = record {
      below = λ level i le d. elim (Bool-cases (level == suc top)) [
        | inl at ↦ elim (Bool-cases (i == ancestor (suc top) index)) [
          | inl on ↦
              let e : level ≡ suc top = ground arith in
              let e' : i ≡ ancestor (suc top) index = ground arith in
              rw (get_node-put, at, on) (rw (e, e'))
          | inr off ↦
              rw (get_node-put, at, off)
                (m.above level i (ground arith) d
                  ∙ sym (
                      node_hash-set_leaf_ne h leaves index leaf level i
                        (unlike level i top at off)))
        ]
        | inr under ↦ rw (get_node-put, under) (m.below level i (ground arith) d)
      ];
      above = λ level i lt d.
          let off : (level == suc top) ≡ false = ground arith in
          rw (get_node-put, off) (m.above level i (omega arith) d);
    }

    -- The node written next is the one that the loop computes.
    climb_value :
        (top : ℕ)
        → Represents depth nodes leaves
        → top < depth
        → parent_hash h
            (ancestor top index % 2)
            (node_hash h changed top (ancestor top index))
            (get_node h nodes top (sibling (ancestor top index)))
          ≡ node_hash h changed (suc top) (ancestor (suc top) index)
    climb_value top r lt =
        let beside : sibling (ancestor top index) ≢ ancestor top index = ground arith in
        rw
          (
            r top (sibling (ancestor top index)) (omega arith),
            ← node_hash-set_leaf_ne h leaves index leaf top (sibling (ancestor top index)) beside,
          )
          (sym (node_hash-parent h changed top (ancestor top index)))

    climb-IsMixed :
        (rounds top : ℕ) (now : Nodes)
        → Represents depth nodes leaves
        → top + rounds ≡ depth
        → IsMixed top now
        → IsMixed depth (
            write_batch
              (climb_puts h nodes rounds top
                (ancestor top index)
                (node_hash h changed top (ancestor top index)))
              now)
    unfolding climb_puts write_batch
    climb-IsMixed zero top now r e m = subst (λ t. IsMixed t now) (omega arith) m
    climb-IsMixed (suc rounds) top now r e m =
        rw (climb_value top r (omega arith))
          (climb-IsMixed rounds (suc top) _ r (omega arith) (put-IsMixed top now m))

    start-IsMixed :
        Represents depth nodes leaves
        → IsMixed 0 (put_node (record { level = 0; index = index; value = leaf }) nodes)
    unfolding node_hash
    start-IsMixed r = record {
      below = λ level i le d.
          let e : level ≡ 0 = omega arith in
          rw (e, get_node-put)
            (elim (Bool-cases (i == index)) [
              | inl on ↦ rw (on, node_hash)
              | inr off ↦ rw off (
                  r 0 i (omega arith)
                  ∙ sym (node_hash-set_leaf_ne h leaves index leaf 0 i (ground arith)))
            ]);
      above = λ level i lt d.
          let off : (level == 0) ≡ false = ground arith in rw (get_node-put, off) (r level i d);
    }

  -- After `Update` the nodes are those of the tree in which the one leaf is replaced.
  pub update-Represents :
      (depth : ℕ) (nodes : Nodes) (leaves : Leaves) (index leaf : ℕ)
      → Represents depth nodes leaves
      → Represents depth (update h depth index leaf nodes) (set_leaf index leaf leaves)
  unfolding update
  update-Represents depth nodes leaves index leaf r level i le =
      subst
        (λ v.
          get_node h
            (write_batch (climb_puts h nodes depth 0 index v)
              (put_node (record { level = 0; index = index; value = leaf }) nodes))
            level i
          ≡ node_hash h (set_leaf index leaf leaves) level i)
        (node_hash-set_leaf_self h leaves index leaf)
        ((climb-IsMixed depth nodes leaves index leaf depth 0 _ r (omega arith)
            (start-IsMixed depth nodes leaves index leaf r)).below
          level i le le)
