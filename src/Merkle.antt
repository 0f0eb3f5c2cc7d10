-- ===== src/Merkle.antt =====
-- sequencer/internal/state/merkle_db.go, the tree: a sparse Merkle tree whose nodes stand in
-- LevelDB under (level, index), where a node that is not stored has the hash of an empty subtree.
-- LevelDB's own failures, and a stored value of another length, are left out.
pub mod Reference
pub mod Update
pub mod Proof
mod Tests
use nowa_zk.Base.{
  ℕ, zero, suc, ◌+◌, ◌-◌, ◌/◌, ◌%◌, Option, none, some, List, [], ◌∷◌, ◌&&◌, ◌==◌, if◌then◌else◌,
}
use nowa_zk.Mimc.{Mimc}

abbrev pub Nodes : Type 0
Nodes = ℕ → ℕ → Option ℕ

abbrev pub no_nodes : Nodes
no_nodes level index = none

-- One `batch.Put(nodeKey(level, index), value)`.
pub record Put : Type 0 where
  pub level : ℕ
  pub index : ℕ
  pub value : ℕ

unfoldable pub put_node : Put → Nodes → Nodes
put_node p nodes level index =
    if (level == p.level) && (index == p.index) then some p.value else nodes level index

-- `db.Write(batch)`: the writes in order.
unfoldable pub write_batch : List Put → Nodes → Nodes
unfolding put_node
write_batch [] nodes = nodes
write_batch (p ∷ ps) nodes = write_batch ps (put_node p nodes)

-- `index ^ 1`
abbrev pub sibling : ℕ → ℕ
sibling index = if (index % 2) == 0 then index + 1 else index - 1

module _ (h : Mimc) where
  -- `h.Write(left); h.Write(right); h.Sum`
  abbrev pub hash2 : ℕ → ℕ → ℕ
  hash2 left right = h.sum (left ∷ right ∷ [])

  -- `left, right := cur, sibling`, swapped when the index is odd
  abbrev pub parent_hash : ℕ → ℕ → ℕ → ℕ
  parent_hash bit cur other = if bit == 1 then hash2 other cur else hash2 cur other

  -- `computeZeroHashes`, the entry of a level.
  unfoldable pub zero_hash : ℕ → ℕ
  zero_hash zero = 0
  zero_hash (suc i) = let z = zero_hash i in hash2 z z

  unfoldable pub get_node : Nodes → ℕ → ℕ → ℕ
  unfolding zero_hash
  get_node nodes level index = elim (nodes level index) [ none ↦ zero_hash level | some v ↦ v ]

  -- The loop of `Update` for `rounds` more levels. The siblings are read from the database, to
  -- which the batch has not been written yet.
  unfoldable pub climb_puts : Nodes → ℕ → ℕ → ℕ → ℕ → List Put
  unfolding get_node
  climb_puts nodes zero level index cur = []
  climb_puts nodes (suc rounds) level index cur =
      let parent = parent_hash (index % 2) cur (get_node nodes level (sibling index)) in
      record { level = suc level; index = index / 2; value = parent }
      ∷ climb_puts nodes rounds (suc level) (index / 2) parent

  -- `Update`
  unfoldable pub update : ℕ → ℕ → ℕ → Nodes → Nodes
  unfolding climb_puts write_batch
  update depth index leaf nodes =
      write_batch
        (record { level = 0; index = index; value = leaf } ∷ climb_puts nodes depth 0 index leaf)
        nodes

  -- `GetPath` for `rounds` more levels: the siblings from the leaf up, and the bits of the index.
  unfoldable pub get_path_from : Nodes → ℕ → ℕ → ℕ → List ℕ × List ℕ
  unfolding get_node
  get_path_from nodes zero level index = ([], [])
  get_path_from nodes (suc rounds) level index =
      let (path, bits) = get_path_from nodes rounds (suc level) (index / 2) in
      (get_node nodes level (sibling index) ∷ path, (index % 2) ∷ bits)

  abbrev pub get_path : ℕ → Nodes → ℕ → List ℕ × List ℕ
  get_path depth nodes index = get_path_from nodes depth 0 index

  -- `Root`
  unfoldable pub root : ℕ → Nodes → ℕ
  unfolding get_node
  root depth nodes = get_node nodes depth 0
