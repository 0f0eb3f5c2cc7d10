-- ===== src/Merkle/Tests.antt =====
-- The theorems about the tree on a tree of depth 3 with two leaves.
use nowa_zk.Base.{◌≡◌, refl, none}
use nowa_zk.Samples.{sample_hash}
use nowa_zk.Merkle.{Nodes, no_nodes, update, get_path, get_path_from, root}
use nowa_zk.Merkle.Reference.{Leaves, set_leaf}
use nowa_zk.Merkle.Update.{Represents, no_nodes-Represents, update-Represents}
use nowa_zk.Merkle.Proof.{fold_path}

abbrev two_nodes : Nodes
two_nodes = update sample_hash 3 2 11 (update sample_hash 3 5 12 no_nodes)

abbrev two_leaves : Leaves
two_leaves = set_leaf 2 11 (set_leaf 5 12 (λ _. none))

two-Represents : Represents sample_hash 3 two_nodes two_leaves
two-Represents =
    update-Represents sample_hash 3 (update sample_hash 3 5 12 no_nodes) (set_leaf 5 12 (λ _. none))
      2 11
      (update-Represents sample_hash 3 no_nodes (λ _. none) 5 12
        (no_nodes-Represents sample_hash 3))

-- The path of leaf 5 leads to the root, by evaluation.
path_of_five :
    fold_path sample_hash 12
      (get_path sample_hash 3 two_nodes 5).0
      (get_path sample_hash 3 two_nodes 5).1
    ≡ root sample_hash 3 two_nodes
unfolding fold_path root update get_path_from
path_of_five = refl

update-Represents_example :
    Represents sample_hash 3 (update sample_hash 3 6 13 two_nodes) (set_leaf 6 13 two_leaves)
update-Represents_example = update-Represents sample_hash 3 two_nodes two_leaves 6 13 two-Represents
