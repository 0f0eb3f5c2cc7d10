-- ===== src/State/Leaf.antt =====
-- The tree of a database holds exactly the leaves of its balances.
use nowa_zk.Base.{ℕ, ◌/◌, ◌%◌, ◌^◌, ◌<◌, ◌≡◌, refl, Option, none, some, arith}
use nowa_zk.Mimc.{Mimc}
use nowa_zk.Types.{BalanceState}
use nowa_zk.Merkle.Reference.{Leaves, set_leaf, node_hash}
use nowa_zk.Merkle.Update.{Represents, update-Represents, no_nodes-Represents}
use nowa_zk.Merkle.Proof.{fold_path, root-update, get_path_proves}
use nowa_zk.State.{
  Db, empty_db, leaf_index, balance_leaf, hash_account_leaf, set_balance, db_root, db_path,
  tree_depth,
}

-- The accounts and tokens that the tree of depth 28 has room for.
pub record IsInTree (account_id token_id : ℕ) : Type 0 where
  pub account : account_id < 2 ^ 20
  pub token : token_id < 256

-- In range the index takes both apart again, and the tree has it.
pub leaf_index_parts :
    (account_id token_id : ℕ)
    → IsInTree account_id token_id
    → (leaf_index account_id token_id / 256 ≡ account_id)
      × (leaf_index account_id token_id % 256 ≡ token_id)
      × (leaf_index account_id token_id < 2 ^ 28)
unfolding leaf_index
leaf_index_parts a t r = let p = r.account in let q = r.token in omega arith

abbrev pub leaf_of : Mimc → Option BalanceState → Option ℕ
leaf_of h none = none
leaf_of h (some acc) = some (balance_leaf h acc)

pub balance_leaf_lt : (h : Mimc) (acc : BalanceState) → balance_leaf h acc < h.modulus
unfolding balance_leaf hash_account_leaf
balance_leaf_lt h acc = h.sum_lt _

module _ (h : Mimc) where
  -- The nodes are those of a tree whose leaf at an account and a token is the hash of what is
  -- stored for them, or absent where nothing is.
  pub record IsSynced (db : Db) : Type 0 where
    pub leaves : Leaves
    pub nodes : Represents h tree_depth db.nodes leaves
    pub stored : (a t : ℕ) → IsInTree a t → leaves (leaf_index a t) ≡ leaf_of h (db.balances a t)
    pub small : (i v : ℕ) → leaves i ≡ some v → v < h.modulus
    pub keyed :
        (a t : ℕ) (acc : BalanceState)
        → db.balances a t ≡ some acc
        → (acc.account_id ≡ a) × (acc.token_id ≡ t)

  pub empty_db-IsSynced : IsSynced empty_db
  empty_db-IsSynced = record {
    leaves = λ _. none;
    nodes = no_nodes-Represents h tree_depth;
    stored = λ a t r. refl;
    small = λ i v e. ground arith;
    keyed = λ a t acc e. ground arith;
  }

  module _ (acc : BalanceState) (db : Db) (s : IsSynced db) where
    -- Storing a balance that the tree has room for keeps the tree and the balances together.
    pub set_balance-IsSynced :
        IsInTree acc.account_id acc.token_id → IsSynced (set_balance h acc db)
    unfolding set_balance
    set_balance-IsSynced r = record {
      leaves = set_leaf (leaf_index acc.account_id acc.token_id) (balance_leaf h acc) s.leaves;
      nodes = update-Represents h tree_depth db.nodes s.leaves _ _ s.nodes;
      stored = λ a t q. ground (
        arith,
        s.stored a t q,
        leaf_index_parts a t q,
        leaf_index_parts acc.account_id acc.token_id r,
      );
      small = λ i v e. ground (arith, s.small i v, balance_leaf_lt h acc);
      keyed = λ a t acc' e. ground (arith, s.keyed a t acc');
    }

    -- The new root is the new leaf hashed up along the old path.
    pub root-set_balance :
        IsInTree acc.account_id acc.token_id
        → let index = leaf_index acc.account_id acc.token_id in
          let (path, bits) = db_path h db index in
          db_root h (set_balance h acc db) ≡ fold_path h (balance_leaf h acc) path bits
    unfolding set_balance
    root-set_balance r =
        root-update h tree_depth db.nodes s.leaves _ (balance_leaf h acc) s.nodes
          (leaf_index_parts _ _ r).2

  -- The stored balance, or 0 where nothing is stored, is proved by its path against the root.
  pub db_path_proves :
      (a t : ℕ) (db : Db)
      → IsSynced db
      → IsInTree a t
      → let (path, bits) = db_path h db (leaf_index a t) in
        let leaf : ℕ = elim (leaf_of h (db.balances a t)) [ none ↦ 0 | some v ↦ v ] in
        fold_path h leaf path bits ≡ db_root h db
  unfolding node_hash
  db_path_proves a t db s r =
      rw (← s.stored a t r, ← s.nodes 0 (leaf_index a t) (omega arith))
        (get_path_proves h tree_depth db.nodes s.leaves (leaf_index a t) s.nodes
          (leaf_index_parts a t r).2)
