-- ===== src/State.antt =====
-- sequencer/internal/state/merkle_db.go, the accounts: balances, account ids and metadata in the
-- same LevelDB as the tree. The key prefixes ("balance:", "pubkey:", "meta:", the 12 bytes of a
-- node, whose first is 0) keep the kinds of entry apart, so each is a map of its own. A balance
-- is stored as JSON and read back as it was; failures of LevelDB itself are left out.
pub mod Accounts
pub mod Leaf
mod Tests
use nowa_zk.Base.{
  ℕ, ◌+◌, ◌*◌, ◌%◌, ◌^◌, Bool, ◌&&◌, Option, none, some, List, [], ◌∷◌, ◌==◌, if◌then◌else◌,
}
use nowa_zk.Base.Bytes.{Bytes, eqb, trim_0x}
use nowa_zk.Base.Int.{ℤ, pos}
use nowa_zk.Mimc.{Mimc, fr}
use nowa_zk.Types.{BalanceState}
use nowa_zk.Merkle.{Nodes, no_nodes, update, get_path, root}

pub record Db : Type 0 where
  pub nodes : Nodes
  pub balances : ℕ → ℕ → Option BalanceState
  pub account_ids : Bytes → Option ℕ
  pub next_account_id : Option ℕ
  pub meta : Bytes → Option Bytes

abbrev pub empty_db : Db
empty_db = record {
  nodes = no_nodes;
  balances = λ _ _. none;
  account_ids = λ _. none;
  next_account_id = none;
  meta = λ _. none;
}

-- `depth` of the tree, 28 wherever the program opens one.
abbrev pub tree_depth : ℕ
tree_depth = 28

-- `(acc.AccountID * 256) + uint64(acc.TokenID)`
unfoldable pub leaf_index : ℕ → ℕ → ℕ
leaf_index account_id token_id = (account_id * 256 + token_id) % 2 ^ 64

-- `GetBalance`; `none` is `nil`.
abbrev pub get_balance : ℕ → ℕ → Db → Option BalanceState
get_balance account_id token_id db = db.balances account_id token_id

module _ (h : Mimc) where
  -- `HashAccountLeaf`
  unfoldable pub hash_account_leaf : ℤ → ℤ → ℤ → ℤ → ℤ → ℕ
  unfolding fr
  hash_account_leaf index pub_x pub_y balance nonce =
      h.sum (fr h index ∷ fr h pub_x ∷ fr h pub_y ∷ fr h balance ∷ fr h nonce ∷ [])

  -- The hash that `SetBalance` puts into the tree.
  unfoldable pub balance_leaf : BalanceState → ℕ
  unfolding hash_account_leaf leaf_index
  balance_leaf acc =
      hash_account_leaf (pos (leaf_index acc.account_id acc.token_id)) acc.pub_key_x acc.pub_key_y
        acc.balance (pos acc.nonce)

  -- `SetBalance`
  unfoldable pub set_balance : BalanceState → Db → Db
  unfolding balance_leaf leaf_index
  set_balance acc db = record db {
    nodes =
        update h tree_depth (leaf_index acc.account_id acc.token_id) (balance_leaf acc) db.nodes;
    balances =
        λ a t. if (a == acc.account_id) && (t == acc.token_id) then some acc else db.balances a t;
  }

  abbrev pub db_root : Db → ℕ
  db_root db = root h tree_depth db.nodes

  abbrev pub db_path : Db → ℕ → List ℕ × List ℕ
  db_path db index = get_path h tree_depth db.nodes index

-- `SetMeta` and `GetMeta`
unfoldable pub set_meta : Bytes → Bytes → Db → Db
set_meta key value db = record db { meta = λ k. if eqb k key then some value else db.meta k }

abbrev pub get_meta : Bytes → Db → Option Bytes
get_meta key db = db.meta key

-- `GetNextAccountID`: the counter as it was, and one more stored.
unfoldable pub get_next_account_id : Db → ℕ × Db
get_next_account_id db =
    let idx : ℕ = elim db.next_account_id [ none ↦ 0 | some n ↦ n ] in
    (idx, record db { next_account_id = some ((idx + 1) % 2 ^ 64) })

-- `GetAccountID`: an unknown key gets the next id.
unfoldable pub get_account_id : Bytes → Db → ℕ × Db
unfolding get_next_account_id
get_account_id pub_key_hex db =
    let key = trim_0x pub_key_hex in
    elim (db.account_ids key) [
      | some id ↦ (id, db)
      | none ↦
          let (new_id, db') = get_next_account_id db in
          (
            new_id,
            record db' { account_ids = λ k. if eqb k key then some new_id else db'.account_ids k },
          )
    ]
