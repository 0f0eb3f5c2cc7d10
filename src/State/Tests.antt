-- ===== src/State/Tests.antt =====
-- The theorems about accounts and leaves on the sample database.
use nowa_zk.Base.{ℕ, ◌/◌, ◌%◌, ◌^◌, ◌<◌, ◌≡◌, none, some, arith}
use nowa_zk.Base.Bytes.{Bytes, codes, trim_0x}
use nowa_zk.Samples.{sample_hash, sample_account, sample_db, sample_db-IsSynced, sample_room}
use nowa_zk.State.{empty_db, get_account_id, leaf_index, set_balance}
use nowa_zk.State.Accounts.{HasIds, empty_db-HasIds, get_account_id-HasIds}
use nowa_zk.State.Leaf.{IsSynced, leaf_index_parts, set_balance-IsSynced}

leaf_index_parts_example :
    (leaf_index 3 2 / 256 ≡ 3) × (leaf_index 3 2 % 256 ≡ 2) × (leaf_index 3 2 < 2 ^ 28)
leaf_index_parts_example = leaf_index_parts 3 2 (sample_room 3 2 (omega arith) (omega arith))

get_account_id-HasIds_example :
    let (id, db') = get_account_id (codes "0xabcd") empty_db in
    HasIds db'
    × (db'.account_ids (trim_0x (codes "0xabcd")) ≡ some id)
    × ((k : Bytes) (i : ℕ) → none ≡ some i → db'.account_ids k ≡ some i)
get_account_id-HasIds_example =
    get_account_id-HasIds (codes "0xabcd") empty_db empty_db-HasIds (omega arith)

set_balance-IsSynced_example :
    IsSynced sample_hash (set_balance sample_hash (sample_account 5 7 30) sample_db)
set_balance-IsSynced_example =
    set_balance-IsSynced sample_hash (sample_account 5 7 30) sample_db sample_db-IsSynced
      (sample_room 5 7 (omega arith) (omega arith))
