-- ===== src/Indexer/Store.antt =====
-- indexer/internal/indexer/store.go and types/batch.go: the batches, in Badger and in memory, and
-- the marks of what was processed. Badger is the interface `KvStore` of Storage, JSON a codec; a
-- map from numbers to batches is a function; failures of the disk are left out. The mutex makes
-- every operation one step.
pub mod Marks
pub mod Cleanup
use nowa_zk.Base.{
  ℕ, zero, suc, ◌+◌, ◌-◌, ◌*◌, ◌/◌, ◌%◌, ◌≡◌, Bool, true, false, ◌&&◌, Option, none, some, List, [],
  ◌∷◌, ◌++◌, length, take, ltb, leb, ◌==◌, if◌then◌else◌,
}
use nowa_zk.Base.Bytes.{Bytes, codes, eqb}
use nowa_zk.Base.Bytes.Decimal.{print_ℕ}
use nowa_zk.Storage.{KvStore, Codec, after_prefix, scan_uint64}
use nowa_zk.Indexer.Pool.{Transaction}

pub record ParsedTrade : Type 0 where
  pub message_hash : Bytes
  pub pub_key_x : Bytes
  pub pub_key_y : Bytes
  pub sig_r : Bytes
  pub sig_s : Bytes
  pub signer_address : Bytes

pub record ExecutionTrace : Type 0 where
  pub tx_hash : Bytes
  pub from_address : Bytes
  pub to : Bytes
  pub contract_address : Bytes
  pub is_contract_deployment : Bool
  pub value : Bytes
  pub nonce : ℕ
  pub old_balance : Bytes
  pub new_balance : Bytes

pub record Batch : Type 0 where
  pub number : ℕ
  pub hash : Bytes
  pub transactions : List Transaction
  pub old_state_root : Bytes
  pub new_state_root : Bytes
  pub timestamp : ℕ
  pub status : Bytes
  pub traces : List ExecutionTrace
  pub trades : List ParsedTrade

pub record BatchMetadata : Type 0 where
  pub number : ℕ
  pub hash : Bytes
  pub prev_state_root : Bytes
  pub new_state_root : Bytes
  pub timestamp : ℕ
  pub tx_count : ℕ

pub record BatchCodecs : Type 0 where
  pub batches : Codec Batch
  pub metas : Codec BatchMetadata

abbrev pub batch_prefix : Bytes
batch_prefix = codes "batch:"

abbrev pub hash_prefix : Bytes
hash_prefix = codes "blockhash:"

-- `fmt.Sprintf("batch:%d", number)`
abbrev pub batch_key : ℕ → Bytes
batch_key n = batch_prefix ++ print_ℕ n

-- `fmt.Sprintf("blockhash:%d", blockNum)`
abbrev pub hash_key : ℕ → Bytes
hash_key n = hash_prefix ++ print_ℕ n

-- `fmt.Sprintf("meta:%d", number)`
abbrev pub meta_key : ℕ → Bytes
meta_key n = codes "meta:" ++ print_ℕ n

abbrev pub last_block_key : Bytes
last_block_key = codes "state:lastBlock"

abbrev pub last_deleted_key : Bytes
last_deleted_key = codes "cleanup:lastDeleted"

-- `bs.batches[n] = b`
abbrev pub put : ℕ → Option Batch → (ℕ → Option Batch) → ℕ → Option Batch
put n b m k = if k == n then b else m k

-- `binary.LittleEndian.PutUint64`, with so many bytes
unfoldable pub little_endian : ℕ → ℕ → Bytes
little_endian zero n = []
little_endian (suc k) n = (n % 256) ∷ little_endian k (n / 256)

unfoldable pub from_little_endian : Bytes → ℕ
from_little_endian [] = 0
from_little_endian (c ∷ s) = c + 256 * from_little_endian s

-- A mark that is missing or too short is 0.
unfoldable pub read_mark : Option Bytes → ℕ
unfolding from_little_endian
read_mark none = 0
read_mark (some v) = if leb 8 (length v) then from_little_endian (take 8 v) else 0

-- `fmt.Sscanf(key, "batch:%d", &n)`, which leaves 0 where it fails
unfoldable pub batch_of_key : Bytes → ℕ
unfolding after_prefix scan_uint64
batch_of_key k = elim (after_prefix batch_prefix k) [
  | none ↦ 0
  | some s ↦ elim (scan_uint64 s) [ none ↦ 0 | some n ↦ n ]
]

module _ (kv : KvStore) (codecs : BatchCodecs) where
  pub record BatchStore : Type 0 where
    pub db : kv.Db
    -- The cache; `none` is a missing key.
    pub batches : ℕ → Option Batch
    pub count : ℕ

  unfoldable pub save_batch : Batch → BatchStore → BatchStore
  save_batch b st = record {
    db = kv.set (batch_key b.number) (codecs.batches.marshal b) st.db;
    batches = put b.number (some b) st.batches;
    count = if ltb st.count b.number then b.number else st.count;
  }

  -- `none` is an error. What is read from Badger is cached.
  unfoldable pub get_batch : ℕ → BatchStore → Option Batch × BatchStore
  get_batch n st = elim (st.batches n) [
    | some b ↦ (some b, st)
    | none ↦ elim (kv.get (batch_key n) st.db) [
      | none ↦ (none, st)
      | some v ↦ elim (codecs.batches.unmarshal v) [
        | none ↦ (none, st)
        | some b ↦ (some b, record st { batches = put n (some b) st.batches })
      ]
    ]
  ]

  unfoldable pub get_latest_batch : BatchStore → Option Batch
  get_latest_batch st = if st.count == 0 then none else st.batches st.count

  -- What `GetIncompleteBatch` tests of the latest batch.
  abbrev pub is_incomplete : ℕ → Batch → Bool
  is_incomplete size b = eqb b.status (codes "pending") && ltb (length b.trades) size

  abbrev pub if_incomplete : ℕ → Option Batch → Option Batch
  if_incomplete size none = none
  if_incomplete size (some b) = if is_incomplete size b then some b else none

  unfoldable pub get_incomplete_batch : ℕ → BatchStore → Option Batch
  unfolding get_latest_batch
  get_incomplete_batch size st = if_incomplete size (get_latest_batch st)

  -- The batches of the numbers up to `n` that are cached, in order.
  abbrev pub batches_to : ℕ → BatchStore → List Batch
  batches_to zero st = []
  batches_to (suc n) st =
      batches_to n st ++ elim (st.batches (suc n)) [ none ↦ [] | some b ↦ b ∷ [] ]

  unfoldable pub get_all_batches : BatchStore → List Batch
  get_all_batches st = batches_to st.count st

  -- One entry of `loadBatches`.
  abbrev pub load_one : Option Batch → BatchStore → Option BatchStore
  load_one none st = none
  load_one (some b) st = some (record st {
    batches = put b.number (some b) st.batches;
    count = if ltb st.count b.number then b.number else st.count;
  })

  -- The loop of `loadBatches` over the keys that the iterator visits; `none` is an entry that does
  -- not unmarshal.
  unfoldable pub load_keys : List Bytes → BatchStore → Option BatchStore
  load_keys [] st = some st
  load_keys (k ∷ ks) st = elim (kv.get k st.db) [
    | none ↦ load_keys ks st
    | some v ↦ elim (load_one (codecs.batches.unmarshal v) st) [
      | none ↦ none
      | some st' ↦ load_keys ks st'
    ]
  ]

  unfoldable pub new_batch_store : kv.Db → Option BatchStore
  unfolding load_keys
  new_batch_store db =
      load_keys (kv.keys batch_prefix db) (record { db = db; batches = λ n. none; count = 0 })

  unfoldable pub get_last_processed_block : BatchStore → ℕ
  unfolding read_mark
  get_last_processed_block st = read_mark (kv.get last_block_key st.db)

  unfoldable pub set_last_processed_block : ℕ → BatchStore → BatchStore
  unfolding little_endian
  set_last_processed_block n st = record st { db = kv.set last_block_key (little_endian 8 n) st.db }

  unfoldable pub get_last_deleted_batch : BatchStore → ℕ
  unfolding read_mark
  get_last_deleted_batch st = read_mark (kv.get last_deleted_key st.db)

  unfoldable pub set_last_deleted_batch : ℕ → BatchStore → BatchStore
  unfolding little_endian
  set_last_deleted_batch n st = record st { db = kv.set last_deleted_key (little_endian 8 n) st.db }

  unfoldable pub get_block_hash : ℕ → BatchStore → Option Bytes
  get_block_hash n st = kv.get (hash_key n) st.db

  unfoldable pub set_block_hash : ℕ → Bytes → BatchStore → BatchStore
  set_block_hash n h st = record st { db = kv.set (hash_key n) h st.db }

  unfoldable pub delete_batch : ℕ → BatchStore → BatchStore
  delete_batch n st = record st {
    db = kv.delete (batch_key n) st.db;
    batches = put n none st.batches;
  }

  -- The loop of `DeleteBatchesAfter` over the keys of batches.
  unfoldable pub delete_keys_after : ℕ → List Bytes → BatchStore → BatchStore
  unfolding batch_of_key
  delete_keys_after n [] st = st
  delete_keys_after n (k ∷ ks) st = delete_keys_after n ks (
      if ltb n (batch_of_key k)
      then record st { db = kv.delete k st.db; batches = put (batch_of_key k) none st.batches }
      else st)

  unfoldable pub delete_batches_after : ℕ → BatchStore → BatchStore
  unfolding delete_keys_after
  delete_batches_after n st =
      let st' = delete_keys_after n (kv.keys batch_prefix st.db) st in
      record st' { count = if ltb n st'.count then n else st'.count }

  abbrev pub delete_keys : List Bytes → kv.Db → kv.Db
  delete_keys [] db = db
  delete_keys (k ∷ ks) db = delete_keys ks (kv.delete k db)

  unfoldable pub clear_all : BatchStore → BatchStore
  clear_all st =
      let db' = delete_keys (kv.keys batch_prefix st.db) st.db in
      record {
        db = kv.delete last_block_key (delete_keys (kv.keys hash_prefix db') db');
        batches = λ n. none;
        count = 0;
      }

  unfoldable pub save_batch_metadata : Batch → BatchStore → BatchStore
  save_batch_metadata b st =
      let m : BatchMetadata = record {
        number = b.number;
        hash = b.hash;
        prev_state_root = b.old_state_root;
        new_state_root = b.new_state_root;
        timestamp = b.timestamp;
        tx_count = length b.transactions;
      } in
      record st { db = kv.set (meta_key b.number) (codecs.metas.marshal m) st.db }

  unfoldable pub get_batch_metadata : ℕ → BatchStore → Option BatchMetadata
  get_batch_metadata n st = elim (kv.get (meta_key n) st.db) [
    | none ↦ none
    | some v ↦ codecs.metas.unmarshal v
  ]

  -- `CleanupOldBatches` from one number on, for so many batches.
  unfoldable pub delete_range : ℕ → ℕ → BatchStore → BatchStore
  unfolding delete_batch
  delete_range zero n st = st
  delete_range (suc k) n st = delete_range k (suc n) (delete_batch n st)

  -- `proven` is the answer of the prover's API; `none` is an error, which skips the cleanup.
  unfoldable pub cleanup_old_batches : (proven : Option ℕ) → BatchStore → BatchStore
  unfolding delete_range get_last_deleted_batch set_last_deleted_batch
  cleanup_old_batches none st = st
  cleanup_old_batches (some proven) st =
      let last = get_last_deleted_batch st in
      if leb proven last
      then st
      else (let st' = delete_range (proven - 1 - last) (suc last) st in
          if proven - 1 - last == 0 then st' else set_last_deleted_batch (proven - 1) st')
