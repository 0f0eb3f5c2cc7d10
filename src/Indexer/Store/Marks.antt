-- ===== src/Indexer/Store/Marks.antt =====
-- The marks of the indexer's store: what is set is read back, and every other entry stays.
use nowa_zk.Base.{ℕ, ◌^◌, ◌<◌, ◌≡◌, ◌≢◌, refl, ap, ◌∙◌, some, arith}
use nowa_zk.Base.Bytes.{Bytes}
use nowa_zk.Base.Bytes.Decimal.{print_ℕ, parse_ℕ-print_ℕ}
use nowa_zk.Storage.{KvStore, KvLaws}
use nowa_zk.Indexer.Store.{
  BatchCodecs, BatchStore, batch_key, hash_key, last_block_key, last_deleted_key, little_endian,
  from_little_endian, read_mark, get_last_processed_block, set_last_processed_block,
  get_last_deleted_batch, set_last_deleted_batch, get_block_hash, set_block_hash,
}

print_ℕ_inj : (m n : ℕ) → print_ℕ m ≡ print_ℕ n → m ≡ n
print_ℕ_inj m n e = ground (arith, parse_ℕ-print_ℕ m, parse_ℕ-print_ℕ n)

pub batch_key_inj : (m n : ℕ) → batch_key m ≡ batch_key n → m ≡ n
batch_key_inj m n e = print_ℕ_inj m n (ground arith)

pub hash_key_inj : (m n : ℕ) → hash_key m ≡ hash_key n → m ≡ n
hash_key_inj m n e = print_ℕ_inj m n (ground arith)

pub hash-ne-batch : (m n : ℕ) → hash_key m ≢ batch_key n
hash-ne-batch m n e = ground (arith, e)

pub last_block-ne-batch : (n : ℕ) → last_block_key ≢ batch_key n
last_block-ne-batch n e = ground (arith, e)

pub last_block-ne-hash : (n : ℕ) → last_block_key ≢ hash_key n
last_block-ne-hash n e = ground (arith, e)

pub hash-ne-last_block : (n : ℕ) → hash_key n ≢ last_block_key
hash-ne-last_block n e = ground (arith, e)

pub last_deleted-ne-batch : (n : ℕ) → last_deleted_key ≢ batch_key n
last_deleted-ne-batch n e = ground (arith, e)

read_mark-little_endian : (n : ℕ) → n < 2 ^ 64 → read_mark (some (little_endian 8 n)) ≡ n
unfolding read_mark little_endian from_little_endian
read_mark-little_endian n h = omega arith

module _ (kv : KvStore) (codecs : BatchCodecs) (laws : KvLaws kv) (st : BatchStore kv codecs) where
  pub get-set_last_processed :
      (n : ℕ)
      → n < 2 ^ 64
      → get_last_processed_block kv codecs (set_last_processed_block kv codecs n st) ≡ n
  unfolding get_last_processed_block set_last_processed_block
  get-set_last_processed n h =
      ap read_mark (laws.get_set last_block_key (little_endian 8 n) st.db)
      ∙ read_mark-little_endian n h

  pub get-set_last_deleted :
      (n : ℕ)
      → n < 2 ^ 64
      → get_last_deleted_batch kv codecs (set_last_deleted_batch kv codecs n st) ≡ n
  unfolding get_last_deleted_batch set_last_deleted_batch
  get-set_last_deleted n h =
      ap read_mark (laws.get_set last_deleted_key (little_endian 8 n) st.db)
      ∙ read_mark-little_endian n h

  pub hash-set_last_processed :
      (n k : ℕ)
      → get_block_hash kv codecs k (set_last_processed_block kv codecs n st)
        ≡ get_block_hash kv codecs k st
  unfolding get_block_hash set_last_processed_block
  hash-set_last_processed n k =
      laws.get-set_other (hash_key k) last_block_key _ st.db (hash-ne-last_block k)

  pub get-set_block_hash :
      (n : ℕ) (h : Bytes) → get_block_hash kv codecs n (set_block_hash kv codecs n h st) ≡ some h
  unfolding get_block_hash set_block_hash
  get-set_block_hash n h = laws.get_set (hash_key n) h st.db

  pub get-set_block_hash_other :
      (n k : ℕ) (h : Bytes)
      → k ≢ n
      → get_block_hash kv codecs k (set_block_hash kv codecs n h st) ≡ get_block_hash kv codecs k st
  unfolding get_block_hash set_block_hash
  get-set_block_hash_other n k h other =
      laws.get-set_other (hash_key k) (hash_key n) h st.db (λ e. other (hash_key_inj k n e))

  -- A mark changes no batch.
  pub set_block_hash_same :
      (n : ℕ) (h : Bytes)
      → ((set_block_hash kv codecs n h st).batches ≡ st.batches)
        × ((set_block_hash kv codecs n h st).count ≡ st.count)
  unfolding set_block_hash
  set_block_hash_same n h = (refl, refl)

  pub set_last_processed_same :
      (n : ℕ)
      → ((set_last_processed_block kv codecs n st).batches ≡ st.batches)
        × ((set_last_processed_block kv codecs n st).count ≡ st.count)
  unfolding set_last_processed_block
  set_last_processed_same n = (refl, refl)
