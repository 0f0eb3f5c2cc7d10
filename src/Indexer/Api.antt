-- ===== src/Indexer/Api.antt =====
-- indexer/internal/indexer/api.go: the handlers of the indexer's API on the store of batches. The
-- number of a path is an integer, or `none` for a text that is none; fiber's `ParamsInt` refuses
-- such a text and an integer that is no `int` of 64 bits.
pub mod Window
pub mod Served
pub mod Reset
mod Tests
use nowa_zk.Base.{ℕ, zero, suc, ◌+◌, ◌-◌, ◌%◌, ◌^◌, Option, none, some, ltb, ◌==◌, if◌then◌else◌}
use nowa_zk.Base.Int.{ℤ, pos, negsuc}
use nowa_zk.Storage.{KvStore}
use nowa_zk.ProverApi.{Reply, sent, bad_request, not_found}
use nowa_zk.Indexer.Store.{
  Batch, BatchCodecs, BatchStore, get_batch, get_latest_batch, get_last_deleted_batch,
}

-- The entries of `handleStatus` that stand there where batches were built.
pub record BatchRange : Type 0 where
  pub oldest : ℕ
  pub newest : ℕ
  pub total_in_db : ℕ
  pub last_deleted : Option ℕ

pub record IndexerStatus : Type 0 where
  pub batch_count : ℕ
  pub range : Option BatchRange

abbrev pub reply_of : {T : Type 0} → Option T → Reply T
reply_of none = not_found
reply_of (some t) = sent t

-- `c.ParamsInt("number")`
abbrev pub params_int : Option ℤ → Option ℤ
params_int none = none
params_int (some (pos n)) = if ltb n (2 ^ 63) then some (pos n) else none
params_int (some (negsuc n)) = if ltb n (2 ^ 63) then some (negsuc n) else none

-- `uint64(number)` of an `int`
abbrev pub batch_number : ℤ → ℕ
batch_number (pos n) = n % 2 ^ 64
batch_number (negsuc n) = 2 ^ 64 - suc n

abbrev pub batch_range : (batch_count last_deleted : ℕ) → BatchRange
batch_range batch_count last_deleted =
    let oldest_batch = if ltb 0 last_deleted then (last_deleted + 1) % 2 ^ 64 else 1 in
    record {
      oldest = oldest_batch;
      newest = batch_count;
      total_in_db = (batch_count + 2 ^ 64 - oldest_batch + 1) % 2 ^ 64;
      last_deleted = if ltb 0 last_deleted then some last_deleted else none;
    }

module _ (kv : KvStore) (codecs : BatchCodecs) where
  unfoldable pub handle_status : BatchStore kv codecs → IndexerStatus
  handle_status st = record {
    batch_count = st.count;
    range =
        if ltb 0 st.count
        then some (batch_range st.count (get_last_deleted_batch kv codecs st))
        else none;
  }

  unfoldable pub handle_latest_batch : BatchStore kv codecs → Reply Batch
  handle_latest_batch st = reply_of (get_latest_batch kv codecs st)

  -- `GetBatch` and its reply; reading a batch may put it into the cache.
  abbrev pub serve_batch : ℕ → BatchStore kv codecs → Reply Batch × BatchStore kv codecs
  serve_batch n st = let r = get_batch kv codecs n st in (reply_of r.0, r.1)

  unfoldable pub handle_get_batch :
      Option ℤ → BatchStore kv codecs → Reply Batch × BatchStore kv codecs
  handle_get_batch param st = elim (params_int param) [
    | none ↦ (bad_request, st)
    | some number ↦ serve_batch (batch_number number) st
  ]
