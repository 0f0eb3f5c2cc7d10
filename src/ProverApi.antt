-- ===== src/ProverApi.antt =====
-- prover/internal/api/server.go: the handlers of the prover's API, on the store of Storage. The
-- contract of the batches is a parameter, with what it answers to the two calls made of it; the
-- addresses and hashes in its answers are texts in hexadecimal already. The failure of
-- `GetTotalBatches` is one of the disk.
pub mod Pages
mod Tests
use nowa_zk.Base.{
  ℕ, zero, suc, ◌+◌, ◌-◌, ◌*◌, ◌/◌, ◌%◌, ◌^◌, ◌≡◌, Bool, true, false, ◌||◌, Option, none, some,
  List, [], ◌∷◌, ◌++◌, length, map, ltb, leb, ◌==◌, if◌then◌else◌,
}
use nowa_zk.Base.Bytes.{Bytes, codes, hex_encode}
use nowa_zk.Base.Bytes.Decimal.{parse_ℕ, parse}
use nowa_zk.Base.Int.{ℤ, pos, negsuc, ltb_ℤ, eqb_ℤ}
use nowa_zk.Prover.Bytes32.{fill_bytes}
use nowa_zk.Storage.{
  KvStore, Codecs, ProofData, Listing, listed, unreadable, panics, in_uint64, get_batches,
  get_proof, get_total_batches,
}

pub record BatchResponse : Type 0 where
  pub batch_number : ℕ
  pub batch_hash : Bytes
  pub new_state_root : Bytes
  pub submitter : Bytes
  pub timestamp : ℕ
  pub status : ℕ
  pub tx_hash : Bytes
  pub tx_hashes : List Bytes

-- The status is the text of the response.
pub data ProofStatus : Type 0 where
  completed : (timestamp : ℕ) → ProofStatus
  verified_on_chain : ProofStatus
  pending : ProofStatus

pub record StatusResponse : Type 0 where
  pub status : ProofStatus
  pub batch_number : ℕ

-- The map that `handleGetBatches` writes.
pub record BatchesResponse : Type 0 where
  pub page_number : ℕ
  pub limit : ℕ
  pub count : ℕ
  pub total_pages : ℕ
  pub batches : List BatchResponse

pub data Reply (T : Type 0) : Type 0 where
  -- 200
  sent : T → Reply T
  -- 400
  bad_request : Reply T
  -- 404
  not_found : Reply T
  -- 500
  server_error : Reply T
  -- A slice out of range in the store.
  crashed : Reply T

-- What `GetBatch` of the contract answers.
pub record RegisteredBatch : Type 0 where
  pub batch_hash : Bytes
  pub new_state_root : Bytes
  pub submitter : Bytes
  pub timestamp : ℕ
  pub verified_at : ℕ
  pub status : ℕ

-- The calls of the contract; `none` is an error.
pub record Registry : Type 0 where
  pub total_batches : Option ℕ
  pub get_batch : ℕ → Option RegisteredBatch

-- `common.BigToHash(val).Hex()`: the last 32 bytes of the absolute value.
unfoldable pub big_to_hash_hex : ℤ → Bytes
unfolding fill_bytes hex_encode
big_to_hash_hex (pos n) = codes "0x" ++ hex_encode (fill_bytes 32 n [])
big_to_hash_hex (negsuc n) = codes "0x" ++ hex_encode (fill_bytes 32 (suc n) [])

unfoldable pub state_root_hex : Bytes → Bytes
unfolding parse big_to_hash_hex
state_root_hex root = elim (parse root) [ none ↦ root | some val ↦ big_to_hash_hex val ]

unfoldable pub batch_response : ProofData → BatchResponse
unfolding state_root_hex
batch_response d = record {
  batch_number = d.batch_number;
  batch_hash = d.batch_hash;
  new_state_root = state_root_hex d.new_state_root;
  submitter = d.submitter;
  timestamp = d.timestamp;
  status = d.status;
  tx_hash = d.tx_hash;
  tx_hashes = d.tx_hashes;
}

abbrev pub is_valid_limit : ℤ → Bool
is_valid_limit z = eqb_ℤ z (pos 10) || eqb_ℤ z (pos 25) || eqb_ℤ z (pos 50) || eqb_ℤ z (pos 100)

-- The limit that is used, which is positive.
unfoldable pub normal_limit : ℤ → ℕ
normal_limit (pos n) =
    if is_valid_limit (pos n)
    then n
    else (if ltb n 10 then 10 else (if ltb n 25 then 25 else (if ltb n 50 then 50 else 100)))
normal_limit (negsuc n) = 10

-- `uint64((page - 1) * limit)`, where the page is positive
unfoldable pub offset_of : ℕ → ℕ → ℕ
offset_of page_number limit = (page_number - 1) * limit % 2 ^ 64

unfoldable pub total_pages_of : ℕ → ℕ → ℕ
total_pages_of total limit = (total + limit - 1) % 2 ^ 64 / limit

abbrev pub handle_get_contracts : List (Bytes × Bytes) → Reply (List (Bytes × Bytes))
handle_get_contracts [] = not_found
handle_get_contracts (d ∷ ds) = sent (d ∷ ds)

module _ (kv : KvStore) (codecs : Codecs) where
  abbrev pub batches_reply : ℕ → ℕ → Listing → kv.Db → Reply BatchesResponse
  batches_reply page_number limit (listed ds) db = sent (record {
    page_number = page_number;
    limit = limit;
    count = length ds;
    total_pages = total_pages_of (get_total_batches kv codecs db) limit;
    batches = map batch_response ds;
  })
  batches_reply page_number limit unreadable db = server_error
  batches_reply page_number limit panics db = crashed

  unfoldable pub get_page : ℕ → ℕ → kv.Db → Reply BatchesResponse
  unfolding get_batches offset_of
  get_page page_number limit db =
      batches_reply page_number limit (get_batches kv codecs (offset_of page_number limit) limit db)
        db

  unfoldable pub handle_get_batches : (page_number limit : ℤ) → kv.Db → Reply BatchesResponse
  unfolding get_page normal_limit
  handle_get_batches (pos zero) limit db = bad_request
  handle_get_batches (pos (suc n)) limit db = get_page (suc n) (normal_limit limit) db
  handle_get_batches (negsuc n) limit db = bad_request

  -- `strconv.ParseUint(idStr, 10, 64)`
  abbrev pub batch_id : Bytes → Option ℕ
  batch_id id = in_uint64 (parse_ℕ id)

  unfoldable pub handle_get_batch : Bytes → kv.Db → Reply BatchResponse
  unfolding get_proof batch_response
  handle_get_batch id db = elim (batch_id id) [
    | none ↦ bad_request
    | some n ↦ elim (get_proof kv codecs n db) [
      | none ↦ not_found
      | some d ↦ sent (batch_response d)
    ]
  ]

  -- The status of a batch of which the store has no proof.
  unfoldable pub registered_status : Option RegisteredBatch → ProofStatus
  registered_status none = pending
  registered_status (some b) = if ltb 0 (b.verified_at % 2 ^ 64) then verified_on_chain else pending

  unfoldable pub handle_get_status : Registry → Bytes → kv.Db → Reply StatusResponse
  unfolding get_proof registered_status
  handle_get_status registry id db = elim (batch_id id) [
    | none ↦ bad_request
    | some n ↦ elim (get_proof kv codecs n db) [
      | none ↦ sent (record { status = registered_status (registry.get_batch n); batch_number = n })
      | some d ↦ sent (record { status = completed d.timestamp; batch_number = n })
    ]
  ]

  -- The hashes that the store adds, where it has the batch.
  abbrev pub stored_hashes : Option ProofData → Bytes × List Bytes
  stored_hashes none = ([], [])
  stored_hashes (some d) = (d.tx_hash, d.tx_hashes)

  abbrev pub latest_response : ℕ → RegisteredBatch → Bytes × List Bytes → BatchResponse
  latest_response n b hashes = record {
    batch_number = n;
    batch_hash = b.batch_hash;
    new_state_root = b.new_state_root;
    submitter = b.submitter;
    timestamp = b.timestamp % 2 ^ 64;
    status = b.status;
    tx_hash = hashes.0;
    tx_hashes = hashes.1;
  }

  unfoldable pub handle_latest_batch : Registry → kv.Db → Reply BatchResponse
  unfolding get_proof
  handle_latest_batch registry db = elim registry.total_batches [
    | none ↦ server_error
    | some total ↦ if total == 0 then not_found else elim (registry.get_batch total) [
      | none ↦ server_error
      | some b ↦
          let n = total % 2 ^ 64 in
          sent (latest_response n b (stored_hashes (get_proof kv codecs n db)))
    ]
  ]
