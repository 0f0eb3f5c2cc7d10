-- ===== src/Replay/Batches/Tests.antt =====
-- One published batch, through a blob, replayed on an empty database.
use nowa_zk.Base.{
  ◌≡◌, refl, ◌∙◌, ap, true, some, none, [], ◌∷◌, arith, Bool, false, if◌then◌else◌, take,
}
use nowa_zk.Base.Bytes.{eqb}
use nowa_zk.Base.Bytes.Decimal.{print, parse}
use nowa_zk.Base.Int.{pos}
use nowa_zk.Samples.{sample_hash, sample_db, sample_db-IsSynced, sample_room}
use nowa_zk.Base.Bytes.{codes}
use nowa_zk.Base.{ℕ, List}
use nowa_zk.State.{get_account_id, set_balance}
use nowa_zk.State.Leaf.{leaf_of}
use nowa_zk.Merkle.Proof.{fold_path}
use nowa_zk.Sequencer.{path_text}
use nowa_zk.Replay.Batches.{build_proof}
use nowa_zk.Replay.Batches.Proofs.{build_proof_verifies}
use nowa_zk.Merkle.{get_node, root, zero_hash}
use nowa_zk.State.{Db, empty_db, db_root, set_meta}
use nowa_zk.Blob.{pack_blob}
use nowa_zk.Blob.RoundTrip.{unpack_blob-pack_blob_then}
use nowa_zk.Replay.{and_then}
use nowa_zk.Replay.Batches.{
  has_root, Source, DaPayload, fetch_payload, decode_da_payload, gzip_decompress, replay_one_batch,
  replay_all_batches, replay_transitions, replay_from, read_checkpoint, last_replayed_batch_key,
  put_uint64,
}
use nowa_zk.Replay.Batches.Resume.{replay_all_batches-resumes}
use nowa_zk.Replay.Batches.Verified.{IsVerified, has_payload, replay_one_batch-IsVerified}

abbrev empty_payload : DaPayload
empty_payload = record {
  version = 1;
  batch_id = 1;
  old_root = [];
  new_root = print (pos (db_root sample_hash empty_db));
  withdrawal_hash = [];
  deposit_hash = [];
  transitions = [];
}

abbrev one_batch : Source
one_batch = record {
  batch_count = some 1;
  batch_blob_hash = λ id. some (1 ∷ 2 ∷ []);
  batch_data_hash = λ id. some (5 ∷ 6 ∷ []);
  state_root = none;
  fetch_blob = λ versioned_hash. pack_blob (5 ∷ 6 ∷ []);
  keccak256 = λ bytes. bytes;
  gunzip = λ n bytes. some (take n bytes);
  unmarshal = λ bytes. some empty_payload;
}

fetched : fetch_payload one_batch 0 ≡ some empty_payload
unfolding fetch_payload decode_da_payload gzip_decompress eqb
fetched = unpack_blob-pack_blob_then (5 ∷ 6 ∷ []) _ (omega arith)

root_matches :
    and_then
      (replay_transitions sample_hash [])
      (has_root sample_hash empty_payload.new_root)
      empty_db
    ≡ (true, empty_db)
unfolding replay_transitions parse print root get_node zero_hash
root_matches = refl

replayed : replay_one_batch sample_hash one_batch 0 empty_db ≡ (true, empty_db)
replayed = has_payload sample_hash one_batch 0 empty_db empty_payload fetched ∙ root_matches

abbrev db_after : Db
db_after = set_meta last_replayed_batch_key (put_uint64 0) empty_db

replayed_all : replay_all_batches sample_hash one_batch empty_db ≡ (true, db_after)
unfolding replay_all_batches read_checkpoint replay_from
replayed_all =
    ap
      (λ (r : Bool × Db).
        if r.0 then (true, set_meta last_replayed_batch_key (put_uint64 0) r.1) else (false, r.1))
      replayed

replay_one_batch-IsVerified_example : IsVerified sample_hash one_batch 0 empty_db
replay_one_batch-IsVerified_example =
    replay_one_batch-IsVerified sample_hash one_batch 0 empty_db empty_db replayed

replay_all_batches-resumes_example :
    replay_all_batches sample_hash one_batch db_after ≡ (true, db_after)
replay_all_batches-resumes_example =
    replay_all_batches-resumes sample_hash one_batch 1 refl empty_db db_after (omega arith)
      replayed_all

build_proof_verifies_example :
    let (out, db') = build_proof sample_hash (codes "0xabcd") 2 sample_db in
    let leaf : ℕ = elim (leaf_of sample_hash (db'.balances out.account_id out.token_id)) [
      | none ↦ 0
      | some v ↦ v
    ] in
    (path : List ℕ) × (out.siblings ≡ path_text sample_hash path)
    × (fold_path sample_hash leaf path out.path_bits ≡ db_root sample_hash db')
unfolding get_account_id set_balance
build_proof_verifies_example =
    build_proof_verifies sample_hash (codes "0xabcd") 2 sample_db sample_db-IsSynced
      (sample_room 0 2 (omega arith) (omega arith))
