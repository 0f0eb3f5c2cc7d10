-- ===== src/Prover/Published.antt =====
-- From the prover to the replay: what `submitProofWithBlob` publishes is what reconstruct-proof
-- reads.
use nowa_zk.Base.{
  ℕ, ◌+◌, ◌≤◌, ◌≡◌, arith, length, take, take_long, ltb, if◌then◌else◌, sym, ap, ◌∙◌, Bool, false,
  none, some, ◌++◌,
}
use nowa_zk.Base.Bytes.{Bytes, codes, eqb, eqb_refl, hex_encode}
use nowa_zk.Base.Options.{◌>>=◌, ◌>>◌, guard}
use nowa_zk.Mimc.{Mimc}
use nowa_zk.State.{Db}
use nowa_zk.Types.{ZkBatch}
use nowa_zk.Blob.{pack_blob, unpack_blob}
use nowa_zk.Blob.RoundTrip.{unpack_blob-pack_blob}
use nowa_zk.Replay.{and_then}
use nowa_zk.Replay.Batches.{
  Source, max_decompressed_payload_len, gzip_decompress, decode_da_payload, fetch_payload,
  replay_one_batch, replay_transitions, has_root,
}
use nowa_zk.Prover.{Da, Call, payload_of, prepare}
use nowa_zk.Prover.Calls.{bind_some, packed_fits, Prepared, inversion}

module _ (Proof : Type 0) (da : Da) where
  -- L1 and the blob archive hold the call for `b` as batch `n`, both sides have the same keccak256,
  -- and Go's gzip and JSON do what they document: reading from what was zipped gives its first bytes,
  -- and `json.Unmarshal` reads back what `json.Marshal` wrote of the payload.
  pub record IsPublished (src : Source) (n : ℕ) (b : ZkBatch) (call : Call Proof) : Type 0 where
    pub blob_hash_kept : src.batch_blob_hash n ≡ some call.blob_hash
    pub data_hash_kept : src.batch_data_hash n ≡ some call.data_hash
    pub blob_kept : src.fetch_blob (codes "0x" ++ hex_encode call.blob_hash) ≡ some call.blob
    pub same_hash : (s : Bytes) → src.keccak256 s ≡ da.keccak256 s
    pub unzips : (k : ℕ) (s : Bytes) → src.gunzip k (da.gzip s) ≡ some (take k s)
    pub reads_json : src.unmarshal (da.marshal (payload_of b)) ≡ some (payload_of b)

  unpacked :
      (payload blob : Bytes) → pack_blob payload ≡ some blob → unpack_blob blob ≡ some payload
  unpacked payload blob e =
      sym (ap (λ o. o >>= unpack_blob) e)
      ∙ unpack_blob-pack_blob payload (packed_fits payload blob e)

  not_below : (m n : ℕ) → n ≤ m → ltb m n ≡ false
  not_below m n h = ground (arith, h)

  -- What the prover compressed is decompressed where it is within the cap of the reader.
  decompresses :
      (src : Source) (s : Bytes)
      → ((k : ℕ) (t : Bytes) → src.gunzip k (da.gzip t) ≡ some (take k t))
      → length s ≤ max_decompressed_payload_len
      → gzip_decompress src (da.gzip s) ≡ some s
  unfolding gzip_decompress
  decompresses src s unzips small =
      let whole = take_long (max_decompressed_payload_len + 1) s (omega (arith, small)) in
      let within = not_below max_decompressed_payload_len (length s) small in
      bind_some (unzips (max_decompressed_payload_len + 1) s ∙ ap some whole) _
      ∙ ap (λ b. if b then none else some s) within

  decodes :
      (src : Source) (n : ℕ) (b : ZkBatch) (call : Call Proof)
      → IsPublished src n b call
      → length (da.marshal (payload_of b)) ≤ max_decompressed_payload_len
      → decode_da_payload src (da.gzip (da.marshal (payload_of b))) ≡ some (payload_of b)
  unfolding decode_da_payload
  decodes src n b call p small =
      bind_some (decompresses src (da.marshal (payload_of b)) p.unzips small) _ ∙ p.reads_json

  fetches :
      (src : Source) (n : ℕ) (b : ZkBatch) (call : Call Proof)
      → IsPublished src n b call
      → Prepared Proof da b call
      → length (da.marshal (payload_of b)) ≤ max_decompressed_payload_len
      → fetch_payload src n ≡ some (payload_of b)
  unfolding fetch_payload
  fetches src n b call p c small =
      let checked =
        ap (λ s. eqb s call.data_hash) (p.same_hash c.payload ∙ sym c.hashed)
        ∙ eqb_refl call.data_hash in
      bind_some p.blob_hash_kept _
      ∙ bind_some p.data_hash_kept _
      ∙ bind_some p.blob_kept _
      ∙ bind_some (unpacked c.payload call.blob c.packed) _
      ∙ ap (λ t. guard t >> decode_da_payload src c.payload) checked
      ∙ ap (decode_da_payload src) c.compressed
      ∙ decodes src n b call p small

  -- A batch whose call the prover has prepared and whose payload takes at most 16 MiB as JSON is,
  -- once published, fetched, unpacked, decompressed and decoded by reconstruct-proof to its
  -- transitions and roots, and replaying it replays these and compares the root. Where the chain
  -- and the blob archive return what was sent, both sides have the same keccak256, reading from
  -- what was zipped gives its first bytes, and JSON reads back the payload that it wrote.
  pub prepare-fetch_payload :
      (src : Source) (n : ℕ) (b : ZkBatch) (proof : Proof) (call : Call Proof)
      → prepare Proof da b proof ≡ some call
      → IsPublished src n b call
      → length (da.marshal (payload_of b)) ≤ max_decompressed_payload_len
      → (fetch_payload src n ≡ some (payload_of b))
        × ((h : Mimc) (db : Db)
            → replay_one_batch h src n db
              ≡ and_then (replay_transitions h b.transitions) (has_root h b.new_root) db)
  unfolding replay_one_batch
  prepare-fetch_payload src n b proof call e p small =
      let read = fetches src n b call p (inversion Proof da b proof call e) small in
      (
        read,
        λ h db.
            ap
              (λ o. elim o as (λ _. Bool × Db) [
                | none ↦ (false, db)
                | some q ↦ and_then (replay_transitions h q.transitions) (has_root h q.new_root) db
              ])
              read,
      )
