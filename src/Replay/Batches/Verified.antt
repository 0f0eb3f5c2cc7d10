-- ===== src/Replay/Batches/Verified.antt =====
-- What a replay that ends well has checked of a batch.
use nowa_zk.Base.{
  ℕ, ◌≡◌, refl, sym, ◌∙◌, ap, Bool, true, false, Option, none, some, arith, inl, inr, Option-cases,
  ◌++◌,
}
use nowa_zk.Base.Bytes.{Bytes, codes, eqb, eq_of_eqb, hex_encode}
use nowa_zk.Base.Bytes.Decimal.{parse}
use nowa_zk.Base.Int.{ℤ, pos, eqb_ℤ, eq_of_parts}
use nowa_zk.Base.Options.{◌>>◌, guard, >>=-eq-some}
use nowa_zk.Mimc.{Mimc}
use nowa_zk.State.{Db, db_root}
use nowa_zk.Blob.{unpack_blob}
use nowa_zk.Replay.{and_then}
use nowa_zk.Replay.Batches.{
  Source, DaPayload, decode_da_payload, fetch_payload, has_root, replay_transitions,
  replay_one_batch,
}
use nowa_zk.Replay.Batches.Resume.{and_then_ok}

-- The bytes of the blob have the hash that L1 recorded, and what they decode to has the root that
-- the database has now.
pub record IsVerified (h : Mimc) (src : Source) (id : ℕ) (db' : Db) : Type 0 where
  pub payload_bytes : Bytes
  pub payload : DaPayload
  pub recorded : src.batch_data_hash id ≡ some (src.keccak256 payload_bytes)
  pub decoded : decode_da_payload src payload_bytes ≡ some payload
  pub root : parse payload.new_root ≡ some (pos (db_root h db'))

guard-eq-true :
    {B : Type 0} (b : Bool) (m : Option B) {x : B}
    → (guard b >> m) ≡ some x
    → (b ≡ true) × (m ≡ some x)
guard-eq-true b m e = ground arith

eqb_ℤ_sound : (a b : ℤ) → eqb_ℤ a b ≡ true → a ≡ b
eqb_ℤ_sound a b e = eq_of_parts a b (ground arith)

has_root_ok :
    (h : Mimc) (text : Bytes) (db db' : Db)
    → has_root h text db ≡ (true, db')
    → parse text ≡ some (pos (db_root h db'))
has_root_ok h text db db' e = elim (Option-cases (parse text)) [
  | inl f ↦
      let failed : has_root h text db ≡ (false, db) = rw (f, has_root) refl in
      let wrong : false ≡ true = ap (λ (r : Bool × Db). r.0) (sym failed ∙ e) in ground arith
  | inr (want, f) ↦
      let seen : has_root h text db ≡ (eqb_ℤ (pos (db_root h db)) want, db) =
        rw (f, has_root) refl in
      let equal : eqb_ℤ (pos (db_root h db)) want ≡ true =
        ap (λ (r : Bool × Db). r.0) (sym seen ∙ e) in
      let same : db ≡ db' = ap (λ (r : Bool × Db). r.1) (sym seen ∙ e) in
      f
      ∙ ap some
          (sym (eqb_ℤ_sound (pos (db_root h db)) want equal) ∙ ap (λ d. pos (db_root h d)) same)
]

module _ (h : Mimc) (src : Source) (id : ℕ) where
  no_payload : (db : Db) → fetch_payload src id ≡ none → replay_one_batch h src id db ≡ (false, db)
  unfolding replay_one_batch
  no_payload db f = rw (f, replay_one_batch) refl

  pub has_payload :
      (db : Db) (p : DaPayload)
      → fetch_payload src id ≡ some p
      → replay_one_batch h src id db
        ≡ and_then (replay_transitions h p.transitions) (has_root h p.new_root) db
  unfolding replay_one_batch
  has_payload db p f = rw (f, replay_one_batch) refl

  with_payload :
      (db db' : Db)
      → replay_one_batch h src id db ≡ (true, db')
      → (p : DaPayload) × (fetch_payload src id ≡ some p)
        × (and_then (replay_transitions h p.transitions) (has_root h p.new_root) db ≡ (true, db'))
  with_payload db db' e = elim (Option-cases (fetch_payload src id)) [
    | inl f ↦
        let wrong : false ≡ true = ap (λ (r : Bool × Db). r.0) (sym (no_payload db f) ∙ e) in
        absurd (ground arith)
    | inr (p, f) ↦ (p, f, sym (has_payload db p f) ∙ e)
  ]

  -- A batch that was replayed without an error is the one that L1 recorded: the bytes have the
  -- recorded hash, and the root of the database is the new root that they name.
  pub replay_one_batch-IsVerified :
      (db db' : Db) → replay_one_batch h src id db ≡ (true, db') → IsVerified h src id db'
  unfolding fetch_payload
  replay_one_batch-IsVerified db db' e =
      let (p, f, run) = with_payload db db' e in
      let (blob_hash, e1, f1) = >>=-eq-some (src.batch_blob_hash id) _ f in
      let (data_hash, e2, f2) = >>=-eq-some (src.batch_data_hash id) _ f1 in
      let (blob, e3, f3) = >>=-eq-some (src.fetch_blob (codes "0x" ++ hex_encode blob_hash)) _ f2 in
      let (payload_bytes, e4, f4) = >>=-eq-some (unpack_blob blob) _ f3 in
      let (same, decoded) =
        guard-eq-true (eqb (src.keccak256 payload_bytes) data_hash)
          (decode_da_payload src payload_bytes) f4 in
      let (db1, ok, checked) =
        and_then_ok (replay_transitions h p.transitions) (has_root h p.new_root) db db' run in
      record {
        payload_bytes = payload_bytes;
        payload = p;
        recorded = e2 ∙ ap some (sym (eq_of_eqb _ _ same));
        decoded = decoded;
        root = has_root_ok h p.new_root db1 db' checked;
      }
