-- ===== src/Prover/Calls.antt =====
-- prover/cmd/prover/start.go, `submitProofWithBlob`: the parts of a call that was prepared.
use nowa_zk.Base.{
  ℕ, ◌≤◌, ◌≡◌, refl, ap, subst, ◌∙◌, Bool, true, false, Option, none, some, length, ◌+◌, arith, ltb,
  if◌then◌else◌,
}
use nowa_zk.Base.Bytes.{Bytes}
use nowa_zk.Base.Options.{>>=-eq-some, ◌>>=◌}
use nowa_zk.Types.{ZkBatch}
use nowa_zk.Blob.{pack_blob, max_payload_len}
use nowa_zk.Replay.Batches.{DaPayload}
use nowa_zk.Prover.Bytes32.{root_to_bytes32, hash_to_bytes32}
use nowa_zk.Prover.{
  Da, Call, payload_of, or_zero, encode_batch_payload, build_blob_sidecar, prepare,
}

pub some_inj {ℓ} : {A : Type ℓ} {x y : A} → some x ≡ some y → x ≡ y
some_inj e = ground (arith, e)

if_some {ℓ} :
    {A : Type ℓ} (test : Bool) (x : A) {y : A} → (if test then some x else none) ≡ some y → x ≡ y
if_some true x e = some_inj e
if_some false x e = ground (arith, e)

pub bind_some {ℓ κ} :
    {A : Type ℓ} {B : Type κ} {m : Option A} {a : A}
    → m ≡ some a
    → (f : A → Option B) → (m >>= f) ≡ f a
bind_some e f = ap (λ o. o >>= f) e

if_none {ℓ} :
    {A : Type ℓ} (test : Bool) (x : A) {y : A}
    → (if test then none else some x) ≡ some y
    → test ≡ false
if_none true x e = ground (arith, e)
if_none false x e = refl

not_ltb_le : (m n : ℕ) → ltb m n ≡ false → n ≤ m
not_ltb_le m n h = ground (arith, h)

pub packed_fits :
    (payload blob : Bytes) → pack_blob payload ≡ some blob → length payload + 4 ≤ max_payload_len
unfolding pack_blob
packed_fits payload blob e = not_ltb_le _ _ (if_none _ _ e)

module _ (Proof : Type 0) (da : Da) where
  -- The parts of a call that was prepared.
  pub record Prepared (b : ZkBatch) (call : Call Proof) : Type 0 where
    pub payload : Bytes
    pub compressed : payload ≡ da.gzip (da.marshal (payload_of b))
    pub hashed : call.data_hash ≡ da.keccak256 payload
    pub packed : pack_blob payload ≡ some call.blob
    pub old_word : root_to_bytes32 b.old_root ≡ some call.old_root
    pub new_word : root_to_bytes32 b.new_root ≡ some call.new_root
    pub withdrawal_word : call.withdrawal_hash ≡ hash_to_bytes32 (or_zero b.withdrawal_hash)
    pub deposit_word : call.deposit_hash ≡ hash_to_bytes32 (or_zero b.deposit_hash)

  encoded :
      (p : DaPayload) (payload : Bytes × Bytes)
      → encode_batch_payload da p ≡ some payload
      → (payload.0 ≡ da.gzip (da.marshal p)) × (payload.1 ≡ da.keccak256 payload.0)
  unfolding encode_batch_payload
  encoded p payload e = ground (arith, e)

  built :
      (payload : Bytes) (sidecar : Bytes × Bytes)
      → build_blob_sidecar da payload ≡ some sidecar
      → pack_blob payload ≡ some sidecar.0
  unfolding build_blob_sidecar
  built payload sidecar e =
      let blob = >>=-eq-some (pack_blob payload) _ e in
      let hash = >>=-eq-some (da.blob_hash blob.0) _ blob.2 in
      blob.1 ∙ ap (λ s. some s.0) (if_some _ _ hash.2)

  pub inversion :
      (b : ZkBatch) (proof : Proof) (call : Call Proof)
      → prepare Proof da b proof ≡ some call
      → Prepared b call
  unfolding prepare
  inversion b proof call e =
      let payload = >>=-eq-some (encode_batch_payload da (payload_of b)) _ e in
      let sidecar = >>=-eq-some (build_blob_sidecar da payload.0.0) _ payload.2 in
      let old = >>=-eq-some (root_to_bytes32 b.old_root) _ sidecar.2 in
      let new = >>=-eq-some (root_to_bytes32 b.new_root) _ old.2 in
      let parts = encoded (payload_of b) payload.0 payload.1 in
      subst (Prepared b) (some_inj new.2) (record {
        payload = payload.0.0;
        compressed = parts.0;
        hashed = parts.1;
        packed = built payload.0.0 sidecar.0 sidecar.1;
        old_word = old.1;
        new_word = new.1;
        withdrawal_word = refl;
        deposit_word = refl;
      })
