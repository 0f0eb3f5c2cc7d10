-- ===== src/Prover.antt =====
-- prover/cmd/prover/start.go: the loop of `start` and `submitProofWithBlob`, with
-- `EncodeBatchPayload` and `BuildBlobSidecar` of prover/internal/da/blob.go. A round takes what the
-- outside answers in it as one value, `Round`: the indexer's answers, the proof, and what becomes
-- of the transaction. The flags, the environment, the files and the fees are not modelled.
pub mod Bytes32
pub mod Runs
pub mod Invariant
pub mod Liveness
pub mod Calls
pub mod Published
pub mod Inputs
mod Tests
use nowa_zk.Base.{
  ℕ, zero, suc, ◌+◌, ◌%◌, ◌^◌, Bool, true, false, Option, none, some, List, [], ◌∷◌, ◌++◌, length,
  ltb, ◌==◌, if◌then◌else◌,
}
use nowa_zk.Base.Bytes.{Bytes, codes}
use nowa_zk.Base.Options.{◌>>=◌}
use nowa_zk.Mimc.{Mimc}
use nowa_zk.Types.{ZkBatch}
use nowa_zk.Blob.{pack_blob, max_payload_len}
use nowa_zk.Storage.{
  KvStore, Codecs, save_last_processed_batch, get_last_processed_batch, clear_halt_state,
}
use nowa_zk.Circuit.Frontend.{Eddsa}
use nowa_zk.Circuit.{StateTransitionCircuit}
use nowa_zk.Circuit.Assign.{assign_batch}
use nowa_zk.Replay.Batches.{DaPayload}
use nowa_zk.Base.Bytes.{no_text}
use nowa_zk.Prover.Bytes32.{root_to_bytes32, hash_to_bytes32}

-- JSON, gzip, keccak256, and the versioned hash of a blob, whose KZG computations may fail.
pub record Da : Type 0 where
  pub marshal : DaPayload → Bytes
  pub gzip : Bytes → Bytes
  pub keccak256 : Bytes → Bytes
  pub blob_hash : Bytes → Option Bytes

-- The arguments of `submitBatch` and the blob of the transaction.
pub record Call (Proof : Type 0) : Type 0 where
  pub proof : Proof
  pub old_root : Bytes
  pub new_root : Bytes
  pub withdrawal_hash : Bytes
  pub deposit_hash : Bytes
  pub data_hash : Bytes
  pub blob : Bytes
  pub blob_hash : Bytes

-- `if wHash == "" { wHash = "0" }`
abbrev pub or_zero : Bytes → Bytes
or_zero s = if no_text s then codes "0" else s

abbrev pub payload_of : ZkBatch → DaPayload
payload_of b = record {
  version = 1;
  batch_id = b.batch_id;
  old_root = b.old_root;
  new_root = b.new_root;
  withdrawal_hash = or_zero b.withdrawal_hash;
  deposit_hash = or_zero b.deposit_hash;
  transitions = b.transitions;
}

-- `EncodeBatchPayload`, with its data hash
unfoldable pub encode_batch_payload : Da → DaPayload → Option (Bytes × Bytes)
encode_batch_payload da p =
    let payload = da.gzip (da.marshal p) in
    if ltb max_payload_len (length payload + 4) then none else some (payload, da.keccak256 payload)

-- `BuildBlobSidecar`: the blob and its versioned hash, which must begin with 1
abbrev pub starts_with_one : Bytes → Bool
starts_with_one [] = false
starts_with_one (b ∷ s) = b == 1

unfoldable pub build_blob_sidecar : Da → Bytes → Option (Bytes × Bytes)
unfolding pack_blob
build_blob_sidecar da payload = do
  blob ← pack_blob payload
  blob_hash ← da.blob_hash blob
  if starts_with_one blob_hash then some (blob, blob_hash) else none

-- What the client makes of a transaction: an error on the way, or a receipt with its status, where
-- `none` is no receipt.
pub data Submission : Type 0 where
  failed : Submission
  mined : Option ℕ → Submission

abbrev pub is_reverted : Option ℕ → Bool
is_reverted none = false
is_reverted (some status) = status == 0

pub data Attempt (Proof : Type 0) : Type 0 where
  -- The loop sleeps or tries again.
  waits : Attempt Proof
  skips : ZkBatch → Attempt Proof
  proves : ZkBatch → Call Proof → Attempt Proof

module _ (Proof : Type 0) where
  -- `submitProofWithBlob` up to the call
  unfoldable pub prepare : Da → ZkBatch → Proof → Option (Call Proof)
  unfolding encode_batch_payload build_blob_sidecar root_to_bytes32 hash_to_bytes32
  prepare da b proof = do
    payload ← encode_batch_payload da (payload_of b)
    sidecar ← build_blob_sidecar da payload.0
    old_root ← root_to_bytes32 b.old_root
    new_root ← root_to_bytes32 b.new_root
    some (record {
      proof = proof;
      old_root = old_root;
      new_root = new_root;
      withdrawal_hash = hash_to_bytes32 (or_zero b.withdrawal_hash);
      deposit_hash = hash_to_bytes32 (or_zero b.deposit_hash);
      data_hash = payload.1;
      blob = sidecar.0;
      blob_hash = sidecar.1;
    })

  pub record Round : Type 0 where
    -- The id of `fetchLatestBatch`; `none` is an error or no batch.
    pub latest : Option ℕ
    -- `fetchBatchByID`
    pub fetch : ℕ → Option ZkBatch
    -- `frontend.NewWitness` and `groth16.Prove`
    pub prove : StateTransitionCircuit → Option Proof
    -- `verifyLocal`
    pub verify : Proof → Bool
    -- What `SendTransaction` and `WaitMined` end with.
    pub send : Call Proof → Submission

  abbrev pub accepted : ZkBatch → Call Proof → Submission → Attempt Proof
  accepted b call failed = waits
  accepted b call (mined status) = if is_reverted status then waits else proves b call

  module _ (h : Mimc) (eddsa : Eddsa) (da : Da) where
    -- `generateProof`, `verifyLocal` and `submitProofWithBlob` on a batch with transitions.
    unfoldable pub prove_and_submit : Round → ZkBatch → Attempt Proof
    unfolding prepare assign_batch
    prove_and_submit r b = elim (assign_batch h eddsa b >>= r.prove) [
      | none ↦ waits
      | some proof ↦
          let submitted : Attempt Proof = elim (prepare da b proof) [
            | none ↦ waits
            | some call ↦ accepted b call (r.send call)
          ] in
          if r.verify proof then submitted else waits
    ]

    unfoldable pub process : Round → ZkBatch → Attempt Proof
    unfolding prove_and_submit
    process r b = if is_none_left b.transitions then skips b else prove_and_submit r b
      where
        is_none_left : {A : Type 0} → List A → Bool
        is_none_left [] = true
        is_none_left (x ∷ xs) = false

    -- The loop's body from `nextBatchNum` on.
    unfoldable pub take_batch : Round → ℕ → Attempt Proof
    unfolding process
    take_batch r next = elim r.latest [
      | none ↦ waits
      | some latest ↦
          let fetched : Attempt Proof = elim (r.fetch next) [
            | none ↦ waits
            | some b ↦ process r b
          ] in
          if ltb latest next then waits else fetched
    ]

    -- One turn of the loop, from `lastProcessedBatch`.
    unfoldable pub attempt : Round → ℕ → Attempt Proof
    unfolding take_batch
    attempt r last = take_batch r ((last + 1) % 2 ^ 64)

    module _ (kv : KvStore) (codecs : Codecs) where
      pub record Prover : Type 0 where
        pub store : kv.Db
        pub last : ℕ

      -- The start: a store that cannot be read counts as new.
      unfoldable pub start : Bool → kv.Db → Prover
      unfolding get_last_processed_batch clear_halt_state
      start clear_halt db =
          let store = if clear_halt then clear_halt_state kv codecs db else db in
          record {
            store = store;
            last = elim (get_last_processed_batch kv codecs store) [ none ↦ 0 | some n ↦ n ];
          }

      -- `SaveLastProcessedBatch` and `lastProcessedBatch = batch.BatchID`
      unfoldable pub advance : ZkBatch → Prover → Prover
      unfolding save_last_processed_batch
      advance b p = record {
        store = save_last_processed_batch kv codecs b.batch_id p.store;
        last = b.batch_id;
      }

      abbrev pub apply_attempt : Attempt Proof → Prover → Prover
      apply_attempt waits p = p
      apply_attempt (skips b) p = advance b p
      apply_attempt (proves b call) p = advance b p

      unfoldable pub turn : Round → Prover → Prover
      unfolding attempt advance
      turn r p = apply_attempt (attempt r p.last) p

      -- The prover after so many rounds.
      unfoldable pub run : (ℕ → Round) → ℕ → Prover → Prover
      unfolding turn
      run rounds zero p = p
      run rounds (suc t) p = turn (rounds t) (run rounds t p)

      abbrev pub handled : Attempt Proof → List (Attempt Proof)
      handled waits = []
      handled a = a ∷ []

      -- What the rounds skipped and submitted, in order.
      unfoldable pub history : (ℕ → Round) → ℕ → Prover → List (Attempt Proof)
      unfolding attempt run
      history rounds zero p = []
      history rounds (suc t) p =
          history rounds t p ++ handled (attempt (rounds t) (run rounds t p).last)
