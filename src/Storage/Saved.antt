-- ===== src/Storage/Saved.antt =====
-- What is saved is read back: the single entries of the store.
use nowa_zk.Base.{ℕ, ◌^◌, ◌<◌, ◌≡◌, ◌≢◌, true, false, some, [], arith}
use nowa_zk.Base.Bytes.{Bytes}
use nowa_zk.Base.Bytes.Decimal.{print_ℕ}
use nowa_zk.Storage.{
  KvStore, KvLaws, Codecs, IsRoundTrip, ProofData, VerificationFailure, proof_key, failure_key,
  last_processed_key, state_root_key, last_failure_key, halt_key, save_last_processed_batch,
  get_last_processed_batch, save_metadata, get_proof, save_last_state_root, get_last_state_root,
  save_verification_failure, get_last_verification_failure, get_verification_failure,
  set_halt_state, get_halt_state, clear_halt_state, HaltState,
}
use nowa_zk.Storage.Keys.{scan_uint64-print_ℕ}

failure_key-last : (n : ℕ) → failure_key n ≢ last_failure_key
failure_key-last n e = ground (arith, e)

module _ (kv : KvStore) (codecs : Codecs) (laws : KvLaws kv) (db : kv.Db) where
  pub get-save_last_processed :
      (n : ℕ)
      → n < 2 ^ 64
      → get_last_processed_batch kv codecs (save_last_processed_batch kv codecs n db) ≡ some n
  unfolding get_last_processed_batch save_last_processed_batch
  get-save_last_processed n h =
      ground (arith, laws.get_set last_processed_key (print_ℕ n) db, scan_uint64-print_ℕ n h)

  get-save_metadata :
      IsRoundTrip codecs.proofs
      → (d : ProofData) → get_proof kv codecs d.batch_number (save_metadata kv codecs d db) ≡ some d
  unfolding get_proof save_metadata
  get-save_metadata json d =
      ground (arith, laws.get_set (proof_key d.batch_number) (codecs.proofs.marshal d) db, json d)

  get-save_failure :
      IsRoundTrip codecs.failures
      → (f : VerificationFailure)
      → (get_last_verification_failure kv codecs (save_verification_failure kv codecs f db)
          ≡ some (f.batch_number, f.error_msg))
        × (get_verification_failure kv codecs f.batch_number
              (save_verification_failure kv codecs f db)
            ≡ some f)
  unfolding get_last_verification_failure get_verification_failure save_verification_failure
  get-save_failure json f =
      let v = codecs.failures.marshal f in
      let k = failure_key f.batch_number in
      let inner = kv.set k v db in
      let a = laws.get_set last_failure_key v inner in
      let b = laws.get-set_other k last_failure_key v inner (failure_key-last f.batch_number) in
      let c = laws.get_set k v db in (ground (arith, a, json f), ground (arith, b, c, json f))

  get-set_halt :
      IsRoundTrip codecs.halts
      → (reason : Bytes) (now : ℕ)
      → get_halt_state kv codecs (set_halt_state kv codecs reason now db) ≡ some (true, reason)
  unfolding get_halt_state set_halt_state
  get-set_halt json reason now =
      let s : HaltState = record { halted = true; reason = reason; timestamp = now } in
      ground (arith, laws.get_set halt_key (codecs.halts.marshal s) db, json s)

  get-clear_halt : get_halt_state kv codecs (clear_halt_state kv codecs db) ≡ some (false, [])
  unfolding get_halt_state clear_halt_state
  get-clear_halt = ground (arith, laws.get_delete halt_key db)

  -- Each getter returns what its setter saved, where JSON round trips and the database obeys its
  -- laws: the last batch, below 2^64, the last root, the metadata of a batch, a failure under its
  -- batch and as the last one, and the halt state, which is not halted once it was cleared.
  saved_read :
      IsRoundTrip codecs.proofs
      → IsRoundTrip codecs.failures
      → IsRoundTrip codecs.halts
      → (n now : ℕ) (text : Bytes) (d : ProofData) (f : VerificationFailure) → n < 2 ^ 64
      → (get_last_processed_batch kv codecs (save_last_processed_batch kv codecs n db) ≡ some n)
        × (get_last_state_root kv codecs (save_last_state_root kv codecs text db) ≡ text)
        × (get_proof kv codecs d.batch_number (save_metadata kv codecs d db) ≡ some d)
        × (get_last_verification_failure kv codecs (save_verification_failure kv codecs f db)
            ≡ some (f.batch_number, f.error_msg))
        × (get_verification_failure kv codecs f.batch_number
              (save_verification_failure kv codecs f db)
            ≡ some f)
        × (get_halt_state kv codecs (set_halt_state kv codecs text now db) ≡ some (true, text))
        × (get_halt_state kv codecs (clear_halt_state kv codecs db) ≡ some (false, []))
  unfolding get_last_state_root save_last_state_root
  saved_read proofs failures halts n now text d f h =
      let failed = get-save_failure failures f in
      (
        get-save_last_processed n h,
        ground (arith, laws.get_set state_root_key text db),
        get-save_metadata proofs d,
        failed.0,
        failed.1,
        get-set_halt halts text now,
        get-clear_halt,
      )
