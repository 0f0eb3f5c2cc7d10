-- ===== src/Replay/Batches.antt =====
-- sequencer/cmd/reconstruct-proof/main.go: the published batches replayed one after the other, with
-- the last one kept as a checkpoint, and the proof of a balance in the tree that results.
pub mod Resume
pub mod Verified
pub mod Proofs
mod Tests
use nowa_zk.Base.{
  ℕ, zero, suc, ◌+◌, ◌-◌, ◌*◌, ◌/◌, ◌%◌, ◌^◌, Bool, true, false, Option, none, some, List, [], ◌∷◌,
  ◌++◌, length, ltb, ◌==◌, if◌then◌else◌,
}
use nowa_zk.Base.Bytes.{Bytes, codes, eqb, hex_encode}
use nowa_zk.Base.Bytes.Decimal.{print, parse}
use nowa_zk.Base.Int.{ℤ, pos, eqb_ℤ}
use nowa_zk.Base.Options.{◌>>=◌, ◌>>◌, guard}
use nowa_zk.Mimc.{Mimc}
use nowa_zk.Types.{BalanceState, StateTransition}
use nowa_zk.State.{
  Db, get_meta, set_meta, get_account_id, get_balance, db_root, db_path, leaf_index,
}
use nowa_zk.Sequencer.{path_text}
use nowa_zk.Blob.{unpack_blob}
use nowa_zk.Replay.{Step, and_then, replay_transition}

-- `daPayload`
pub record DaPayload : Type 0 where
  pub version : ℕ
  pub batch_id : ℕ
  pub old_root : Bytes
  pub new_root : Bytes
  pub withdrawal_hash : Bytes
  pub deposit_hash : Bytes
  pub transitions : List StateTransition

-- The contract on L1 (its root read as a number) and Blobscan, each call of which may fail,
-- keccak256, and Go's gzip and JSON: `gunzip n` is `gzip.NewReader` and the reading of the first `n`
-- bytes of what it unpacks (`io.LimitReader`), `unmarshal` is `json.Unmarshal` into a payload.
pub record Source : Type 0 where
  pub batch_count : Option ℕ
  pub batch_blob_hash : ℕ → Option Bytes
  pub batch_data_hash : ℕ → Option Bytes
  pub state_root : Option ℕ
  pub fetch_blob : Bytes → Option Bytes
  pub keccak256 : Bytes → Bytes
  pub gunzip : ℕ → Bytes → Option Bytes
  pub unmarshal : Bytes → Option DaPayload

abbrev pub last_replayed_batch_key : Bytes
last_replayed_batch_key = codes "last_replayed_batch"

-- `binary.BigEndian.PutUint64`
abbrev pub put_uint64 : ℕ → Bytes
put_uint64 n =
    (n / 2 ^ 56) % 256
    ∷ (n / 2 ^ 48) % 256
    ∷ (n / 2 ^ 40) % 256
    ∷ (n / 2 ^ 32) % 256
    ∷ (n / 2 ^ 24) % 256
    ∷ (n / 2 ^ 16) % 256
    ∷ (n / 2 ^ 8) % 256
    ∷ n % 256
    ∷ []

-- `binary.BigEndian.Uint64`
unfoldable pub from_bytes : ℕ → Bytes → ℕ
from_bytes acc [] = acc
from_bytes acc (b ∷ s) = from_bytes (acc * 256 + b) s

-- `readCheckpoint`; `none` is an error.
unfoldable pub read_checkpoint : Db → Option ℕ
unfolding from_bytes
read_checkpoint db = elim (get_meta last_replayed_batch_key db) [
  | none ↦ some 0
  | some stored ↦ if length stored == 8 then some ((from_bytes 0 stored + 1) % 2 ^ 64) else none
]

-- `maxDecompressedPayloadLen`, 16 MiB
abbrev pub max_decompressed_payload_len : ℕ
max_decompressed_payload_len = 16777216

-- `gzipDecompress`: one byte beyond the cap is read, so that more than the cap is seen.
unfoldable pub gzip_decompress : Source → Bytes → Option Bytes
gzip_decompress src compressed = do
  out ← src.gunzip (max_decompressed_payload_len + 1) compressed
  if ltb max_decompressed_payload_len (length out) then none else some out

-- `decodeDAPayload`
unfoldable pub decode_da_payload : Source → Bytes → Option DaPayload
unfolding gzip_decompress
decode_da_payload src raw = do decompressed ← gzip_decompress src raw; src.unmarshal decompressed

-- From the hashes on L1 to the payload, whose bytes must have the recorded hash.
unfoldable pub fetch_payload : Source → ℕ → Option DaPayload
unfolding hex_encode unpack_blob decode_da_payload
fetch_payload src id = do
  blob_hash ← src.batch_blob_hash id
  data_hash ← src.batch_data_hash id
  blob ← src.fetch_blob (codes "0x" ++ hex_encode blob_hash)
  payload_bytes ← unpack_blob blob
  guard (eqb (src.keccak256 payload_bytes) data_hash)
  decode_da_payload src payload_bytes

module _ (h : Mimc) where
  unfoldable pub replay_transitions : List StateTransition → Step
  unfolding replay_transition
  replay_transitions [] db = (true, db)
  replay_transitions (t ∷ ts) db =
      let rest = replay_transitions ts in and_then (replay_transition h t) rest db

  -- `tree.Root().Cmp(wantRoot)`, where the text must be a number.
  abbrev pub has_root : Bytes → Step
  has_root text db = elim (parse text) [
    | none ↦ (false, db)
    | some want ↦ (eqb_ℤ (pos (db_root h db)) want, db)
  ]

  -- `replayOneBatch`
  unfoldable pub replay_one_batch : Source → ℕ → Step
  unfolding fetch_payload replay_transitions parse
  replay_one_batch src id db = elim (fetch_payload src id) [
    | none ↦ (false, db)
    | some payload ↦
        and_then (replay_transitions payload.transitions) (has_root payload.new_root) db
  ]

  -- The loop of `replayAllBatches` for `n` batches from `i` on.
  unfoldable pub replay_from : Source → ℕ → ℕ → Step
  unfolding replay_one_batch set_meta
  replay_from src zero i db = (true, db)
  replay_from src (suc n) i db =
      let rest = replay_from src n (i + 1) in
      and_then (replay_one_batch src i)
        (λ db'. rest (set_meta last_replayed_batch_key (put_uint64 i) db')) db

  -- `replayAllBatches`
  unfoldable pub replay_all_batches : Source → Step
  unfolding read_checkpoint replay_from
  replay_all_batches src db = elim (read_checkpoint db) [
    | none ↦ (false, db)
    | some checkpoint ↦ elim src.batch_count [
      | none ↦ (false, db)
      | some count ↦ replay_from src (count - checkpoint) checkpoint db
    ]
  ]

  -- `verifyAgainstOnChainRoot`
  unfoldable pub verify_against_on_chain_root : Source → Db → Bool
  verify_against_on_chain_root src db = elim src.state_root [
    | none ↦ false
    | some want ↦ db_root h db == want
  ]

-- `proofOutput`
pub record ProofOutput : Type 0 where
  pub pub_key : Bytes
  pub account_id : ℕ
  pub token_id : ℕ
  pub index : ℕ
  pub balance : Bytes
  pub nonce : ℕ
  pub pub_key_x : Bytes
  pub pub_key_y : Bytes
  pub siblings : List Bytes
  pub path_bits : List ℕ

module _ (h : Mimc) where
  abbrev pub proof_output : Bytes → ℕ → ℕ → Db → ProofOutput
  proof_output pub_key id token db =
      let index = leaf_index id token in
      let (path, bits) = db_path h db index in
      let found = get_balance id token db in
      let text =
        λ (field : BalanceState → ℤ). print (elim found [ none ↦ pos 0 | some acc ↦ field acc ]) in
      record {
        pub_key = pub_key;
        account_id = id;
        token_id = token;
        index = index;
        balance = text (λ acc. acc.balance);
        nonce = elim found [ none ↦ 0 | some acc ↦ acc.nonce ];
        pub_key_x = text (λ acc. acc.pub_key_x);
        pub_key_y = text (λ acc. acc.pub_key_y);
        siblings = path_text h path;
        path_bits = bits;
      }

  -- `buildProof`
  unfoldable pub build_proof : Bytes → ℕ → Db → ProofOutput × Db
  unfolding get_account_id print leaf_index
  build_proof pub_key token db =
      let (id, db') = get_account_id pub_key db in (proof_output pub_key id token db', db')
