-- ===== src/Prover/Tests.antt =====
-- A prover with an empty batch and a batch of one transition, whose outside works from the third
-- round on.
use nowa_zk.Base.{
  ℕ, zero, suc, ◌-◌, ◌^◌, ◌<◌, ◌≡◌, refl, sym, ap, subst, ◌∙◌, true, false, Option, none, some,
  List, take, ◌==◌, ◌&&◌, if◌then◌else◌, [], ◌∷◌, arith,
}
use nowa_zk.Base.Bytes.{Bytes, codes, hex_decode}
use nowa_zk.Base.Bytes.Decimal.{print, print_ℕ, parse, parse_ℕ, parse_digits, digits}
use nowa_zk.Base.Int.{pos}
use nowa_zk.Base.Options.{◌>>=◌, >>=-eq-some}
use nowa_zk.Samples.{sample_hash}
use nowa_zk.Mimc.{fr}
use nowa_zk.Types.{ZkBatch, StateTransition, StateUpdate}
use nowa_zk.Blob.{pack_blob, unpack_blob}
use nowa_zk.Blob.RoundTrip.{unpack_blob-pack_blob}
use nowa_zk.Circuit.Frontend.{Eddsa}
use nowa_zk.Circuit.Assign.{
  assign_batch, assign_operations, assign_operation, assign_update, assign_texts, assign_numbers,
  assign_sig,
}
use nowa_zk.Storage.{get_last_processed_batch}
use nowa_zk.Storage.Memory.{memory, memory_laws, lookup}
use nowa_zk.Storage.Lines.{lines}
use nowa_zk.State.{Db}
use nowa_zk.Mimc.{Mimc}
use nowa_zk.Circuit.{StateTransitionCircuit}
use nowa_zk.Replay.{and_then}
use nowa_zk.Replay.Batches.{
  DaPayload, Source, fetch_payload, replay_one_batch, replay_transitions, has_root, from_bytes,
}
use nowa_zk.Prover.Published.{prepare-fetch_payload}
use nowa_zk.Prover.Inputs.{prepare-assign_batch}
use nowa_zk.Prover.Bytes32.{root_to_bytes32-print}
use nowa_zk.Prover.Calls.{bind_some, some_inj}
use nowa_zk.Prover.Invariant.{IsSynced, IsRunning, run-IsRunning}
use nowa_zk.Prover.{
  build_blob_sidecar, encode_batch_payload, payload_of, Da, Call, mined, failed, Round, Prover,
  prepare, run, history,
}
use nowa_zk.Prover.Runs.{IsHonest}

zeros : ℕ → List Bytes
zeros zero = []
zeros (suc n) = codes "0" ∷ zeros n

no_bits : ℕ → List ℕ
no_bits zero = []
no_bits (suc n) = 0 ∷ no_bits n

plain_update : StateUpdate
plain_update = record {
  index = 5;
  balance = codes "0";
  nonce = 0;
  is_genesis = false;
  path = zeros 28;
  path_bits = no_bits 28;
}

one_transition : StateTransition
unfolding plain_update
one_transition = record {
  op_type = 3;
  amount = codes "0";
  quote_amount = codes "0";
  maker_pub_key_x = codes "0";
  maker_pub_key_y = codes "0";
  maker_sig = [];
  maker_base = plain_update;
  maker_quote = plain_update;
  taker_pub_key_x = codes "0";
  taker_pub_key_y = codes "0";
  taker_sig = [];
  taker_base = plain_update;
  taker_quote = plain_update;
}

-- Batch 1 has no transitions.
transitions_of : ℕ → List StateTransition
unfolding one_transition
transitions_of zero = []
transitions_of (suc zero) = []
transitions_of (suc (suc n)) = one_transition ∷ []

abbrev batch_of : ℕ → ZkBatch
unfolding transitions_of
batch_of n = record {
  batch_id = n;
  old_root = print (pos 7);
  new_root = print (pos 77);
  withdrawal_hash = print (pos 0);
  deposit_hash = print (pos 3);
  transitions = transitions_of n;
}

eddsa : Eddsa
eddsa = record {
  verify = λ sig msg key. true;
  assign_sig = λ bytes. record { r_x = 0; r_y = 0; s = 0 };
}

da : Da
da = record {
  marshal = λ p. 1 ∷ p.batch_id ∷ [];
  gzip = λ s. 31 ∷ 139 ∷ s;
  keccak256 = λ s. s;
  blob_hash = λ blob. some (1 ∷ 9 ∷ []);
}

-- The proof is a number.
down : Round ℕ
down = record {
  latest = none;
  fetch = λ n. none;
  prove = λ c. none;
  verify = λ proof. false;
  send = λ call. failed;
}

up : Round ℕ
unfolding batch_of
up = record {
  latest = some 2;
  fetch = λ n. some (batch_of n);
  prove = λ c. some c.new_root;
  verify = λ proof. true;
  send = λ call. mined (some 1);
}

abbrev rounds : ℕ → Round ℕ
unfolding down up
rounds zero = down
rounds (suc zero) = down
rounds (suc (suc t)) = up

assigned :
    (n : ℕ) → (assign_batch sample_hash eddsa (batch_of (suc (suc n))) >>= up.prove) ≡ some 77
unfolding up batch_of transitions_of one_transition plain_update zeros no_bits eddsa print print_ℕ
    parse parse_ℕ parse_digits digits fr assign_batch assign_operations assign_operation
    assign_update assign_texts assign_numbers assign_sig hex_decode
assigned n = refl

abbrev small_payload : ℕ → Bytes
small_payload n = 31 ∷ 139 ∷ 1 ∷ n ∷ []

packed : (n : ℕ) → (blob : Bytes) × (pack_blob (small_payload n) ≡ some blob)
packed n =
    let p =
      >>=-eq-some (pack_blob (small_payload n)) unpack_blob
        (unpack_blob-pack_blob (small_payload n) (omega arith)) in
    (p.0, p.1)

built : (n : ℕ) → build_blob_sidecar da (small_payload n) ≡ some ((packed n).0, 1 ∷ 9 ∷ [])
unfolding build_blob_sidecar da
built n = bind_some (packed n).1 (λ blob. some (blob, 1 ∷ 9 ∷ []))

encoded :
    (n : ℕ)
    → encode_batch_payload da (payload_of (batch_of n)) ≡ some (small_payload n, small_payload n)
unfolding encode_batch_payload da batch_of
encoded n = refl

prepared : (n : ℕ) → (call : Call ℕ) × (prepare ℕ da (batch_of n) 77 ≡ some call)
unfolding prepare batch_of
prepared n =
    let old = root_to_bytes32-print 7 (omega arith) in
    let new = root_to_bytes32-print 77 (omega arith) in
    (_, bind_some (encoded n) _ ∙ bind_some (built n) _ ∙ bind_some old.1 _ ∙ bind_some new.1 _)

up-IsHonest : IsHonest ℕ sample_hash eddsa da up
unfolding up batch_of
up-IsHonest = record {
  asked = λ n b e. ap (λ (z : ZkBatch). z.batch_id) (some_inj (sym e));
  bounded = λ n e. subst (λ m. m < 2 ^ 64 - 1) (some_inj e) (omega arith);
}

down-IsHonest : IsHonest ℕ sample_hash eddsa da down
unfolding down
down-IsHonest = record {
  asked = λ n b e. absurd (ground (arith, e));
  bounded = λ n e. absurd (ground (arith, e));
}

all-IsHonest : (t : ℕ) → IsHonest ℕ sample_hash eddsa da (rounds t)
unfolding rounds
all-IsHonest zero = down-IsHonest
all-IsHonest (suc zero) = down-IsHonest
all-IsHonest (suc (suc t)) = up-IsHonest

abbrev new_prover : Prover ℕ sample_hash eddsa da memory lines
new_prover = record { store = []; last = 0 }

new-IsSynced : IsSynced ℕ sample_hash eddsa da memory lines new_prover
unfolding get_last_processed_batch lookup
new-IsSynced = refl

run-IsRunning_example :
    IsRunning ℕ sample_hash eddsa da memory lines rounds 1
      (history ℕ sample_hash eddsa da memory lines rounds 5 new_prover)
      (run ℕ sample_hash eddsa da memory lines rounds 5 new_prover)
run-IsRunning_example =
    run-IsRunning ℕ sample_hash eddsa da memory lines memory_laws rounds all-IsHonest new_prover
      (omega arith) new-IsSynced 5

circuit_found :
    (c : StateTransitionCircuit) × (assign_batch sample_hash eddsa (batch_of 2) ≡ some c)
circuit_found =
    let f = >>=-eq-some (assign_batch sample_hash eddsa (batch_of 2)) up.prove (assigned 0) in
    (f.0, f.1)

-- A reader that wants the two first bytes of gzip and takes the rest for what was zipped, and one
-- that reads the number of a batch as `da` writes it.
abbrev unzip : ℕ → Bytes → Option Bytes
unzip n [] = none
unzip n (a ∷ []) = none
unzip n (a ∷ b ∷ s) = if (a == 31) && (b == 139) then some (take n s) else none

abbrev read_json : Bytes → Option DaPayload
read_json (c ∷ id ∷ []) = if c == 1 then some (payload_of (batch_of id)) else none
read_json _ = none

-- L1 and the archive after the call.
abbrev archive : Source
archive = record {
  batch_count = some 3;
  batch_blob_hash = λ id. some (prepared 2).0.blob_hash;
  batch_data_hash = λ id. some (prepared 2).0.data_hash;
  state_root = none;
  fetch_blob = λ versioned_hash. some (prepared 2).0.blob;
  keccak256 = λ s. s;
  gunzip = unzip;
  unmarshal = read_json;
}

prepare-fetch_payload_example :
    (fetch_payload archive 2 ≡ some (payload_of (batch_of 2)))
    × ((h : Mimc) (db : Db)
        → replay_one_batch h archive 2 db
          ≡ and_then
              (replay_transitions h (batch_of 2).transitions)
              (has_root h (batch_of 2).new_root)
              db)
unfolding da batch_of
prepare-fetch_payload_example =
    prepare-fetch_payload ℕ da archive 2 (batch_of 2) 77 (prepared 2).0 (prepared 2).1
      (record {
        blob_hash_kept = refl;
        data_hash_kept = refl;
        blob_kept = refl;
        same_hash = λ s. refl;
        unzips = λ k s. refl;
        reads_json = refl;
      })
      (omega arith)

prepare-assign_batch_example :
    let call = (prepared 2).0 in
    let c = circuit_found.0 in
    (c.old_root ≡ fr sample_hash (pos (from_bytes 0 call.old_root)))
    × (c.new_root ≡ fr sample_hash (pos (from_bytes 0 call.new_root)))
    × (c.withdrawal_hash ≡ fr sample_hash (pos (from_bytes 0 call.withdrawal_hash)))
    × (c.deposit_hash ≡ fr sample_hash (pos (from_bytes 0 call.deposit_hash)))
unfolding batch_of
prepare-assign_batch_example =
    prepare-assign_batch ℕ da sample_hash eddsa (batch_of 2) 77 (prepared 2).0 circuit_found.0
      (record {
        old = 7;
        new = 77;
        withdrawals = 0;
        deposits = 3;
        old_text = refl;
        new_text = refl;
        withdrawal_text = refl;
        deposit_text = refl;
        in_range = (omega arith, omega arith, omega arith, omega arith);
      })
      (prepared 2).1 circuit_found.1
