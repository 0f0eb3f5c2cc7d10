-- ===== src/Storage.antt =====
-- prover/internal/storage/store.go: what the prover keeps in Badger. The database is an interface,
-- `KvStore`, with the laws that Badger documents for a committed transaction; JSON is a pair of
-- functions; failures of the disk are left out. The mutex makes every operation one step. Blanks
-- outside ASCII, which `Sscanf` skips too, do not occur in what the store writes.
pub mod Sort
pub mod Keys
pub mod Kept
pub mod Select
pub mod Pages
pub mod Saved
pub mod Memory
pub mod Lines
pub mod Tests
use mathlib.Core.List.{Mem}
use nowa_zk.Base.{
  ℕ, zero, suc, ◌+◌, ◌-◌, ◌%◌, ◌^◌, ◌<◌, ◌≡◌, ◌≢◌, ◌↔◌, Bool, true, false, ◌||◌, Option, none, some,
  List, [], ◌∷◌, ◌++◌, length, take, drop, ltb, leb, ◌==◌, if◌then◌else◌,
}
use nowa_zk.Base.Bytes.{Bytes, codes}
use nowa_zk.Base.Bytes.Decimal.{print_ℕ, parse_ℕ}
use nowa_zk.Base.Int.{ℤ, pos, negsuc, leb_ℤ, ltb_ℤ}

pub record KvStore : Type 1 where
  pub Db : Type 0
  pub get : Bytes → Db → Option Bytes
  pub set : Bytes → Bytes → Db → Db
  pub delete : Bytes → Db → Db
  -- The keys that an iterator with `opts.Prefix` visits.
  pub keys : Bytes → Db → List Bytes

-- What follows the prefix, where it is there.
unfoldable pub after_prefix : Bytes → Bytes → Option Bytes
after_prefix [] s = some s
after_prefix (c ∷ p) [] = none
after_prefix (c ∷ p) (d ∷ s) = if c == d then after_prefix p s else none

pub record KvLaws (kv : KvStore) : Type 0 where
  pub get_set : (k v : Bytes) (db : kv.Db) → kv.get k (kv.set k v db) ≡ some v
  pub get-set_other : (j k v : Bytes) (db : kv.Db) → j ≢ k → kv.get j (kv.set k v db) ≡ kv.get j db
  pub get_delete : (k : Bytes) (db : kv.Db) → kv.get k (kv.delete k db) ≡ none
  pub get-delete_other :
      (j k : Bytes) (db : kv.Db) → j ≢ k → kv.get j (kv.delete k db) ≡ kv.get j db
  pub mem-keys :
      (p k : Bytes) (db : kv.Db)
      → Mem k (kv.keys p db) ↔ ((after_prefix p k ≢ none) × (kv.get k db ≢ none))

-- `json.Marshal` and `json.Unmarshal`
pub record Codec (T : Type 0) : Type 0 where
  pub marshal : T → Bytes
  pub unmarshal : Bytes → Option T

-- What the code relies on: a value comes back as it was written.
abbrev pub IsRoundTrip : {T : Type 0} → Codec T → Type 0
IsRoundTrip {T} codec = (t : T) → codec.unmarshal (codec.marshal t) ≡ some t

pub record ProofData : Type 0 where
  pub batch_number : ℕ
  pub batch_hash : Bytes
  pub tx_hash : Bytes
  pub tx_hashes : List Bytes
  pub timestamp : ℕ
  pub submitter : Bytes
  pub new_state_root : Bytes
  pub status : ℕ

pub record VerificationFailure : Type 0 where
  pub batch_number : ℕ
  pub error_msg : Bytes
  pub proof_data : Bytes
  pub timestamp : ℕ

pub record HaltState : Type 0 where
  pub halted : Bool
  pub reason : Bytes
  pub timestamp : ℕ

pub record Codecs : Type 0 where
  pub proofs : Codec ProofData
  pub failures : Codec VerificationFailure
  pub halts : Codec HaltState

abbrev pub last_processed_key : Bytes
last_processed_key = codes "last_processed_batch"

abbrev pub state_root_key : Bytes
state_root_key = codes "last_state_root"

abbrev pub last_failure_key : Bytes
last_failure_key = codes "last_failure"

abbrev pub halt_key : Bytes
halt_key = codes "halt_state"

abbrev pub proof_prefix : Bytes
proof_prefix = codes "proof_"

-- `fmt.Sprintf("proof_%d", batchNumber)`
abbrev pub proof_key : ℕ → Bytes
proof_key n = proof_prefix ++ print_ℕ n

-- `fmt.Sprintf("failure_%d", batchNumber)`
abbrev pub failure_key : ℕ → Bytes
failure_key n = codes "failure_" ++ print_ℕ n

unfoldable pub skip_blanks : Bytes → Bytes
skip_blanks [] = []
skip_blanks (c ∷ s) =
    let rest = skip_blanks s in
    if (c == 32) || (c == 9) || (c == 11) || (c == 12) || (c == 13) then rest else c ∷ s

-- The token of `%d` is the longest run of digits and underscores.
unfoldable pub number_token : Bytes → Bytes
number_token [] = []
number_token (c ∷ s) =
    let rest = number_token s in
    if leb 48 c then (if leb c 57 || (c == 95) then c ∷ rest else []) else []

abbrev pub in_uint64 : Option ℕ → Option ℕ
in_uint64 none = none
in_uint64 (some n) = if ltb n (2 ^ 64) then some n else none

-- `fmt.Sscanf(s, "%d", &n)` into a `uint64`; what follows the token is not read.
unfoldable pub scan_uint64 : Bytes → Option ℕ
unfolding skip_blanks number_token parse_ℕ
scan_uint64 s = in_uint64 (parse_ℕ (number_token (skip_blanks s)))

-- `fmt.Sscanf(s, "proof_%d", &n)`
unfoldable pub scan_proof_key : Bytes → Option ℕ
unfolding scan_uint64 after_prefix
scan_proof_key k = elim (after_prefix proof_prefix k) [ none ↦ none | some s ↦ scan_uint64 s ]

-- The numbers of the keys that are read; the others are passed over.
unfoldable pub scan_keys : List Bytes → List ℕ
unfolding scan_proof_key
scan_keys [] = []
scan_keys (k ∷ ks) =
    let rest = scan_keys ks in elim (scan_proof_key k) [ none ↦ rest | some n ↦ n ∷ rest ]

-- The inner loop: `k` comparisons of neighbours, from the front.
unfoldable pub bubble : ℕ → List ℕ → List ℕ
bubble zero xs = xs
bubble (suc k) [] = []
bubble (suc k) (x ∷ []) = x ∷ []
bubble (suc k) (x ∷ y ∷ xs) =
    let swapped = bubble k (x ∷ xs) in
    let kept = bubble k (y ∷ xs) in if ltb x y then y ∷ swapped else x ∷ kept

-- The outer loop from round `i` on.
unfoldable pub bubble_rounds : (rounds i : ℕ) → List ℕ → List ℕ
unfolding bubble
bubble_rounds zero i xs = xs
bubble_rounds (suc r) i xs = bubble_rounds r (suc i) (bubble (length xs - i - 1) xs)

unfoldable pub bubble_sort : List ℕ → List ℕ
unfolding bubble_rounds
bubble_sort xs = bubble_rounds (length xs - 1) 0 xs

-- `int(n)` of a `uint64` below 2^64
unfoldable pub as_int : ℕ → ℤ
as_int n = if ltb n (2 ^ 63) then pos n else negsuc (2 ^ 64 - 1 - n)

pub data Listing : Type 0 where
  listed : List ProofData → Listing
  -- An entry does not unmarshal.
  unreadable : Listing
  -- A slice out of range.
  panics : Listing

-- `xs[start:end]`, where `end` is at most the length
unfoldable pub slice : ℤ → ℤ → List ℕ → Option (List ℕ)
slice (pos a) (pos b) xs = if leb a b then some (take (b - a) (drop a xs)) else none
slice (pos a) (negsuc b) xs = none
slice (negsuc a) b xs = none

-- `batches = append(batches, &data)`
abbrev pub append_to : ProofData → Listing → Listing
append_to d (listed ds) = listed (d ∷ ds)
append_to d unreadable = unreadable
append_to d panics = panics

-- `selectedBatches`: `none` is a panic, and `start` past the end an empty page.
unfoldable pub cut : (start end : ℤ) → List ℕ → Option (List ℕ)
unfolding slice
cut start end numbers =
    let size = pos (length numbers) in
    if leb_ℤ size start then some [] else slice start (if ltb_ℤ size end then size else end) numbers

unfoldable pub select_page : ℕ → ℕ → List ℕ → Option (List ℕ)
unfolding as_int cut
select_page offset limit numbers = cut (as_int offset) (as_int ((offset + limit) % 2 ^ 64)) numbers

module _ (kv : KvStore) (codecs : Codecs) where
  unfoldable pub save_last_processed_batch : ℕ → kv.Db → kv.Db
  save_last_processed_batch n db = kv.set last_processed_key (print_ℕ n) db

  -- `none` is an error; a missing key is batch 0.
  unfoldable pub get_last_processed_batch : kv.Db → Option ℕ
  unfolding scan_uint64
  get_last_processed_batch db = elim (kv.get last_processed_key db) [
    | none ↦ some 0
    | some v ↦ scan_uint64 v
  ]

  -- `SaveMetadata`, with its record as one argument; `time.Now()` is in the record.
  unfoldable pub save_metadata : ProofData → kv.Db → kv.Db
  save_metadata d db = kv.set (proof_key d.batch_number) (codecs.proofs.marshal d) db

  unfoldable pub get_proof : ℕ → kv.Db → Option ProofData
  get_proof n db = elim (kv.get (proof_key n) db) [
    | none ↦ none
    | some v ↦ codecs.proofs.unmarshal v
  ]

  abbrev pub batch_numbers : kv.Db → List ℕ
  batch_numbers db = scan_keys (kv.keys proof_prefix db)

  -- The second transaction: a missing entry is passed over, an entry that does not unmarshal ends
  -- it.
  unfoldable pub fetch_batches : List ℕ → kv.Db → Listing
  fetch_batches [] db = listed []
  fetch_batches (n ∷ ns) db =
      let rest = fetch_batches ns db in
      elim (kv.get (proof_key n) db) [
        | none ↦ rest
        | some v ↦ elim (codecs.proofs.unmarshal v) [
          | none ↦ unreadable
          | some d ↦ append_to d rest
        ]
      ]

  unfoldable pub get_batches : ℕ → ℕ → kv.Db → Listing
  unfolding scan_keys bubble_sort select_page fetch_batches
  get_batches offset limit db = elim (select_page offset limit (bubble_sort (batch_numbers db))) [
    | none ↦ panics
    | some selected ↦ fetch_batches selected db
  ]

  unfoldable pub get_total_batches : kv.Db → ℕ
  get_total_batches db = length (kv.keys proof_prefix db)

  unfoldable pub save_last_state_root : Bytes → kv.Db → kv.Db
  save_last_state_root state_root db = kv.set state_root_key state_root db

  unfoldable pub get_last_state_root : kv.Db → Bytes
  get_last_state_root db = elim (kv.get state_root_key db) [ none ↦ [] | some v ↦ v ]

  unfoldable pub save_verification_failure : VerificationFailure → kv.Db → kv.Db
  save_verification_failure f db =
      kv.set last_failure_key (codecs.failures.marshal f)
        (kv.set (failure_key f.batch_number) (codecs.failures.marshal f) db)

  -- No failure is batch 0 with an empty message.
  unfoldable pub get_last_verification_failure : kv.Db → Option (ℕ × Bytes)
  get_last_verification_failure db = elim (kv.get last_failure_key db) [
    | none ↦ some (0, [])
    | some v ↦ elim (codecs.failures.unmarshal v) [
      | none ↦ none
      | some f ↦ some (f.batch_number, f.error_msg)
    ]
  ]

  unfoldable pub get_verification_failure : ℕ → kv.Db → Option VerificationFailure
  get_verification_failure n db = elim (kv.get (failure_key n) db) [
    | none ↦ none
    | some v ↦ codecs.failures.unmarshal v
  ]

  unfoldable pub set_halt_state : Bytes → ℕ → kv.Db → kv.Db
  set_halt_state reason now db =
      kv.set halt_key
        (codecs.halts.marshal (record { halted = true; reason = reason; timestamp = now })) db

  -- No entry is not halted.
  unfoldable pub get_halt_state : kv.Db → Option (Bool × Bytes)
  get_halt_state db = elim (kv.get halt_key db) [
    | none ↦ some (false, [])
    | some v ↦ elim (codecs.halts.unmarshal v) [ none ↦ none | some s ↦ some (s.halted, s.reason) ]
  ]

  unfoldable pub clear_halt_state : kv.Db → kv.Db
  clear_halt_state db = kv.delete halt_key db
