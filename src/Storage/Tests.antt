-- ===== src/Storage/Tests.antt =====
-- A store of three proofs in memory, with codecs that put a length before each text.
use mathlib.Core.List.{Mem}
use nowa_zk.Base.{ℕ, ◌+◌, ◌^◌, ◌<◌, ◌≤◌, ◌≡◌, ◌≢◌, ◌↔◌, ◌⊎◌, refl, none, List, [], ◌∷◌, arith}
use nowa_zk.Base.Bytes.{codes, eqb}
use nowa_zk.Base.Bytes.Decimal.{print_ℕ, parse_ℕ}
use nowa_zk.Storage.{
  ProofData, VerificationFailure, bubble_sort, bubble, bubble_rounds, after_prefix, scan_keys,
  scan_proof_key, scan_uint64, number_token, skip_blanks, save_metadata, get_proof, get_batches,
  select_page, listed,
}
use nowa_zk.Storage.Memory.{Entries, memory, memory_laws, lookup, remove, keys_of}
use nowa_zk.Storage.Lines.{lines, proofs-IsRoundTrip}
use nowa_zk.Storage.Kept.{IsKept, store-IsKept}
use nowa_zk.Storage.Pages.{IsPage, newest_first, get_batches-IsPage}
use nowa_zk.Storage.Select.{select_page-panics}
use nowa_zk.Storage.Sort.{Descending}

abbrev proof_of : ℕ → ProofData
proof_of n = record {
  batch_number = n;
  batch_hash = codes "0xab";
  tx_hash = codes "0xcd";
  tx_hashes = [];
  timestamp = 1700000000;
  submitter = [];
  new_state_root = codes "77";
  status = 1;
}

failure : VerificationFailure
failure = record { batch_number = 9; error_msg = codes "bad"; proof_data = []; timestamp = 5 }

no_proofs-IsKept : IsKept memory lines []
unfolding lookup
no_proofs-IsKept k v s p e = absurd (ground (arith, e))

abbrev saved : ℕ → Entries → Entries
saved n db = save_metadata memory lines (proof_of n) db

saved-IsKept :
    (n : ℕ)
    → n < 2 ^ 64
    → (db : Entries) → IsKept memory lines db
    → IsKept memory lines (saved n db)
saved-IsKept n h db kept =
    (store-IsKept memory lines memory_laws proofs-IsRoundTrip db kept (proof_of n) h 0 0 []
      failure).0

abbrev pub three_proofs : Entries
three_proofs = saved 12 (saved 30 (saved 4 []))

pub three_proofs-IsKept : IsKept memory lines three_proofs
three_proofs-IsKept =
    saved-IsKept 12 (omega arith) _
      (saved-IsKept 30 (omega arith) _ (saved-IsKept 4 (omega arith) [] no_proofs-IsKept))

pub sorted_numbers : newest_first memory lines three_proofs ≡ 30 ∷ 12 ∷ 4 ∷ []
unfolding bubble_sort bubble bubble_rounds scan_keys scan_proof_key scan_uint64 number_token
    skip_blanks after_prefix save_metadata keys_of remove eqb print_ℕ parse_ℕ
sorted_numbers = refl

get_batches-IsPage_example :
    let newest = newest_first memory lines three_proofs in
    ((ds : List ProofData) × (get_batches memory lines 1 1 three_proofs ≡ listed ds)
      × IsPage memory lines three_proofs 1 1 ds)
    × Descending newest
    × ((n : ℕ) → Mem n newest ↔ (get_proof memory lines n three_proofs ≢ none))
get_batches-IsPage_example =
    get_batches-IsPage memory lines three_proofs memory_laws three_proofs-IsKept 1 1 (omega arith)

select_page-panics_example :
    (select_page (2 ^ 63) 10 (30 ∷ 12 ∷ 4 ∷ []) ≡ none)
    ↔ ((2 ^ 63 ≤ 2 ^ 63) ⊎ ((2 ^ 63 < 3) × (2 ^ 63 ≤ 2 ^ 63 + 10)))
select_page-panics_example =
    select_page-panics (2 ^ 63) 10 (30 ∷ 12 ∷ 4 ∷ []) (omega arith) (omega arith)
