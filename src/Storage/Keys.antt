-- ===== src/Storage/Keys.antt =====
-- The keys of store.go: the kinds of entry have different keys, and the number of a batch is read
-- back from its key.
use nowa_zk.Base.{ℕ, ◌^◌, ◌<◌, ◌≡◌, refl, none, some, [], ◌∷◌, All, arith}
use nowa_zk.Base.Bytes.{Bytes}
use nowa_zk.Base.Bytes.Decimal.{print_ℕ, parse_ℕ-print_ℕ, IsDigit, print_ℕ-IsDigit}
use nowa_zk.Storage.{
  after_prefix, skip_blanks, number_token, scan_uint64, scan_proof_key, proof_key, proof_prefix,
  failure_key, last_processed_key, state_root_key, last_failure_key, halt_key,
}

token-IsDigit : (s : Bytes) → All IsDigit s → number_token s ≡ s
unfolding number_token
token-IsDigit [] h = refl
token-IsDigit (c ∷ s) h = ground (arith, token-IsDigit s h.1, h.0)

blanks-IsDigit : (s : Bytes) → All IsDigit s → skip_blanks s ≡ s
unfolding skip_blanks
blanks-IsDigit [] h = refl
blanks-IsDigit (c ∷ s) h = ground (arith, h.0)

pub scan_uint64-print_ℕ : (n : ℕ) → n < 2 ^ 64 → scan_uint64 (print_ℕ n) ≡ some n
unfolding scan_uint64
scan_uint64-print_ℕ n h =
    let d = print_ℕ-IsDigit n in
    ground (arith, blanks-IsDigit (print_ℕ n) d, token-IsDigit (print_ℕ n) d, parse_ℕ-print_ℕ n)

pub scan_proof_key-proof_key : (n : ℕ) → n < 2 ^ 64 → scan_proof_key (proof_key n) ≡ some n
unfolding scan_proof_key after_prefix
scan_proof_key-proof_key n h = scan_uint64-print_ℕ n h

print_ℕ_inj : (m n : ℕ) → print_ℕ m ≡ print_ℕ n → m ≡ n
print_ℕ_inj m n e = ground (arith, parse_ℕ-print_ℕ m, parse_ℕ-print_ℕ n)

pub proof_key_inj : (m n : ℕ) → proof_key m ≡ proof_key n → m ≡ n
proof_key_inj m n e = print_ℕ_inj m n (ground arith)

pub failure_key_inj : (m n : ℕ) → failure_key m ≡ failure_key n → m ≡ n
failure_key_inj m n e = print_ℕ_inj m n (ground arith)

-- Only the entries of batches have keys behind the prefix.
pub after_prefix-others :
    (n : ℕ)
    → (after_prefix proof_prefix last_processed_key ≡ none)
      × (after_prefix proof_prefix state_root_key ≡ none)
      × (after_prefix proof_prefix last_failure_key ≡ none)
      × (after_prefix proof_prefix halt_key ≡ none)
      × (after_prefix proof_prefix (failure_key n) ≡ none)
unfolding after_prefix
after_prefix-others n = (refl, refl, refl, refl, refl)

pub after_prefix-proof_key : (n : ℕ) → after_prefix proof_prefix (proof_key n) ≡ some (print_ℕ n)
unfolding after_prefix
after_prefix-proof_key n = refl
