-- ===== src/Storage/Lines.antt =====
-- Codecs that round trip, for the tests: a record is a list of texts.
use nowa_zk.Base.{
  ℕ, zero, suc, ◌≡◌, refl, ap, ◌∙◌, Bool, true, false, Option, none, some, List, [], ◌∷◌,
  if◌then◌else◌, ◌==◌,
}
use nowa_zk.Base.Bytes.{Bytes}
use nowa_zk.Storage.{Codecs, IsRoundTrip, ProofData, VerificationFailure, HaltState}

-- A list of texts in one, each with a 0 behind it.
join_with_zero : Bytes → Bytes → Bytes
join_with_zero [] rest = 0 ∷ rest
join_with_zero (c ∷ s) rest = suc c ∷ join_with_zero s rest

join : List Bytes → Bytes
unfolding join_with_zero
join [] = []
join (s ∷ ss) = join_with_zero s (join ss)

push : ℕ → List Bytes → List Bytes
push c [] = (c ∷ []) ∷ []
push c (s ∷ ss) = (c ∷ s) ∷ ss

split : Bytes → List Bytes
unfolding push
split [] = []
split (zero ∷ s) = [] ∷ split s
split (suc c ∷ s) = push c (split s)

split-join_with_zero : (s rest : Bytes) → split (join_with_zero s rest) ≡ s ∷ split rest
unfolding split join_with_zero
split-join_with_zero [] rest = refl
split-join_with_zero (c ∷ s) rest = ap (push c) (split-join_with_zero s rest)

split-join : (ss : List Bytes) → split (join ss) ≡ ss
unfolding join split
split-join [] = refl
split-join (s ∷ ss) = split-join_with_zero s (join ss) ∙ ap (◌∷◌ s) (split-join ss)

abbrev lines_of_proof : ProofData → List Bytes
lines_of_proof d =
    (d.batch_number ∷ d.timestamp ∷ d.status ∷ [])
    ∷ d.batch_hash
    ∷ d.tx_hash
    ∷ d.submitter
    ∷ d.new_state_root
    ∷ d.tx_hashes

abbrev lines_of_failure : VerificationFailure → List Bytes
lines_of_failure f = (f.batch_number ∷ f.timestamp ∷ []) ∷ f.error_msg ∷ f.proof_data ∷ []

abbrev lines_of_halt : HaltState → List Bytes
lines_of_halt s = ((if s.halted then 1 else 0) ∷ s.timestamp ∷ []) ∷ s.reason ∷ []

proof_of_lines : List Bytes → Option ProofData
proof_of_lines ((n ∷ t ∷ s ∷ []) ∷ a ∷ b ∷ c ∷ d ∷ hashes) = some (record {
  batch_number = n;
  batch_hash = a;
  tx_hash = b;
  tx_hashes = hashes;
  timestamp = t;
  submitter = c;
  new_state_root = d;
  status = s;
})
proof_of_lines _ = none

failure_of_lines : List Bytes → Option VerificationFailure
failure_of_lines ((n ∷ t ∷ []) ∷ e ∷ d ∷ []) =
    some (record { batch_number = n; error_msg = e; proof_data = d; timestamp = t })
failure_of_lines _ = none

halt_of_lines : List Bytes → Option HaltState
halt_of_lines ((flag ∷ t ∷ []) ∷ reason ∷ []) =
    some (record { halted = flag == 1; reason = reason; timestamp = t })
halt_of_lines _ = none

unfoldable pub lines : Codecs
unfolding join split proof_of_lines failure_of_lines halt_of_lines
lines = record {
  proofs = record {
    marshal = λ d. join (lines_of_proof d);
    unmarshal = λ v. proof_of_lines (split v);
  };
  failures = record {
    marshal = λ f. join (lines_of_failure f);
    unmarshal = λ v. failure_of_lines (split v);
  };
  halts = record {
    marshal = λ s. join (lines_of_halt s);
    unmarshal = λ v. halt_of_lines (split v);
  };
}

pub proofs-IsRoundTrip : IsRoundTrip lines.proofs
unfolding lines proof_of_lines
proofs-IsRoundTrip d = ap proof_of_lines (split-join (lines_of_proof d))

pub failures-IsRoundTrip : IsRoundTrip lines.failures
unfolding lines failure_of_lines
failures-IsRoundTrip f = ap failure_of_lines (split-join (lines_of_failure f))

pub halts-IsRoundTrip : IsRoundTrip lines.halts
unfolding lines halt_of_lines
halts-IsRoundTrip s = ap halt_of_lines (split-join (lines_of_halt s)) ∙ flag s.halted s
  where
    flag :
        (b : Bool) (s : HaltState)
        → Path
            (Option HaltState)
            (some (record {
              halted = (if b then 1 else 0) == 1;
              reason = s.reason;
              timestamp = s.timestamp;
            }))
            (some (record { halted = b; reason = s.reason; timestamp = s.timestamp }))
    flag true s = refl
    flag false s = refl
