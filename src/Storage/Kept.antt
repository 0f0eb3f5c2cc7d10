-- ===== src/Storage/Kept.antt =====
-- The proofs in the prover's store: every entry behind "proof_" belongs to the batch that its key
-- names, and every operation keeps it so.
use nowa_zk.Base.{
  ℕ, ◌^◌, ◌<◌, ◌≡◌, ◌≢◌, refl, sym, ap, ◌∙◌, none, some, arith, Bool-cases, inl, inr, ◌⊎◌,
}
use nowa_zk.Base.Bytes.{Bytes, eqb, eq_of_eqb, eqb_refl}
use nowa_zk.Storage.{
  KvStore, KvLaws, Codec, Codecs, IsRoundTrip, ProofData, VerificationFailure, after_prefix,
  proof_key, proof_prefix, failure_key, last_processed_key, state_root_key, last_failure_key,
  halt_key, save_last_processed_batch, save_metadata, save_last_state_root,
  save_verification_failure, set_halt_state, clear_halt_state,
}
use nowa_zk.Storage.Keys.{after_prefix-others}

pub same_key : (j k : Bytes) → (j ≡ k) ⊎ (j ≢ k)
same_key j k = elim (Bool-cases (eqb j k)) [
  | inl same ↦ inl (eq_of_eqb j k same)
  | inr other ↦ inr (λ e. ground (arith, eqb_refl j, e, other))
]

not_behind :
    (k j s : Bytes)
    → after_prefix proof_prefix k ≡ some s
    → after_prefix proof_prefix j ≡ none
    → k ≢ j
not_behind k j s p other e = let q = ap (after_prefix proof_prefix) e in ground (arith, p, q, other)

pub read_back :
    {T : Type 0} (codec : Codec T)
    → IsRoundTrip codec
    → (t : T) (v : Bytes) → some v ≡ some (codec.marshal t)
    → codec.unmarshal v ≡ some t
read_back codec json t v e = ground (arith, json t)

module _ (kv : KvStore) (codecs : Codecs) where
  -- An entry of batch `number`, with its record.
  pub record Entry (k v : Bytes) : Type 0 where
    pub number : ℕ
    pub bounded : number < 2 ^ 64
    pub key : k ≡ proof_key number
    pub saved : ProofData
    pub decoded : codecs.proofs.unmarshal v ≡ some saved
    pub names : saved.batch_number ≡ number

  abbrev pub IsKept : kv.Db → Type 0
  IsKept db =
      (k v s : Bytes) → after_prefix proof_prefix k ≡ some s → kv.get k db ≡ some v → Entry k v

  module _ (laws : KvLaws kv) where
    set-IsKept :
        (j w : Bytes) (db : kv.Db)
        → after_prefix proof_prefix j ≡ none
        → IsKept db
        → IsKept (kv.set j w db)
    set-IsKept j w db other kept k v s p stored =
        kept k v s p (sym (laws.get-set_other k j w db (not_behind k j s p other)) ∙ stored)

    save_metadata-IsKept :
        IsRoundTrip codecs.proofs
        → (d : ProofData) (db : kv.Db) → d.batch_number < 2 ^ 64
        → IsKept db
        → IsKept (save_metadata kv codecs d db)
    unfolding save_metadata
    save_metadata-IsKept json d db h kept k v s p stored =
        elim (same_key k (proof_key d.batch_number)) [
          | inl same ↦ record {
            number = d.batch_number;
            bounded = h;
            key = same;
            saved = d;
            decoded = read_back codecs.proofs json d v (
                sym stored
                ∙ ap
                    (λ j. kv.get j (kv.set (proof_key d.batch_number) (codecs.proofs.marshal d) db))
                    same
                ∙ laws.get_set (proof_key d.batch_number) (codecs.proofs.marshal d) db);
            names = refl;
          }
          | inr other ↦ kept k v s p (sym (laws.get-set_other k _ _ db other) ∙ stored)
        ]

    clear-IsKept : (db : kv.Db) → IsKept db → IsKept (clear_halt_state kv codecs db)
    unfolding clear_halt_state
    clear-IsKept db kept k v s p stored = kept k v s p (
        sym (
          laws.get-delete_other k halt_key db (not_behind k halt_key s p (after_prefix-others 0).3))
        ∙ stored)

    -- Every operation that writes keeps the entries of the batches in order: each stands under the
    -- key of its batch, which is below 2^64, and decodes. For a metadata record of a batch below
    -- 2^64, where JSON round trips and the database obeys its laws.
    pub store-IsKept :
        IsRoundTrip codecs.proofs
        → (db : kv.Db) → IsKept db
        → (d : ProofData) → d.batch_number < 2 ^ 64
        → (n now : ℕ) (text : Bytes) (f : VerificationFailure)
        → IsKept (save_metadata kv codecs d db)
          × IsKept (save_last_processed_batch kv codecs n db)
          × IsKept (save_last_state_root kv codecs text db)
          × IsKept (save_verification_failure kv codecs f db)
          × IsKept (set_halt_state kv codecs text now db)
          × IsKept (clear_halt_state kv codecs db)
    unfolding save_last_processed_batch save_last_state_root save_verification_failure
        set_halt_state
    store-IsKept json db kept d h n now text f =
        let o = after_prefix-others f.batch_number in
        (
          save_metadata-IsKept json d db h kept,
          set-IsKept last_processed_key _ db o.0 kept,
          set-IsKept state_root_key _ db o.1 kept,
          set-IsKept last_failure_key _ _ o.2
              (set-IsKept (failure_key f.batch_number) _ db o.4 kept),
          set-IsKept halt_key _ db o.3 kept,
          clear-IsKept db kept,
        )
