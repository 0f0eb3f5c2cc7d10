-- ===== src/Storage/Pages.antt =====
-- `GetBatches`: the pages cut the list of the stored batches, newest first.
use mathlib.Core.List.{Mem, Memᴰ, mem-cons_self, mem-cons_of_mem}
use mathlib.Core.HLevel.{⊥_prop}
use mathlib.Core.List.Perm
use mathlib.Core.Logic.{∥∥₁_elim, ∥∥₁_map}
use nowa_zk.Base.{
  ℕ, ◌+◌, ◌^◌, ◌<◌, ◌≡◌, ◌≢◌, ◌↔◌, refl, sym, ap, subst, ◌∙◌, none, some, List, [], ◌∷◌, take, drop,
  map, All, arith, Option-cases, inl, inr,
}
use nowa_zk.Base.Bytes.{Bytes}
use nowa_zk.Storage.{
  KvStore, KvLaws, Codecs, ProofData, listed, after_prefix, proof_key, proof_prefix, scan_keys,
  scan_proof_key, bubble_sort, batch_numbers, fetch_batches, get_batches, get_proof,
}
use nowa_zk.Storage.Keys.{scan_proof_key-proof_key, after_prefix-proof_key, proof_key_inj}
use nowa_zk.Storage.Kept.{IsKept}
use nowa_zk.Storage.Select.{
  some_inj, scan_mem, select_page-in_range, All-take, All-drop, All-bubble_sort,
}
use nowa_zk.Storage.Sort.{Descending, bubble_sort-Descending}

module _ (kv : KvStore) (codecs : Codecs) (db : kv.Db) where
  abbrev IsStored : ℕ → Type 0
  IsStored n = (d : ProofData) × (get_proof kv codecs n db ≡ some d) × (d.batch_number ≡ n)

  -- The records of a list of stored batches.
  record Records (ns : List ℕ) : Type 0 where
    found : List ProofData
    eq : fetch_batches kv codecs ns db ≡ listed found
    numbers : map (λ d. d.batch_number) found ≡ ns
    same : All (λ d. get_proof kv codecs d.batch_number db ≡ some d) found

  fetch_one :
      (n : ℕ) (ns : List ℕ) (d : ProofData) (ds : List ProofData)
      → get_proof kv codecs n db ≡ some d
      → fetch_batches kv codecs ns db ≡ listed ds
      → fetch_batches kv codecs (n ∷ ns) db ≡ listed (d ∷ ds)
  unfolding get_proof fetch_batches
  fetch_one n ns d ds found eq = ground (arith, found, eq)

  fetch_Records : (ns : List ℕ) → All IsStored ns → Records ns
  unfolding fetch_batches
  fetch_Records [] h = record { found = []; eq = refl; numbers = refl; same = tt }
  fetch_Records (n ∷ ns) h =
      let r = fetch_Records ns h.1 in
      let s = h.0 in
      record {
        found = s.0 ∷ r.found;
        eq = fetch_one n ns s.0 r.found s.1 r.eq;
        numbers = ground (arith, s.2, r.numbers);
        same = (subst (λ m. get_proof kv codecs m db ≡ some s.0) (sym s.2) s.1, r.same);
      }

  decoded_entry :
      (n : ℕ) (v : Bytes) (d : ProofData)
      → kv.get (proof_key n) db ≡ some v
      → codecs.proofs.unmarshal v ≡ some d
      → get_proof kv codecs n db ≡ some d
  unfolding get_proof
  decoded_entry n v d stored decoded = ground (arith, stored, decoded)

  missing_entry : (n : ℕ) → kv.get (proof_key n) db ≡ none → get_proof kv codecs n db ≡ none
  unfolding get_proof
  missing_entry n missing = ground (arith, missing)

  mem-stored : (n : ℕ) (ns : List ℕ) → All IsStored ns → Memᴰ n ns → get_proof kv codecs n db ≢ none
  mem-stored n [] h m missing = elim m [ ]
  mem-stored n (x ∷ ns) h (Memᴰ.head e) missing =
      let s = h.0.1 in ground (arith, ap (λ j. get_proof kv codecs j db) e, s, missing)
  mem-stored n (x ∷ ns) h (Memᴰ.tail m) missing = mem-stored n ns h.1 m missing

  -- The numbers of the batches, newest first, of which a page is a part.
  abbrev pub newest_first : List ℕ
  newest_first = bubble_sort (batch_numbers kv codecs db)

  -- A page of `GetBatches`.
  pub record IsPage (offset limit : ℕ) (ds : List ProofData) : Type 0 where
    pub numbers : map (λ d. d.batch_number) ds ≡ take limit (drop offset newest_first)
    pub same : All (λ d. get_proof kv codecs d.batch_number db ≡ some d) ds

  module _ (laws : KvLaws kv) (kept : IsKept kv codecs db) where
    entry_IsStored :
        (k : Bytes)
        → Mem k (kv.keys proof_prefix db)
        → (n : ℕ) → scan_proof_key k ≡ some n
        → IsStored n
    entry_IsStored k m n scanned = elim (Option-cases (after_prefix proof_prefix k)) [
      | inl other ↦ absurd (((laws.mem-keys proof_prefix k db).0 m).0 other)
      | inr p ↦ elim (Option-cases (kv.get k db)) [
        | inl missing ↦ absurd (((laws.mem-keys proof_prefix k db).0 m).1 missing)
        | inr v ↦
            let e = kept k v.0 p.0 p.1 v.1 in
            let same = some_inj (
              sym (scan_proof_key-proof_key e.number e.bounded)
              ∙ ap scan_proof_key (sym e.key)
              ∙ scanned) in
            (
              e.saved,
              subst (λ j. get_proof kv codecs j db ≡ some e.saved) same
                  (decoded_entry e.number v.0 e.saved (ap (λ j. kv.get j db) (sym e.key) ∙ v.1)
                    e.decoded),
              e.names ∙ same,
            )
      ]
    ]

    keys_IsStored :
        (ks : List Bytes)
        → ((k : Bytes) → Mem k ks → Mem k (kv.keys proof_prefix db))
        → All IsStored (scan_keys ks)
    unfolding scan_keys
    keys_IsStored [] within = tt
    keys_IsStored (k ∷ ks) within =
        let rest = keys_IsStored ks (λ j m. within j (mem-cons_of_mem k m)) in
        (elim (scan_proof_key k)
            as (λ o.
              scan_proof_key k ≡ o
              → All IsStored (elim o [ none ↦ scan_keys ks | some n ↦ n ∷ scan_keys ks ])) [
                | none ↦ λ _. rest
                | some n ↦ λ e. (entry_IsStored k (within k mem-cons_self) n e, rest)
              ])
          refl

    numbers_of_stored :
        (n : ℕ) → get_proof kv codecs n db ≢ none → Mem n (batch_numbers kv codecs db)
    numbers_of_stored n stored = elim (Option-cases (kv.get (proof_key n) db)) [
      | inl missing ↦ absurd (stored (missing_entry n missing))
      | inr v ↦
          let k = proof_key n in
          let p = after_prefix-proof_key n in
          let e = kept k v.0 _ p v.1 in
          let bounded = subst (λ j. j < 2 ^ 64) (sym (proof_key_inj n e.number e.key)) e.bounded in
          let m =
            (laws.mem-keys proof_prefix k db).1
              ((λ q. ground (arith, p, q)), (λ q. ground (arith, v.1, q))) in
          ∥∥₁_map m (λ d. scan_mem k _ n (scan_proof_key-proof_key n bounded) d)
    ]

    newest_first-IsStored : All IsStored (bubble_sort (batch_numbers kv codecs db))
    newest_first-IsStored =
        All-bubble_sort IsStored (batch_numbers kv codecs db)
          (keys_IsStored (kv.keys proof_prefix db) λ k m. m)

    -- Where offset and limit add up to less than 2^63 and every proof entry is in order, GetBatches
    -- returns without an error the saved records of `limit` batches after the first `offset`, of
    -- the list of all the batches that have a record, which descends.
    pub get_batches-IsPage :
        (offset limit : ℕ)
        → offset + limit < 2 ^ 63
        → ((ds : List ProofData) × (get_batches kv codecs offset limit db ≡ listed ds)
            × IsPage offset limit ds)
          × Descending newest_first
          × ((n : ℕ) → Mem n newest_first ↔ (get_proof kv codecs n db ≢ none))
    unfolding get_batches
    get_batches-IsPage offset limit h =
        let sorted = bubble_sort-Descending (batch_numbers kv codecs db) in
        let r =
          fetch_Records (take limit (drop offset newest_first))
            (All-take IsStored limit _ (All-drop IsStored offset _ newest_first-IsStored)) in
        (
          (
            r.found,
            ground (arith, select_page-in_range offset limit newest_first h, r.eq),
            record { numbers = r.numbers; same = r.same },
          ),
          sorted.0,
          λ n. (
            λ m. λ e. ∥∥₁_elim m ⊥_prop (λ d. mem-stored n newest_first newest_first-IsStored d e),
            λ stored. (Perm.mem_iff sorted.1).1 (numbers_of_stored n stored),
          ),
        )
