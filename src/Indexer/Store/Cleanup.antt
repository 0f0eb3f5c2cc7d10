-- ===== src/Indexer/Store/Cleanup.antt =====
-- `CleanupOldBatches`: the batches between the last deleted and the latest proven one go, the
-- others stay.
use nowa_zk.Base.{
  ℕ, zero, suc, ◌+◌, ◌-◌, ◌^◌, ◌<◌, ◌≤◌, ◌≡◌, ◌≢◌, ◌⊎◌, refl, sym, ap, subst, ◌∙◌, true, false,
  none, some, arith, leb, ◌==◌, if◌then◌else◌, inl, inr, Bool-cases,
}
use Prim.Native.Nat.{max}
use nowa_zk.Storage.{KvStore, KvLaws}
use nowa_zk.Indexer.Store.{
  BatchCodecs, BatchStore, batch_key, last_deleted_key, delete_batch, delete_range,
  cleanup_old_batches, get_last_deleted_batch, set_last_deleted_batch, read_mark, little_endian,
}
use nowa_zk.Indexer.Store.Marks.{batch_key_inj, last_deleted-ne-batch, get-set_last_deleted}

module _ (kv : KvStore) (codecs : BatchCodecs) where
  abbrev pub IsDeleted : ℕ → BatchStore kv codecs → Type 0
  IsDeleted n st = (st.batches n ≡ none) × (kv.get (batch_key n) st.db ≡ none)

  abbrev pub IsSame : ℕ → BatchStore kv codecs → BatchStore kv codecs → Type 0
  IsSame n st st' =
      (st'.batches n ≡ st.batches n) × (kv.get (batch_key n) st'.db ≡ kv.get (batch_key n) st.db)

  module _ (laws : KvLaws kv) where
    delete-IsDeleted :
        (n : ℕ) (st : BatchStore kv codecs) → IsDeleted n (delete_batch kv codecs n st)
    unfolding delete_batch
    delete-IsDeleted n st = (ground arith, laws.get_delete (batch_key n) st.db)

    delete-IsSame :
        (n m : ℕ) (st : BatchStore kv codecs) → m ≢ n → IsSame m st (delete_batch kv codecs n st)
    unfolding delete_batch
    delete-IsSame n m st other = (
      ground arith,
      laws.get-delete_other (batch_key m) (batch_key n) st.db (λ e. other (batch_key_inj m n e)),
    )

    narrow : (n k m : ℕ) → (m < n) ⊎ (n + suc k ≤ m) → (m ≢ n) × ((m < suc n) ⊎ (suc n + k ≤ m))
    narrow n k m (inl below) = ((λ e. omega arith), inl (omega arith))
    narrow n k m (inr above) = ((λ e. omega arith), inr (omega arith))

    range-IsSame :
        (k n m : ℕ) (st : BatchStore kv codecs)
        → (m < n) ⊎ (n + k ≤ m)
        → IsSame m st (delete_range kv codecs k n st)
    unfolding delete_range
    range-IsSame zero n m st outside = (refl, refl)
    range-IsSame (suc k) n m st outside =
        let narrower = narrow n k m outside in
        let first = delete-IsSame n m st narrower.0 in
        let rest = range-IsSame k (suc n) m (delete_batch kv codecs n st) narrower.1 in
        (rest.0 ∙ first.0, rest.1 ∙ first.1)

    range-IsDeleted :
        (k n m : ℕ) (st : BatchStore kv codecs)
        → n ≤ m
        → m < n + k
        → IsDeleted m (delete_range kv codecs k n st)
    unfolding delete_range
    range-IsDeleted zero n m st from below = absurd (omega arith)
    range-IsDeleted (suc k) n m st from below = elim (Bool-cases (m == n)) [
      | inl here ↦
          let eq : m ≡ n = ground (arith, here) in
          let gone =
            subst (λ i. IsDeleted i (delete_batch kv codecs n st)) (sym eq)
              (delete-IsDeleted n st) in
          let after = range-IsSame k (suc n) m (delete_batch kv codecs n st) (inl (omega arith)) in
          (after.0 ∙ gone.0, after.1 ∙ gone.1)
      | inr later ↦
          range-IsDeleted k (suc n) m (delete_batch kv codecs n st) (ground (arith, later))
            (omega arith)
    ]

    range_mark :
        (k n : ℕ) (st : BatchStore kv codecs)
        → kv.get last_deleted_key (delete_range kv codecs k n st).db ≡ kv.get last_deleted_key st.db
    unfolding delete_range delete_batch
    range_mark zero n st = refl
    range_mark (suc k) n st =
        range_mark k (suc n) (delete_batch kv codecs n st)
        ∙ laws.get-delete_other last_deleted_key (batch_key n) st.db (last_deleted-ne-batch n)

    -- The mark changes no batch.
    mark-IsSame :
        (n m : ℕ) (st : BatchStore kv codecs) → IsSame m st (set_last_deleted_batch kv codecs n st)
    unfolding set_last_deleted_batch
    mark-IsSame n m st = (
      refl,
      laws.get-set_other (batch_key m) last_deleted_key (little_endian 8 n) st.db
          (λ e. last_deleted-ne-batch m (sym e)),
    )

    -- What becomes of the batch `m`.
    abbrev pub Cleaned : (last proven m : ℕ) → BatchStore kv codecs → BatchStore kv codecs → Type 0
    Cleaned last proven m st st' =
        ((last < m) × (m < proven) × IsDeleted m st')
        ⊎ (((m ≤ last) ⊎ (proven ≤ m)) × IsSame m st st')

    range-Cleaned :
        (last proven m : ℕ) (st : BatchStore kv codecs)
        → last < proven
        → Cleaned last proven m st (delete_range kv codecs (proven - 1 - last) (suc last) st)
    range-Cleaned last proven m st more =
        let k = proven - 1 - last in
        elim (Bool-cases (leb m last)) [
          | inl old ↦ inr (
            inl (ground (arith, old)),
            range-IsSame k (suc last) m st (inl (ground (arith, old))),
          )
          | inr young ↦ elim (Bool-cases (leb proven m)) [
            | inl unproven ↦ inr (
              inr (ground (arith, unproven)),
              range-IsSame k (suc last) m st (inr (ground (arith, unproven))),
            )
            | inr between ↦
                let above : last < m = ground (arith, young) in
                let below : m < proven = ground (arith, between) in
                inl (above, below, range-IsDeleted k (suc last) m st above (omega arith))
          ]
        ]

    marked-Cleaned :
        (last proven m n : ℕ) (st st' : BatchStore kv codecs)
        → Cleaned last proven m st st'
        → Cleaned last proven m st (set_last_deleted_batch kv codecs n st')
    marked-Cleaned last proven m n st st' (inl gone) =
        let same = mark-IsSame n m st' in
        inl (gone.0, gone.1, (same.0 ∙ gone.2.0, same.1 ∙ gone.2.1))
    marked-Cleaned last proven m n st st' (inr kept) =
        let same = mark-IsSame n m st' in inr (kept.0, (same.0 ∙ kept.1.0, same.1 ∙ kept.1.1))

    untouched :
        (proven last m : ℕ) (st : BatchStore kv codecs)
        → proven ≤ last
        → Cleaned last proven m st st
    untouched proven last m st within = elim (Bool-cases (leb m last)) [
      | inl old ↦ inr (inl (ground (arith, old)), (refl, refl))
      | inr young ↦ inr (inr (ground (arith, young)), (refl, refl))
    ]

    -- A cleanup deletes, in memory and in the database, exactly the batches behind the last one
    -- that was deleted and before the latest proven one, leaves every other as it is, and moves the
    -- mark up to the batch before the latest proven one, never down.
    pub cleanup_old_batches-Cleaned :
        (proven m : ℕ) (st : BatchStore kv codecs)
        → proven < 2 ^ 64
        → let last = get_last_deleted_batch kv codecs st in
          let st' = cleanup_old_batches kv codecs (some proven) st in
          Cleaned last proven m st st'
          × (get_last_deleted_batch kv codecs st' ≡ max last (proven - 1))
    unfolding cleanup_old_batches get_last_deleted_batch
    cleanup_old_batches-Cleaned proven m st small =
        let last = get_last_deleted_batch kv codecs st in
        let k = proven - 1 - last in
        let ranged = delete_range kv codecs k (suc last) st in
        let marked = set_last_deleted_batch kv codecs (proven - 1) ranged in
        let Done = λ (st' : BatchStore kv codecs).
          Cleaned last proven m st st'
          × (get_last_deleted_batch kv codecs st' ≡ max last (proven - 1)) in
        elim (Bool-cases (leb proven last)) [
          | inl nothing ↦
              let within : proven ≤ last = ground (arith, nothing) in
              subst (λ b. Done (if b then st else (if k == 0 then ranged else marked)))
                (sym nothing) (untouched proven last m st within, omega (arith, within))
          | inr some_more ↦
              let more : last < proven = ground (arith, some_more) in
              subst (λ b. Done (if b then st else (if k == 0 then ranged else marked)))
                (sym some_more)
                (elim (k == 0) as (λ b. k == 0 ≡ b → Done (if b then ranged else marked)) [
                  | true ↦ λ empty.
                      let zero_k : k ≡ 0 = ground (arith, empty) in
                      (
                        range-Cleaned last proven m st more,
                        ap read_mark (range_mark k (suc last) st) ∙ omega (arith, zero_k, more),
                      )
                  | false ↦ λ busy. (
                    marked-Cleaned last proven m (proven - 1) st ranged
                        (range-Cleaned last proven m st more),
                    get-set_last_deleted kv codecs laws ranged (proven - 1) (omega arith)
                        ∙ omega (arith, more),
                  )
                ]
                  refl)
        ]
