-- ===== src/Indexer/Api/Window.antt =====
-- The store as an interval of numbers: the batches behind the last deleted one, up to the latest.
use nowa_zk.Base.{
  ℕ, zero, suc, ◌-◌, ◌^◌, ◌<◌, ◌≤◌, ◌≡◌, ◌≢◌, ◌⊎◌, refl, sym, ap, subst, ◌∙◌, none, some, arith,
  ltb, ◌==◌, if◌then◌else◌, inl, inr, Bool-cases,
}
use Prim.Native.Nat.{max}
use nowa_zk.Base.Bytes.{Bytes}
use nowa_zk.Storage.{KvStore, KvLaws}
use nowa_zk.Indexer.Store.{
  Batch, BatchCodecs, BatchStore, batch_key, last_block_key, last_deleted_key, hash_key, save_batch,
  delete_batch, delete_range, cleanup_old_batches, get_last_deleted_batch, set_last_deleted_batch,
  set_last_processed_block, set_block_hash, read_mark, little_endian,
}
use nowa_zk.Indexer.Store.Marks.{
  batch_key_inj, last_deleted-ne-batch, last_block-ne-batch, hash-ne-batch,
}
use nowa_zk.Indexer.Store.Cleanup.{IsDeleted, Cleaned, cleanup_old_batches-Cleaned}

module _ (kv : KvStore) (codecs : BatchCodecs) where
  -- The cache and the database hold the batches of the interval under their numbers, and no other.
  pub record IsWindow (last : ℕ) (st : BatchStore kv codecs) : Type 0 where
    pub mark : get_last_deleted_batch kv codecs st ≡ last
    pub ordered : last ≤ st.count
    pub room : st.count < 2 ^ 64 - 1
    pub held :
        (n : ℕ) → last < n → n ≤ st.count → (b : Batch) × (st.batches n ≡ some b) × (b.number ≡ n)
    pub gone : (n : ℕ) → (n ≤ last) ⊎ (st.count < n) → IsDeleted kv codecs n st

  -- What the indexer does to its store while it runs, without a reorg: it saves the next batch, or
  -- one that it holds again, cleans up to a batch that was proved, and marks blocks.
  pub data Runs : BatchStore kv codecs → Type 0 where
    fresh :
        (db : kv.Db)
        → ((n : ℕ) → kv.get (batch_key n) db ≡ none)
        → kv.get last_deleted_key db ≡ none
        → Runs (record { db = db; batches = λ n. none; count = 0 })
    saved :
        {st : BatchStore kv codecs}
        → Runs st
        → (b : Batch) → get_last_deleted_batch kv codecs st < b.number
        → b.number ≤ suc st.count
        → b.number < 2 ^ 64 - 1
        → Runs (save_batch kv codecs b st)
    cleaned :
        {st : BatchStore kv codecs}
        → Runs st
        → (proven : ℕ) → proven ≤ suc st.count
        → Runs (cleanup_old_batches kv codecs (some proven) st)
    block_marked :
        {st : BatchStore kv codecs}
        → Runs st
        → (n : ℕ) → Runs (set_last_processed_block kv codecs n st)
    hash_marked :
        {st : BatchStore kv codecs}
        → Runs st
        → (n : ℕ) (hash : Bytes) → Runs (set_block_hash kv codecs n hash st)

  module _ (laws : KvLaws kv) where
    saved-IsDeleted :
        (n : ℕ) (b : Batch) (st : BatchStore kv codecs)
        → n ≢ b.number
        → IsDeleted kv codecs n st
        → IsDeleted kv codecs n (save_batch kv codecs b st)
    unfolding save_batch
    saved-IsDeleted n b st other gone = (
      ground (arith, gone.0),
      laws.get-set_other (batch_key n) (batch_key b.number) _ st.db
            (λ e. other (batch_key_inj n b.number e))
          ∙ gone.1,
    )

    outside_saved :
        (last count number n : ℕ)
        → last < number
        → (n ≤ last) ⊎ ((if ltb count number then number else count) < n)
        → (n ≢ number) × ((n ≤ last) ⊎ (count < n))
    outside_saved last count number n behind (inl old) = ((λ e. omega arith), inl old)
    outside_saved last count number n behind (inr later) = ((λ e. ground arith), inr (ground arith))

    save-IsWindow :
        (last : ℕ) (b : Batch) (st : BatchStore kv codecs)
        → IsWindow last st
        → last < b.number
        → b.number ≤ suc st.count
        → b.number < 2 ^ 64 - 1
        → IsWindow last (save_batch kv codecs b st)
    unfolding save_batch get_last_deleted_batch
    save-IsWindow last b st w behind next room = record {
      mark =
          ap read_mark (
            laws.get-set_other last_deleted_key (batch_key b.number) _ st.db
              (last_deleted-ne-batch b.number))
          ∙ w.mark;
      ordered = let o = w.ordered in ground arith;
      room = let r = w.room in ground arith;
      held = λ n above below. elim (Bool-cases (n == b.number)) [
        | inl same ↦ (b, ground (arith, same), ground (arith, same))
        | inr other ↦
            let h = w.held n above (ground (arith, other, below, next)) in
            (h.0, ground (arith, other, h.1), h.2)
      ];
      gone = λ n outside.
          let old = outside_saved last st.count b.number n behind outside in
          saved-IsDeleted n b st old.0 (w.gone n old.1);
    }

    delete_range_count :
        (k n : ℕ) (st : BatchStore kv codecs) → (delete_range kv codecs k n st).count ≡ st.count
    unfolding delete_range delete_batch
    delete_range_count zero n st = refl
    delete_range_count (suc k) n st = delete_range_count k (suc n) (delete_batch kv codecs n st)

    cleanup_count :
        (proven : ℕ) (st : BatchStore kv codecs)
        → (cleanup_old_batches kv codecs (some proven) st).count ≡ st.count
    unfolding cleanup_old_batches set_last_deleted_batch
    cleanup_count proven st =
        let last = get_last_deleted_batch kv codecs st in
        let counted = delete_range_count (proven - 1 - last) (suc last) st in
        ground (arith, counted)

    cleanup-IsWindow :
        (last proven : ℕ) (st : BatchStore kv codecs)
        → IsWindow last st
        → proven ≤ suc st.count
        → IsWindow (max last (proven - 1)) (cleanup_old_batches kv codecs (some proven) st)
    cleanup-IsWindow last proven st w within =
        let st' = cleanup_old_batches kv codecs (some proven) st in
        let counted = cleanup_count proven st in
        let r = w.room in
        let o = w.ordered in
        let c = λ (m : ℕ).
          subst (λ l. Cleaned kv codecs laws l proven m st st') w.mark
            (cleanup_old_batches-Cleaned kv codecs laws proven m st (omega (arith, r, within))).0 in
        record {
          mark =
              (cleanup_old_batches-Cleaned kv codecs laws proven 0 st (omega (arith, r, within))).1
              ∙ ap (λ l. max l (proven - 1)) w.mark;
          ordered = omega (arith, o, counted, within);
          room = omega (arith, r, counted);
          held = λ n above below. elim (c n) [
            | inl between ↦ absurd (omega (arith, between.1, above))
            | inr kept ↦
                let h = w.held n (omega (arith, above)) (omega (arith, below, counted)) in
                (h.0, kept.1.0 ∙ h.1, h.2)
          ];
          gone = λ n outside. elim (c n) [
            | inl between ↦ between.2
            | inr kept ↦
                let was =
                  w.gone n
                    (outside_cleaned last proven n st.count st'.count counted kept.0 outside) in
                (kept.1.0 ∙ was.0, kept.1.1 ∙ was.1)
          ];
        }
      where
        outside_cleaned :
            (last proven n count count' : ℕ)
            → count' ≡ count
            → (n ≤ last) ⊎ (proven ≤ n)
            → (n ≤ max last (proven - 1)) ⊎ (count' < n)
            → (n ≤ last) ⊎ (count < n)
        outside_cleaned last proven n count count' e kept (inl old) = elim kept [
          | inl before ↦ inl before
          | inr unproven ↦ inl (omega (arith, old, unproven))
        ]
        outside_cleaned last proven n count count' e kept (inr later) =
            inr (omega (arith, later, e))

    -- A write under the key of no batch keeps the interval.
    write-IsWindow :
        (last : ℕ) (k v : Bytes) (st : BatchStore kv codecs)
        → IsWindow last st
        → ((n : ℕ) → k ≢ batch_key n)
        → k ≢ last_deleted_key
        → IsWindow last (record st { db = kv.set k v st.db })
    unfolding get_last_deleted_batch
    write-IsWindow last k v st w other apart = record {
      mark =
          ap read_mark (laws.get-set_other last_deleted_key k v st.db (λ e. apart (sym e)))
          ∙ w.mark;
      ordered = w.ordered;
      room = w.room;
      held = w.held;
      gone = λ n outside.
          let was = w.gone n outside in
          (was.0, laws.get-set_other (batch_key n) k v st.db (λ e. other n (sym e)) ∙ was.1);
    }

    fresh-IsWindow :
        (db : kv.Db)
        → ((n : ℕ) → kv.get (batch_key n) db ≡ none)
        → kv.get last_deleted_key db ≡ none
        → IsWindow 0 (record { db = db; batches = λ n. none; count = 0 })
    unfolding get_last_deleted_batch read_mark
    fresh-IsWindow db empty unmarked = record {
      mark = ap read_mark unmarked;
      ordered = omega arith;
      room = omega arith;
      held = λ n above below. absurd (omega (arith, above, below));
      gone = λ n outside. (refl, empty n);
    }

    last_block-ne-deleted : last_block_key ≢ last_deleted_key
    last_block-ne-deleted e = ground (arith, e)

    hash-ne-deleted : (n : ℕ) → hash_key n ≢ last_deleted_key
    hash-ne-deleted n e = ground (arith, e)

    runs_interval : (st : BatchStore kv codecs) → Runs st → (last : ℕ) × IsWindow last st
    unfolding set_last_processed_block set_block_hash
    runs_interval st (fresh db empty unmarked) = (0, fresh-IsWindow db empty unmarked)
    runs_interval st (saved {st = st'} run b behind next room) =
        let r = runs_interval st' run in
        let above = subst (λ l. l < b.number) r.1.mark behind in
        (r.0, save-IsWindow r.0 b st' r.1 above next room)
    runs_interval st (cleaned {st = st'} run proven within) =
        let r = runs_interval st' run in
        (max r.0 (proven - 1), cleanup-IsWindow r.0 proven st' r.1 within)
    runs_interval st (block_marked {st = st'} run n) =
        let r = runs_interval st' run in
        (
          r.0,
          write-IsWindow r.0 last_block_key (little_endian 8 n) st' r.1 last_block-ne-batch
              last_block-ne-deleted,
        )
    runs_interval st (hash_marked {st = st'} run n hash) =
        let r = runs_interval st' run in
        (r.0, write-IsWindow r.0 (hash_key n) hash st' r.1 (hash-ne-batch n) (hash-ne-deleted n))

    -- A store that runs is always an interval.
    pub runs-IsWindow :
        (st : BatchStore kv codecs) → Runs st → IsWindow (get_last_deleted_batch kv codecs st) st
    runs-IsWindow st run =
        let r = runs_interval st run in subst (λ l. IsWindow l st) (sym r.1.mark) r.1
