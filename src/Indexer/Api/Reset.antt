-- ===== src/Indexer/Api/Reset.antt =====
-- `ClearAll` keeps the mark of the last deleted batch, and what comes of it.
use mathlib.Core.List.{Mem, Memᴰ, mem-cons_self, mem-cons_of_mem}
use mathlib.Core.HLevel.{⊥_prop}
use mathlib.Core.Logic.{∥∥₁_elim}
use nowa_zk.Base.{
  ℕ, suc, ◌+◌, ◌-◌, ◌^◌, ◌<◌, ◌≤◌, ◌≡◌, ◌≢◌, refl, sym, ap, ◌∙◌, none, some, List, [], ◌∷◌, arith,
  ltb, leb, Bool-cases, Option-cases, true, false, inl, inr, if◌then◌else◌,
}
use nowa_zk.Base.Bytes.{Bytes, eqb, eqb_refl, eq_of_eqb}
use nowa_zk.Base.Int.{pos}
use nowa_zk.Storage.{KvStore, KvLaws, after_prefix}
use nowa_zk.ProverApi.{sent}
use nowa_zk.Indexer.Store.{
  set_last_processed_block, Batch, BatchCodecs, BatchStore, batch_prefix, hash_prefix,
  last_block_key, last_deleted_key, save_batch, get_batch, clear_all, delete_keys,
  cleanup_old_batches, get_last_deleted_batch, get_last_processed_block, read_mark, new_batch_store,
  load_keys, get_incomplete_batch, get_latest_batch,
}
use nowa_zk.Indexer.Store.Marks.{last_deleted-ne-batch, set_last_processed_same}
use nowa_zk.Indexer.Trades.{Ethereum}
use nowa_zk.Indexer.Builder.{new_batch_builder}
use nowa_zk.Indexer.Service.{
  Config, Service, start, init_starting_block, initial_batch_num, clear_all_data,
}
use nowa_zk.Indexer.Service.Kept.{saved_self, saved_count, saved_db}
use nowa_zk.Indexer.Service.Restart.{restarted}
use nowa_zk.Indexer.Api.{BatchRange, batch_range, handle_status, handle_get_batch}

module _ (kv : KvStore) (codecs : BatchCodecs) (laws : KvLaws kv) where
  get-delete_keys :
      (j : Bytes) (ks : List Bytes) (db : kv.Db)
      → ((k : Bytes) → Mem k ks → j ≢ k)
      → kv.get j (delete_keys kv codecs ks db) ≡ kv.get j db
  get-delete_keys j [] db other = refl
  get-delete_keys j (k ∷ ks) db other =
      get-delete_keys j ks (kv.delete k db) (λ i m. other i (mem-cons_of_mem k m))
      ∙ laws.get-delete_other j k db (other k mem-cons_self)

  -- The keys under a prefix leave what stands outside it.
  get-delete_prefix :
      (p j : Bytes) (db : kv.Db)
      → after_prefix p j ≡ none
      → kv.get j (delete_keys kv codecs (kv.keys p db) db) ≡ kv.get j db
  get-delete_prefix p j db outside =
      get-delete_keys j (kv.keys p db) db
        (λ k m e. ((laws.mem-keys p k db).0 m).0 (ap (after_prefix p) (sym e) ∙ outside))

  deleted_no_batch : after_prefix batch_prefix last_deleted_key ≡ none
  unfolding after_prefix
  deleted_no_batch = refl

  deleted_no_hash : after_prefix hash_prefix last_deleted_key ≡ none
  unfolding after_prefix
  deleted_no_hash = refl

  true-ne-false : true ≢ false
  true-ne-false e = ground (arith, e)

  ne_of_eqb : (s t : Bytes) → eqb s t ≡ false → s ≢ t
  ne_of_eqb s t h e = true-ne-false (sym (eqb_refl s) ∙ ap (eqb s) e ∙ h)

  -- What is not there is not there after deletions either.
  delete_keys_absent :
      (j : Bytes) (ks : List Bytes) (db : kv.Db)
      → kv.get j db ≡ none
      → kv.get j (delete_keys kv codecs ks db) ≡ none
  delete_keys_absent j [] db gone = gone
  delete_keys_absent j (k ∷ ks) db gone =
      delete_keys_absent j ks (kv.delete k db) (elim (Bool-cases (eqb j k)) [
        | inl same ↦
            let e = eq_of_eqb j k same in
            ap (λ i. kv.get i (kv.delete k db)) e ∙ laws.get_delete k db
        | inr other ↦ laws.get-delete_other j k db (ne_of_eqb j k other) ∙ gone
      ])

  delete_keys_all :
      (ks : List Bytes) (db : kv.Db)
      → (k : Bytes) → Memᴰ k ks
      → kv.get k (delete_keys kv codecs ks db) ≡ none
  delete_keys_all [] db k m = elim m [ ]
  delete_keys_all (j ∷ ks) db k (Memᴰ.head e) =
      delete_keys_absent k ks (kv.delete j db)
        (ap (λ i. kv.get i (kv.delete j db)) e ∙ laws.get_delete j db)
  delete_keys_all (j ∷ ks) db k (Memᴰ.tail m) = delete_keys_all ks (kv.delete j db) k m

  none_of_none : (ks : List Bytes) → ((k : Bytes) → ¬ Mem k ks) → ks ≡ []
  none_of_none [] h = refl
  none_of_none (k ∷ ks) h = absurd (h k mem-cons_self)

  -- No key of a batch is left by ClearAll.
  clear_all_keys :
      (st : BatchStore kv codecs) → kv.keys batch_prefix (clear_all kv codecs st).db ≡ []
  unfolding clear_all
  clear_all_keys st =
      let ks = kv.keys batch_prefix st.db in
      let db1 = delete_keys kv codecs ks st.db in
      let db2 = delete_keys kv codecs (kv.keys hash_prefix db1) db1 in
      let left = λ (k : Bytes) (gone : kv.get k db1 ≡ none).
        delete_keys_absent k (last_block_key ∷ []) db2
          (delete_keys_absent k (kv.keys hash_prefix db1) db1 gone) in
      none_of_none _ (λ k m.
        let there = (laws.mem-keys batch_prefix k _).0 m in
        elim (Option-cases (kv.get k st.db)) [
          | inl missing ↦ there.1 (left k (delete_keys_absent k ks st.db missing))
          | inr found ↦
              let stored : kv.get k st.db ≢ none = λ e. ground (arith, found.1, e) in
              ∥∥₁_elim ((laws.mem-keys batch_prefix k st.db).1 (there.0, stored)) ⊥_prop
                (λ d. there.1 (left k (delete_keys_all ks st.db k d)))
        ])

  clear_all_mark :
      (st : BatchStore kv codecs)
      → get_last_deleted_batch kv codecs (clear_all kv codecs st)
        ≡ get_last_deleted_batch kv codecs st
  unfolding get_last_deleted_batch clear_all
  clear_all_mark st =
      let db' = delete_keys kv codecs (kv.keys batch_prefix st.db) st.db in
      ap read_mark (
        laws.get-delete_other last_deleted_key last_block_key _ (λ e. ground (arith, e))
        ∙ get-delete_prefix hash_prefix last_deleted_key db' deleted_no_hash
        ∙ get-delete_prefix batch_prefix last_deleted_key st.db deleted_no_batch)

  clear_all_block :
      (st : BatchStore kv codecs) → get_last_processed_block kv codecs (clear_all kv codecs st) ≡ 0
  unfolding get_last_processed_block clear_all read_mark
  clear_all_block st = ap read_mark (laws.get_delete last_block_key _)

  abbrev fresh_store : kv.Db → BatchStore kv codecs
  fresh_store db = record { db = db; batches = λ n. none; count = 0 }

  load_empty :
      (db : kv.Db)
      → kv.keys batch_prefix db ≡ []
      → new_batch_store kv codecs db ≡ some (fresh_store db)
  unfolding new_batch_store load_keys
  load_empty db e = ap (λ ks. load_keys kv codecs ks (fresh_store db)) e

  -- The range that /status names while there is one batch.
  one_batch_range :
      (last : ℕ)
      → 1 < last
      → last < 2 ^ 64 - 1
      → ((batch_range 1 last).oldest ≡ suc last)
        × ((batch_range 1 last).total_in_db ≡ 2 ^ 64 + 1 - last)
  one_batch_range last some_last room = (ground arith, ground arith)

  skip_cleanup :
      (proven last : ℕ) (st : BatchStore kv codecs)
      → get_last_deleted_batch kv codecs st ≡ last
      → proven ≤ last
      → cleanup_old_batches kv codecs (some proven) st ≡ st
  unfolding cleanup_old_batches
  skip_cleanup proven last st mark within =
      let skipped : leb proven (get_last_deleted_batch kv codecs st) ≡ true =
        ap (leb proven) mark ∙ ground (arith, within) in
      rw (skipped, cleanup_old_batches)

  first_served :
      (b : Batch) (st : BatchStore kv codecs)
      → b.number ≡ 1
      → (handle_get_batch kv codecs (some (pos 1)) (save_batch kv codecs b st)).0 ≡ sent b
  unfolding handle_get_batch get_batch
  first_served b st e = let stored = saved_self kv codecs b 1 st e in rw (stored, get_batch)

  saved_mark :
      (b : Batch) (st : BatchStore kv codecs)
      → get_last_deleted_batch kv codecs (save_batch kv codecs b st)
        ≡ get_last_deleted_batch kv codecs st
  unfolding get_last_deleted_batch
  saved_mark b st =
      ap read_mark (saved_db kv codecs laws b last_deleted_key st last_deleted-ne-batch)

  saved_one :
      (b : Batch) (st : BatchStore kv codecs)
      → b.number ≡ 1
      → st.count ≡ 0
      → (save_batch kv codecs b st).count ≡ 1
  saved_one b st e empty = saved_count kv codecs b st ∙ ground (arith, e, empty)

  pair_eq : {a a' b b' : ℕ} → a ≡ a' → b ≡ b' → ◌≡◌ {A = ℕ × ℕ} (a, b) (a', b')
  pair_eq e f = λ i. (e i, f i)

  status_one :
      (last : ℕ) (st : BatchStore kv codecs)
      → st.count ≡ 1
      → get_last_deleted_batch kv codecs st ≡ last
      → (handle_status kv codecs st).range ≡ some (batch_range 1 last)
  unfolding handle_status
  status_one last st one mark =
      ap (λ (p : ℕ × ℕ). if ltb 0 p.0 then some (batch_range p.0 p.1) else none) (pair_eq one mark)

  module _ (eth : Ethereum) (config : Config) where
    start_empty :
        (db : kv.Db)
        → kv.keys batch_prefix db ≡ []
        → start kv codecs eth config db ≡ some (restarted kv codecs eth config (fresh_store db))
    unfolding start
    start_empty db e = rw (load_empty db e, start)

    first_number :
        (db : kv.Db) → (restarted kv codecs eth config (fresh_store db)).batch_builder.batch_num ≡ 1
    unfolding initial_batch_num new_batch_builder get_incomplete_batch get_latest_batch
    first_number db = refl

    -- The block after which the service starts, where none was processed.
    init_fresh :
        (st : BatchStore kv codecs)
        → get_last_processed_block kv codecs st ≡ 0
        → init_starting_block kv codecs eth config st ≡ (
          config.index_from_block - 1,
          set_last_processed_block kv codecs (config.index_from_block - 1) st,
        )
    unfolding init_starting_block
    init_fresh st e = rw (e, init_starting_block)

    init_mark :
        (n : ℕ) (st : BatchStore kv codecs)
        → get_last_deleted_batch kv codecs (set_last_processed_block kv codecs n st)
          ≡ get_last_deleted_batch kv codecs st
    unfolding get_last_deleted_batch set_last_processed_block
    init_mark n st =
        ap read_mark
          (laws.get-set_other last_deleted_key last_block_key _ st.db (λ e. ground (arith, e)))

    -- After a reset of a store that loads and whose last deleted batch is 2 or more and below 2^64
    -- - 1, the service starts as on an empty database, with batch 1 and behind the configured block
    -- (INDEX_FROM_BLOCK - 1, or 0), but the mark of the last deleted batch stays: once batch 1 is
    -- saved, /status names a range from behind the mark to 1 with a total_in_db that has wrapped
    -- around, though batch 1 is served, and a cleanup up to the mark or less deletes nothing.
    pub reset_keeps_mark :
        (db : kv.Db) (st : BatchStore kv codecs) (last proven : ℕ) (b : Batch)
        → new_batch_store kv codecs db ≡ some st
        → get_last_deleted_batch kv codecs st ≡ last
        → 1 < last
        → last < 2 ^ 64 - 1
        → proven ≤ last
        → b.number ≡ 1
        → (db' : kv.Db) × (s : Service kv codecs eth config) × (r : BatchRange) × (clear_all_data kv
              codecs eth config db
            ≡ some db')
          × (start kv codecs eth config db' ≡ some s)
          × (s.batch_builder.batch_num ≡ 1)
          × (let started = init_starting_block kv codecs eth config s.batches in
              let st' = save_batch kv codecs b started.1 in
              (started.0 ≡ config.index_from_block - 1)
              × ((handle_status kv codecs st').range ≡ some r)
              × (r.oldest ≡ suc last)
              × (r.newest ≡ 1)
              × (r.total_in_db ≡ 2 ^ 64 + 1 - last)
              × ((handle_get_batch kv codecs (some (pos 1)) st').0 ≡ sent b)
              × (cleanup_old_batches kv codecs (some proven) st' ≡ st'))
    unfolding clear_all_data
    reset_keeps_mark db st last proven b loads mark some_last room within numbered =
        let db' = (clear_all kv codecs st).db in
        let s = restarted kv codecs eth config (fresh_store db') in
        let bounds = one_batch_range last some_last room in
        let begun = init_fresh (fresh_store db') (clear_all_block st) in
        let t = (init_starting_block kv codecs eth config (fresh_store db')).1 in
        let empty : t.count ≡ 0 =
          ap (λ (q : ℕ × BatchStore kv codecs). q.1.count) begun
          ∙ (set_last_processed_same kv codecs laws (fresh_store db')
              (config.index_from_block - 1)).1 in
        let marked =
          saved_mark b t
          ∙ ap (λ (q : ℕ × BatchStore kv codecs). get_last_deleted_batch kv codecs q.1) begun
          ∙ init_mark (config.index_from_block - 1) (fresh_store db')
          ∙ clear_all_mark st
          ∙ mark in
        (
          db',
          s,
          batch_range 1 last,
          rw (loads, clear_all_data),
          start_empty db' (clear_all_keys st),
          first_number db',
          (
            ap (λ (q : ℕ × BatchStore kv codecs). q.0) begun,
            status_one last (save_batch kv codecs b t) (saved_one b t numbered empty) marked,
            bounds.0,
            refl,
            bounds.1,
            first_served b t numbered,
            skip_cleanup proven last (save_batch kv codecs b t) marked within,
          ),
        )
