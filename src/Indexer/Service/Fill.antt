-- ===== src/Indexer/Service/Fill.antt =====
-- The filling of batches: new transactions go behind the others, and no batch grows too large.
use nowa_zk.Base.{
  ℕ, zero, suc, ◌+◌, ◌-◌, ◌^◌, ◌<◌, ◌≤◌, ◌≡◌, ◌≢◌, refl, sym, ap, subst, ◌∙◌, true, Option, some,
  List, [], ◌∷◌, ◌++◌, length, take, drop, arith, ◌==◌, length-take, length-append, length-drop,
  take-append-drop, inl, inr, Bool-cases, Option-cases,
}
use mathlib.Core.List.{append_assoc, append-nil}
use nowa_zk.Storage.{KvStore, KvLaws}
use nowa_zk.Base.Bytes.{Bytes}
use nowa_zk.Indexer.Pool.{Transaction}
use nowa_zk.Indexer.Store.{
  Batch, BatchCodecs, BatchStore, batch_key, save_batch, get_incomplete_batch, get_latest_batch,
}
use nowa_zk.Indexer.Trades.{Ethereum}
use nowa_zk.Indexer.Builder.{BatchBuilder, mark_processed, extended}
use nowa_zk.Indexer.Builder.New.{IsNew, IsNew-append, hashes}
use nowa_zk.Indexer.Service.{
  Config, Service, create_batch_from_transactions, append_some, fill_round, fill_batches,
  create_round, append_round, round_with, after_append,
}
use nowa_zk.Indexer.Service.Rounds.{
  first_batch, first_batch_parts, create_eq, extended_parts, append_eq, fill_step,
}
use nowa_zk.Indexer.Service.Kept.{
  batched, batched-save_new, batched-save_latest, saved_count, saved-cases, saved_db,
}

module _ (kv : KvStore) (codecs : BatchCodecs) (eth : Ethereum) (config : Config) where
  -- Each batch stands under its number and holds no more than the batch size, and the builder's
  -- number is the next one.
  pub record IsValidService (s : Service kv codecs eth config) : Type 0 where
    pub numbered : (n : ℕ) (b : Batch) → s.batches.batches n ≡ some b → b.number ≡ n
    pub sized :
        (n : ℕ) (b : Batch)
        → s.batches.batches n ≡ some b
        → length b.transactions ≤ config.batch_size
    pub next_number : s.batch_builder.batch_num ≡ suc s.batches.count

  -- Two stores that differ in the keys of batches only.
  abbrev pub SameMarks : BatchStore kv codecs → BatchStore kv codecs → Type 0
  SameMarks st st' = (k : Bytes) → ((n : ℕ) → k ≢ batch_key n) → kv.get k st'.db ≡ kv.get k st.db

  -- A step that puts the first transactions into batches and leaves the rest, with more to come.
  pub record Filled (us : List Transaction) (s : Service kv codecs eth config)
      (txs rest : List Transaction) (s' : Service kv codecs eth config) : Type 0 where
    pub valid : IsValidService s'
    pub kept : batched kv codecs s'.batches ++ rest ≡ batched kv codecs s.batches ++ txs
    pub new : IsNew s'.batch_builder.processed_txs (rest ++ us)
    pub room : s'.batches.count + length rest ≤ s.batches.count + length txs
    pub shorter : length rest < length txs
    pub same_marks : SameMarks s.batches s'.batches

  -- Saving a batch under its number keeps a service valid.
  saved-IsValidService :
      (s : Service kv codecs eth config) (b : Batch) (bb : BatchBuilder)
      → IsValidService s
      → length b.transactions ≤ config.batch_size
      → bb.batch_num ≡ suc (save_batch kv codecs b s.batches).count
      → IsValidService (record { batches = save_batch kv codecs b s.batches; batch_builder = bb })
  saved-IsValidService s b bb v small next = record {
    numbered = λ n b' e. elim (saved-cases kv codecs b b' n s.batches e) [
      | inl same ↦ ap (λ c. c.number) same.1 ∙ sym same.0
      | inr old ↦ v.numbered n b' old
    ];
    sized = λ n b' e. elim (saved-cases kv codecs b b' n s.batches e) [
      | inl same ↦ subst (λ c. length c.transactions ≤ config.batch_size) (sym same.1) small
      | inr old ↦ v.sized n b' old
    ];
    next_number = next;
  }

  module _ (laws : KvLaws kv) (clock : ℕ → ℕ) (size : ℕ) (sized : config.batch_size ≡ suc size)
      (s : Service kv codecs eth config) (v : IsValidService s) (tx : Transaction)
      (txs us : List Transaction) (all_new : IsNew s.batch_builder.processed_txs (tx ∷ txs ++ us))
      (room : s.batches.count + length (tx ∷ txs) < 2 ^ 64 - 1) where
    new : IsNew s.batch_builder.processed_txs (tx ∷ txs)
    new = (IsNew-append s.batch_builder.processed_txs (tx ∷ txs) us all_new).0

    rest_new :
        (k : ℕ)
        → IsNew (hashes (tx ∷ take k txs) ++ s.batch_builder.processed_txs) (drop k txs ++ us)
    rest_new k =
        (IsNew-append s.batch_builder.processed_txs (tx ∷ take k txs) (drop k txs ++ us) (
          subst (λ xs. IsNew s.batch_builder.processed_txs (tx ∷ xs))
            (ap (λ xs. xs ++ us) (sym (take-append-drop k txs))
              ∙ append_assoc (take k txs) (drop k txs) us)
            all_new)).1

    first_batch-numbered :
        (first_batch kv codecs eth config clock s tx txs new size).number ≡ suc s.batches.count
    first_batch-numbered =
        (first_batch_parts kv codecs eth config clock s tx txs new size).0 ∙ v.next_number

    create-Filled :
        Filled us s
          (tx ∷ txs)
          (drop (suc size) (tx ∷ txs))
          (create_batch_from_transactions kv codecs eth config clock (take (suc size) (tx ∷ txs)) s)
    create-Filled =
        let b = first_batch kv codecs eth config clock s tx txs new size in
        let number = first_batch-numbered in
        let held = (first_batch_parts kv codecs eth config clock s tx txs new size).1 in
        let counted : (save_batch kv codecs b s.batches).count ≡ suc s.batches.count =
          saved_count kv codecs b s.batches ∙ ground (arith, number) in
        let taken = ap length held in
        let short = length-take size txs in
        let left = length-drop size txs in
        subst (λ s'. Filled us s (tx ∷ txs) (drop size txs) s')
          (sym (create_eq kv codecs eth config clock s tx txs new size))
          (record {
            valid =
                saved-IsValidService s b _ v (omega (arith, taken, short, sized))
                  (omega (arith, counted, v.next_number, room));
            kept =
                ap (λ xs. xs ++ drop size txs) (batched-save_new kv codecs b s.batches number)
                ∙ append_assoc (batched kv codecs s.batches) b.transactions (drop size txs)
                ∙ ap (λ xs. batched kv codecs s.batches ++ (xs ++ drop size txs)) held
                ∙ ap (λ xs. batched kv codecs s.batches ++ tx ∷ xs) (take-append-drop size txs);
            new = rest_new size;
            room = omega (arith, counted, left);
            shorter = omega (arith, left);
            same_marks = λ k other. saved_db kv codecs laws b k s.batches other;
          })

    append-Filled :
        (b : Batch) (space : ℕ) (n : ℕ)
        → s.batches.count ≡ suc n
        → s.batches.batches (suc n) ≡ some b
        → config.batch_size - length b.transactions ≡ suc space
        → (s' : Service kv codecs eth config) × (append_some kv codecs eth config
              (suc space)
              b
              (tx ∷ txs)
              s
            ≡ some s')
          × Filled us s (tx ∷ txs) (drop (suc space) (tx ∷ txs)) s'
    append-Filled b space n counted latest free =
        let b' = extended eth b (tx ∷ take space txs) in
        let parts = extended_parts kv codecs eth config clock s tx txs new b space in
        let bb = mark_processed eth (tx ∷ take space txs) s.batch_builder in
        let number = parts.0 ∙ v.numbered (suc n) b latest in
        let counted' : (save_batch kv codecs b' s.batches).count ≡ s.batches.count =
          saved_count kv codecs b' s.batches ∙ ground (arith, number, counted) in
        let grown = ap length parts.1 in
        let added = length-append b.transactions (tx ∷ take space txs) in
        let short = length-take space txs in
        let left = length-drop space txs in
        (
          record { batches = save_batch kv codecs b' s.batches; batch_builder = bb },
          append_eq kv codecs eth config clock s tx txs new b space,
          record {
            valid =
                saved-IsValidService s b' bb v (omega (arith, grown, added, short, free))
                  (omega (arith, counted', v.next_number));
            kept =
                ap (λ xs. xs ++ drop space txs)
                  (batched-save_latest kv codecs b b' s.batches n (tx ∷ take space txs) counted
                    latest number parts.1)
                ∙ append_assoc (batched kv codecs s.batches) (tx ∷ take space txs) (drop space txs)
                ∙ ap (λ xs. batched kv codecs s.batches ++ tx ∷ xs) (take-append-drop space txs);
            new = rest_new space;
            room = omega (arith, counted', left);
            shorter = omega (arith, left);
            same_marks = λ k other. saved_db kv codecs laws b' k s.batches other;
          },
        )

    create_round-sized :
        create_round kv codecs eth config clock (tx ∷ txs) s
        ≡ some (
          drop (suc size) (tx ∷ txs),
          create_batch_from_transactions kv codecs eth config clock (take (suc size) (tx ∷ txs)) s,
        )
    create_round-sized =
        ap
          (λ k. some (
            drop k (tx ∷ txs),
            create_batch_from_transactions kv codecs eth config clock (take k (tx ∷ txs)) s,
          ))
          sized

    incomplete_is_latest :
        (b : Batch)
        → get_incomplete_batch kv codecs config.batch_size s.batches ≡ some b
        → (0 < s.batches.count) × (s.batches.batches s.batches.count ≡ some b)
    unfolding get_incomplete_batch get_latest_batch
    incomplete_is_latest b found = ground (arith, found)

    -- A round succeeds and puts transactions into batches, whether or not a batch is incomplete.
    fill_round-Filled :
        (r : List Transaction × Service kv codecs eth config) × (fill_round kv codecs eth config
            clock
            (tx ∷ txs)
            s
          ≡ some r)
        × Filled us s (tx ∷ txs) r.0 r.1
    unfolding fill_round
    fill_round-Filled =
        let by_cases = λ (o : Option Batch). round_with kv codecs eth config o clock (tx ∷ txs) s in
        elim (Option-cases (get_incomplete_batch kv codecs config.batch_size s.batches)) [
          | inl absent ↦ ((_, _), ap by_cases absent ∙ create_round-sized, create-Filled)
          | inr found ↦
              let b = found.0 in
              let latest = incomplete_is_latest b found.1 in
              let append = λ (k : ℕ). append_round kv codecs eth config k b clock (tx ∷ txs) s in
              let n = s.batches.count - 1 in
              let counted : s.batches.count ≡ suc n = omega (arith, latest.0) in
              elim (Bool-cases (config.batch_size - length b.transactions == 0)) [
                | inl full ↦
                    let none_left : config.batch_size - length b.transactions ≡ 0 =
                      ground (arith, full) in
                    (
                      (_, _),
                      ap by_cases found.1 ∙ ap append none_left ∙ create_round-sized,
                      create-Filled,
                    )
                | inr free ↦
                    let space = config.batch_size - length b.transactions - 1 in
                    let room : config.batch_size - length b.transactions ≡ suc space =
                      ground (arith, free) in
                    let appended =
                      append-Filled b space n counted
                        (ap s.batches.batches (sym counted) ∙ latest.1) room in
                    (
                      (_, appended.0),
                      ap by_cases found.1
                          ∙ ap append room
                          ∙ ap (after_append kv codecs eth config (suc space) (tx ∷ txs))
                              appended.1,
                      appended.2,
                    )
              ]
        ]

  module _ (laws : KvLaws kv) (clock : ℕ → ℕ) (size : ℕ)
      (sized : config.batch_size ≡ suc size) where
    -- With as much fuel as there are transactions the loop ends well, and the transactions of a
    -- block, none of them processed before, stand behind the others.
    pub fill_batches-Filled :
        (fuel : ℕ) (txs us : List Transaction) (s : Service kv codecs eth config)
        → IsValidService s
        → IsNew s.batch_builder.processed_txs (txs ++ us)
        → s.batches.count + length txs < 2 ^ 64 - 1
        → length txs ≤ fuel
        → (s' : Service kv codecs eth config) × (fill_batches kv codecs eth config fuel clock txs s
            ≡ some (true, s'))
          × IsValidService s'
          × (batched kv codecs s'.batches ≡ batched kv codecs s.batches ++ txs)
          × IsNew s'.batch_builder.processed_txs us
          × SameMarks s.batches s'.batches
          × (s'.batches.count ≤ s.batches.count + length txs)
    unfolding fill_batches
    fill_batches-Filled fuel [] us s v new room enough = (
      s,
      refl,
      v,
      sym (append-nil (batched kv codecs s.batches)),
      new,
      (λ k other. refl),
      omega arith,
    )
    fill_batches-Filled zero (tx ∷ txs) us s v new room enough = absurd (omega arith)
    fill_batches-Filled (suc fuel) (tx ∷ txs) us s v new room enough =
        let r = fill_round-Filled laws clock size sized s v tx txs us new room in
        let filled = r.2 in
        let rest =
          fill_batches-Filled fuel r.0.0 us r.0.1 filled.valid filled.new
            (omega (arith, filled.room, room)) (omega (arith, filled.shorter, enough)) in
        (
          rest.0,
          fill_step kv codecs eth config fuel clock tx txs s r.0 r.1 ∙ rest.1,
          rest.2,
          rest.3 ∙ filled.kept,
          rest.4,
          (λ k other. rest.5 k other ∙ filled.same_marks k other),
          omega (arith, rest.6, filled.room),
        )
