-- ===== src/Indexer/Service/Restart.antt =====
-- `Start` on a store whose latest batch is incomplete: the builder goes on with the number of that
-- batch, so the batch after it is saved over it.
use nowa_zk.Base.{
  ℕ, suc, ◌-◌, ◌%◌, ◌^◌, ◌≤◌, ◌≡◌, refl, sym, ap, subst, ◌∙◌, true, none, some, List, [], ◌∷◌, ◌++◌,
  length, take, drop, arith, drop_short, take_long,
}
use nowa_zk.Storage.{KvStore}
use nowa_zk.Indexer.Pool.{Transaction}
use nowa_zk.Indexer.Store.{
  Batch, BatchCodecs, BatchStore, save_batch, get_latest_batch, get_incomplete_batch, if_incomplete,
  batches_to,
}
use nowa_zk.Indexer.Trades.{Ethereum}
use nowa_zk.Indexer.Builder.{new_batch_builder, mark_processed, extended}
use nowa_zk.Indexer.Builder.New.{IsNew, IsNew-drop}
use nowa_zk.Indexer.Service.{
  Config, Service, initial_batch_num, fill_round, fill_batches, round_with, append_round,
  after_append, create_batch_from_transactions,
}
use nowa_zk.Indexer.Service.Rounds.{
  first_batch, first_batch_parts, create_eq, extended_parts, append_eq, fill_step, fill_done,
}
use nowa_zk.Indexer.Service.Kept.{
  all_txs, batched, batched-save_over, saved_self, saved_count, saved_other, batches_to-agree,
  below_other,
}

module _ (kv : KvStore) (codecs : BatchCodecs) (eth : Ethereum) (config : Config) where
  -- The service that `Start` builds on a loaded store.
  abbrev pub restarted : BatchStore kv codecs → Service kv codecs eth config
  restarted st = record {
    batches = st;
    batch_builder = new_batch_builder (initial_batch_num kv codecs eth config st);
  }

  restarted_number :
      (st : BatchStore kv codecs) (b : Batch)
      → get_incomplete_batch kv codecs config.batch_size st ≡ some b
      → (restarted st).batch_builder.batch_num ≡ b.number
  unfolding initial_batch_num new_batch_builder
  restarted_number st b found = rw (found, initial_batch_num)

  restarted_processed :
      (st : BatchStore kv codecs) → (restarted st).batch_builder.processed_txs ≡ []
  unfolding new_batch_builder
  restarted_processed st = refl

  latest_found :
      (b : Batch) (st : BatchStore kv codecs) (n : ℕ)
      → st.count ≡ suc n
      → st.batches (suc n) ≡ some b
      → get_latest_batch kv codecs st ≡ some b
  unfolding get_latest_batch
  latest_found b st n counted stored = ground (arith, counted, ap st.batches counted, stored)

  enough_trades :
      (b : Batch)
      → config.batch_size ≤ length b.trades
      → if_incomplete kv codecs config.batch_size (some b) ≡ none
  enough_trades b full = ground arith

  -- A latest batch with enough trades is not incomplete.
  complete_latest :
      (b : Batch) (st : BatchStore kv codecs) (n : ℕ)
      → st.count ≡ suc n
      → b.number ≡ suc n
      → config.batch_size ≤ length b.trades
      → get_incomplete_batch kv codecs config.batch_size (save_batch kv codecs b st) ≡ none
  unfolding get_incomplete_batch
  complete_latest b st n counted number full =
      ap (if_incomplete kv codecs config.batch_size) (
        latest_found b (save_batch kv codecs b st) n
          (saved_count kv codecs b st ∙ ground (arith, counted, number))
          (saved_self kv codecs b (suc n) st number))
      ∙ enough_trades b full

  module _ (clock : ℕ → ℕ) (st : BatchStore kv codecs) (b : Batch) (n space size : ℕ)
      (counted : st.count ≡ suc n) (number : b.number ≡ suc n)
      (incomplete : get_incomplete_batch kv codecs config.batch_size st ≡ some b)
      (sized : config.batch_size ≡ suc size)
      (free : config.batch_size - length b.transactions ≡ suc space) (tx u : Transaction)
      (txs us : List Transaction) (new : IsNew [] (tx ∷ txs)) (behind : drop space txs ≡ u ∷ us)
      (few : length us ≤ size)
      (full : config.batch_size ≤ length (extended eth b (tx ∷ take space txs)).trades) where
    s0 : Service kv codecs eth config
    s0 = restarted st

    new0 : IsNew s0.batch_builder.processed_txs (tx ∷ txs)
    unfolding s0
    new0 = subst (λ ps. IsNew ps (tx ∷ txs)) (sym (restarted_processed st)) new

    s1 : Service kv codecs eth config
    unfolding s0
    s1 = record {
      batches = save_batch kv codecs (extended eth b (tx ∷ take space txs)) st;
      batch_builder = mark_processed eth (tx ∷ take space txs) s0.batch_builder;
    }

    first_round : fill_round kv codecs eth config clock (tx ∷ txs) s0 ≡ some (u ∷ us, s1)
    unfolding fill_round s0 s1
    first_round =
        ap (λ o. round_with kv codecs eth config o clock (tx ∷ txs) s0) incomplete
        ∙ ap (λ k. append_round kv codecs eth config k b clock (tx ∷ txs) s0) free
        ∙ ap (after_append kv codecs eth config (suc space) (tx ∷ txs))
            (append_eq kv codecs eth config clock s0 tx txs new0 b space)
        ∙ ap (λ xs. some (xs, s1)) behind

    new1 : IsNew s1.batch_builder.processed_txs (u ∷ us)
    unfolding s1 s0
    new1 =
        subst (IsNew s1.batch_builder.processed_txs) behind
          (IsNew-drop (suc space) s0.batch_builder.processed_txs (tx ∷ txs) new0)

    numbered1 : (extended eth b (tx ∷ take space txs)).number ≡ suc n
    numbered1 = (extended_parts kv codecs eth config clock s0 tx txs new0 b space).0 ∙ number

    counted1 : s1.batches.count ≡ suc n
    unfolding s1
    counted1 =
        saved_count kv codecs (extended eth b (tx ∷ take space txs)) st
        ∙ ground (arith, counted, numbered1)

    batch_num1 : s1.batch_builder.batch_num ≡ suc n
    unfolding s1 s0
    batch_num1 = restarted_number st b incomplete ∙ number

    s2 : Service kv codecs eth config
    unfolding s1 s0
    s2 = record {
      batches =
          save_batch kv codecs (first_batch kv codecs eth config clock s1 u us new1 size)
            s1.batches;
      batch_builder = record (mark_processed eth (u ∷ take size us) s1.batch_builder) {
        batch_num = suc s1.batch_builder.batch_num % 2 ^ 64;
      };
    }

    second_round : fill_round kv codecs eth config clock (u ∷ us) s1 ≡ some (drop size us, s2)
    unfolding fill_round s1 s2
    second_round =
        ap (λ o. round_with kv codecs eth config o clock (u ∷ us) s1)
          (complete_latest (extended eth b (tx ∷ take space txs)) st n counted numbered1 full)
        ∙ ap
            (λ k. some (
              drop k (u ∷ us),
              create_batch_from_transactions kv codecs eth config clock (take k (u ∷ us)) s1,
            ))
            sized
        ∙ ap (λ s'. some (drop size us, s'))
            (create_eq kv codecs eth config clock s1 u us new1 size)

    before : batches_to kv codecs n s1.batches ≡ batches_to kv codecs n st
    unfolding s1
    before =
        let filled = extended eth b (tx ∷ take space txs) in
        batches_to-agree kv codecs n s1.batches st (λ k le.
          saved_other kv codecs filled k st (below_other kv codecs k n filled.number le numbered1))

    few_left : drop size us ≡ []
    few_left = drop_short size us few

    -- After a restart on a store whose latest batch is incomplete, new transactions that fill this
    -- batch with trades and go beyond it are processed without an error, and the batch made of
    -- those beyond is saved over the filled one: the batches hold those before it and the
    -- transactions beyond, and the number of batches stays; where those beyond fit into one batch.
    pub restart_overwrites :
        (s' : Service kv codecs eth config) × ((fuel : ℕ)
          → fill_batches kv codecs eth config (suc (suc fuel)) clock (tx ∷ txs) (restarted st)
            ≡ some (true, s'))
        × (s'.batches.count ≡ st.count)
        × (batched kv codecs s'.batches ≡ all_txs (batches_to kv codecs n st) ++ u ∷ us)
    unfolding s0 s2
    restart_overwrites =
        let last = first_batch kv codecs eth config clock s1 u us new1 size in
        let parts = first_batch_parts kv codecs eth config clock s1 u us new1 size in
        let numbered = parts.0 ∙ batch_num1 in
        (
          s2,
          λ fuel.
              fill_step kv codecs eth config (suc fuel) clock tx txs s0 (u ∷ us, s1) first_round
              ∙ fill_step kv codecs eth config fuel clock u us s1 (drop size us, s2) second_round
              ∙ ap (λ xs. fill_batches kv codecs eth config fuel clock xs s2) few_left
              ∙ fill_done kv codecs eth config fuel clock s2,
          saved_count kv codecs last s1.batches ∙ ground (arith, counted, counted1, numbered),
          batched-save_over kv codecs last s1.batches n counted1 numbered
              ∙ ap (λ bs. all_txs bs ++ last.transactions) before
              ∙ ap (λ xs. all_txs (batches_to kv codecs n st) ++ xs)
                  (parts.1 ∙ ap (◌∷◌ u) (take_long size us few)),
        )
