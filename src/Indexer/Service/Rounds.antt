-- ===== src/Indexer/Service/Rounds.antt =====
-- What creating a batch and appending to one do, for transactions that are new.
use nowa_zk.Base.{ℕ, zero, suc, ◌%◌, ◌^◌, ◌≡◌, refl, true, some, List, [], ◌∷◌, ◌++◌, take}
use nowa_zk.Storage.{KvStore}
use nowa_zk.Indexer.Pool.{Transaction}
use nowa_zk.Indexer.Store.{Batch, BatchCodecs, save_batch}
use nowa_zk.Indexer.Trades.{Ethereum}
use nowa_zk.Indexer.Builder.{mark_processed, batch_of, extended}
use nowa_zk.Indexer.Builder.New.{IsNew, IsNew-take, build_batch-IsNew, append_to_batch-IsNew}
use nowa_zk.Indexer.Service.{
  Config, Service, create_batch_from_transactions, append_some, fill_round, fill_batches,
}

module _ (kv : KvStore) (codecs : BatchCodecs) (eth : Ethereum) (config : Config) (clock : ℕ → ℕ)
    (s : Service kv codecs eth config) (tx : Transaction) (txs : List Transaction)
    (new : IsNew s.batch_builder.processed_txs (tx ∷ txs)) where
  -- The batch of the first transactions.
  pub first_batch : ℕ → Batch
  first_batch k =
      batch_of eth s.batch_builder.batch_num (clock s.batch_builder.batch_num) (tx ∷ take k txs)

  pub create_eq :
      (k : ℕ)
      → create_batch_from_transactions kv codecs eth config clock (tx ∷ take k txs) s ≡ record {
        batches = save_batch kv codecs (first_batch k) s.batches;
        batch_builder = record (mark_processed eth (tx ∷ take k txs) s.batch_builder) {
          batch_num = suc s.batch_builder.batch_num % 2 ^ 64;
        };
      }
  unfolding create_batch_from_transactions first_batch
  create_eq k = rw (
    build_batch-IsNew eth s.batch_builder clock tx (take k txs)
        (IsNew-take (suc k) s.batch_builder.processed_txs (tx ∷ txs) new),
    create_batch_from_transactions,
  )

  pub first_batch_parts :
      (k : ℕ)
      → ((first_batch k).number ≡ s.batch_builder.batch_num)
        × ((first_batch k).transactions ≡ tx ∷ take k txs)
  unfolding first_batch batch_of
  first_batch_parts k = (refl, refl)

  pub extended_parts :
      (b : Batch) (k : ℕ)
      → ((extended eth b (tx ∷ take k txs)).number ≡ b.number)
        × ((extended eth b (tx ∷ take k txs)).transactions ≡ b.transactions ++ tx ∷ take k txs)
  unfolding extended
  extended_parts b k = (refl, refl)

  pub append_eq :
      (b : Batch) (space : ℕ)
      → append_some kv codecs eth config (suc space) b (tx ∷ txs) s
        ≡ some (record {
          batches = save_batch kv codecs (extended eth b (tx ∷ take space txs)) s.batches;
          batch_builder = mark_processed eth (tx ∷ take space txs) s.batch_builder;
        })
  unfolding append_some
  append_eq b space = rw (
    append_to_batch-IsNew eth s.batch_builder b tx (take space txs)
        (IsNew-take (suc space) s.batch_builder.processed_txs (tx ∷ txs) new),
    append_some,
  )

module _ (kv : KvStore) (codecs : BatchCodecs) (eth : Ethereum) (config : Config) where
  pub fill_step :
      (fuel : ℕ) (clock : ℕ → ℕ) (tx : Transaction) (txs : List Transaction)
      (s : Service kv codecs eth config) (r : List Transaction × Service kv codecs eth config)
      → fill_round kv codecs eth config clock (tx ∷ txs) s ≡ some r
      → fill_batches kv codecs eth config (suc fuel) clock (tx ∷ txs) s
        ≡ fill_batches kv codecs eth config fuel clock r.0 r.1
  unfolding fill_batches
  fill_step fuel clock tx txs s r e = rw (e, fill_batches)

  pub fill_done :
      (fuel : ℕ) (clock : ℕ → ℕ) (s : Service kv codecs eth config)
      → fill_batches kv codecs eth config fuel clock [] s ≡ some (true, s)
  unfolding fill_batches
  fill_done zero clock s = refl
  fill_done (suc fuel) clock s = refl
