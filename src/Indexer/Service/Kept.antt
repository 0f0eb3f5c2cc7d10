-- ===== src/Indexer/Service/Kept.antt =====
-- The transactions of all batches in order, and what saving a batch makes of them.
use nowa_zk.Base.{
  ℕ, zero, suc, ◌≤◌, ◌≡◌, ◌≢◌, refl, sym, ap, ◌∙◌, Option, none, some, List, [], ◌∷◌, ◌++◌, arith,
  ltb, ◌==◌, if◌then◌else◌, inl, inr, ◌⊎◌, Bool-cases,
}
use mathlib.Core.List.{append_assoc, append-nil}
use nowa_zk.Storage.{KvStore, KvLaws}
use nowa_zk.Base.Bytes.{Bytes}
use nowa_zk.Indexer.Pool.{Transaction}
use nowa_zk.Indexer.Store.{
  Batch, BatchCodecs, BatchStore, batch_key, save_batch, batches_to, get_all_batches,
}

abbrev pub all_txs : List Batch → List Transaction
all_txs [] = []
all_txs (b ∷ bs) = b.transactions ++ all_txs bs

abbrev pub txs_in : Option Batch → List Transaction
txs_in none = []
txs_in (some b) = b.transactions

all_txs-append : (bs cs : List Batch) → all_txs (bs ++ cs) ≡ all_txs bs ++ all_txs cs
all_txs-append [] cs = refl
all_txs-append (b ∷ bs) cs =
    ap (λ xs. b.transactions ++ xs) (all_txs-append bs cs)
    ∙ sym (append_assoc b.transactions (all_txs bs) (all_txs cs))

module _ (kv : KvStore) (codecs : BatchCodecs) where
  -- All transactions of all batches, in the order of the batches.
  unfoldable pub batched : BatchStore kv codecs → List Transaction
  unfolding get_all_batches
  batched st = all_txs (get_all_batches kv codecs st)

  pub txs_to_suc :
      (n : ℕ) (st : BatchStore kv codecs)
      → all_txs (batches_to kv codecs (suc n) st)
        ≡ all_txs (batches_to kv codecs n st) ++ txs_in (st.batches (suc n))
  txs_to_suc n st =
      let last = st.batches (suc n) in
      all_txs-append (batches_to kv codecs n st) (elim last [ none ↦ [] | some b ↦ b ∷ [] ])
      ∙ ap (λ xs. all_txs (batches_to kv codecs n st) ++ xs) (one last)
    where
      one : (o : Option Batch) → all_txs (elim o [ none ↦ [] | some b ↦ b ∷ [] ]) ≡ txs_in o
      one none = refl
      one (some b) = append-nil b.transactions

  -- Only the batches up to `n` count.
  pub batches_to-agree :
      (n : ℕ) (st st' : BatchStore kv codecs)
      → ((k : ℕ) → k ≤ n → st.batches k ≡ st'.batches k)
      → batches_to kv codecs n st ≡ batches_to kv codecs n st'
  batches_to-agree zero st st' h = refl
  batches_to-agree (suc n) st st' h =
      ap (λ bs. bs ++ elim (st.batches (suc n)) [ none ↦ [] | some b ↦ b ∷ [] ])
        (batches_to-agree n st st' (λ k le. h k (omega arith)))
      ∙ ap
          (λ (o : Option Batch).
            batches_to kv codecs n st' ++ elim o [ none ↦ [] | some b ↦ b ∷ [] ])
          (h (suc n) (omega arith))

  -- The batches up to `n` are those of another store, and one more is the last.
  batched_last :
      (n : ℕ) (st st' : BatchStore kv codecs) (last : Option Batch)
      → st'.count ≡ suc n
      → st'.batches (suc n) ≡ last
      → ((k : ℕ) → k ≤ n → st'.batches k ≡ st.batches k)
      → batched st' ≡ all_txs (batches_to kv codecs n st) ++ txs_in last
  unfolding batched get_all_batches
  batched_last n st st' last counted e agree =
      ap (λ k. all_txs (batches_to kv codecs k st')) counted
      ∙ txs_to_suc n st'
      ∙ ap (λ bs. all_txs bs ++ txs_in (st'.batches (suc n))) (batches_to-agree n st' st agree)
      ∙ ap (λ o. all_txs (batches_to kv codecs n st) ++ txs_in o) e

  pub saved_self :
      (b : Batch) (n : ℕ) (st : BatchStore kv codecs)
      → b.number ≡ n
      → (save_batch kv codecs b st).batches n ≡ some b
  unfolding save_batch
  saved_self b n st e = ground arith

  pub saved_other :
      (b : Batch) (k : ℕ) (st : BatchStore kv codecs)
      → k ≢ b.number
      → (save_batch kv codecs b st).batches k ≡ st.batches k
  unfolding save_batch
  saved_other b k st h = ground arith

  -- Saving a batch writes only the key of the batch.
  pub saved_db :
      KvLaws kv
      → (b : Batch) (k : Bytes) (st : BatchStore kv codecs) → ((n : ℕ) → k ≢ batch_key n)
      → kv.get k (save_batch kv codecs b st).db ≡ kv.get k st.db
  unfolding save_batch
  saved_db laws b k st other = laws.get-set_other k (batch_key b.number) _ st.db (other b.number)

  -- After a save an entry is the saved batch or was there before.
  pub saved-cases :
      (b b' : Batch) (n : ℕ) (st : BatchStore kv codecs)
      → (save_batch kv codecs b st).batches n ≡ some b'
      → ((n ≡ b.number) × (b' ≡ b)) ⊎ (st.batches n ≡ some b')
  unfolding save_batch
  saved-cases b b' n st e = elim (Bool-cases (n == b.number)) [
    | inl same ↦ inl (ground arith, ground (arith, e, same))
    | inr other ↦ inr (ground (arith, e, other))
  ]

  pub saved_count :
      (b : Batch) (st : BatchStore kv codecs)
      → (save_batch kv codecs b st).count ≡ (if ltb st.count b.number then b.number else st.count)
  unfolding save_batch
  saved_count b st = refl

  pub below_other : (k n m : ℕ) → k ≤ n → m ≡ suc n → k ≢ m
  below_other k n m le e same = omega arith

  -- A batch that is saved under the next number puts its transactions behind the others.
  pub batched-save_new :
      (b : Batch) (st : BatchStore kv codecs)
      → b.number ≡ suc st.count
      → batched (save_batch kv codecs b st) ≡ batched st ++ b.transactions
  unfolding batched get_all_batches
  batched-save_new b st e =
      batched_last st.count st (save_batch kv codecs b st) (some b)
        (saved_count b st ∙ ground arith) (saved_self b (suc st.count) st e)
        (λ k le. saved_other b k st (below_other k st.count b.number le e))

  -- One that replaces the latest batch leaves the batches before it.
  pub batched-save_over :
      (b : Batch) (st : BatchStore kv codecs) (n : ℕ)
      → st.count ≡ suc n
      → b.number ≡ suc n
      → batched (save_batch kv codecs b st) ≡ all_txs (batches_to kv codecs n st) ++ b.transactions
  batched-save_over b st n counted e =
      batched_last n st (save_batch kv codecs b st) (some b)
        (saved_count b st ∙ ground (arith, counted, e)) (saved_self b (suc n) st e)
        (λ k le. saved_other b k st (below_other k n b.number le e))

  -- One that replaces the latest batch puts what it adds behind the others.
  pub batched-save_latest :
      (b b' : Batch) (st : BatchStore kv codecs) (n : ℕ) (added : List Transaction)
      → st.count ≡ suc n
      → st.batches (suc n) ≡ some b
      → b'.number ≡ suc n
      → b'.transactions ≡ b.transactions ++ added
      → batched (save_batch kv codecs b' st) ≡ batched st ++ added
  batched-save_latest b b' st n added counted latest e more =
      batched-save_over b' st n counted e
      ∙ ap (λ xs. all_txs (batches_to kv codecs n st) ++ xs) more
      ∙ sym (append_assoc (all_txs (batches_to kv codecs n st)) b.transactions added)
      ∙ ap (λ xs. xs ++ added) (sym (batched_last n st st (some b) counted latest (λ k le. refl)))

  pub batched-same :
      (st st' : BatchStore kv codecs)
      → st'.batches ≡ st.batches
      → st'.count ≡ st.count
      → batched st' ≡ batched st
  unfolding batched get_all_batches
  batched-same st st' same counted =
      ap (λ k. all_txs (batches_to kv codecs k st')) counted
      ∙ ap all_txs (batches_to-agree st.count st' st (λ k le. ap (λ m. m k) same))
