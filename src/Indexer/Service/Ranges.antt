-- ===== src/Indexer/Service/Ranges.antt =====
-- A range of blocks that the node answers and that agrees with the stored hashes: its transactions
-- go into batches, in the order of the blocks.
use nowa_zk.Base.{
  ℕ, zero, suc, ◌+◌, ◌-◌, ◌%◌, ◌^◌, ◌<◌, ◌≤◌, ◌≡◌, refl, sym, ap, subst, ◌∙◌, true, false, Option,
  some, List, [], ◌∷◌, ◌++◌, length, arith, ◌==◌, length-append, inl, inr, Bool-cases,
}
use mathlib.Core.List.{append_assoc, append-nil}
use nowa_zk.Base.Bytes.{Bytes, eqb_refl}
use nowa_zk.Storage.{KvStore, KvLaws}
use nowa_zk.Indexer.Pool.{Transaction}
use nowa_zk.Indexer.Store.{BatchCodecs, BatchStore, get_block_hash, set_block_hash, hash_key}
use nowa_zk.Indexer.Store.Marks.{
  hash-ne-batch, get-set_block_hash, get-set_block_hash_other, set_block_hash_same,
}
use nowa_zk.Indexer.Trades.{Ethereum}
use nowa_zk.Indexer.Builder.New.{IsNew}
use nowa_zk.Indexer.Service.{
  Block, Chain, Config, Service, relevant_txs, fetch_block, is_reorg, and_also, verify_blocks,
  fill_blocks, process_block_range, after_verify, block_count,
}
use nowa_zk.Indexer.Service.Kept.{batched, batched-same}
use nowa_zk.Indexer.Service.Fill.{IsValidService, SameMarks, fill_batches-Filled}

abbrev pub block_txs : List Block → List Transaction
block_txs [] = []
block_txs (b ∷ bs) = b.transactions ++ block_txs bs

module _ (view : ℕ → Block) where
  -- The node answers with these blocks up to a number.
  abbrev pub Answers : ℕ → Chain → Type 0
  Answers max chain = (n : ℕ) → n ≤ max → fetch_block chain n ≡ some (view n)

  -- The blocks of a range with the transactions that count.
  abbrev pub blocks_of : Bytes → ℕ → ℕ → List Block
  blocks_of target zero n = []
  blocks_of target (suc k) n =
      record (view n) { transactions = relevant_txs target (view n).transactions }
      ∷ blocks_of target k (suc n)

  abbrev pub range_txs : Bytes → ℕ → ℕ → List Transaction
  range_txs target k n = block_txs (blocks_of target k n)

  module _ (kv : KvStore) (codecs : BatchCodecs) (eth : Ethereum) (config : Config)
      (laws : KvLaws kv) where
    -- No other hash is stored for a block.
    abbrev pub NoReorg : BatchStore kv codecs → Type 0
    NoReorg st =
        (n : ℕ)
        → is_reorg kv codecs eth config (view n).hash (get_block_hash kv codecs n st) ≡ false

    set_agrees :
        (n : ℕ) (st : BatchStore kv codecs)
        → is_reorg kv codecs eth config
            (view n).hash
            (get_block_hash kv codecs n (set_block_hash kv codecs n (view n).hash st))
          ≡ false
    set_agrees n st =
        rw (get-set_block_hash kv codecs laws st n (view n).hash)
          (ground (arith, eqb_refl (view n).hash))

    NoReorg-set :
        (n : ℕ) (st : BatchStore kv codecs)
        → NoReorg st
        → NoReorg (set_block_hash kv codecs n (view n).hash st)
    NoReorg-set n st agree k = elim (Bool-cases (k == n)) [
      | inl same ↦
          let eq : k ≡ n = ground (arith, same) in
          subst
            (λ i.
              is_reorg kv codecs eth config (view i).hash
                (get_block_hash kv codecs i (set_block_hash kv codecs n (view n).hash st))
              ≡ false)
            (sym eq) (set_agrees n st)
      | inr other ↦
          ap (is_reorg kv codecs eth config (view k).hash)
            (get-set_block_hash_other kv codecs laws st n k (view n).hash (ground (arith, other)))
          ∙ agree k
    ]

    pub NoReorg-SameMarks :
        (st st' : BatchStore kv codecs)
        → SameMarks kv codecs eth config st st'
        → NoReorg st
        → NoReorg st'
    unfolding get_block_hash
    NoReorg-SameMarks st st' same agree n =
        ap (is_reorg kv codecs eth config (view n).hash) (same (hash_key n) (hash-ne-batch n))
        ∙ agree n

    record Verified (st : BatchStore kv codecs) (k n : ℕ)
        (r : Option (List Block) × BatchStore kv codecs) : Type 0 where
      blocks : r.0 ≡ some (blocks_of config.target_contract k n)
      agree : NoReorg r.1
      same : r.1.batches ≡ st.batches
      counted : r.1.count ≡ st.count

    -- The block at the head of a range, with the transactions that count.
    verify_step :
        (k n : ℕ) (chain : Chain) (st : BatchStore kv codecs)
        → suc n < 2 ^ 64
        → fetch_block chain n ≡ some (view n)
        → is_reorg kv codecs eth config (view n).hash (get_block_hash kv codecs n st) ≡ false
        → verify_blocks kv codecs eth config (suc k) n chain st ≡ (
            let r =
              verify_blocks kv codecs eth config k
                (suc n)
                chain
                (set_block_hash kv codecs n (view n).hash st) in
            (
              and_also kv codecs eth config
                  (record (view n) {
                    transactions = relevant_txs config.target_contract (view n).transactions;
                  })
                  r.0,
              r.1,
            ))
    unfolding verify_blocks
    verify_step k n chain st small fetched agree =
        let next : suc n % 2 ^ 64 ≡ suc n = omega (arith, small) in
        rw (fetched, verify_blocks) (rw (agree, verify_blocks) (rw (next, verify_blocks)))

    verify_blocks-Verified :
        (k n max : ℕ) (chain : Chain) (st : BatchStore kv codecs)
        → Answers max chain
        → NoReorg st
        → n + k ≤ suc max
        → suc max < 2 ^ 64
        → Verified st k n (verify_blocks kv codecs eth config k n chain st)
    unfolding verify_blocks
    verify_blocks-Verified zero n max chain st answers agree h small = record {
      blocks = refl;
      agree = agree;
      same = refl;
      counted = refl;
    }
    verify_blocks-Verified (suc k) n max chain st answers agree h small =
        let rest =
          verify_blocks-Verified k (suc n) max chain (set_block_hash kv codecs n (view n).hash st)
            answers (NoReorg-set n st agree) (omega (arith, h)) small in
        let b : Block = record (view n) {
          transactions = relevant_txs config.target_contract (view n).transactions;
        } in
        subst (Verified st (suc k) n)
          (sym (
            verify_step k n chain st (omega (arith, h, small)) (answers n (omega (arith, h)))
              (agree n)))
          (record {
            blocks = ap (and_also kv codecs eth config b) rest.blocks;
            agree = rest.agree;
            same = rest.same ∙ (set_block_hash_same kv codecs laws st n (view n).hash).0;
            counted = rest.counted ∙ (set_block_hash_same kv codecs laws st n (view n).hash).1;
          })

    -- The loop over the blocks of a range.
    fill_blocks-Filled :
        (clock : ℕ → ℕ) (size : ℕ)
        → config.batch_size ≡ suc size
        → (bs : List Block) (us : List Transaction) (s : Service kv codecs eth config)
        → IsValidService kv codecs eth config s
        → IsNew s.batch_builder.processed_txs (block_txs bs ++ us)
        → s.batches.count + length (block_txs bs) < 2 ^ 64 - 1
        → (s' : Service kv codecs eth config) × (fill_blocks kv codecs eth config clock bs s
            ≡ some (true, s'))
          × IsValidService kv codecs eth config s'
          × (batched kv codecs s'.batches ≡ batched kv codecs s.batches ++ block_txs bs)
          × IsNew s'.batch_builder.processed_txs us
          × SameMarks kv codecs eth config s.batches s'.batches
          × (s'.batches.count ≤ s.batches.count + length (block_txs bs))
    unfolding fill_blocks
    fill_blocks-Filled clock size sized [] us s v new room = (
      s,
      refl,
      v,
      sym (append-nil (batched kv codecs s.batches)),
      new,
      (λ k other. refl),
      omega arith,
    )
    fill_blocks-Filled clock size sized (b ∷ bs) us s v new room =
        let total = length-append b.transactions (block_txs bs) in
        let r =
          fill_batches-Filled kv codecs eth config laws clock size sized (length b.transactions)
            b.transactions (block_txs bs ++ us) s v
            (subst (λ xs. IsNew s.batch_builder.processed_txs xs)
              (append_assoc b.transactions (block_txs bs) us) new)
            (omega (arith, total, room)) (omega arith) in
        let rest =
          fill_blocks-Filled clock size sized bs us r.0 r.2 r.4 (omega (arith, total, room, r.6)) in
        (
          rest.0,
          rw (r.1, fill_blocks) rest.1,
          rest.2,
          rest.3
              ∙ ap (λ xs. xs ++ block_txs bs) r.3
              ∙ append_assoc (batched kv codecs s.batches) b.transactions (block_txs bs),
          rest.4,
          (λ k other. rest.5 k other ∙ r.5 k other),
          omega (arith, rest.6, r.6, total),
        )

    -- A service whose batches are the same is as valid.
    pub same-IsValidService :
        (s : Service kv codecs eth config) (st : BatchStore kv codecs)
        → st.batches ≡ s.batches.batches
        → st.count ≡ s.batches.count
        → IsValidService kv codecs eth config s
        → IsValidService kv codecs eth config (record s { batches = st })
    same-IsValidService s st same counted v = record {
      numbered = λ n b e. v.numbered n b (ap (λ m. m n) (sym same) ∙ e);
      sized = λ n b e. v.sized n b (ap (λ m. m n) (sym same) ∙ e);
      next_number = v.next_number ∙ ap suc (sym counted);
    }

    -- What a step over some transactions gives, with more to come.
    pub record Indexed (s : Service kv codecs eth config) (txs us : List Transaction)
        (s' : Service kv codecs eth config) : Type 0 where
      pub valid : IsValidService kv codecs eth config s'
      pub kept : batched kv codecs s'.batches ≡ batched kv codecs s.batches ++ txs
      pub new : IsNew s'.batch_builder.processed_txs us
      pub agree : NoReorg s'.batches
      pub room : s'.batches.count ≤ s.batches.count + length txs

    -- A range that the node answers without a reorg is processed: its transactions, where they are
    -- new, stand behind the others in the order of the blocks.
    pub process_block_range-Indexed :
        (size : ℕ)
        → config.batch_size ≡ suc size
        → (chain : Chain) (start_block end_block : ℕ) (us : List Transaction)
          (s : Service kv codecs eth config)
        → Answers end_block chain
        → start_block ≤ end_block
        → suc end_block < 2 ^ 64
        → NoReorg s.batches
        → IsValidService kv codecs eth config s
        → let txs = range_txs config.target_contract (suc (end_block - start_block)) start_block in
          IsNew s.batch_builder.processed_txs (txs ++ us)
          → s.batches.count + length txs < 2 ^ 64 - 1
          → (s' : Service kv codecs eth config) × (process_block_range kv codecs eth config chain
                start_block end_block s
              ≡ some (true, s'))
            × Indexed s txs us s'
    unfolding process_block_range
    process_block_range-Indexed size sized chain start_block end_block us s answers order small
          agree v new room =
        let k = suc (end_block - start_block) in
        let verified =
          verify_blocks-Verified k start_block end_block chain s.batches answers agree
            (omega (arith, order)) small in
        let blocks = blocks_of config.target_contract k start_block in
        let st = (verify_blocks kv codecs eth config k start_block chain s.batches).1 in
        let v' = same-IsValidService s st verified.same verified.counted v in
        let r =
          fill_blocks-Filled chain.clock size sized blocks us (record s { batches = st }) v' new
            (omega (arith, verified.counted, room)) in
        let counted : block_count kv codecs eth config start_block end_block ≡ k =
          omega (arith, order, small) in
        (
          r.0,
          ap
                (λ j.
                  after_verify kv codecs eth config chain s
                    (verify_blocks kv codecs eth config j start_block chain s.batches))
                counted
              ∙ ap (λ bs. after_verify kv codecs eth config chain s (bs, st)) verified.blocks
              ∙ r.1,
          record {
            valid = r.2;
            kept =
                r.3
                ∙ ap (λ xs. xs ++ block_txs blocks)
                    (batched-same kv codecs s.batches st verified.same verified.counted);
            new = r.4;
            agree = NoReorg-SameMarks st r.0.batches r.5 verified.agree;
            room = omega (arith, r.6, verified.counted);
          },
        )
