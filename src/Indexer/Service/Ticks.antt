-- ===== src/Indexer/Service/Ticks.antt =====
-- A tick of `pollBlocks`: every block up to the latest one goes into batches where no range fails.
use nowa_zk.Base.{
  ℕ, zero, suc, ◌+◌, ◌-◌, ◌*◌, ◌%◌, ◌^◌, ◌<◌, ◌≤◌, ◌≡◌, sym, ap, subst, ◌∙◌, true, Option, some,
  List, [], ◌++◌, length, arith, ltb, length-append, inl, inr, ◌⊎◌, Bool-cases,
}
use mathlib.Core.List.{append_assoc, append-nil}
use nowa_zk.Base.Bytes.{Bytes}
use nowa_zk.Storage.{KvStore, KvLaws}
use nowa_zk.Indexer.Pool.{Transaction}
use nowa_zk.Indexer.Store.{BatchCodecs, get_last_processed_block, set_last_processed_block}
use nowa_zk.Indexer.Store.Marks.{
  get-set_last_processed, hash-set_last_processed, set_last_processed_same,
}
use nowa_zk.Indexer.Trades.{Ethereum}
use nowa_zk.Indexer.Builder.New.{IsNew}
use nowa_zk.Indexer.Service.{
  Block, Chain, Config, relevant_txs, Service, is_reorg, range_end, poll_ranges, poll_tick,
}
use nowa_zk.Indexer.Service.Kept.{batched, batched-same}
use nowa_zk.Indexer.Service.Fill.{IsValidService}
use nowa_zk.Indexer.Service.Ranges.{
  Answers, range_txs, NoReorg, Indexed, process_block_range-Indexed, same-IsValidService,
}
use nowa_zk.Indexer.Service.Polls.{poll_step, poll_done}

module _ (view : ℕ → Block) (target : Bytes) where
  -- The transactions that count in the blocks after `last`, up to a block.
  abbrev pub txs_after : (block_num last : ℕ) → List Transaction
  txs_after block_num last = range_txs view target (block_num - last) (suc last)

  -- Two ranges that follow one another.
  pub range_txs-add :
      (j k n : ℕ)
      → range_txs view target (j + k) n
        ≡ range_txs view target j n ++ range_txs view target k (n + j)
  range_txs-add zero k n =
      let left : 0 + k ≡ k = omega arith in
      let at : n ≡ n + 0 = omega arith in
      ap (λ i. range_txs view target i n) left ∙ ap (range_txs view target k) at
  range_txs-add (suc j) k n =
      let left : suc j + k ≡ suc (j + k) = omega arith in
      let at : suc n + j ≡ n + suc j = omega arith in
      let here = relevant_txs target (view n).transactions in
      ap (λ i. range_txs view target i n) left
      ∙ ap (λ xs. here ++ xs)
          (range_txs-add j k (suc n)
            ∙ ap (λ i. range_txs view target j (suc n) ++ range_txs view target k i) at)
      ∙ sym (
          append_assoc here (range_txs view target j (suc n)) (range_txs view target k (n + suc j)))

module _ (kv : KvStore) (codecs : BatchCodecs) (eth : Ethereum) (config : Config) where
  -- The bounds of a range, and that it is full where more blocks follow it.
  range_end_bounds :
      (last block_num : ℕ)
      → last < block_num
      → block_num + 200 < 2 ^ 64
      → let end_block = range_end kv codecs eth config (suc last) block_num in
        (last < end_block)
        × (end_block ≤ block_num)
        × ((end_block ≡ last + 100) ⊎ (end_block ≡ block_num))
        × (end_block ≤ last + 100)
        × (block_num - end_block ≤ block_num - last - 100)
  range_end_bounds last block_num more small =
      let reach : (suc last + 99) % 2 ^ 64 ≡ last + 100 = omega arith in
      elim (Bool-cases (ltb block_num (last + 100))) [
        | inl short ↦
            let e : range_end kv codecs eth config (suc last) block_num ≡ block_num =
              ground (arith, reach, short) in
            (omega (arith, e), omega (arith, e), inr e, ground (arith, e, short), omega (arith, e))
        | inr long ↦
            let e : range_end kv codecs eth config (suc last) block_num ≡ last + 100 =
              ground (arith, reach, long) in
            (omega (arith, e), ground (arith, e, long), inl e, omega (arith, e), omega (arith, e))
      ]

  module _ (view : ℕ → Block) (laws : KvLaws kv) (size : ℕ) (sized : config.batch_size ≡ suc size)
      (chains : ℕ → Chain) (block_num : ℕ) (answers : (i : ℕ) → Answers view block_num (chains i))
      (small : block_num + 200 < 2 ^ 64) (us : List Transaction) where
    -- The range after one that was processed, whether or not that was the last one.
    poll_next :
        (fuel last end_block : ℕ) (s : Service kv codecs eth config)
        → last < block_num
        → (end_block ≡ last + 100) ⊎ (end_block ≡ block_num)
        → end_block ≤ last + 100
        → poll_ranges kv codecs eth config fuel chains
            ((suc last + 100) % 2 ^ 64)
            block_num
            end_block
            s
          ≡ poll_ranges kv codecs eth config fuel chains (suc end_block) block_num end_block s
    poll_next fuel last end_block s more ends within =
        let next : (suc last + 100) % 2 ^ 64 ≡ suc (last + 100) = omega arith in
        ap (λ i. poll_ranges kv codecs eth config fuel chains i block_num end_block s) next
        ∙ elim ends [
          | inl full ↦
              ap (λ i. poll_ranges kv codecs eth config fuel chains (suc i) block_num end_block s)
                (sym full)
          | inr done ↦
              poll_done kv codecs eth config fuel chains (suc (last + 100)) block_num end_block s
                (omega arith)
              ∙ sym (
                  poll_done kv codecs eth config fuel chains (suc end_block) block_num end_block s
                    (omega arith))
        ]

    -- What is left after one range.
    txs_after_range :
        (last end_block : ℕ)
        → last < end_block
        → end_block ≤ block_num
        → txs_after view config.target_contract block_num last
          ≡ range_txs view config.target_contract (suc (end_block - suc last)) (suc last)
            ++ txs_after view config.target_contract block_num end_block
    txs_after_range last end_block more within =
        let j = suc (end_block - suc last) in
        let parts : block_num - last ≡ j + (block_num - end_block) = omega arith in
        let at : suc last + j ≡ suc end_block = omega arith in
        ap (λ i. range_txs view config.target_contract i (suc last)) parts
        ∙ range_txs-add view config.target_contract j (block_num - end_block) (suc last)
        ∙ ap
            (λ i.
              range_txs view config.target_contract j (suc last)
              ++ range_txs view config.target_contract (block_num - end_block) i)
            at

    marked-Indexed :
        (end_block : ℕ) (s s' : Service kv codecs eth config) (txs vs : List Transaction)
        → Indexed view kv codecs eth config laws s txs vs s'
        → Indexed view kv codecs eth config laws s txs vs
            (record s' { batches = set_last_processed_block kv codecs end_block s'.batches })
    marked-Indexed end_block s s' txs vs i =
        let st = set_last_processed_block kv codecs end_block s'.batches in
        let same = set_last_processed_same kv codecs laws s'.batches end_block in
        record {
          valid = same-IsValidService view kv codecs eth config laws s' st same.0 same.1 i.valid;
          kept = batched-same kv codecs s'.batches st same.0 same.1 ∙ i.kept;
          new = i.new;
          agree = λ n.
              ap (is_reorg kv codecs eth config (view n).hash)
                (hash-set_last_processed kv codecs laws s'.batches end_block n)
              ∙ i.agree n;
          room = omega (arith, same.1, i.room);
        }

    chained-Indexed :
        (s s' s'' : Service kv codecs eth config) (txs vs : List Transaction)
        → Indexed view kv codecs eth config laws s txs (vs ++ us) s'
        → Indexed view kv codecs eth config laws s' vs us s''
        → Indexed view kv codecs eth config laws s (txs ++ vs) us s''
    chained-Indexed s s' s'' txs vs i j = record {
      valid = j.valid;
      kept =
          j.kept ∙ ap (λ xs. xs ++ vs) i.kept ∙ append_assoc (batched kv codecs s.batches) txs vs;
      new = j.new;
      agree = j.agree;
      room = omega (arith, i.room, j.room, length-append txs vs);
    }

    record Polled (last : ℕ) (s : Service kv codecs eth config)
        (r : Option (ℕ × Service kv codecs eth config)) : Type 0 where
      final : Service kv codecs eth config
      result : r ≡ some (block_num, final)
      indexed :
          Indexed view kv codecs eth config laws s
            (txs_after view config.target_contract block_num last)
            us
            final
      marked : get_last_processed_block kv codecs final.batches ≡ block_num

    idle-Polled :
        (fuel last : ℕ) (s : Service kv codecs eth config)
        → last ≡ block_num
        → IsValidService kv codecs eth config s
        → NoReorg view kv codecs eth config laws s.batches
        → IsNew s.batch_builder.processed_txs
            (txs_after view config.target_contract block_num last ++ us)
        → get_last_processed_block kv codecs s.batches ≡ last
        → Polled last s (poll_ranges kv codecs eth config fuel chains (suc last) block_num last s)
    idle-Polled fuel last s done v agree new marked =
        let none_left : block_num - last ≡ 0 = omega (arith, done) in
        let no_txs : txs_after view config.target_contract block_num last ≡ [] =
          ap (λ k. range_txs view config.target_contract k (suc last)) none_left in
        record {
          final = s;
          result =
              poll_done kv codecs eth config fuel chains (suc last) block_num last s (omega arith)
              ∙ ap (λ n. some (n, s)) done;
          indexed =
              subst (λ txs. Indexed view kv codecs eth config laws s txs us s) (sym no_txs)
                (record {
                  valid = v;
                  kept = sym (append-nil (batched kv codecs s.batches));
                  new = subst (λ txs. IsNew s.batch_builder.processed_txs (txs ++ us)) no_txs new;
                  agree = agree;
                  room = omega arith;
                });
          marked = marked ∙ done;
        }

    -- A range that was processed, and a poll that goes on behind it.
    range-Polled :
        (fuel last end_block : ℕ) (s s1 : Service kv codecs eth config) (first : List Transaction)
        → last < block_num
        → (end_block ≡ last + 100) ⊎ (end_block ≡ block_num)
        → end_block ≤ last + 100
        → txs_after view config.target_contract block_num last
          ≡ first ++ txs_after view config.target_contract block_num end_block
        → poll_ranges kv codecs eth config (suc fuel) chains (suc last) block_num last s
          ≡ poll_ranges kv codecs eth config fuel chains
              ((suc last + 100) % 2 ^ 64)
              block_num
              end_block
              s1
        → Indexed view kv codecs eth config laws s first
            (txs_after view config.target_contract block_num end_block ++ us)
            s1
        → Polled end_block s1
            (poll_ranges kv codecs eth config fuel chains (suc end_block) block_num end_block s1)
        → Polled last s
            (poll_ranges kv codecs eth config (suc fuel) chains (suc last) block_num last s)
    range-Polled fuel last end_block s s1 first more ends within split stepped i rest = record {
      final = rest.final;
      result = stepped ∙ poll_next fuel last end_block s1 more ends within ∙ rest.result;
      indexed =
          subst (λ txs. Indexed view kv codecs eth config laws s txs us rest.final) (sym split)
            (chained-Indexed s s1 rest.final first
              (txs_after view config.target_contract block_num end_block) i rest.indexed);
      marked = rest.marked;
    }

    poll_ranges-Polled :
        (fuel last : ℕ) (s : Service kv codecs eth config)
        → last ≤ block_num
        → block_num - last ≤ 100 * fuel
        → IsValidService kv codecs eth config s
        → NoReorg view kv codecs eth config laws s.batches
        → IsNew s.batch_builder.processed_txs
            (txs_after view config.target_contract block_num last ++ us)
        → s.batches.count + length (txs_after view config.target_contract block_num last)
          < 2 ^ 64 - 1
        → get_last_processed_block kv codecs s.batches ≡ last
        → Polled last s (poll_ranges kv codecs eth config fuel chains (suc last) block_num last s)
    poll_ranges-Polled zero last s within enough v agree new room marked =
        idle-Polled zero last s (omega arith) v agree new marked
    poll_ranges-Polled (suc fuel) last s within enough v agree new room marked =
        elim (Bool-cases (ltb last block_num)) [
          | inr idle ↦ idle-Polled (suc fuel) last s (ground (arith, idle)) v agree new marked
          | inl busy ↦
              let more : last < block_num = ground (arith, busy) in
              let end_block = range_end kv codecs eth config (suc last) block_num in
              let ends = range_end_bounds last block_num more small in
              let first =
                range_txs view config.target_contract (suc (end_block - suc last)) (suc last) in
              let split = txs_after_range last end_block ends.0 ends.1 in
              let total =
                ap length split
                ∙ length-append first (txs_after view config.target_contract block_num end_block) in
              let r =
                process_block_range-Indexed view kv codecs eth config laws size sized
                  (chains (suc last)) (suc last) end_block
                  (txs_after view config.target_contract block_num end_block ++ us) s
                  (λ n le. answers (suc last) n (omega (arith, ends.1))) (omega (arith, ends.0))
                  (omega (arith, ends.1)) agree v
                  (subst (IsNew s.batch_builder.processed_txs)
                    (ap (λ xs. xs ++ us) split
                      ∙ append_assoc first
                          (txs_after view config.target_contract block_num end_block) us)
                    new)
                  (omega (arith, total, room)) in
              let s1 : Service kv codecs eth config = record r.0 {
                batches = set_last_processed_block kv codecs end_block r.0.batches;
              } in
              let i =
                marked-Indexed end_block s r.0 first
                  (txs_after view config.target_contract block_num end_block ++ us) r.2 in
              let rest =
                poll_ranges-Polled fuel end_block s1 ends.1 (omega (arith, ends.4, enough)) i.valid
                  i.agree i.new (omega (arith, total, room, i.room))
                  (get-set_last_processed kv codecs laws r.0.batches end_block
                    (omega (arith, ends.1))) in
              range-Polled fuel last end_block s s1 first more ends.2 ends.3 split
                (poll_step kv codecs eth config fuel chains (suc last) block_num last s r.0 more
                  r.1)
                i rest
        ]

    -- A tick of pollBlocks on a valid service (each batch stands under its number and holds no more
    -- than the batch size, and the builder's number is the one after the number of batches, which a
    -- restart on an incomplete batch breaks) to which the node answers every block up to the latest
    -- one, without a reorg, ends with the latest block as the last processed one, in the store too.
    -- The transactions of the new blocks that count, none of which was processed before, stand
    -- behind the others in the batches, in the order of the chain, and the service is valid again.
    -- Where there are new blocks, the batch size is at least 1, the stored mark is the last
    -- processed block, the numbers have room and the fuel is a hundredth of the number of new
    -- blocks or more.
    pub poll_tick-Indexed :
        (fuel last : ℕ) (s : Service kv codecs eth config)
        → last < block_num
        → block_num - last ≤ 100 * fuel
        → IsValidService kv codecs eth config s
        → NoReorg view kv codecs eth config laws s.batches
        → IsNew s.batch_builder.processed_txs
            (txs_after view config.target_contract block_num last ++ us)
        → s.batches.count + length (txs_after view config.target_contract block_num last)
          < 2 ^ 64 - 1
        → get_last_processed_block kv codecs s.batches ≡ last
        → (s' : Service kv codecs eth config) × (poll_tick kv codecs eth config fuel chains
              (some block_num)
              last
              s
            ≡ some (block_num, s'))
          × Indexed view kv codecs eth config laws s
              (txs_after view config.target_contract block_num last)
              us
              s'
          × (get_last_processed_block kv codecs s'.batches ≡ block_num)
    unfolding poll_tick
    poll_tick-Indexed fuel last s more enough v agree new room marked =
        let p = poll_ranges-Polled fuel last s (omega arith) enough v agree new room marked in
        let behind : ltb last block_num ≡ true = ground arith in
        let next : (last + 1) % 2 ^ 64 ≡ suc last = omega arith in
        (
          p.final,
          rw (behind, poll_tick)
              (ap (λ i. poll_ranges kv codecs eth config fuel chains i block_num last s) next
                ∙ p.result),
          p.indexed,
          p.marked,
        )
