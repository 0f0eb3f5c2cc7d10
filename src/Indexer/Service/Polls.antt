-- ===== src/Indexer/Service/Polls.antt =====
-- `pollBlocks`: the steps of its loop over ranges, and a range that fails.
use nowa_zk.Base.{
  ℕ, zero, suc, ◌+◌, ◌%◌, ◌^◌, ◌<◌, ◌≤◌, ◌≡◌, ap, ◌∙◌, true, false, some, arith, leb,
}
use nowa_zk.Storage.{KvStore, KvLaws}
use nowa_zk.Indexer.Store.{BatchCodecs, get_last_processed_block, set_last_processed_block}
use nowa_zk.Indexer.Store.Marks.{get-set_last_processed, set_last_processed_same}
use nowa_zk.Indexer.Trades.{Ethereum}
use nowa_zk.Indexer.Service.{Chain, Config, Service, range_end, process_block_range, poll_ranges}

module _ (kv : KvStore) (codecs : BatchCodecs) (eth : Ethereum) (config : Config) where
  -- One range of the loop, processed or not.
  pub poll_step :
      (fuel : ℕ) (chains : ℕ → Chain) (start_block block_num last : ℕ)
      (s s' : Service kv codecs eth config)
      → start_block ≤ block_num
      → process_block_range kv codecs eth config
          (chains start_block)
          start_block
          (range_end kv codecs eth config start_block block_num)
          s
        ≡ some (true, s')
      → let end_block = range_end kv codecs eth config start_block block_num in
        poll_ranges kv codecs eth config (suc fuel) chains start_block block_num last s
        ≡ poll_ranges kv codecs eth config fuel chains
            ((start_block + 100) % 2 ^ 64)
            block_num
            end_block
            (record s' { batches = set_last_processed_block kv codecs end_block s'.batches })
  unfolding poll_ranges
  poll_step fuel chains start_block block_num last s s' more e =
      let go : leb start_block block_num ≡ true = ground arith in
      rw (go, poll_ranges) (rw (e, poll_ranges))

  poll_step_failed :
      (fuel : ℕ) (chains : ℕ → Chain) (start_block block_num last : ℕ)
      (s s' : Service kv codecs eth config)
      → start_block ≤ block_num
      → process_block_range kv codecs eth config
          (chains start_block)
          start_block
          (range_end kv codecs eth config start_block block_num)
          s
        ≡ some (false, s')
      → poll_ranges kv codecs eth config (suc fuel) chains start_block block_num last s
        ≡ poll_ranges kv codecs eth config fuel chains
            ((start_block + 100) % 2 ^ 64)
            block_num
            last
            s'
  unfolding poll_ranges
  poll_step_failed fuel chains start_block block_num last s s' more e =
      let go : leb start_block block_num ≡ true = ground arith in
      rw (go, poll_ranges) (rw (e, poll_ranges))

  pub poll_done :
      (fuel : ℕ) (chains : ℕ → Chain) (start_block block_num last : ℕ)
      (s : Service kv codecs eth config)
      → block_num < start_block
      → poll_ranges kv codecs eth config fuel chains start_block block_num last s ≡ some (last, s)
  unfolding poll_ranges
  poll_done zero chains start_block block_num last s done = ground arith
  poll_done (suc fuel) chains start_block block_num last s done =
      let stop : leb start_block block_num ≡ false = ground arith in rw (stop, poll_ranges)

  -- Where the first of two ranges of a poll fails and the second, which reaches the latest block,
  -- succeeds, the poll ends with the latest block as the last processed one, in the store too, and
  -- with the batches that the second range left; where the latest block is below 2^64 - 200.
  pub poll_ranges_skips :
      (laws : KvLaws kv) (fuel : ℕ) (chains : ℕ → Chain) (start_block block_num last : ℕ)
      (s s' s'' : Service kv codecs eth config)
      → start_block + 100 ≤ block_num
      → block_num < start_block + 200
      → block_num + 200 < 2 ^ 64
      → process_block_range kv codecs eth config
          (chains start_block)
          start_block
          (start_block + 99)
          s
        ≡ some (false, s')
      → process_block_range kv codecs eth config
          (chains (start_block + 100))
          (start_block + 100)
          block_num
          s'
        ≡ some (true, s'')
      → (t : Service kv codecs eth config) × (poll_ranges kv codecs eth config
            (suc (suc fuel))
            chains
            start_block
            block_num
            last
            s
          ≡ some (block_num, t))
        × (get_last_processed_block kv codecs t.batches ≡ block_num)
        × (t.batches.batches ≡ s''.batches.batches)
  poll_ranges_skips laws fuel chains start_block block_num last s s' s'' more short small failed
        succeeded =
      let end_block : range_end kv codecs eth config start_block block_num ≡ start_block + 99 =
        ground arith in
      let next : (start_block + 100) % 2 ^ 64 ≡ start_block + 100 = omega arith in
      let last_end : range_end kv codecs eth config (start_block + 100) block_num ≡ block_num =
        ground arith in
      let t : Service kv codecs eth config = record s'' {
        batches = set_last_processed_block kv codecs block_num s''.batches;
      } in
      (
        t,
        poll_step_failed (suc fuel) chains start_block block_num last s s' (omega arith) (
              ap
                (λ e. process_block_range kv codecs eth config (chains start_block) start_block e s)
                end_block
              ∙ failed)
            ∙ ap (λ i. poll_ranges kv codecs eth config (suc fuel) chains i block_num last s') next
            ∙ poll_step fuel chains (start_block + 100) block_num last s' s'' more (
                ap
                  (λ e.
                    process_block_range kv codecs eth config (chains (start_block + 100))
                      (start_block + 100) e s')
                  last_end
                ∙ succeeded)
            ∙ poll_done fuel chains ((start_block + 100 + 100) % 2 ^ 64) block_num
                (range_end kv codecs eth config (start_block + 100) block_num) _ (omega arith)
            ∙ ap
                (λ e.
                  some
                    (e, record s'' { batches = set_last_processed_block kv codecs e s''.batches }))
                last_end,
        get-set_last_processed kv codecs laws s''.batches block_num (omega arith),
        (set_last_processed_same kv codecs laws s''.batches block_num).0,
      )
