-- ===== src/Indexer/Service.antt =====
-- indexer/internal/indexer: indexer.go and process_block_range.go, from the number of the latest
-- block to batches in the store. What the node answers is a parameter, as are the clock and
-- go-ethereum. The context is not cancelled; the channel that tells the WebSocket clients of a
-- batch is left out. `none` of an `Option` result is a loop that has run out of fuel.
pub mod Kept
pub mod Rounds
pub mod Fill
pub mod Forks
pub mod Ranges
pub mod Polls
pub mod Ticks
pub mod Restart
use nowa_zk.Base.{
  ℕ, zero, suc, ◌+◌, ◌-◌, ◌*◌, ◌%◌, ◌^◌, ◌≡◌, Bool, true, false, ◌&&◌, Option, none, some, List, [],
  ◌∷◌, ◌++◌, length, take, drop, map, ltb, leb, ◌==◌, if◌then◌else◌,
}
use nowa_zk.Base.Bytes.{Bytes, codes, eqb}
use nowa_zk.Base.Int.{ℤ}
use nowa_zk.Storage.{KvStore, after_prefix}
use nowa_zk.Indexer.Pool.{Transaction}
use nowa_zk.Indexer.Store.{
  clear_all, Batch, BatchCodecs, BatchStore, save_batch, get_latest_batch, get_incomplete_batch,
  get_block_hash, set_block_hash, get_last_processed_block, set_last_processed_block,
  delete_batches_after, new_batch_store,
}
use nowa_zk.Indexer.Trades.{Ethereum}
use nowa_zk.Indexer.Builder.{BatchBuilder, new_batch_builder, build_batch, append_to_batch}

-- `rpc.Block`
pub record Block : Type 0 where
  pub number : Option ℤ
  pub hash : Bytes
  pub parent_hash : Bytes
  pub timestamp : Option ℤ
  pub state_root : Bytes
  pub transactions : List Transaction

-- What the node answers while a range of blocks is processed, and the clock.
pub record Chain : Type 0 where
  -- `GetBlockByNumber` with transactions, the answer to one attempt
  pub attempt : (try_number block_num : ℕ) → Option Block
  -- the hash of `GetBlockByNumber` without transactions
  pub header_hash : ℕ → Option Bytes
  pub clock : ℕ → ℕ

-- The parts of the configuration that the loops read.
pub record Config : Type 0 where
  pub batch_size : ℕ
  pub index_from_block : ℕ
  pub target_contract : Bytes

abbrev pub lower : ℕ → ℕ
lower c = if leb 65 c && leb c 90 then c + 32 else c

-- `strings.ToLower`, for ASCII
abbrev pub to_lower : Bytes → Bytes
to_lower s = map lower s

abbrev pub is_some {ℓ} : {A : Type ℓ} → Option A → Bool
is_some none = false
is_some (some _) = true

unfoldable pub is_relevant : Bytes → Transaction → Bool
unfolding after_prefix
is_relevant target tx =
    eqb (to_lower tx.to) (to_lower target)
    && is_some (after_prefix (codes "0x7864fe7a") tx.call_data)

unfoldable pub relevant_txs : Bytes → List Transaction → List Transaction
unfolding is_relevant
relevant_txs target [] = []
relevant_txs target (tx ∷ txs) =
    let rest = relevant_txs target txs in if is_relevant target tx then tx ∷ rest else rest

-- The attempts that are left, from one on.
unfoldable pub fetch_from : ℕ → ℕ → Chain → ℕ → Option Block
fetch_from zero i chain n = none
fetch_from (suc k) i chain n = elim (chain.attempt i n) [
  | some b ↦ some b
  | none ↦ fetch_from k (suc i) chain n
]

-- `maxRetries` is 5.
unfoldable pub fetch_block : Chain → ℕ → Option Block
unfolding fetch_from
fetch_block chain n = fetch_from 5 1 chain n

module _ (kv : KvStore) (codecs : BatchCodecs) (eth : Ethereum) (config : Config) where
  pub record Service : Type 0 where
    pub batches : BatchStore kv codecs
    pub batch_builder : BatchBuilder

  -- The part of `Start` that opens the store and the builder; `none` is a store that does not load.
  unfoldable pub initial_batch_num : BatchStore kv codecs → ℕ
  unfolding get_incomplete_batch get_latest_batch
  initial_batch_num st = elim (get_incomplete_batch kv codecs config.batch_size st) [
    | some b ↦ b.number
    | none ↦ elim (get_latest_batch kv codecs st) [ none ↦ 1 | some b ↦ (b.number + 1) % 2 ^ 64 ]
  ]

  unfoldable pub start : kv.Db → Option Service
  unfolding new_batch_store initial_batch_num new_batch_builder
  start db = elim (new_batch_store kv codecs db) [
    | none ↦ none
    | some st ↦
        some (record { batches = st; batch_builder = new_batch_builder (initial_batch_num st) })
  ]

  -- What the flag `--reset` does to the database before `Start`; `none` is a store that does not
  -- load.
  unfoldable pub clear_all_data : kv.Db → Option kv.Db
  unfolding new_batch_store clear_all
  clear_all_data db = elim (new_batch_store kv codecs db) [
    | none ↦ none
    | some st ↦ some (clear_all kv codecs st).db
  ]

  unfoldable pub create_batch_from_transactions : (ℕ → ℕ) → List Transaction → Service → Service
  create_batch_from_transactions clock [] s = s
  create_batch_from_transactions clock (tx ∷ txs) s =
      elim (build_batch eth clock (tx ∷ txs) s.batch_builder) [
        | none ↦ s
        | some (b, bb) ↦ record { batches = save_batch kv codecs b s.batches; batch_builder = bb }
      ]

  -- What a round of the filling loop does to the batch that has room for `space` more; `none` is an
  -- error.
  unfoldable pub append_some : ℕ → Batch → List Transaction → Service → Option Service
  append_some space b txs s = elim (append_to_batch eth b (take space txs) s.batch_builder) [
    | none ↦ none
    | some (b', bb) ↦
        some (record { batches = save_batch kv codecs b' s.batches; batch_builder = bb })
  ]

  -- A round that creates a batch.
  abbrev pub create_round :
      (ℕ → ℕ) → List Transaction → Service → Option (List Transaction × Service)
  create_round clock txs s = some (
    drop config.batch_size txs,
    create_batch_from_transactions clock (take config.batch_size txs) s,
  )

  abbrev pub after_append :
      ℕ → List Transaction → Option Service → Option (List Transaction × Service)
  after_append k txs none = none
  after_append k txs (some s) = some (drop k txs, s)

  -- A round with an incomplete batch, by `spaceLeft`.
  abbrev pub append_round :
      ℕ → Batch → (ℕ → ℕ) → List Transaction → Service → Option (List Transaction × Service)
  append_round zero b clock txs s = create_round clock txs s
  append_round (suc k) b clock txs s = after_append (suc k) txs (append_some (suc k) b txs s)

  -- A round, by `GetIncompleteBatch`.
  abbrev pub round_with :
      Option Batch → (ℕ → ℕ) → List Transaction → Service → Option (List Transaction × Service)
  round_with none clock txs s = create_round clock txs s
  round_with (some b) clock txs s =
      append_round (config.batch_size - length b.transactions) b clock txs s

  -- One round of the loop over `remainingTxs`, which are not empty: what is left, and the service;
  -- `none` is an error.
  unfoldable pub fill_round :
      (ℕ → ℕ) → List Transaction → Service → Option (List Transaction × Service)
  fill_round clock txs s =
      round_with (get_incomplete_batch kv codecs config.batch_size s.batches) clock txs s

  -- The loop for the transactions of one block; `false` is an error.
  unfoldable pub fill_batches : ℕ → (ℕ → ℕ) → List Transaction → Service → Option (Bool × Service)
  fill_batches fuel clock [] s = some (true, s)
  fill_batches zero clock (tx ∷ txs) s = none
  fill_batches (suc fuel) clock (tx ∷ txs) s = elim (fill_round clock (tx ∷ txs) s) [
    | none ↦ some (false, s)
    | some (rest, s') ↦ fill_batches fuel clock rest s'
  ]

  -- The loop over the blocks of a range.
  unfoldable pub fill_blocks : (ℕ → ℕ) → List Block → Service → Option (Bool × Service)
  fill_blocks clock [] s = some (true, s)
  fill_blocks clock (b ∷ bs) s =
      elim (fill_batches (length b.transactions) clock b.transactions s) [
        | none ↦ none
        | some (false, s') ↦ some (false, s')
        | some (true, s') ↦ fill_blocks clock bs s'
      ]

  -- `none` is an error; the argument is the block that is looked at, downwards.
  unfoldable pub find_fork_point : Chain → ℕ → BatchStore kv codecs → Option ℕ
  find_fork_point chain zero st = some 0
  find_fork_point chain (suc n) st =
      let below = find_fork_point chain n st in
      elim (chain.header_hash (suc n)) [
        | none ↦ none
        | some h ↦ elim (get_block_hash kv codecs (suc n) st) [
          | none ↦ below
          | some stored ↦ if eqb stored h then some (suc n) else below
        ]
      ]

  unfoldable pub handle_reorg : ℕ → BatchStore kv codecs → BatchStore kv codecs
  handle_reorg fork_point st = elim (get_latest_batch kv codecs st) [
    | none ↦ st
    | some b ↦ delete_batches_after kv codecs b.number st
  ]

  unfoldable pub roll_back : Option ℕ → BatchStore kv codecs → BatchStore kv codecs
  roll_back none st = st
  roll_back (some fork_point) st =
      set_last_processed_block kv codecs fork_point (handle_reorg fork_point st)

  -- Whether another hash is stored for the block.
  abbrev pub is_reorg : Bytes → Option Bytes → Bool
  is_reorg hash none = false
  is_reorg hash (some stored) = if eqb stored hash then false else true

  abbrev pub and_also : Block → Option (List Block) → Option (List Block)
  and_also b none = none
  and_also b (some bs) = some (b ∷ bs)

  -- The sequential pass over the results for `k` blocks from `n` on: the blocks with the
  -- transactions that count, and the store; `none` is a block without an answer or a reorg.
  unfoldable pub verify_blocks :
      ℕ → ℕ → Chain → BatchStore kv codecs → Option (List Block) × BatchStore kv codecs
  verify_blocks zero n chain st = (some [], st)
  verify_blocks (suc k) n chain st = elim (fetch_block chain n) [
    | none ↦ (none, st)
    | some b ↦ elim (is_reorg b.hash (get_block_hash kv codecs n st)) [
      | true ↦ (none, roll_back (find_fork_point chain n st) st)
      | false ↦
          let (bs, st') =
            verify_blocks k (suc n % 2 ^ 64) chain (set_block_hash kv codecs n b.hash st) in
          (
            and_also
                (record b { transactions = relevant_txs config.target_contract b.transactions }) bs,
            st',
          )
    ]
  ]

  abbrev pub after_verify :
      Chain → Service → Option (List Block) × BatchStore kv codecs → Option (Bool × Service)
  after_verify chain s (none, st) = some (false, record s { batches = st })
  after_verify chain s (some blocks, st) =
      fill_blocks chain.clock blocks (record s { batches = st })

  -- `endBlock - startBlock + 1`; a range whose end has wrapped panics in `make` and is not
  -- modelled.
  abbrev pub block_count : ℕ → ℕ → ℕ
  block_count start_block end_block = (end_block + 2 ^ 64 - start_block + 1) % 2 ^ 64

  unfoldable pub process_block_range : Chain → ℕ → ℕ → Service → Option (Bool × Service)
  process_block_range chain start_block end_block s =
      after_verify chain s
        (verify_blocks (block_count start_block end_block) start_block chain s.batches)

  abbrev pub range_end : ℕ → ℕ → ℕ
  range_end start_block block_num =
      let end_block = (start_block + 99) % 2 ^ 64 in
      if ltb block_num end_block then block_num else end_block

  -- The loop of `pollBlocks` over the ranges up to the latest block: the last block that was
  -- processed, and the service. A range that fails does not end the loop, as its `break` ends the
  -- `select`. Each range has its answers of the node.
  unfoldable pub poll_ranges :
      ℕ → (ℕ → Chain) → (start_block block_num last : ℕ) → Service → Option (ℕ × Service)
  poll_ranges zero chains start_block block_num last s =
      if leb start_block block_num then none else some (last, s)
  poll_ranges (suc fuel) chains start_block block_num last s =
      let end_block = range_end start_block block_num in
      let next = (start_block + 100) % 2 ^ 64 in
      elim (leb start_block block_num) [
        | false ↦ some (last, s)
        | true ↦ elim (process_block_range (chains start_block) start_block end_block s) [
          | none ↦ none
          | some (false, s') ↦ poll_ranges fuel chains next block_num last s'
          | some (true, s') ↦
              poll_ranges fuel chains next block_num end_block
                (record s' { batches = set_last_processed_block kv codecs end_block s'.batches })
        ]
      ]

  -- One tick of `pollBlocks`; `none` of `BlockNumber` is an error.
  unfoldable pub poll_tick : ℕ → (ℕ → Chain) → Option ℕ → ℕ → Service → Option (ℕ × Service)
  poll_tick fuel chains none last s = some (last, s)
  poll_tick fuel chains (some block_num) last s =
      if ltb last block_num
      then poll_ranges fuel chains ((last + 1) % 2 ^ 64) block_num last s
      else some (last, s)

  unfoldable pub init_starting_block : BatchStore kv codecs → ℕ × BatchStore kv codecs
  unfolding get_last_processed_block set_last_processed_block
  init_starting_block st =
      let last = get_last_processed_block kv codecs st in
      let from_block = config.index_from_block - 1 in
      if last == 0
      then (from_block, set_last_processed_block kv codecs from_block st)
      else (last, st)
