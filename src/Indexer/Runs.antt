-- ===== src/Indexer/Runs.antt =====
-- Runs of the indexer on a node of three blocks, and witnesses: batches of two, and transactions
-- with one trade each.
use Prim.Native.Nat.{max}
use nowa_zk.Base.{
  ℕ, zero, suc, ◌<◌, ◌≤◌, ◌≡◌, ◌⊎◌, refl, sym, ap, subst, true, false, none, some, [], ◌∷◌, ◌++◌,
  length, All, arith, if◌then◌else◌, ◌==◌,
}
use nowa_zk.Base.Bytes.{codes, eqb, hex_decode, nibble}
use nowa_zk.Base.Bytes.Decimal.{print_ℕ, parse_ℕ}
use nowa_zk.Base.Int.{pos}
use nowa_zk.Storage.{after_prefix, number_token, skip_blanks, scan_uint64}
use nowa_zk.Storage.Memory.{memory, memory_laws, lookup, remove, keys_of}
use nowa_zk.Indexer.Pool.{Transaction}
use nowa_zk.Indexer.Store.{
  Batch, BatchCodecs, BatchStore, save_batch, get_incomplete_batch, get_latest_batch,
  get_last_processed_block, get_block_hash, set_block_hash, batch_prefix, batch_of_key, batches_to,
}
use nowa_zk.Indexer.Trades.{
  Order, Ethereum, parse_trades_from_tx_data, extract_trades, extract_trade, message_hash_of,
  recover, normal_signature, message,
}
use nowa_zk.Indexer.Builder.{is_processed, extended, trades_of}
use nowa_zk.Indexer.Builder.New.{IsNew}
use nowa_zk.Indexer.Service.{
  Block, Chain, Config, Service, fetch_block, fetch_from, relevant_txs, is_relevant, poll_tick,
  poll_ranges, fill_batches, find_fork_point, handle_reorg, process_block_range, verify_blocks,
}
use nowa_zk.Indexer.Service.Kept.{all_txs, batched}
use nowa_zk.Indexer.Service.Fill.{IsValidService}
use nowa_zk.Indexer.Service.Forks.{Agrees, find_fork_point-IsLast, handle_reorg_nothing}
use nowa_zk.Indexer.Service.Ranges.{
  Answers, NoReorg, Indexed, range_txs, process_block_range-Indexed,
}
use nowa_zk.Indexer.Service.Polls.{poll_ranges_skips}
use nowa_zk.Indexer.Service.Ticks.{txs_after, poll_tick-Indexed}
use nowa_zk.Indexer.Service.Restart.{restarted, restart_overwrites}

abbrev order : Order
order = record {
  user_address = [];
  base_token = [];
  quote_token = [];
  amount = 1;
  is_amount_in_quote = false;
  nonce = pos 0;
  order_type = 0;
  side = 0;
  limit_price = 1;
  stop_price = 0;
  time_in_force = 0;
  cancel_after = 0;
  wallet_signature = codes "00000000000000000000000000000000000000000000000000000000000000001";
  balance_snapshot = 0;
  allowance_snapshot = 0;
}

-- An order book whose calls all hold one buy, and a curve that takes every signature.
abbrev pub ethereum : Ethereum
ethereum = record {
  unpack = λ selector args. some (order ∷ [], []);
  domain_separator = some [];
  hash_struct = λ fields. some [];
  keccak256 = λ s. s;
  ecrecover = λ hash sig. some sig;
  unmarshal_pubkey = λ s. some (record { x = []; y = []; address = [] });
}

abbrev pub config : Config
config = record { batch_size = 2; index_from_block = 0; target_contract = codes "0xAB" }

abbrev call : ℕ → Transaction
call n = record {
  hash = n ∷ [];
  from_address = [];
  to = codes "0xab";
  contract_address = [];
  value = some (pos 0);
  call_data = codes "0x7864fe7a";
  nonce = n;
  gas = 21000;
  gas_price = none;
  gas_tip_cap = none;
  gas_fee_cap = none;
  block_number = none;
  block_hash = [];
  index = 0;
  is_contract_deployment = false;
}

abbrev view : ℕ → Block
view n = record {
  number = some (pos n);
  hash = n ∷ [];
  parent_hash = [];
  timestamp = none;
  state_root = [];
  transactions = call n ∷ [];
}

-- The first attempt for a block fails.
abbrev chain : Chain
chain = record {
  attempt = λ i n. elim i [ zero ↦ none | suc i ↦ elim i [ zero ↦ none | suc i ↦ some (view n) ] ];
  header_hash = λ n. some (n ∷ []);
  clock = λ n. 1700000000;
}

-- The codec of the tests writes the number of a batch only.
abbrev batch_codecs : BatchCodecs
batch_codecs = record {
  batches = record { marshal = λ b. print_ℕ b.number; unmarshal = λ s. none };
  metas = record { marshal = λ m. print_ℕ m.number; unmarshal = λ s. none };
}

abbrev BatchesInMemory : Type 0
BatchesInMemory = BatchStore memory batch_codecs

abbrev no_batches : BatchesInMemory
no_batches = record { db = []; batches = λ n. none; count = 0 }

abbrev fresh_service : Service memory batch_codecs ethereum config
fresh_service = record {
  batches = no_batches;
  batch_builder = record { batch_num = 1; processed_txs = [] };
}

answers : (max : ℕ) → Answers view max chain
unfolding fetch_block fetch_from
answers max n le = refl

fresh-IsValidService : IsValidService memory batch_codecs ethereum config fresh_service
fresh-IsValidService = record {
  numbered = λ n b e. absurd (ground (arith, e));
  sized = λ n b e. absurd (ground (arith, e));
  next_number = omega arith;
}

fresh-NoReorg : NoReorg view memory batch_codecs ethereum config memory_laws no_batches
unfolding get_block_hash lookup
fresh-NoReorg n = refl

new_calls : IsNew [] (call 1 ∷ call 2 ∷ call 3 ∷ [])
unfolding is_processed eqb
new_calls = (refl, (refl, (refl, tt)))

relevant_calls : txs_after view config.target_contract 3 0 ≡ call 1 ∷ call 2 ∷ call 3 ∷ []
unfolding relevant_txs is_relevant after_prefix eqb
relevant_calls = refl

fresh_mark : get_last_processed_block memory batch_codecs no_batches ≡ 0
unfolding get_last_processed_block lookup
fresh_mark = refl

poll_tick-Indexed_example :
    (s' : Service memory batch_codecs ethereum config) × (poll_tick memory batch_codecs ethereum
        config 1
        (λ i. chain)
        (some 3)
        0
        fresh_service
      ≡ some (3, s'))
    × Indexed view memory batch_codecs ethereum config memory_laws fresh_service
        (txs_after view config.target_contract 3 0)
        []
        s'
    × (get_last_processed_block memory batch_codecs s'.batches ≡ 3)
poll_tick-Indexed_example =
    poll_tick-Indexed memory batch_codecs ethereum config view memory_laws 1 refl (λ i. chain) 3
      (λ i. answers 3) (omega arith) [] 1 0 fresh_service (omega arith) (omega arith)
      fresh-IsValidService fresh-NoReorg
      (subst (λ txs. IsNew [] (txs ++ [])) (sym relevant_calls) new_calls)
      (omega (arith, ap length relevant_calls)) fresh_mark

-- A node that does not answer for the first range.
abbrev silent : Chain
silent = record { attempt = λ i n. none; header_hash = λ n. none; clock = λ n. 0 }

abbrev chains : ℕ → Chain
chains n = if n == 1 then silent else chain

silent_range :
    process_block_range memory batch_codecs ethereum config silent 1 100 fresh_service
    ≡ some (false, fresh_service)
unfolding process_block_range verify_blocks fetch_block fetch_from
silent_range = refl

late_call : range_txs view config.target_contract 1 101 ≡ call 101 ∷ []
unfolding relevant_txs is_relevant after_prefix eqb
late_call = refl

last_range :
    (s' : Service memory batch_codecs ethereum config) × (process_block_range memory batch_codecs
        ethereum config chain 101 101 fresh_service
      ≡ some (true, s'))
    × Indexed view memory batch_codecs ethereum config memory_laws fresh_service
        (range_txs view config.target_contract 1 101)
        []
        s'
unfolding is_processed
last_range =
    process_block_range-Indexed view memory batch_codecs ethereum config memory_laws 1 refl chain
      101 101 [] fresh_service (answers 101) (omega arith) (omega arith) fresh-NoReorg
      fresh-IsValidService (subst (λ txs. IsNew [] (txs ++ [])) (sym late_call) (refl, tt))
      (omega (arith, ap length late_call))

poll_ranges_skips_example :
    (t : Service memory batch_codecs ethereum config) × (poll_ranges memory batch_codecs ethereum
        config 2 chains 1 101 0 fresh_service
      ≡ some (101, t))
    × (get_last_processed_block memory batch_codecs t.batches ≡ 101)
    × (t.batches.batches ≡ last_range.0.batches.batches)
poll_ranges_skips_example =
    poll_ranges_skips memory batch_codecs ethereum config memory_laws 0 chains 1 101 0 fresh_service
      fresh_service last_range.0 (omega arith) (omega arith) (omega arith) silent_range last_range.1

-- A batch that waits for one more trade.
abbrev waiting : Batch
waiting = record {
  number = 1;
  hash = [];
  transactions = call 1 ∷ [];
  old_state_root = codes "0x0";
  new_state_root = codes "0x0";
  timestamp = 1700000000;
  status = codes "pending";
  traces = [];
  trades =
      record {
        message_hash = [];
        pub_key_x = [];
        pub_key_y = [];
        sig_r = [];
        sig_s = [];
        signer_address = [];
      }
      ∷ [];
}

abbrev one_batch : BatchesInMemory
one_batch = save_batch memory batch_codecs waiting no_batches

waiting_stored :
    (one_batch.count ≡ 1) × (get_latest_batch memory batch_codecs one_batch ≡ some waiting)
unfolding save_batch get_latest_batch
waiting_stored = (refl, refl)

waiting_incomplete : get_incomplete_batch memory batch_codecs 2 one_batch ≡ some waiting
unfolding save_batch get_incomplete_batch eqb
waiting_incomplete = refl

filled : 2 ≤ length (extended ethereum waiting (call 2 ∷ [])).trades
unfolding extended trades_of parse_trades_from_tx_data hex_decode extract_trades extract_trade
    message_hash_of recover normal_signature message nibble
filled = omega arith

restart_overwrites_example :
    (s' : Service memory batch_codecs ethereum config) × ((fuel : ℕ)
      → fill_batches memory batch_codecs ethereum config
          (suc (suc fuel))
          (λ n. 0)
          (call 2 ∷ call 3 ∷ [])
          (restarted memory batch_codecs ethereum config one_batch)
        ≡ some (true, s'))
    × (s'.batches.count ≡ one_batch.count)
    × (batched memory batch_codecs s'.batches
        ≡ all_txs (batches_to memory batch_codecs 0 one_batch) ++ call 3 ∷ [])
unfolding is_processed eqb
restart_overwrites_example =
    restart_overwrites memory batch_codecs ethereum config (λ n. 0) one_batch waiting 0 0 1
      waiting_stored.0 refl waiting_incomplete refl refl (call 2) (call 3) (call 3 ∷ []) []
      (refl, (refl, tt)) refl (omega arith) filled

small_keys : All (λ k. batch_of_key k ≤ one_batch.count) (keys_of batch_prefix one_batch.db)
unfolding save_batch keys_of remove batch_of_key after_prefix print_ℕ number_token skip_blanks
    parse_ℕ scan_uint64
small_keys = omega arith

latest_number :
    (b : Batch)
    → get_latest_batch memory batch_codecs one_batch ≡ some b
    → b.number ≡ one_batch.count
latest_number b e = ground (arith, e, waiting_stored.0, waiting_stored.1)

handle_reorg_nothing_example :
    handle_reorg memory batch_codecs ethereum config 0 one_batch ≡ one_batch
handle_reorg_nothing_example =
    handle_reorg_nothing memory batch_codecs ethereum config 0 one_batch small_keys latest_number

-- The node has another hash for block 2 than the store.
abbrev forked : BatchesInMemory
forked =
    set_block_hash memory batch_codecs 2 (9 ∷ [])
      (set_block_hash memory batch_codecs 1 (1 ∷ []) no_batches)

fork_at_one : find_fork_point memory batch_codecs ethereum config chain 3 forked ≡ some 1
unfolding find_fork_point get_block_hash set_block_hash lookup remove eqb print_ℕ
fork_at_one = refl

find_fork_point-IsLast_example :
    (1 ≤ 3)
    × (◌≡◌ {A = ℕ} 1 0 ⊎ Agrees memory batch_codecs ethereum config chain forked 1)
    × ((k : ℕ) → 1 < k → k ≤ 3 → ¬ Agrees memory batch_codecs ethereum config chain forked k)
find_fork_point-IsLast_example =
    find_fork_point-IsLast memory batch_codecs ethereum config chain 3 forked 1 fork_at_one
