-- ===== src/Indexer/Builder.antt =====
-- indexer/internal/indexer/batch.go: batches built from transactions that were not processed yet.
-- The clock is a parameter, the time at which the batch of a number is built.
pub mod New
use nowa_zk.Base.{
  ℕ, suc, ◌%◌, ◌^◌, ◌≡◌, Bool, true, false, ◌||◌, Option, none, some, List, [], ◌∷◌, ◌++◌, map,
  if◌then◌else◌,
}
use nowa_zk.Base.Bytes.{Bytes, codes, eqb, hex_encode}
use nowa_zk.Base.Bytes.Decimal.{print_ℕ, print}
use nowa_zk.Base.Int.{ℤ}
use nowa_zk.Indexer.Pool.{Transaction}
use nowa_zk.Indexer.Store.{Batch, ExecutionTrace, ParsedTrade}
use nowa_zk.Indexer.Trades.{Ethereum, parse_trades_from_tx_data}

pub record BatchBuilder : Type 0 where
  pub batch_num : ℕ
  -- The keys of the map that are true.
  pub processed_txs : List Bytes

unfoldable pub new_batch_builder : ℕ → BatchBuilder
new_batch_builder n = record { batch_num = n; processed_txs = [] }

unfoldable pub is_processed : Bytes → List Bytes → Bool
is_processed h [] = false
is_processed h (p ∷ ps) = eqb p h || is_processed h ps

unfoldable pub filter_processed_txs : List Bytes → List Transaction → List Transaction
unfolding is_processed
filter_processed_txs ps [] = []
filter_processed_txs ps (tx ∷ txs) =
    let rest = filter_processed_txs ps txs in if is_processed tx.hash ps then rest else tx ∷ rest

-- `tx.Value.String()`
abbrev pub value_text : Option ℤ → Bytes
value_text none = codes "<nil>"
value_text (some z) = print z

unfoldable pub trace_of : Transaction → ExecutionTrace
unfolding print
trace_of tx = record {
  tx_hash = tx.hash;
  from_address = tx.from_address;
  to = if tx.is_contract_deployment then [] else tx.to;
  contract_address = if tx.is_contract_deployment then tx.contract_address else [];
  is_contract_deployment = tx.is_contract_deployment;
  value = value_text tx.value;
  nonce = tx.nonce;
  old_balance = codes "0";
  new_balance = codes "0";
}

-- The texts after the head of what is hashed.
abbrev pub hash_texts : List Transaction → Bytes
hash_texts [] = []
hash_texts (tx ∷ txs) = codes ":" ++ (tx.hash ++ hash_texts txs)

-- What `computeBatchHash` hashes.
unfoldable pub batch_text : Batch → Bytes
unfolding print_ℕ
batch_text b =
    print_ℕ b.number
    ++ (codes ":"
        ++ (b.old_state_root
            ++ (codes ":"
                ++ (b.new_state_root
                    ++ (codes ":" ++ (print_ℕ b.timestamp ++ hash_texts b.transactions))))))

module _ (eth : Ethereum) where
  unfoldable pub compute_batch_hash : Batch → Bytes
  unfolding batch_text hex_encode
  compute_batch_hash b = codes "0x" ++ hex_encode (eth.keccak256 (batch_text b))

  -- The trades of the transactions; data that do not parse have none.
  unfoldable pub trades_of : List Transaction → List ParsedTrade
  unfolding parse_trades_from_tx_data
  trades_of [] = []
  trades_of (tx ∷ txs) =
      let rest = trades_of txs in
      elim (parse_trades_from_tx_data eth tx.call_data) [ none ↦ rest | some ts ↦ ts ++ rest ]

  abbrev pub with_hash : Batch → Batch
  with_hash b = record b { hash = compute_batch_hash b }

  abbrev pub mark_processed : List Transaction → BatchBuilder → BatchBuilder
  mark_processed txs bb = record bb { processed_txs = map (λ tx. tx.hash) txs ++ bb.processed_txs }

  -- The batch of transactions that are new.
  unfoldable pub batch_of : ℕ → (now : ℕ) → List Transaction → Batch
  unfolding compute_batch_hash trades_of trace_of
  batch_of n now txs = with_hash (record {
    number = n;
    hash = [];
    transactions = txs;
    old_state_root = codes "0x0";
    new_state_root = codes "0x0";
    timestamp = now;
    status = codes "pending";
    traces = map trace_of txs;
    trades = trades_of txs;
  })

  abbrev pub build_new : (ℕ → ℕ) → List Transaction → BatchBuilder → Option (Batch × BatchBuilder)
  build_new clock [] bb = none
  build_new clock (tx ∷ txs) bb = some (
    batch_of bb.batch_num (clock bb.batch_num) (tx ∷ txs),
    record (mark_processed (tx ∷ txs) bb) { batch_num = suc bb.batch_num % 2 ^ 64 },
  )

  -- `none` is an error.
  unfoldable pub build_batch :
      (ℕ → ℕ) → List Transaction → BatchBuilder → Option (Batch × BatchBuilder)
  unfolding filter_processed_txs batch_of
  build_batch clock txs bb = build_new clock (filter_processed_txs bb.processed_txs txs) bb

  unfoldable pub extended : Batch → List Transaction → Batch
  unfolding compute_batch_hash trades_of trace_of
  extended b txs = with_hash (record b {
    transactions = b.transactions ++ txs;
    traces = b.traces ++ map trace_of txs;
    trades = b.trades ++ trades_of txs;
  })

  abbrev pub append_new : Batch → List Transaction → BatchBuilder → Option (Batch × BatchBuilder)
  append_new b [] bb = none
  append_new b (tx ∷ txs) bb = some (extended b (tx ∷ txs), mark_processed (tx ∷ txs) bb)

  unfoldable pub append_to_batch :
      Batch → List Transaction → BatchBuilder → Option (Batch × BatchBuilder)
  unfolding filter_processed_txs extended
  append_to_batch b txs bb = append_new b (filter_processed_txs bb.processed_txs txs) bb
