-- ===== src/Indexer/Tests.antt =====
-- Runs of the pool of indexer/internal/indexer/pool.go, and a witness.
use nowa_zk.Base.{ℕ, ◌≡◌, refl, [], ◌∷◌, arith, some, none, false}
use nowa_zk.Base.Bytes.{eqb}
use nowa_zk.Base.Int.{pos}
use nowa_zk.Indexer.Pool.{
  Transaction, TransactionPool, IsValidPool, add_transaction, get_transactions, in_pool,
}

abbrev transfer : ℕ → Transaction
transfer n = record {
  hash = n ∷ [];
  from_address = [];
  to = [];
  contract_address = [];
  value = some (pos 1);
  call_data = [];
  nonce = n;
  gas = 21000;
  gas_price = none;
  gas_tip_cap = none;
  gas_fee_cap = none;
  block_number = none;
  block_hash = [];
  index = 0;
  is_contract_deployment = false;
}

abbrev full_pool : TransactionPool
full_pool = record { txs = transfer 1 ∷ transfer 2 ∷ []; max = 2 }

add_transaction_evicts : (add_transaction (transfer 3) full_pool).txs ≡ transfer 2 ∷ transfer 3 ∷ []
unfolding add_transaction in_pool eqb
add_transaction_evicts = refl

add_transaction_known : add_transaction (transfer 2) full_pool ≡ full_pool
unfolding add_transaction in_pool eqb
add_transaction_known = refl

get_transactions_run :
    get_transactions 3 full_pool ≡ (transfer 1 ∷ transfer 2 ∷ [], record { txs = []; max = 2 })
unfolding get_transactions
get_transactions_run = refl

full_pool-IsValidPool : IsValidPool full_pool
unfolding in_pool eqb
full_pool-IsValidPool = record { bounded = omega arith; distinct = (refl, (refl, tt)) }
