-- ===== src/Batcher.antt =====
-- sequencer/internal/batcher/batcher.go: transitions gathered into batches of exactly 25, with the
-- running hashes of the deposits and withdrawals in the batch. The mutex makes each call a step.
pub mod Sealing
pub mod Chain
mod Tests
use nowa_zk.Base.{
  ℕ, zero, suc, ◌+◌, ◌%◌, ◌^◌, Bool, true, false, Option, none, some, List, [], ◌∷◌, ◌++◌, length,
  ◌==◌, if◌then◌else◌,
}
use nowa_zk.Base.Bytes.{Bytes}
use nowa_zk.Base.Bytes.Decimal.{print, parse}
use nowa_zk.Base.Int.{ℤ, pos}
use nowa_zk.Mimc.{Mimc, fr}
use nowa_zk.Types.{StateTransition, ZkBatch}

abbrev pub batch_size : ℕ
batch_size = 25

abbrev pub op_trade : ℕ
op_trade = 0

abbrev pub op_transfer : ℕ
op_transfer = 1

abbrev pub op_withdraw : ℕ
op_withdraw = 2

abbrev pub op_deposit : ℕ
op_deposit = 3

-- `&types.ZKBatch{BatchID: id}`
abbrev pub fresh_batch : ℕ → ZkBatch
fresh_batch id = record {
  batch_id = id;
  old_root = [];
  new_root = [];
  withdrawal_hash = [];
  deposit_hash = [];
  transitions = [];
}

-- `batch_history` holds the sealed batches by their id, and `history_size` is the map's length.
pub record Batcher : Type 0 where
  pub current_batch : ZkBatch
  pub latest_batch : Option ZkBatch
  pub batch_counter : ℕ
  pub batch_history : ℕ → Option ZkBatch
  pub history_size : ℕ
  pub current_deposit_hash : ℤ
  pub current_withdrawal_hash : ℤ

unfoldable pub new_batcher : Batcher
new_batcher = record {
  current_batch = fresh_batch 1;
  latest_batch = none;
  batch_counter = 1;
  batch_history = λ _. none;
  history_size = 0;
  current_deposit_hash = pos 0;
  current_withdrawal_hash = pos 0;
}

-- `amount, ok := SetString(t.Amount, 10)`, and 0 where it is no number.
abbrev pub amount_of : Bytes → ℤ
amount_of text = elim (parse text) [ none ↦ pos 0 | some z ↦ z ]

-- `m[id] = batch` makes the map longer if the key is new.
abbrev pub grown : Option ZkBatch → ℕ → ℕ
grown none n = suc n
grown (some _) n = n

module _ (h : Mimc) where
  -- `mimcHash(a, b, c)`
  unfoldable pub mimc_hash3 : ℤ → ℤ → ℤ → ℤ
  unfolding fr
  mimc_hash3 a b c = pos (h.sum (fr h a ∷ fr h b ∷ fr h c ∷ []))

  unfoldable pub next_deposit_hash : StateTransition → ℤ → ℤ
  unfolding mimc_hash3 parse
  next_deposit_hash t acc =
      if t.op_type == op_deposit
      then mimc_hash3 acc (pos t.taker_base.index) (amount_of t.amount)
      else acc

  unfoldable pub next_withdrawal_hash : StateTransition → ℤ → ℤ
  unfolding mimc_hash3 parse
  next_withdrawal_hash t acc =
      if t.op_type == op_withdraw
      then mimc_hash3 acc (pos t.maker_base.index) (amount_of t.amount)
      else acc

  -- The batch with one more transition; the first one sets the old root.
  unfoldable pub extend_batch : StateTransition → Bytes → Bytes → ZkBatch → ZkBatch
  extend_batch t old_root new_root b = record b {
    old_root = if length b.transitions == 0 then old_root else b.old_root;
    transitions = b.transitions ++ t ∷ [];
    new_root = new_root;
  }

  -- The full batch, with the hashes as decimal text.
  unfoldable pub sealed_batch : Batcher → ZkBatch
  unfolding print
  sealed_batch b = record (b.current_batch) {
    withdrawal_hash = print b.current_withdrawal_hash;
    deposit_hash = print b.current_deposit_hash;
  }

  -- It is stored under its id, and the next one starts empty.
  unfoldable pub seal : Batcher → Batcher
  unfolding sealed_batch
  seal b =
      let id = b.current_batch.batch_id in
      let counter = (b.batch_counter + 1) % 2 ^ 64 in
      record {
        current_batch = fresh_batch counter;
        latest_batch = some (sealed_batch b);
        batch_counter = counter;
        batch_history = λ i. if i == id then some (sealed_batch b) else b.batch_history i;
        history_size = grown (b.batch_history id) b.history_size;
        current_deposit_hash = pos 0;
        current_withdrawal_hash = pos 0;
      }

  unfoldable pub append_transition : StateTransition → Bytes → Bytes → Batcher → Batcher
  unfolding extend_batch next_deposit_hash next_withdrawal_hash
  append_transition t old_root new_root b = record b {
    current_batch = extend_batch t old_root new_root b.current_batch;
    current_deposit_hash = next_deposit_hash t b.current_deposit_hash;
    current_withdrawal_hash = next_withdrawal_hash t b.current_withdrawal_hash;
  }

  -- `AddTransition`
  unfoldable pub add_transition : StateTransition → Bytes → Bytes → Batcher → Batcher
  unfolding append_transition seal
  add_transition t old_root new_root b =
      let b' = append_transition t old_root new_root b in
      if length b'.current_batch.transitions == batch_size then seal b' else b'

-- `GetLatestBatch`, `GetBatch`, `GetBatchCount`, `GetCurrentBatchSize`
abbrev pub get_latest_batch : Batcher → Option ZkBatch
get_latest_batch b = b.latest_batch

abbrev pub get_batch : ℕ → Batcher → Option ZkBatch
get_batch id b = b.batch_history id

abbrev pub get_batch_count : Batcher → ℕ
get_batch_count b = b.history_size

abbrev pub get_current_batch_size : Batcher → ℕ
get_current_batch_size b = length b.current_batch.transitions
