-- ===== src/Types.antt =====
-- sequencer/internal/types/types.go: the data that the sequencer's parts exchange. A `*big.Int`
-- is an integer; a text is a list of bytes, and an amount in a batch is decimal text, as in the
-- JSON that the prover reads.
use nowa_zk.Base.{ℕ, Bool, List}
use nowa_zk.Base.Bytes.{Bytes}
use nowa_zk.Base.Int.{ℤ}

pub record BalanceState : Type 0 where
  pub account_id : ℕ
  pub token_id : ℕ
  pub pub_key_x : ℤ
  pub pub_key_y : ℤ
  pub balance : ℤ
  pub nonce : ℕ

pub record Order : Type 0 where
  pub maker_address : Bytes
  pub token_id : ℕ
  pub amount : ℤ
  pub price : ℤ
  pub is_buy : Bool
  pub nonce : ℕ
  pub signature : Bytes
  pub circuit_signature : Bytes

-- `trade_id` is the reading of the clock that the code prints behind "tr_". The orders are copied
-- at the send; the code's copy of the maker shares the `Amount` pointer with the resting order,
-- and no reader of a trade looks at it.
pub record Trade : Type 0 where
  pub trade_id : ℕ
  pub maker_order : Order
  pub taker_order : Order
  pub match_price : ℤ
  pub match_amount : ℤ

pub record StateUpdate : Type 0 where
  pub index : ℕ
  pub balance : Bytes
  pub nonce : ℕ
  pub path : List Bytes
  pub path_bits : List ℕ
  pub is_genesis : Bool

pub record StateTransition : Type 0 where
  pub op_type : ℕ
  pub amount : Bytes
  pub quote_amount : Bytes
  pub maker_pub_key_x : Bytes
  pub maker_pub_key_y : Bytes
  pub maker_sig : Bytes
  pub maker_base : StateUpdate
  pub maker_quote : StateUpdate
  pub taker_pub_key_x : Bytes
  pub taker_pub_key_y : Bytes
  pub taker_sig : Bytes
  pub taker_base : StateUpdate
  pub taker_quote : StateUpdate

pub record ZkBatch : Type 0 where
  pub batch_id : ℕ
  pub old_root : Bytes
  pub new_root : Bytes
  pub withdrawal_hash : Bytes
  pub deposit_hash : Bytes
  pub transitions : List StateTransition
