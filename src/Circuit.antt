-- ===== src/Circuit.antt =====
-- prover/circuits/state_circuit.go: the constraints on a batch, evaluated on an assignment of field
-- elements. A result of `none` is an assignment that violates a constraint. What gnark gives
-- (`frontend.API`, the in-circuit MiMC and EdDSA) are parameters: `Frontend` and `Eddsa`.
pub mod Frontend
pub mod Assign
pub mod Path
pub mod Leg
pub mod Steps
pub mod Trade
pub mod Settled
pub mod Deposit
pub mod Minted
pub mod Hashes
mod Tests
use nowa_zk.Base.{ℕ, ◌+◌, Bool, true, false, Option, none, some, List, [], ◌∷◌}
use nowa_zk.Base.Options.{◌>>=◌, ◌>>◌, guard}
use nowa_zk.Mimc.{Mimc}
use nowa_zk.Circuit.Frontend.{Api, Eddsa, PublicKey, Signature}

abbrev pub op_trade : ℕ
op_trade = 0

abbrev pub op_transfer : ℕ
op_transfer = 1

abbrev pub op_withdrawal : ℕ
op_withdrawal = 2

abbrev pub op_deposit : ℕ
op_deposit = 3

abbrev pub merkle_depth : ℕ
merkle_depth = 28

abbrev pub batch_size : ℕ
batch_size = 25

-- `StateUpdate` of the circuit.
pub record Update : Type 0 where
  pub index : ℕ
  pub balance : ℕ
  pub nonce : ℕ
  pub is_genesis : ℕ
  pub path : List ℕ
  pub path_bits : List ℕ

pub record Operation : Type 0 where
  pub op_type : ℕ
  pub amount : ℕ
  pub quote_amount : ℕ
  pub maker_pub_key : PublicKey
  pub maker_sig : Signature
  pub maker_base : Update
  pub maker_quote : Update
  pub taker_pub_key : PublicKey
  pub taker_sig : Signature
  pub taker_base : Update
  pub taker_quote : Update

-- `StateTransitionCircuit`
pub record StateTransitionCircuit : Type 0 where
  pub old_root : ℕ
  pub new_root : ℕ
  pub withdrawal_hash : ℕ
  pub deposit_hash : ℕ
  pub ops : List Operation

-- The dummy signature of the source, always valid.
abbrev pub dummy_key : PublicKey
dummy_key = record {
  x = 10298319502295528021229850954227631805200385207603455133709476095367371825263;
  y = 2504327762688954486123660800211611946128639234034449816647673413157039235394;
}

abbrev pub dummy_sig : Signature
dummy_sig = record {
  r_x = 19615509352750535901637443802064826507464158183993156839337785904648430343214;
  r_y = 14649913852925992635033550000810266724942332423222322031248971935568823466398;
  s = 1567003771490820873806856620396274719304459608209466000889389818739844298687;
}

abbrev pub dummy_msg : ℕ
dummy_msg = 1

-- The four tests on the operation's type.
pub record Flags : Type 0 where
  pub is_trade : ℕ
  pub is_transfer : ℕ
  pub is_withdrawal : ℕ
  pub is_deposit : ℕ

-- Where the accumulators stand.
pub record Acc : Type 0 where
  pub root : ℕ
  pub withdrawal_hash : ℕ
  pub deposit_hash : ℕ

module _ (h : Mimc) (api : Api h) (eddsa : Eddsa) where
  -- `accountLeaf`
  abbrev pub account_leaf : ℕ → PublicKey → ℕ → ℕ → ℕ
  account_leaf index key balance nonce = h.sum (index ∷ key.x ∷ key.y ∷ balance ∷ nonce ∷ [])

  -- `oldLeafHash`
  unfoldable pub old_leaf_hash : Update → PublicKey → Option ℕ
  old_leaf_hash u key = do
    guard (api.assert_is_boolean u.is_genesis)
    guard (api.assert_is_equal (api.mul u.is_genesis u.balance) 0)
    guard (api.assert_is_equal (api.mul u.is_genesis u.nonce) 0)
    api.select u.is_genesis 0 (account_leaf u.index key u.balance u.nonce)

  -- `merkleRoot`
  unfoldable pub merkle_root : ℕ → List ℕ → List ℕ → Option ℕ
  merkle_root cur [] bits = some cur
  merkle_root cur (s ∷ path) [] = some cur
  merkle_root cur (s ∷ path) (b ∷ bits) = do
    left ← api.select b s cur
    right ← api.select b cur s
    merkle_root (h.sum (left ∷ right ∷ [])) path bits

  -- `rangeCheck`
  abbrev pub range_check : ℕ → Option (Unit {0})
  range_check v = guard (api.to_binary v 252)

  -- `conditionalVerify`
  unfoldable pub conditional_verify : ℕ → PublicKey → Signature → ℕ → Option (Unit {0})
  conditional_verify active key sig msg = do
    a_x ← api.select active key.x dummy_key.x
    a_y ← api.select active key.y dummy_key.y
    r_x ← api.select active sig.r_x dummy_sig.r_x
    r_y ← api.select active sig.r_y dummy_sig.r_y
    s ← api.select active sig.s dummy_sig.s
    m ← api.select active msg dummy_msg
    guard (eddsa.verify (record { r_x = r_x; r_y = r_y; s = s }) m (record { x = a_x; y = a_y }))

  -- The inclusion of the old leaf, asserted if the leg is active.
  unfoldable pub check_old : ℕ → Update → PublicKey → ℕ → Option (Unit {0})
  unfolding old_leaf_hash merkle_root
  check_old active u key root = do
    old_leaf ← old_leaf_hash u key
    old_root ← merkle_root old_leaf u.path u.path_bits
    seen ← api.select active old_root root
    guard (api.assert_is_equal seen root)

  -- The root with the new leaf, if the leg is active.
  unfoldable pub put_new : ℕ → Update → PublicKey → ℕ → ℕ → ℕ → Option ℕ
  unfolding merkle_root
  put_new active u key balance nonce root = do
    new_root ← merkle_root (account_leaf u.index key balance nonce) u.path u.path_bits
    api.select active new_root root

  -- Legs B and C of the state updates: a credit.
  unfoldable pub credit_leg : ℕ → Update → PublicKey → ℕ → ℕ → Option ℕ
  unfolding check_old put_new
  credit_leg active u key amount root = do
    check_old active u key root
    moved ← api.select active amount 0
    put_new active u key (api.add u.balance moved) u.nonce root

  -- Legs A and D: a debit that the balance must cover.
  unfoldable pub debit_leg : ℕ → Update → PublicKey → ℕ → ℕ → ℕ → Option ℕ
  unfolding check_old put_new
  debit_leg active u key amount nonce root = do
    check_old active u key root
    moved ← api.select active amount 0
    guard (api.assert_is_less_or_equal moved u.balance)
    put_new active u key (api.sub u.balance moved) nonce root

  abbrev pub flags_of : ℕ → Flags
  flags_of op_type = record {
    is_trade = api.is_zero (api.sub op_type op_trade);
    is_transfer = api.is_zero (api.sub op_type op_transfer);
    is_withdrawal = api.is_zero (api.sub op_type op_withdrawal);
    is_deposit = api.is_zero (api.sub op_type op_deposit);
  }

  abbrev pub valid_op : Flags → ℕ
  valid_op f = api.or (api.or (api.or f.is_trade f.is_transfer) f.is_withdrawal) f.is_deposit

  -- The hash that a party signs: no amount is in it.
  abbrev pub message_hash : ℕ → PublicKey → Update → Update → ℕ
  message_hash op_type key base quote =
      h.sum (op_type ∷ key.x ∷ key.y ∷ base.index ∷ quote.index ∷ [])

  -- The four legs of the state update.
  unfoldable pub update_state : Flags → Operation → ℕ → Option ℕ
  unfolding credit_leg debit_leg
  update_state f op root = do
    let maker_active = api.sub 1 f.is_deposit
    let nonce = api.add op.maker_base.nonce (api.sub maker_active (api.mul maker_active f.is_trade))
    root1 ← debit_leg maker_active op.maker_base op.maker_pub_key op.amount nonce root
    root2 ← credit_leg f.is_trade op.maker_quote op.maker_pub_key op.quote_amount root1
    root3 ← credit_leg (api.sub 1 f.is_withdrawal) op.taker_base op.taker_pub_key op.amount root2
    debit_leg f.is_trade op.taker_quote op.taker_pub_key op.quote_amount op.taker_quote.nonce root3

  -- `processOperation` with the tests on the type made.
  unfoldable pub process_flagged : Flags → Operation → Acc → Option Acc
  unfolding conditional_verify update_state
  process_flagged f op acc = do
    guard (api.assert_is_equal (valid_op f) 1)
    conditional_verify (api.sub 1 f.is_deposit) op.maker_pub_key op.maker_sig
        (message_hash op.op_type op.maker_pub_key op.maker_base op.maker_quote)
    conditional_verify f.is_trade op.taker_pub_key op.taker_sig
        (message_hash op.op_type op.taker_pub_key op.taker_base op.taker_quote)
    withdrawal_hash ←
        api.select f.is_withdrawal
          (h.sum (acc.withdrawal_hash ∷ op.maker_base.index ∷ op.amount ∷ [])) acc.withdrawal_hash
    deposit_hash ←
        api.select f.is_deposit (h.sum (acc.deposit_hash ∷ op.taker_base.index ∷ op.amount ∷ []))
          acc.deposit_hash
    root ← update_state f op acc.root
    some (record { root = root; withdrawal_hash = withdrawal_hash; deposit_hash = deposit_hash })

  -- `processOperation`
  unfoldable pub process_operation : Operation → Acc → Option Acc
  unfolding process_flagged
  process_operation op acc = do
    range_check op.amount
    range_check op.quote_amount
    process_flagged (flags_of op.op_type) op acc

  -- The loop of `Define`.
  unfoldable pub process_all : List Operation → Acc → Option Acc
  unfolding process_operation
  process_all [] acc = some acc
  process_all (op ∷ ops) acc = do acc' ← process_operation op acc; process_all ops acc'

  -- `Define`
  unfoldable pub define : StateTransitionCircuit → Option (Unit {0})
  unfolding process_all
  define c = do
    end ← process_all c.ops (record { root = c.old_root; withdrawal_hash = 0; deposit_hash = 0 })
    guard (api.assert_is_equal end.root c.new_root)
    guard (api.assert_is_equal end.withdrawal_hash c.withdrawal_hash)
    guard (api.assert_is_equal end.deposit_hash c.deposit_hash)
