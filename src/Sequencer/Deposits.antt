-- ===== src/Sequencer/Deposits.antt =====
-- sequencer/cmd/sequencer/deposit_watcher.go: a deposit seen on L1 is minted on its leaf, and
-- sequencer/internal/api/account.go: the lab credit of a new account, booked as a deposit.
pub mod Sound
use nowa_zk.Base.{
  ℕ, ◌+◌, ◌^◌, ◌≡◌, refl, Bool, true, false, Option, none, some, List, [], ◌∷◌, ◌++◌, arith, inl,
  inr, ◌⊎◌, Option-cases,
}
use nowa_zk.Base.Bytes.{Bytes, hex_encode, codes}
use nowa_zk.Base.Bytes.Decimal.{print}
use nowa_zk.Base.Int.{ℤ, pos, ◌+ℤ◌}
use nowa_zk.Mimc.{Mimc}
use nowa_zk.Types.{BalanceState, StateUpdate, StateTransition}
use nowa_zk.State.{Db, leaf_index, get_balance, set_balance, db_root, db_path, get_account_id}
use nowa_zk.Batcher.{add_transition, op_deposit}
use nowa_zk.Sequencer.{
  Points, World, empty_state_update, snapshot_update, lab_credit, decode_pub_key_xy, opened_account,
  credit,
}

-- `NowaRollupDeposit`, the fields that are read.
pub record DepositEvent : Type 0 where
  pub token_id : ℕ
  pub pub_key_x : ℤ
  pub pub_key_y : ℤ
  pub amount : ℤ

-- `compressPubKeyHex`
abbrev pub compress_pub_key_hex : Points → ℤ → ℤ → Option Bytes
compress_pub_key_hex pts x y = elim (pts.compress x y) [
  | none ↦ none
  | some raw ↦ some (codes "0x" ++ hex_encode raw)
]

-- "0x" and 64 zeros
abbrev pub no_signature : Bytes
no_signature = codes "0x0000000000000000000000000000000000000000000000000000000000000000"

abbrev pub new_account : ℕ → ℕ → ℤ → ℤ → BalanceState
new_account id token x y = record {
  account_id = id;
  token_id = token;
  pub_key_x = x;
  pub_key_y = y;
  balance = pos 0;
  nonce = 0;
}

abbrev pub or_new_account : DepositEvent → ℕ → Option BalanceState → BalanceState
or_new_account event id none = new_account id event.token_id event.pub_key_x event.pub_key_y
or_new_account event id (some acc) = acc

module _ (h : Mimc) where
  -- The transition of a deposit: only the leg of the depositor's base is active.
  unfoldable pub deposit_transition : Db → ℤ → ℤ → ℤ → StateUpdate → StateTransition
  unfolding print empty_state_update
  deposit_transition db amount x y taker_base = record {
    op_type = op_deposit;
    amount = print amount;
    quote_amount = print (pos 0);
    maker_pub_key_x = print (pos 0);
    maker_pub_key_y = print (pos 0);
    maker_sig = no_signature;
    maker_base = empty_state_update h db 99;
    maker_quote = empty_state_update h db 99;
    taker_pub_key_x = print x;
    taker_pub_key_y = print y;
    taker_sig = no_signature;
    taker_base = taker_base;
    taker_quote = empty_state_update h db 99;
  }

  -- The pre-image of a leaf that was never written.
  abbrev pub genesis_update : Db → ℕ → StateUpdate
  genesis_update db index = record (empty_state_update h db index) { is_genesis = true }

  -- The write of the leaf and the transition for the batch, from the database before and the
  -- pre-image of the leaf.
  unfoldable pub book_deposit : Db → BalanceState → ℤ → ℤ → ℤ → StateUpdate → World → World
  unfolding deposit_transition set_balance
  book_deposit before acc amount x y taker_base w =
      let db' = set_balance h acc w.db in
      record {
        db = db';
        batcher =
            add_transition h (deposit_transition db' amount x y taker_base)
              (print (pos (db_root h before))) (print (pos (db_root h db'))) w.batcher;
      }

  -- The leaf as it is: absent, or with the balance and the nonce that are stored.
  abbrev pub pre_image : Db → ℕ → Option BalanceState → StateUpdate
  pre_image db index none = genesis_update db index
  pre_image db index (some acc) = record (empty_state_update h db index) {
    balance = print acc.balance;
    nonce = acc.nonce;
  }

  -- `processDeposit` once the account is known.
  unfoldable pub credit_deposit : DepositEvent → ℕ → Db → World → World
  unfolding book_deposit
  credit_deposit event id before w =
      let existing = get_balance id event.token_id w.db in
      book_deposit before (credit (or_new_account event id existing) event.amount) event.amount
        event.pub_key_x event.pub_key_y (pre_image w.db (leaf_index id event.token_id) existing) w

  -- `processDeposit`: a key that is no point is skipped.
  unfoldable pub process_deposit : Points → DepositEvent → World → World
  unfolding get_account_id credit_deposit
  process_deposit pts event w = elim (compress_pub_key_hex pts event.pub_key_x event.pub_key_y) [
    | none ↦ w
    | some pub_hex ↦
        let (id, db) = get_account_id pub_hex w.db in
        credit_deposit event id w.db (record w { db = db })
  ]

  -- `openBalance`: the account, or `none` for an error. The batcher is there unless the server is
  -- misconfigured.
  unfoldable pub open_balance : Points → Bytes → ℕ → World → Option BalanceState × World
  unfolding get_account_id decode_pub_key_xy book_deposit
  open_balance pts pub_key_hex token w =
      let (id, db) = get_account_id pub_key_hex w.db in
      elim (get_balance id token db) [
        | some acc ↦ (some acc, record w { db = db })
        | none ↦ elim (decode_pub_key_xy pts pub_key_hex) [
          | none ↦ (none, record w { db = db })
          | some (x, y) ↦
              let acc = opened_account id token (x, y) in
              (
                some acc,
                book_deposit db acc lab_credit x y (genesis_update db (leaf_index id token))
                    (record w { db = db }),
              )
        ]
      ]
