-- ===== src/Replay.antt =====
-- sequencer/cmd/reconstruct-proof/replay.go: the arithmetic of the published transitions applied
-- again to a tree. A step returns whether it ended without an error, and the database, which keeps
-- what was written before an error.
pub mod Trades
pub mod Mint
pub mod Batches
mod Tests
use nowa_zk.Base.{
  ℕ, ◌+◌, ◌/◌, ◌%◌, ◌^◌, Bool, true, false, not, Option, none, some, List, [], ◌∷◌, ◌==◌,
  if◌then◌else◌,
}
use nowa_zk.Base.Bytes.{Bytes}
use nowa_zk.Base.Bytes.Decimal.{parse}
use nowa_zk.Base.Int.{ℤ, pos, ◌+ℤ◌, ◌-ℤ◌, ltb_ℤ}
use nowa_zk.Mimc.{Mimc}
use nowa_zk.Types.{BalanceState, StateUpdate, StateTransition}
use nowa_zk.State.{Db, set_balance}

abbrev pub op_trade : ℕ
op_trade = 0

abbrev pub op_transfer : ℕ
op_transfer = 1

abbrev pub op_withdrawal : ℕ
op_withdrawal = 2

abbrev pub op_deposit : ℕ
op_deposit = 3

abbrev pub Step : Type 0
Step = Db → Bool × Db

-- `if err := first(); err != nil { return err }`, then the rest.
abbrev pub and_then : Step → Step → Step
and_then first rest db = let (ok, db') = first db in if ok then rest db' else (false, db')

-- A leg that is not active does nothing.
abbrev pub active : Bool → Step → Step
active is_active leg db = if is_active then leg db else (true, db)

abbrev pub neg : ℤ → ℤ
neg z = pos 0 -ℤ z

-- The leaf that `applyLeg` writes.
abbrev pub leg_account : StateUpdate → ℤ → ℤ → ℤ → ℕ → BalanceState
leg_account u x y balance nonce_delta = record {
  account_id = u.index / 256;
  token_id = (u.index % 256) % 2 ^ 32;
  pub_key_x = x;
  pub_key_y = y;
  balance = balance;
  nonce = (u.nonce + nonce_delta) % 2 ^ 64;
}

module _ (h : Mimc) where
  -- `applyLeg`
  unfoldable pub apply_leg : StateUpdate → Bytes → Bytes → ℤ → ℕ → Step
  unfolding parse set_balance
  apply_leg u x_text y_text delta nonce_delta db = elim (parse u.balance) [
    | none ↦ (false, db)
    | some old_balance ↦ elim (parse x_text) [
      | none ↦ (false, db)
      | some x ↦ elim (parse y_text) [
        | none ↦ (false, db)
        | some y ↦
            let balance = old_balance +ℤ delta in
            if ltb_ℤ balance (pos 0)
            then (false, db)
            else (true, set_balance h (leg_account u x y balance nonce_delta) db)
      ]
    ]
  ]

  -- The four legs, in order, once both amounts are read.
  unfoldable pub replay_legs : StateTransition → ℤ → ℤ → Step
  unfolding apply_leg
  replay_legs t amount quote_amount =
      let is_trade = t.op_type == op_trade in
      let maker_x = t.maker_pub_key_x in
      let maker_y = t.maker_pub_key_y in
      let taker_x = t.taker_pub_key_x in
      let taker_y = t.taker_pub_key_y in
      and_then
        (active (not (t.op_type == op_deposit))
          (apply_leg t.maker_base maker_x maker_y (neg amount) (if is_trade then 0 else 1)))
        (and_then (active is_trade (apply_leg t.maker_quote maker_x maker_y quote_amount 0)) (
          and_then
            (active (not (t.op_type == op_withdrawal))
              (apply_leg t.taker_base taker_x taker_y amount 0))
            (active is_trade (apply_leg t.taker_quote taker_x taker_y (neg quote_amount) 0))))

  -- `replayTransition`
  unfoldable pub replay_transition : StateTransition → Step
  unfolding replay_legs parse
  replay_transition t db = elim (parse t.amount) [
    | none ↦ (false, db)
    | some amount ↦ elim (parse t.quote_amount) [
      | none ↦ (false, db)
      | some quote_amount ↦ replay_legs t amount quote_amount db
    ]
  ]
