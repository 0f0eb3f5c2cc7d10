-- ===== src/Sequencer.antt =====
-- sequencer/cmd/sequencer/main.go: the settlement of matched trades. The trades of the channel
-- are applied one after the other to the accounts, and each that is applied becomes a transition
-- of the current batch.
pub mod Deposits
pub mod Settle
pub mod SelfTrade
mod Tests
use nowa_zk.Base.{
  ℕ, ◌+◌, Bool, true, false, ◌||◌, Option, none, some, List, [], ◌∷◌, map, ◌==◌, if◌then◌else◌,
}
use nowa_zk.Base.Bytes.{Bytes, trim_0x, hex_decode}
use nowa_zk.Base.Bytes.Decimal.{print}
use nowa_zk.Base.Int.{ℤ, pos, ◌+ℤ◌, ◌-ℤ◌, ◌*ℤ◌, ltb_ℤ}
use nowa_zk.Base.Options.{◌>>=◌}
use nowa_zk.Mimc.{Mimc}
use nowa_zk.Types.{BalanceState, Order, Trade, StateUpdate, StateTransition}
use nowa_zk.State.{Db, leaf_index, get_balance, set_balance, db_root, db_path, get_account_id}
use nowa_zk.Batcher.{Batcher, add_transition, op_trade}

-- gnark-crypto's points: `PublicKey.SetBytes`, and `IsOnCurve` with the compressed `Bytes`.
pub record Points : Type 0 where
  pub set_bytes : Bytes → Option (ℤ × ℤ)
  pub compress : ℤ → ℤ → Option Bytes

-- What the goroutines share.
pub record World : Type 0 where
  pub db : Db
  pub batcher : Batcher

-- "lab credit until L1 deposit path is used"
abbrev pub lab_credit : ℤ
lab_credit = pos 1_000_000

-- `decodePubKeyXY`; `none` is an error.
unfoldable pub decode_pub_key_xy : Points → Bytes → Option (ℤ × ℤ)
decode_pub_key_xy pts pub_key_hex = do raw ← hex_decode (trim_0x pub_key_hex); pts.set_bytes raw

-- A key that does not decode is taken as (0, 0).
abbrev pub or_zeros : Option (ℤ × ℤ) → ℤ × ℤ
or_zeros none = (pos 0, pos 0)
or_zeros (some xy) = xy

abbrev pub opened_account : ℕ → ℕ → ℤ × ℤ → BalanceState
opened_account id token xy = record {
  account_id = id;
  token_id = token;
  pub_key_x = xy.0;
  pub_key_y = xy.1;
  balance = lab_credit;
  nonce = 0;
}

module _ (h : Mimc) where
  -- `getOrCreateBalance`
  unfoldable pub get_or_create_balance : Points → Bytes → ℕ → Db → BalanceState × Db
  unfolding decode_pub_key_xy
  get_or_create_balance pts pub_key_hex token db =
      let (id, db') = get_account_id pub_key_hex db in
      elim (get_balance id token db') [
        | some acc ↦ (acc, db')
        | none ↦
            let acc = opened_account id token (or_zeros (decode_pub_key_xy pts pub_key_hex)) in
            (acc, set_balance h acc db')
      ]

  -- The path of a leaf as decimal text, and its bits.
  abbrev pub path_text : List ℕ → List Bytes
  path_text = map (λ n. print (pos n))

  -- `getEmptyStateUpdate`, and `inactiveLegUpdate` of internal/api/account.go
  unfoldable pub empty_state_update : Db → ℕ → StateUpdate
  unfolding print
  empty_state_update db index =
      let (path, bits) = db_path h db index in
      record {
        index = index;
        balance = print (pos 0);
        nonce = 0;
        path = path_text path;
        path_bits = bits;
        is_genesis = false;
      }

  -- `snapshotUpdate`
  unfoldable pub snapshot_update : Db → BalanceState → StateUpdate
  unfolding print leaf_index
  snapshot_update db acc =
      let index = leaf_index acc.account_id acc.token_id in
      let (path, bits) = db_path h db index in
      record {
        index = index;
        balance = print acc.balance;
        nonce = acc.nonce;
        path = path_text path;
        path_bits = bits;
        is_genesis = false;
      }

-- `quoteTokenForBook`
unfoldable pub quote_token_for_book : ℕ → ℕ
quote_token_for_book base = if base == 1 then 2 else 1

-- The seller's and the buyer's order, if there is one of each.
unfoldable pub orient : Trade → Option (Order × Order)
orient trade =
    if trade.maker_order.is_buy
    then (if trade.taker_order.is_buy then none else some (trade.taker_order, trade.maker_order))
    else (if trade.taker_order.is_buy then some (trade.maker_order, trade.taker_order) else none)

abbrev pub is_empty : Bytes → Bool
is_empty [] = true
is_empty (c ∷ s) = false

abbrev pub debit : BalanceState → ℤ → BalanceState
debit acc amount = record acc { balance = acc.balance -ℤ amount }

abbrev pub credit : BalanceState → ℤ → BalanceState
credit acc amount = record acc { balance = acc.balance +ℤ amount }

-- The four leaves of a trade, as loaded before any of them is written.
pub record Parties : Type 0 where
  pub seller_base : BalanceState
  pub seller_quote : BalanceState
  pub buyer_base : BalanceState
  pub buyer_quote : BalanceState

pub data Applied : Type 0 where
  applied skipped : Applied

module _ (h : Mimc) where
  -- The databases after each of the four writes, in the order of the circuit.
  abbrev pub after_seller_base : Parties → ℤ → Db → Db
  after_seller_base p amount db = set_balance h (debit p.seller_base amount) db

  abbrev pub after_seller_quote : Parties → ℤ → ℤ → Db → Db
  after_seller_quote p amount quote db =
      set_balance h (credit p.seller_quote quote) (after_seller_base p amount db)

  abbrev pub after_buyer_base : Parties → ℤ → ℤ → Db → Db
  after_buyer_base p amount quote db =
      set_balance h (credit p.buyer_base amount) (after_seller_quote p amount quote db)

  abbrev pub after_buyer_quote : Parties → ℤ → ℤ → Db → Db
  after_buyer_quote p amount quote db =
      set_balance h (debit p.buyer_quote quote) (after_buyer_base p amount quote db)

  -- The transition: each leg's snapshot is taken before its write.
  unfoldable pub trade_transition : Order → Order → Parties → ℤ → ℤ → Db → StateTransition
  unfolding print snapshot_update
  trade_transition sell buy p amount quote db = record {
    op_type = 0;
    amount = print amount;
    quote_amount = print quote;
    maker_pub_key_x = print p.seller_base.pub_key_x;
    maker_pub_key_y = print p.seller_base.pub_key_y;
    maker_sig = sell.circuit_signature;
    maker_base = snapshot_update h db p.seller_base;
    maker_quote = snapshot_update h (after_seller_base p amount db) p.seller_quote;
    taker_pub_key_x = print p.buyer_base.pub_key_x;
    taker_pub_key_y = print p.buyer_base.pub_key_y;
    taker_sig = buy.circuit_signature;
    taker_base = snapshot_update h (after_seller_quote p amount quote db) p.buyer_base;
    taker_quote = snapshot_update h (after_buyer_base p amount quote db) p.buyer_quote;
  }

  -- From the two checks on the balances to the end of `applyTrade`.
  unfoldable pub settle : Order → Order → Parties → ℤ → ℤ → World → Applied × World
  unfolding trade_transition print set_balance
  settle sell buy p amount quote w =
      if ltb_ℤ p.seller_base.balance amount
      then (skipped, w)
      else (if ltb_ℤ p.buyer_quote.balance quote
          then (skipped, w)
          else (let db' = after_buyer_quote p amount quote w.db in
              (
                applied,
                record {
                  db = db';
                  batcher =
                      add_transition h (trade_transition sell buy p amount quote w.db)
                        (print (pos (db_root h w.db))) (print (pos (db_root h db'))) w.batcher;
                },
              )))

  -- The four `getOrCreateBalance`.
  unfoldable pub load_parties : Points → Order → Order → ℕ → ℕ → Db → Parties × Db
  unfolding get_or_create_balance
  load_parties pts sell buy base quote db =
      let (seller_base, db1) = get_or_create_balance h pts sell.maker_address base db in
      let (seller_quote, db2) = get_or_create_balance h pts sell.maker_address quote db1 in
      let (buyer_base, db3) = get_or_create_balance h pts buy.maker_address base db2 in
      let (buyer_quote, db4) = get_or_create_balance h pts buy.maker_address quote db3 in
      (
        record {
          seller_base = seller_base;
          seller_quote = seller_quote;
          buyer_base = buyer_base;
          buyer_quote = buyer_quote;
        },
        db4,
      )

  -- The quote token, also for two orders on different tokens.
  abbrev pub quote_token : Order → Order → ℕ
  quote_token sell buy =
      if sell.token_id == buy.token_id then quote_token_for_book sell.token_id else buy.token_id

  abbrev pub apply_oriented : Points → Order → Order → Trade → World → Applied × World
  apply_oriented pts sell buy trade w =
      if is_empty sell.circuit_signature || is_empty buy.circuit_signature
      then (skipped, w)
      else (let (p, db) = load_parties pts sell buy sell.token_id (quote_token sell buy) w.db in
          settle sell buy p trade.match_amount (trade.match_amount *ℤ trade.match_price)
            (record w { db = db }))

  -- `applyTrade`
  unfoldable pub apply_trade : Points → Trade → World → Applied × World
  unfolding orient load_parties settle quote_token_for_book
  apply_trade pts trade w = elim (orient trade) [
    | none ↦ (skipped, w)
    | some (sell, buy) ↦ apply_oriented pts sell buy trade w
  ]

  -- The goroutine that drains the channel.
  unfoldable pub apply_all : Points → List Trade → World → World
  unfolding apply_trade
  apply_all pts [] w = w
  apply_all pts (trade ∷ trades) w = apply_all pts trades (apply_trade pts trade w).1
