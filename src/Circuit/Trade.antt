-- ===== src/Circuit/Trade.antt =====
-- What a settled trade brings to the circuit: its leaves as they are stored step by step, and the
-- operation that `generateProof` assigns.
use nowa_zk.Base.{ℕ, ◌^◌, ◌≤◌, ◌<◌, ◌≡◌, refl, some, true, arith}
use nowa_zk.Base.Bytes.Decimal.{parse-print}
use nowa_zk.Base.Int.{pos}
use nowa_zk.Mimc.{Mimc, fr-pos}
use nowa_zk.Types.{BalanceState, Order}
use nowa_zk.State.{Db}
use nowa_zk.Sequencer.{
  Parties, debit, credit, after_seller_base, after_seller_quote, after_buyer_base,
  after_buyer_quote, trade_transition,
}
use nowa_zk.Sequencer.Settle.{IsDistinct}
use nowa_zk.Circuit.Frontend.{Api, Eddsa}
use nowa_zk.Circuit.{Operation, message_hash}
use nowa_zk.Circuit.Assign.{assign_operation, assign_sig}
use nowa_zk.Circuit.Leg.{
  key_of, update_of, IsStored, IsStored-set_balance, assign_update-snapshot_update,
}

-- A balance that is stored, not negative and far below the modulus.
pub record IsFunded (h : Mimc) (db : Db) (acc : BalanceState) (balance : ℕ) : Type 0 where
  pub stored : IsStored h db acc
  pub amount : acc.balance ≡ pos balance
  pub bound : balance < 2 ^ 252
  pub nonce : acc.nonce < 2 ^ 64

-- What a settled trade has when the parties' leaves are the stored ones and their signatures are
-- good: the amounts pass the range checks, and what pays is covered.
pub record IsProvable (h : Mimc) (api : Api h) (eddsa : Eddsa) (sell buy : Order) (p : Parties)
    (amount quote : ℕ) (db : Db) : Type 0 where
  pub distinct : IsDistinct p
  pub seller_base : ℕ
  pub seller_quote : ℕ
  pub buyer_base : ℕ
  pub buyer_quote : ℕ
  pub seller_base_in : IsFunded h db p.seller_base seller_base
  pub seller_quote_in : IsFunded h db p.seller_quote seller_quote
  pub buyer_base_in : IsFunded h db p.buyer_base buyer_base
  pub buyer_quote_in : IsFunded h db p.buyer_quote buyer_quote
  pub seller_key : key_of h p.seller_quote ≡ key_of h p.seller_base
  pub buyer_key : key_of h p.buyer_quote ≡ key_of h p.buyer_base
  pub amount_small : amount < 2 ^ 252
  pub quote_small : quote < 2 ^ 252
  pub seller_covered : amount ≤ seller_base
  pub buyer_covered : quote ≤ buyer_quote
  pub seller_signed :
      eddsa.verify
        (assign_sig h eddsa sell.circuit_signature)
        (message_hash h api eddsa 0
          (key_of h p.seller_base)
          (update_of h db p.seller_base)
          (update_of h db p.seller_quote))
        (key_of h p.seller_base)
      ≡ true
  pub buyer_signed :
      eddsa.verify
        (assign_sig h eddsa buy.circuit_signature)
        (message_hash h api eddsa 0
          (key_of h p.buyer_base)
          (update_of h db p.buyer_base)
          (update_of h db p.buyer_quote))
        (key_of h p.buyer_base)
      ≡ true

module _ (h : Mimc) (api : Api h) (eddsa : Eddsa) where
  module _ (sell buy : Order) (p : Parties) (amount quote : ℕ) (db : Db)
      (v : IsProvable h api eddsa sell buy p amount quote db) where
    abbrev pub db1 : Db
    db1 = after_seller_base h p (pos amount) db

    abbrev pub db2 : Db
    db2 = after_seller_quote h p (pos amount) (pos quote) db

    abbrev pub db3 : Db
    db3 = after_buyer_base h p (pos amount) (pos quote) db

    abbrev pub db4 : Db
    db4 = after_buyer_quote h p (pos amount) (pos quote) db

    pub stored1 : IsStored h db1 p.seller_quote
    stored1 =
        let n = v.distinct.tokens in
        IsStored-set_balance h db p.seller_quote (debit p.seller_base (pos amount))
          v.seller_quote_in.stored v.seller_base_in.stored.room (ground arith)

    pub stored2 : IsStored h db2 p.buyer_base
    stored2 =
        let n = v.distinct.accounts in
        let e = v.distinct.seller_ids in
        IsStored-set_balance h db1 p.buyer_base (credit p.seller_quote (pos quote))
          (IsStored-set_balance h db p.buyer_base (debit p.seller_base (pos amount))
            v.buyer_base_in.stored v.seller_base_in.stored.room (ground arith))
          v.seller_quote_in.stored.room (ground arith)

    pub stored3 : IsStored h db3 p.buyer_quote
    stored3 =
        let n = v.distinct.accounts in
        let t = v.distinct.tokens in
        let e = v.distinct.seller_ids in
        let e2 = v.distinct.buyer_ids in
        let e3 = v.distinct.base_ids in
        let e4 = v.distinct.quote_ids in
        IsStored-set_balance h db2 p.buyer_quote (credit p.buyer_base (pos amount))
          (IsStored-set_balance h db1 p.buyer_quote (credit p.seller_quote (pos quote))
            (IsStored-set_balance h db p.buyer_quote (debit p.seller_base (pos amount))
              v.buyer_quote_in.stored v.seller_base_in.stored.room (ground arith))
            v.seller_quote_in.stored.room (ground arith))
          v.buyer_base_in.stored.room (ground arith)

    -- What `generateProof` makes of the transition.
    abbrev pub trade_operation : Operation
    trade_operation = record {
      op_type = 0;
      amount = amount;
      quote_amount = quote;
      maker_pub_key = key_of h p.seller_base;
      maker_sig = assign_sig h eddsa sell.circuit_signature;
      maker_base = update_of h db p.seller_base;
      maker_quote = update_of h db1 p.seller_quote;
      taker_pub_key = key_of h p.buyer_base;
      taker_sig = assign_sig h eddsa buy.circuit_signature;
      taker_base = update_of h db2 p.buyer_base;
      taker_quote = update_of h db3 p.buyer_quote;
    }

    pub assign_operation-trade :
        assign_operation h eddsa (trade_transition h sell buy p (pos amount) (pos quote) db)
        ≡ some trade_operation
    unfolding assign_operation trade_transition
    assign_operation-trade =
        let big = h.modulus_large in
        let a = v.amount_small in
        let q = v.quote_small in
        rw
          (
            parse-print (pos amount),
            fr-pos h amount (omega arith),
            parse-print (pos quote),
            fr-pos h quote (omega arith),
            parse-print p.seller_base.pub_key_x,
            parse-print p.seller_base.pub_key_y,
            parse-print p.buyer_base.pub_key_x,
            parse-print p.buyer_base.pub_key_y,
            assign_update-snapshot_update h eddsa db p.seller_base v.seller_base_in.stored.synced
                v.seller_base_in.stored.room,
            assign_update-snapshot_update h eddsa db1 p.seller_quote stored1.synced stored1.room,
            assign_update-snapshot_update h eddsa db2 p.buyer_base stored2.synced stored2.room,
            assign_update-snapshot_update h eddsa db3 p.buyer_quote stored3.synced stored3.room,
            fr-pos h 0 (omega arith),
          )
          refl
