-- ===== src/Circuit/Settled.antt =====
-- A trade that the sequencer settles satisfies `processOperation`: the circuit accepts the
-- transition and arrives at the sequencer's root.
use nowa_zk.Base.{ℕ, ◌+◌, ◌<◌, ◌≡◌, refl, subst, sym, ◌∙◌, ap, [], ◌∷◌, some, true, arith}
use nowa_zk.Base.Options.{◌>>=◌}
use nowa_zk.Base.Int.{pos}
use nowa_zk.Mimc.{Mimc, fr, fr-pos}
use nowa_zk.Types.{Order}
use nowa_zk.State.{Db, db_root}
use nowa_zk.Sequencer.{
  Parties, after_seller_base, after_seller_quote, after_buyer_base, after_buyer_quote,
  trade_transition,
}
use nowa_zk.Circuit.Frontend.{Api, Eddsa, PublicKey, Signature}
use nowa_zk.Circuit.{
  Operation, Acc, conditional_verify, update_state, process_flagged, process_operation,
  message_hash, credit_leg, debit_leg, dummy_key, dummy_sig, dummy_msg,
}
use nowa_zk.Circuit.Assign.{assign_operation, assign_sig}
use nowa_zk.Circuit.Leg.{key_of, update_of}
use nowa_zk.Circuit.Trade.{
  IsProvable, trade_operation as operation_of, assign_operation-trade, stored1, stored2, stored3,
}
use nowa_zk.Circuit.Steps.{
  flags_of-trade, trade_flags, valid_op-trade, credit_leg-stored, debit_leg-stored,
}

module _ (h : Mimc) (api : Api h) (eddsa : Eddsa) where
  conditional_verify-active :
      (key : PublicKey) (sig : Signature) (msg : ℕ)
      → eddsa.verify sig msg key ≡ true
      → conditional_verify h api eddsa 1 key sig msg ≡ some tt
  unfolding conditional_verify
  conditional_verify-active key sig msg e =
      rw
        (
          api.select_one key.x dummy_key.x,
          api.select_one key.y dummy_key.y,
          api.select_one sig.r_x dummy_sig.r_x,
          api.select_one sig.r_y dummy_sig.r_y,
          api.select_one sig.s dummy_sig.s,
          api.select_one msg dummy_msg,
          e,
        )
        refl

  module _ (sell buy : Order) (p : Parties) (amount quote : ℕ) (db : Db)
      (v : IsProvable h api eddsa sell buy p amount quote db) where
    abbrev db1 : Db
    db1 = after_seller_base h p (pos amount) db

    abbrev db2 : Db
    db2 = after_seller_quote h p (pos amount) (pos quote) db

    abbrev db3 : Db
    db3 = after_buyer_base h p (pos amount) (pos quote) db

    abbrev pub db4 : Db
    db4 = after_buyer_quote h p (pos amount) (pos quote) db

    abbrev trade_operation : Operation
    trade_operation = operation_of h api eddsa sell buy p amount quote db v

    update_state-trade :
        update_state h api eddsa trade_flags trade_operation (db_root h db) ≡ some (db_root h db4)
    unfolding update_state
    update_state-trade =
        let big = h.modulus_large in
        let small : p.seller_base.nonce < h.modulus = omega (arith, v.seller_base_in.nonce) in
        let nonce = fr h (pos p.seller_base.nonce) in
        let is_nonce : nonce ≡ p.seller_base.nonce = fr-pos h p.seller_base.nonce small in
        let active : api.sub 1 0 ≡ 1 = api.sub_exact 1 0 (omega arith) (omega arith) in
        let both : api.mul 1 1 ≡ 1 = api.mul_exact 1 1 (omega arith) in
        let no_step : api.sub 1 1 ≡ 0 = api.sub_exact 1 1 (omega arith) (omega arith) in
        let kept : api.add nonce 0 ≡ nonce =
          api.add_exact nonce 0 (omega arith) ∙ (let e : nonce + 0 ≡ nonce = omega arith in e) in
        let leg1 =
          debit_leg-stored h api eddsa db p.seller_base v.seller_base amount v.seller_base_in.stored
            v.seller_base_in.amount v.seller_covered (omega (arith, v.seller_base_in.bound)) in
        let leg2 =
          subst
            (λ k.
              credit_leg h api eddsa 1 (update_of h db1 p.seller_quote) k quote (db_root h db1)
              ≡ some (db_root h db2))
            v.seller_key
            (credit_leg-stored h api eddsa db1 p.seller_quote v.seller_quote quote
              (stored1 h api eddsa sell buy p amount quote db v) v.seller_quote_in.amount
              (omega (arith, v.seller_quote_in.bound, v.quote_small))) in
        let leg3 =
          credit_leg-stored h api eddsa db2 p.buyer_base v.buyer_base amount
            (stored2 h api eddsa sell buy p amount quote db v) v.buyer_base_in.amount
            (omega (arith, v.buyer_base_in.bound, v.amount_small)) in
        let leg4 =
          subst
            (λ k.
              debit_leg h api eddsa 1 (update_of h db3 p.buyer_quote) k quote
                (fr h (pos p.buyer_quote.nonce)) (db_root h db3)
              ≡ some (db_root h db4))
            v.buyer_key
            (debit_leg-stored h api eddsa db3 p.buyer_quote v.buyer_quote quote
              (stored3 h api eddsa sell buy p amount quote db v) v.buyer_quote_in.amount
              v.buyer_covered (omega (arith, v.buyer_quote_in.bound))) in
        rw (active, both, no_step, kept, leg1, leg2, leg3, leg4) refl

    process_flagged-trade :
        (acc : Acc)
        → acc.root ≡ db_root h db
        → process_flagged h api eddsa trade_flags trade_operation acc
          ≡ some (record acc { root = db_root h db4 })
    unfolding process_flagged
    process_flagged-trade acc e =
        let big = h.modulus_large in
        let op = trade_operation in
        let msg = message_hash h api eddsa 0 op.maker_pub_key op.maker_base op.maker_quote in
        let maker_verified =
          subst (λ a. conditional_verify h api eddsa a op.maker_pub_key op.maker_sig msg ≡ some tt)
            (sym (api.sub_exact 1 0 (omega arith) (omega arith)))
            (conditional_verify-active op.maker_pub_key op.maker_sig msg v.seller_signed) in
        rw
          (
            process_flagged,
            valid_op-trade h api eddsa,
            api.equal_self 1,
            maker_verified,
            conditional_verify-active (key_of h p.buyer_base)
                (assign_sig h eddsa buy.circuit_signature) _ v.buyer_signed,
            api.select_zero
                (h.sum (acc.withdrawal_hash ∷ trade_operation.maker_base.index ∷ amount ∷ []))
                acc.withdrawal_hash,
            api.select_zero
                (h.sum (acc.deposit_hash ∷ trade_operation.taker_base.index ∷ amount ∷ []))
                acc.deposit_hash,
          )
          (ap (λ o. o >>= λ root. some (record acc { root = root }))
            (subst
              (λ root.
                update_state h api eddsa trade_flags trade_operation root ≡ some (db_root h db4))
              (sym e) update_state-trade))

    -- The transition of a settled trade is assigned and passes `processOperation`: no constraint is
    -- violated, the root goes from the sequencer's root before the trade to its root after it, and
    -- the hashes of withdrawals and deposits stay; where the four leaves are different and stored,
    -- both leaves of an account bear its key, what pays is covered, the amounts and balances are
    -- below 2 ^ 252 and both signatures are good.
    pub process_operation-trade :
        (acc : Acc)
        → acc.root ≡ db_root h db
        → (assign_operation h eddsa (trade_transition h sell buy p (pos amount) (pos quote) db)
            >>= λ op. process_operation h api eddsa op acc)
          ≡ some (record acc { root = db_root h db4 })
    unfolding process_operation
    process_operation-trade acc e =
        let big = h.modulus_large in
        let a = v.amount_small in
        let q = v.quote_small in
        rw
          (
            assign_operation-trade h api eddsa sell buy p amount quote db v,
            api.fits amount 252 a (omega arith),
            api.fits quote 252 q (omega arith),
          )
          (subst
            (λ f.
              process_flagged h api eddsa f trade_operation acc
              ≡ some (record acc { root = db_root h db4 }))
            (sym (flags_of-trade h api eddsa)) (process_flagged-trade acc e))
