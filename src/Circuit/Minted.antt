-- ===== src/Circuit/Minted.antt =====
-- A first deposit satisfies `processOperation`: the circuit accepts the transition, arrives at the
-- sequencer's root and extends the hash of the deposits.
use nowa_zk.Base.{ℕ, ◌^◌, ◌<◌, ◌≡◌, refl, subst, sym, ◌∙◌, ap, [], ◌∷◌, none, some, true, arith}
use nowa_zk.Base.Options.{◌>>=◌}
use nowa_zk.Base.Bytes.Decimal.{parse-print}
use nowa_zk.Base.Int.{ℤ, pos}
use nowa_zk.Mimc.{Mimc, fr-pos}
use nowa_zk.State.{Db, db_root, set_balance, leaf_index, get_balance}
use nowa_zk.State.Leaf.{IsInTree, IsSynced, leaf_index_parts, set_balance-IsSynced}
use nowa_zk.Sequencer.{credit}
use nowa_zk.Sequencer.Deposits.{
  no_signature, new_account, genesis_update, deposit_transition, no_signature,
}
use nowa_zk.Circuit.Frontend.{Api, Eddsa, PublicKey, Signature}
use nowa_zk.Circuit.{
  Operation, Acc, dummy_key, dummy_sig, dummy_msg, flags_of, valid_op, conditional_verify,
  update_state, process_flagged, process_operation, message_hash,
}
use nowa_zk.Circuit.Assign.{assign_operation, assign_sig}
use nowa_zk.Circuit.Leg.{key_of}
use nowa_zk.Circuit.Deposit.{
  zero_update, deposit_flags, assign_update-zero, credit_leg-inactive, debit_leg-inactive,
  credit_leg-genesis,
}

module _ (h : Mimc) (api : Api h) (eddsa : Eddsa) where
  flags_of-deposit : flags_of h api eddsa 3 ≡ deposit_flags
  flags_of-deposit =
      let big = h.modulus_large in
      let trade =
        api.is_zero_other _ (api.sub_differs 3 0 (omega arith) (omega arith) (omega arith)) in
      let transfer =
        api.is_zero_other _ (api.sub_differs 3 1 (omega arith) (omega arith) (omega arith)) in
      let withdrawal =
        api.is_zero_other _ (api.sub_differs 3 2 (omega arith) (omega arith) (omega arith)) in
      let same : api.sub 3 3 ≡ 0 = api.sub_exact 3 3 (omega arith) (omega arith) in
      rw (trade, transfer, withdrawal, same, api.is_zero_zero) refl

  valid_op-deposit : valid_op h api eddsa deposit_flags ≡ 1
  valid_op-deposit =
      let none_yet : api.or 0 0 ≡ 0 = api.or_right 0 (omega arith) in
      let deposit : api.or 0 1 ≡ 1 = api.or_right 1 (omega arith) in
      ap (λ v. api.or (api.or v 0) 1) none_yet ∙ ap (λ v. api.or v 1) none_yet ∙ deposit

  module _ (dummy_valid : eddsa.verify dummy_sig dummy_msg dummy_key ≡ true) where
    conditional_verify-inactive :
        (key : PublicKey) (sig : Signature) (msg : ℕ)
        → conditional_verify h api eddsa 0 key sig msg ≡ some tt
    unfolding conditional_verify
    conditional_verify-inactive key sig msg =
        rw
          (
            api.select_zero key.x dummy_key.x,
            api.select_zero key.y dummy_key.y,
            api.select_zero sig.r_x dummy_sig.r_x,
            api.select_zero sig.r_y dummy_sig.r_y,
            api.select_zero sig.s dummy_sig.s,
            api.select_zero msg dummy_msg,
            dummy_valid,
          )
          refl

    module _ (db : Db) (id token : ℕ) (x y : ℤ) (amount : ℕ) (s : IsSynced h db)
        (r : IsInTree id token) (absent : get_balance id token db ≡ none)
        (lt : amount < 2 ^ 252) where
      abbrev pub after : Db
      after = set_balance h (credit (new_account id token x y) (pos amount)) db

      -- What `generateProof` makes of the transition.
      abbrev deposit_operation : Operation
      deposit_operation = record {
        op_type = 3;
        amount = amount;
        quote_amount = 0;
        maker_pub_key = record { x = 0; y = 0 };
        maker_sig = assign_sig h eddsa no_signature;
        maker_base = zero_update h after 99 0;
        maker_quote = zero_update h after 99 0;
        taker_pub_key = key_of h (new_account id token x y);
        taker_sig = assign_sig h eddsa no_signature;
        taker_base = zero_update h db (leaf_index id token) 1;
        taker_quote = zero_update h after 99 0;
      }

      assign_operation-deposit :
          assign_operation h eddsa (
            deposit_transition h after (pos amount) x y (genesis_update h db (leaf_index id token)))
          ≡ some deposit_operation
      unfolding assign_operation deposit_transition
      assign_operation-deposit =
          let big = h.modulus_large in
          let (a, t, small) = leaf_index_parts id token r in
          let synced =
            set_balance-IsSynced h (credit (new_account id token x y) (pos amount)) db s r in
          rw
            (
              parse-print (pos amount),
              fr-pos h amount (omega arith),
              parse-print x,
              parse-print y,
              (assign_update-zero h api eddsa after 99 synced (omega arith)).0,
              (assign_update-zero h api eddsa db (leaf_index id token) s (omega arith)).1,
              fr-pos h 0 (omega arith),
              fr-pos h 3 (omega arith),
            )
            refl

      update_state-deposit :
          update_state h api eddsa deposit_flags deposit_operation (db_root h db)
          ≡ some (db_root h after)
      unfolding update_state
      update_state-deposit =
          let big = h.modulus_large in
          let key = deposit_operation.maker_pub_key in
          let off : api.sub 1 1 ≡ 0 = api.sub_exact 1 1 (omega arith) (omega arith) in
          let on : api.sub 1 0 ≡ 1 = api.sub_exact 1 0 (omega arith) (omega arith) in
          rw
            (
              off,
              debit_leg-inactive h api eddsa after 99 key amount
                  (api.add 0 (api.sub 0 (api.mul 0 0))) (db_root h db),
              credit_leg-inactive h api eddsa after 99 key 0 (db_root h db),
              on,
              credit_leg-genesis h api eddsa db id token x y amount s r absent lt,
            )
            (debit_leg-inactive h api eddsa after 99 deposit_operation.taker_pub_key 0 0
              (db_root h after))

      abbrev deposited : Acc → Acc
      deposited acc = record acc {
        root = db_root h after;
        deposit_hash = h.sum (acc.deposit_hash ∷ leaf_index id token ∷ amount ∷ []);
      }

      process_flagged-deposit :
          (acc : Acc)
          → acc.root ≡ db_root h db
          → process_flagged h api eddsa deposit_flags deposit_operation acc ≡ some (deposited acc)
      unfolding process_flagged
      process_flagged-deposit acc e =
          let op = deposit_operation in
          let msg = message_hash h api eddsa 3 op.maker_pub_key op.maker_base op.maker_quote in
          let maker_skipped =
            subst
              (λ a. conditional_verify h api eddsa a op.maker_pub_key op.maker_sig msg ≡ some tt)
              (sym (api.sub_exact 1 1 (omega arith) (omega arith)))
              (conditional_verify-inactive op.maker_pub_key op.maker_sig msg) in
          let taker_msg =
            message_hash h api eddsa 3 op.taker_pub_key op.taker_base op.taker_quote in
          rw
            (
              process_flagged,
              valid_op-deposit,
              api.equal_self 1,
              maker_skipped,
              conditional_verify-inactive op.taker_pub_key op.taker_sig taker_msg,
              api.select_zero (h.sum (acc.withdrawal_hash ∷ 99 ∷ amount ∷ [])) acc.withdrawal_hash,
              api.select_one (h.sum (acc.deposit_hash ∷ leaf_index id token ∷ amount ∷ []))
                  acc.deposit_hash,
            )
            (ap (λ o. o >>= λ root. some (record (deposited acc) { root = root }))
              (subst
                (λ root.
                  update_state h api eddsa deposit_flags deposit_operation root
                  ≡ some (db_root h after))
                (sym e) update_state-deposit))

      -- The transition of a deposit on a leaf that was never written is assigned and passes
      -- `processOperation`: no constraint is violated, the root goes from the sequencer's root
      -- before the deposit to its root after it, and the deposit extends the hash of the deposits;
      -- where the tree holds the balances and has room for the leaf, the amount is below 2 ^ 252
      -- and the dummy signature is valid.
      pub process_operation-deposit :
          (acc : Acc)
          → acc.root ≡ db_root h db
          → (assign_operation h eddsa (
                deposit_transition h after
                  (pos amount)
                  x
                  y
                  (genesis_update h db (leaf_index id token)))
              >>= λ op. process_operation h api eddsa op acc)
            ≡ some (record acc {
              root = db_root h after;
              deposit_hash = h.sum (acc.deposit_hash ∷ leaf_index id token ∷ amount ∷ []);
            })
      unfolding process_operation
      process_operation-deposit acc e =
          let big = h.modulus_large in
          rw
            (
              assign_operation-deposit,
              api.fits amount 252 lt (omega arith),
              api.fits 0 252 (omega arith) (omega arith),
            )
            (subst (λ f. process_flagged h api eddsa f deposit_operation acc ≡ some (deposited acc))
              (sym flags_of-deposit) (process_flagged-deposit acc e))
