-- ===== src/Circuit/Steps.antt =====
-- Credits and debits of stored leaves in the circuit, and the flags of an operation.
use nowa_zk.Base.{ℕ, ◌+◌, ◌-◌, ◌≤◌, ◌<◌, ◌≡◌, refl, ◌∙◌, ap, some, arith}
use nowa_zk.Base.Int.{pos, ◌+ℤ◌, ◌-ℤ◌, +ℤ-pos, -ℤ-pos}
use nowa_zk.Mimc.{Mimc, fr, fr-pos}
use nowa_zk.Types.{BalanceState}
use nowa_zk.State.{Db, db_root, set_balance}
use nowa_zk.Sequencer.{debit, credit}
use nowa_zk.Circuit.Frontend.{Api, Eddsa}
use nowa_zk.Circuit.{Flags, credit_leg, debit_leg, flags_of, valid_op}
use nowa_zk.Circuit.Leg.{key_of, update_of, IsStored, check_old-stored, put_new-stored}

abbrev pub trade_flags : Flags
trade_flags = record { is_trade = 1; is_transfer = 0; is_withdrawal = 0; is_deposit = 0 }

module _ (h : Mimc) (api : Api h) (eddsa : Eddsa) where
  -- The types of operation as flags.
  pub flags_of-trade : flags_of h api eddsa 0 ≡ trade_flags
  flags_of-trade =
      let big = h.modulus_large in
      let zero_one =
        api.is_zero_other _ (api.sub_differs 0 1 (omega arith) (omega arith) (omega arith)) in
      let zero_two =
        api.is_zero_other _ (api.sub_differs 0 2 (omega arith) (omega arith) (omega arith)) in
      let zero_three =
        api.is_zero_other _ (api.sub_differs 0 3 (omega arith) (omega arith) (omega arith)) in
      let same : api.sub 0 0 ≡ 0 = api.sub_exact 0 0 (omega arith) (omega arith) in
      rw (same, api.is_zero_zero, zero_one, zero_two, zero_three) refl

  pub valid_op-trade : valid_op h api eddsa trade_flags ≡ 1
  valid_op-trade =
      let trade : api.or 1 0 ≡ 1 = api.or_left 0 (omega arith) in
      ap (λ v. api.or (api.or v 0) 0) trade ∙ ap (λ v. api.or v 0) trade ∙ trade

  -- A credit of an amount on a stored leaf.
  pub credit_leg-stored :
      (db : Db) (acc : BalanceState) (balance amount : ℕ)
      → IsStored h db acc
      → acc.balance ≡ pos balance
      → balance + amount < h.modulus
      → credit_leg h api eddsa 1 (update_of h db acc) (key_of h acc) amount (db_root h db)
        ≡ some (db_root h (set_balance h (credit acc (pos amount)) db))
  unfolding credit_leg
  credit_leg-stored db acc balance amount s e lt =
      let sum : api.add (fr h acc.balance) amount ≡ fr h (acc.balance +ℤ pos amount) =
        rw
          (e, +ℤ-pos balance amount, fr-pos h balance (omega arith), fr-pos h (balance + amount) lt)
          (api.add_exact balance amount lt) in
      rw (check_old-stored h api eddsa db acc s, api.select_one amount 0, sum)
        (put_new-stored h api eddsa db acc (acc.balance +ℤ pos amount) s)

  -- A debit that the balance covers.
  pub debit_leg-stored :
      (db : Db) (acc : BalanceState) (balance amount : ℕ)
      → IsStored h db acc
      → acc.balance ≡ pos balance
      → amount ≤ balance
      → balance < h.modulus
      → debit_leg h api eddsa 1
          (update_of h db acc)
          (key_of h acc)
          amount
          (fr h (pos acc.nonce))
          (db_root h db)
        ≡ some (db_root h (set_balance h (debit acc (pos amount)) db))
  unfolding debit_leg
  debit_leg-stored db acc balance amount s e le lt =
      let is_fr : fr h acc.balance ≡ balance = rw (e, fr-pos h balance lt) refl in
      let difference : api.sub balance amount ≡ fr h (acc.balance -ℤ pos amount) =
        rw (e, -ℤ-pos balance amount le, fr-pos h (balance - amount) (omega arith))
          (api.sub_exact balance amount le lt) in
      rw
        (
          check_old-stored h api eddsa db acc s,
          api.select_one amount 0,
          is_fr,
          api.less_or_equal amount balance le lt,
          difference,
        )
        (put_new-stored h api eddsa db acc (acc.balance -ℤ pos amount) s)
