-- ===== src/Circuit/Deposit.antt =====
-- The legs of a first deposit in the circuit: those that are not active constrain nothing, and the
-- leaf that was never written is proved as the tree's zero.
use nowa_zk.Base.{ℕ, ◌+◌, ◌^◌, ◌<◌, ◌≡◌, refl, subst, sym, ◌∙◌, ap, none, some, arith}
use nowa_zk.Base.Int.{ℤ, pos, +ℤ-pos}
use nowa_zk.Mimc.{Mimc, fr, fr-pos}
use nowa_zk.Merkle.Proof.{fold_path}
use nowa_zk.State.{Db, db_root, db_path, set_balance, leaf_index, get_balance, balance_leaf}
use nowa_zk.State.Leaf.{IsInTree, IsSynced, leaf_of, root-set_balance, db_path_proves}
use nowa_zk.Sequencer.{credit, empty_state_update}
use nowa_zk.Sequencer.Deposits.{new_account, genesis_update}
use nowa_zk.Circuit.Frontend.{Api, Eddsa, PublicKey}
use nowa_zk.Circuit.{
  Update, Flags, account_leaf, old_leaf_hash, check_old, put_new, credit_leg, debit_leg,
}
use nowa_zk.Circuit.Assign.{assign_update}
use nowa_zk.Circuit.Path.{merkle_root-fold_path, assign_texts-path_text, assign_numbers_lem}
use nowa_zk.Circuit.Leg.{key_of, path_bits_small, path_small, mul_zero, account_leaf-balance_leaf}

-- The variables of an update with balance and nonce 0.
abbrev pub zero_update : Mimc → Db → ℕ → ℕ → Update
zero_update h db index is_genesis = record {
  index = index;
  balance = 0;
  nonce = 0;
  is_genesis = is_genesis;
  path = (db_path h db index).0;
  path_bits = (db_path h db index).1;
}

abbrev pub deposit_flags : Flags
deposit_flags = record { is_trade = 0; is_transfer = 0; is_withdrawal = 0; is_deposit = 1 }

module _ (h : Mimc) (api : Api h) (eddsa : Eddsa) where
  pub assign_update-zero :
      (db : Db) (index : ℕ)
      → IsSynced h db
      → index < h.modulus
      → (assign_update h eddsa (empty_state_update h db index) ≡ some (zero_update h db index 0))
        × (assign_update h eddsa (genesis_update h db index) ≡ some (zero_update h db index 1))
  unfolding assign_update empty_state_update
  assign_update-zero db index s lt =
      let big = h.modulus_large in
      let texts = assign_texts-path_text h eddsa (db_path h db index).0 (path_small h db index s) in
      let bits = assign_numbers_lem h eddsa (db_path h db index).1 (path_bits_small h db index) in
      let zero = fr-pos h 0 (omega arith) in
      (
        rw (texts, bits, fr-pos h index lt, zero) refl,
        rw (texts, bits, fr-pos h index lt, zero) refl,
      )

  -- A leg that is not active succeeds whatever the root.
  check_old-inactive :
      (db : Db) (index : ℕ) (key : PublicKey) (root : ℕ)
      → check_old h api eddsa 0 (zero_update h db index 0) key root ≡ some tt
  unfolding check_old old_leaf_hash
  check_old-inactive db index key root =
      let u = zero_update h db index 0 in
      let leaf = account_leaf h api eddsa index key 0 0 in
      rw
        (
          api.boolean_bit 0 (omega arith),
          mul_zero h api eddsa 0,
          api.equal_self 0,
          api.select_zero 0 leaf,
          merkle_root-fold_path h api eddsa u.path u.path_bits leaf (path_bits_small h db index),
          api.select_zero (fold_path h leaf u.path u.path_bits) root,
          api.equal_self root,
        )
        refl

  put_new-inactive :
      (db : Db) (index : ℕ) (key : PublicKey) (balance nonce root : ℕ)
      → put_new h api eddsa 0 (zero_update h db index 0) key balance nonce root ≡ some root
  unfolding put_new
  put_new-inactive db index key balance nonce root =
      let u = zero_update h db index 0 in
      let leaf = account_leaf h api eddsa index key balance nonce in
      rw
        (
          merkle_root-fold_path h api eddsa u.path u.path_bits leaf (path_bits_small h db index),
          api.select_zero (fold_path h leaf u.path u.path_bits) root,
        )
        refl

  pub credit_leg-inactive :
      (db : Db) (index : ℕ) (key : PublicKey) (amount root : ℕ)
      → credit_leg h api eddsa 0 (zero_update h db index 0) key amount root ≡ some root
  unfolding credit_leg
  credit_leg-inactive db index key amount root =
      rw (check_old-inactive db index key root, api.select_zero amount 0)
        (put_new-inactive db index key _ 0 root)

  pub debit_leg-inactive :
      (db : Db) (index : ℕ) (key : PublicKey) (amount nonce root : ℕ)
      → debit_leg h api eddsa 0 (zero_update h db index 0) key amount nonce root ≡ some root
  unfolding debit_leg
  debit_leg-inactive db index key amount nonce root =
      let big = h.modulus_large in
      rw
        (
          check_old-inactive db index key root,
          api.select_zero amount 0,
          api.less_or_equal 0 0 (omega arith) (omega arith),
        )
        (put_new-inactive db index key _ nonce root)

  -- A leaf that was never written passes the inclusion check as 0.
  check_old-genesis :
      (db : Db) (id token : ℕ) (key : PublicKey)
      → IsSynced h db
      → IsInTree id token
      → get_balance id token db ≡ none
      → check_old h api eddsa 1 (zero_update h db (leaf_index id token) 1) key (db_root h db)
        ≡ some tt
  unfolding check_old old_leaf_hash
  check_old-genesis db id token key s r absent =
      let big = h.modulus_large in
      let index = leaf_index id token in
      let u = zero_update h db index 1 in
      let leaf = account_leaf h api eddsa index key 0 0 in
      let one : api.mul 1 0 ≡ 0 = api.mul_exact 1 0 (omega arith) in
      let proves : fold_path h 0 u.path u.path_bits ≡ db_root h db =
        subst
          (λ o.
            fold_path h (elim (leaf_of h o) [ none ↦ 0 | some v ↦ v ]) u.path u.path_bits
            ≡ db_root h db)
          absent (db_path_proves h id token db s r) in
      rw
        (
          api.boolean_bit 1 (omega arith),
          one,
          api.equal_self 0,
          api.select_one 0 leaf,
          merkle_root-fold_path h api eddsa u.path u.path_bits 0 (path_bits_small h db index),
          proves,
          api.select_one (db_root h db) (db_root h db),
          api.equal_self (db_root h db),
        )
        refl

  -- The leg of the depositor.
  pub credit_leg-genesis :
      (db : Db) (id token : ℕ) (x y : ℤ) (amount : ℕ)
      → IsSynced h db
      → IsInTree id token
      → get_balance id token db ≡ none
      → amount < 2 ^ 252
      → credit_leg h api eddsa 1
          (zero_update h db (leaf_index id token) 1)
          (key_of h (new_account id token x y))
          amount
          (db_root h db)
        ≡ some (db_root h (set_balance h (credit (new_account id token x y) (pos amount)) db))
  unfolding credit_leg put_new
  credit_leg-genesis db id token x y amount s r absent lt =
      let big = h.modulus_large in
      let index = leaf_index id token in
      let acc = credit (new_account id token x y) (pos amount) in
      let key = key_of h acc in
      let u = zero_update h db index 1 in
      let sum : api.add 0 amount ≡ amount =
        api.add_exact 0 amount (omega arith) ∙ (let e : 0 + amount ≡ amount = omega arith in e) in
      let is_amount : fr h acc.balance ≡ amount =
        ap (fr h) (+ℤ-pos 0 amount)
        ∙ fr-pos h (0 + amount) (omega arith)
        ∙ (let e : 0 + amount ≡ amount = omega arith in e) in
      let leaf : account_leaf h api eddsa index key amount 0 ≡ balance_leaf h acc =
        ap (λ b. account_leaf h api eddsa index key b 0) (sym is_amount)
        ∙ ap (λ n. account_leaf h api eddsa index key (fr h acc.balance) n)
            (sym (fr-pos h 0 (omega arith)))
        ∙ account_leaf-balance_leaf h api eddsa acc r in
      let after = db_root h (set_balance h acc db) in
      rw
        (
          check_old-genesis db id token key s r absent,
          api.select_one amount 0,
          sum,
          leaf,
          merkle_root-fold_path h api eddsa u.path u.path_bits (balance_leaf h acc)
              (path_bits_small h db index),
          ← root-set_balance h acc db s r,
          api.select_one after (db_root h db),
        )
        refl
