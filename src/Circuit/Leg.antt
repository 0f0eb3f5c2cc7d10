-- ===== src/Circuit/Leg.antt =====
-- One leg of an operation on a leaf that the sequencer stores: what is published of it satisfies
-- the circuit's constraints, and the circuit's new root is the sequencer's.
use nowa_zk.Base.{
  false, ◌&&◌, ◌==◌, ℕ, ◌*◌, ◌≤◌, ◌<◌, ◌≡◌, refl, subst, sym, ◌∙◌, ap, All, none, some, arith,
}
use nowa_zk.Base.Bytes.Decimal.{parse-print}
use nowa_zk.Base.Int.{ℤ, pos}
use nowa_zk.Mimc.{Mimc, fr, fr-pos}
use nowa_zk.Types.{BalanceState}
use nowa_zk.Merkle.Proof.{fold_path, get_path_shape, get_path_small}
use nowa_zk.State.{
  Db, tree_depth, leaf_index, balance_leaf, hash_account_leaf, set_balance, get_balance, db_root,
  db_path,
}
use nowa_zk.State.Leaf.{
  IsInTree, IsSynced, leaf_of, leaf_index_parts, set_balance-IsSynced, root-set_balance,
  db_path_proves,
}
use nowa_zk.Sequencer.{snapshot_update}
use nowa_zk.Circuit.Frontend.{Api, Eddsa, PublicKey}
use nowa_zk.Circuit.{Update, account_leaf, old_leaf_hash, check_old, put_new}
use nowa_zk.Circuit.Assign.{assign_update}
use nowa_zk.Circuit.Path.{merkle_root-fold_path, assign_texts-path_text, assign_numbers_lem}

-- The key of an account as field elements.
abbrev pub key_of : Mimc → BalanceState → PublicKey
key_of h acc = record { x = fr h acc.pub_key_x; y = fr h acc.pub_key_y }

-- The variables of a leaf that is stored.
abbrev pub update_of : Mimc → Db → BalanceState → Update
update_of h db acc =
    let index = leaf_index acc.account_id acc.token_id in
    record {
      index = index;
      balance = fr h acc.balance;
      nonce = fr h (pos acc.nonce);
      is_genesis = 0;
      path = (db_path h db index).0;
      path_bits = (db_path h db index).1;
    }

module _ (h : Mimc) where
  -- The account is stored, and the tree has its leaf.
  pub record IsStored (db : Db) (acc : BalanceState) : Type 0 where
    pub synced : IsSynced h db
    pub room : IsInTree acc.account_id acc.token_id
    pub held : get_balance acc.account_id acc.token_id db ≡ some acc

  -- A write on another leaf.
  pub IsStored-set_balance :
      (db : Db) (acc x : BalanceState)
      → IsStored db acc
      → IsInTree x.account_id x.token_id
      → (acc.account_id == x.account_id) && (acc.token_id == x.token_id) ≡ false
      → IsStored (set_balance h x db) acc
  unfolding set_balance
  IsStored-set_balance db acc x s r e = record {
    synced = set_balance-IsSynced h x db s.synced r;
    room = s.room;
    held = rw e s.held;
  }

  pub path_bits_small : (db : Db) (index : ℕ) → All (λ b. b ≤ 1) (db_path h db index).1
  path_bits_small db index = (get_path_shape h db.nodes tree_depth 0 index).2

  pub path_small :
      (db : Db) (index : ℕ) → IsSynced h db → All (λ n. n < h.modulus) (db_path h db index).0
  path_small db index s =
      get_path_small h tree_depth db.nodes s.leaves s.nodes s.small tree_depth 0 index (omega arith)

  -- What `generateProof` reads from the snapshot of a leaf.
  pub assign_update-snapshot_update :
      (eddsa : Eddsa) (db : Db) (acc : BalanceState)
      → IsSynced h db
      → IsInTree acc.account_id acc.token_id
      → assign_update h eddsa (snapshot_update h db acc) ≡ some (update_of h db acc)
  unfolding assign_update snapshot_update
  assign_update-snapshot_update eddsa db acc s r =
      let index = leaf_index acc.account_id acc.token_id in
      let big = h.modulus_large in
      let (a, t, lt) = leaf_index_parts acc.account_id acc.token_id r in
      let small : index < h.modulus = omega arith in
      rw
        (
          parse-print acc.balance,
          assign_texts-path_text h eddsa (db_path h db index).0 (path_small db index s),
          assign_numbers_lem h eddsa (db_path h db index).1 (path_bits_small db index),
          fr-pos h index small,
        )
        refl

  index_as_is :
      (acc : BalanceState)
      → IsInTree acc.account_id acc.token_id
      → fr h (pos (leaf_index acc.account_id acc.token_id)) ≡ leaf_index acc.account_id acc.token_id
  index_as_is acc r =
      let big = h.modulus_large in
      let (a, t, lt) = leaf_index_parts acc.account_id acc.token_id r in
      fr-pos h (leaf_index acc.account_id acc.token_id) (omega arith)

  module _ (api : Api h) (eddsa : Eddsa) where
    -- The circuit's leaf is the sequencer's.
    pub account_leaf-balance_leaf :
        (acc : BalanceState)
        → IsInTree acc.account_id acc.token_id
        → account_leaf h api eddsa
            (leaf_index acc.account_id acc.token_id)
            (key_of h acc)
            (fr h acc.balance)
            (fr h (pos acc.nonce))
          ≡ balance_leaf h acc
    unfolding balance_leaf hash_account_leaf
    account_leaf-balance_leaf acc r =
        ap
          (λ i. account_leaf h api eddsa i (key_of h acc) (fr h acc.balance) (fr h (pos acc.nonce)))
          (sym (index_as_is acc r))

    pub mul_zero : (b : ℕ) → api.mul 0 b ≡ 0
    mul_zero b =
        let big = h.modulus_large in
        let none_left : 0 * b ≡ 0 = omega arith in api.mul_exact 0 b (omega arith) ∙ none_left

    old_leaf_hash-held :
        (db : Db) (acc : BalanceState)
        → IsInTree acc.account_id acc.token_id
        → old_leaf_hash h api eddsa (update_of h db acc) (key_of h acc) ≡ some (balance_leaf h acc)
    unfolding old_leaf_hash
    old_leaf_hash-held db acc r =
        rw
          (
            api.boolean_bit 0 (omega arith),
            mul_zero (fr h acc.balance),
            mul_zero (fr h (pos acc.nonce)),
            api.equal_self 0,
            api.select_zero 0 (
                account_leaf h api eddsa (leaf_index acc.account_id acc.token_id) (key_of h acc)
                  (fr h acc.balance) (fr h (pos acc.nonce))),
            account_leaf-balance_leaf acc r,
          )
          refl

    -- The published path of a stored leaf passes the inclusion check against the root.
    pub check_old-stored :
        (db : Db) (acc : BalanceState)
        → IsStored db acc
        → check_old h api eddsa 1 (update_of h db acc) (key_of h acc) (db_root h db) ≡ some tt
    unfolding check_old
    check_old-stored db acc s =
        let index = leaf_index acc.account_id acc.token_id in
        let proves : fold_path h (balance_leaf h acc) (db_path h db index).0 (db_path h db index).1
            ≡ db_root h db =
          subst
            (λ o.
              fold_path h (elim (leaf_of h o) [ none ↦ 0 | some v ↦ v ]) (db_path h db index).0
                (db_path h db index).1
              ≡ db_root h db)
            s.held (db_path_proves h acc.account_id acc.token_id db s.synced s.room) in
        rw
          (
            old_leaf_hash-held db acc s.room,
            merkle_root-fold_path h api eddsa (db_path h db index).0 (db_path h db index).1
                (balance_leaf h acc) (path_bits_small db index),
            proves,
            api.select_one (db_root h db) (db_root h db),
            api.equal_self (db_root h db),
          )
          refl

    -- The circuit's root with the new leaf is the root of the sequencer's tree after the write.
    pub put_new-stored :
        (db : Db) (acc : BalanceState) (balance : ℤ)
        → IsStored db acc
        → put_new h api eddsa 1
            (update_of h db acc)
            (key_of h acc)
            (fr h balance)
            (fr h (pos acc.nonce))
            (db_root h db)
          ≡ some (db_root h (set_balance h (record acc { balance = balance }) db))
    unfolding put_new
    put_new-stored db acc balance s =
        let index = leaf_index acc.account_id acc.token_id in
        let acc' : BalanceState = record acc { balance = balance } in
        let after = db_root h (set_balance h acc' db) in
        rw
          (
            account_leaf-balance_leaf acc' s.room,
            merkle_root-fold_path h api eddsa (db_path h db index).0 (db_path h db index).1
                (balance_leaf h acc') (path_bits_small db index),
            ← root-set_balance h acc' db s.synced s.room,
            api.select_one after (db_root h db),
          )
          refl
