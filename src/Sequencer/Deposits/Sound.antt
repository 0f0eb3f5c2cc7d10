-- ===== src/Sequencer/Deposits/Sound.antt =====
-- A deposit, and the opening of an account, keep the tree, the balances and the batches together.
use nowa_zk.Base.{
  ℕ, ◌+◌, ◌^◌, ◌<◌, ◌≡◌, refl, sym, ◌∙◌, ap, subst, some, arith, inl, inr, Option-cases,
}
use nowa_zk.Base.Bytes.{Bytes, trim_0x}
use nowa_zk.Base.Bytes.Decimal.{print}
use nowa_zk.Base.Int.{ℤ, pos}
use nowa_zk.Mimc.{Mimc}
use nowa_zk.Types.{BalanceState, StateUpdate}
use nowa_zk.State.{Db, get_balance, set_balance, db_root, get_account_id, leaf_index}
use nowa_zk.State.Leaf.{IsInTree, IsSynced, set_balance-IsSynced}
use nowa_zk.Batcher.Sealing.{IsValid, add_transition-IsValid}
use nowa_zk.Batcher.Chain.{IsChained, add_transition-IsChained}
use nowa_zk.Sequencer.{Points, World, lab_credit, decode_pub_key_xy, opened_account, credit}
use nowa_zk.Sequencer.Deposits.{
  DepositEvent, compress_pub_key_hex, or_new_account, pre_image, genesis_update, book_deposit,
  credit_deposit, process_deposit, open_balance,
}

module _ (h : Mimc) where
  -- The tree holds the balances, the batches are valid, and the transitions so far end at the root
  -- of the tree.
  pub record IsSound (w : World) : Type 0 where
    pub synced : IsSynced h w.db
    pub batches : IsValid h w.batcher
    pub chained : IsChained (print (pos (db_root h w.db))) w.batcher

  -- A key is given an id without a change of the tree.
  pub get_account_id-IsSynced :
      (key : Bytes) (db : Db) → IsSynced h db → IsSynced h (get_account_id key db).1
  unfolding get_account_id
  get_account_id-IsSynced key db y = elim (Option-cases (db.account_ids (trim_0x key))) [
    | inl e ↦
        rw (e, get_account_id)
          (record {
            leaves = y.leaves;
            nodes = y.nodes;
            stored = y.stored;
            small = y.small;
            keyed = y.keyed;
          })
    | inr (id, e) ↦ rw (e, get_account_id) y
  ]

  same_root : (key : Bytes) (db : Db) → db_root h (get_account_id key db).1 ≡ db_root h db
  unfolding get_account_id
  same_root key db = elim (Option-cases (db.account_ids (trim_0x key))) [
    | inl e ↦ rw (e, get_account_id) refl
    | inr (id, e) ↦ rw (e, get_account_id) refl
  ]

  pub get_account_id-IsSound :
      (key : Bytes) (w : World)
      → IsSound w
      → IsSound (record w { db = (get_account_id key w.db).1 })
  get_account_id-IsSound key w s = record {
    synced = get_account_id-IsSynced key w.db s.synced;
    batches = s.batches;
    chained = subst (λ n. IsChained (print (pos n)) w.batcher) (sym (same_root key w.db)) s.chained;
  }

  same_balance :
      (key : Bytes) (db : Db) (a t : ℕ)
      → get_balance a t (get_account_id key db).1 ≡ get_balance a t db
  unfolding get_account_id
  same_balance key db a t = elim (Option-cases (db.account_ids (trim_0x key))) [
    | inl e ↦ rw (e, get_account_id) refl
    | inr (id, e) ↦ rw (e, get_account_id) refl
  ]

  book_deposit-IsSound :
      (before : Db) (acc : BalanceState) (amount x y : ℤ) (u : StateUpdate) (w : World)
      → db_root h before ≡ db_root h w.db
      → IsSound w
      → IsInTree acc.account_id acc.token_id
      → w.batcher.batch_counter + 1 < 2 ^ 64
      → IsSound (book_deposit h before acc amount x y u w)
  unfolding book_deposit
  book_deposit-IsSound before acc amount x y u w e s r room = record {
    synced = set_balance-IsSynced h acc w.db s.synced r;
    batches = add_transition-IsValid h _ _ _ w.batcher s.batches room;
    chained =
        add_transition-IsChained h _ _ _ w.batcher s.batches
          (subst (λ n. IsChained (print (pos n)) w.batcher) (sym e) s.chained);
  }

  -- The account that is credited is the one that was looked up.
  or_new_account-ids :
      (event : DepositEvent) (id : ℕ) (db : Db)
      → IsSynced h db
      → let acc = or_new_account event id (get_balance id event.token_id db) in
        (acc.account_id ≡ id) × (acc.token_id ≡ event.token_id)
  or_new_account-ids event id db s = elim (Option-cases (get_balance id event.token_id db)) [
    | inl e ↦ rw e (refl, refl)
    | inr (acc, e) ↦ rw e (s.keyed id event.token_id acc e)
  ]

  stored_new :
      (acc : BalanceState) (db : Db)
      → get_balance acc.account_id acc.token_id (set_balance h acc db) ≡ some acc
  unfolding set_balance
  stored_new acc db = ground arith

  credit_deposit-IsSound :
      (event : DepositEvent) (id : ℕ) (before : Db) (w : World)
      → db_root h before ≡ db_root h w.db
      → IsSound w
      → IsInTree id event.token_id
      → w.batcher.batch_counter + 1 < 2 ^ 64
      → let w' = credit_deposit h event id before w in
        IsSound w'
        × (get_balance id event.token_id w'.db
            ≡ some (
                credit (or_new_account event id (get_balance id event.token_id w.db)) event.amount))
  unfolding credit_deposit book_deposit
  credit_deposit-IsSound event id before w e s r room =
      let acc = or_new_account event id (get_balance id event.token_id w.db) in
      let (same_id, same_token) = or_new_account-ids event id w.db s.synced in
      (
        book_deposit-IsSound before (credit acc event.amount) event.amount event.pub_key_x
            event.pub_key_y
            (pre_image h w.db (leaf_index id event.token_id) (get_balance id event.token_id w.db)) w
            e s
            (record {
              account = omega (arith, r.account, same_id);
              token = omega (arith, r.token, same_token);
            })
            room,
        ap (λ a. get_balance a event.token_id (set_balance h (credit acc event.amount) w.db))
              (sym same_id)
            ∙ ap (λ t. get_balance acc.account_id t (set_balance h (credit acc event.amount) w.db))
                (sym same_token)
            ∙ stored_new (credit acc event.amount) w.db,
      )

  module _ (pts : Points) (event : DepositEvent) (pub_hex : Bytes) (w : World) (s : IsSound w)
      (known : compress_pub_key_hex pts event.pub_key_x event.pub_key_y ≡ some pub_hex) where
    abbrev credited : ℕ → Db → World
    credited id db = credit_deposit h event id w.db (record w { db = db })

    -- Where the depositor's key is a point, its account and token have room in the tree and the
    -- batch counter has room, a deposit keeps the world sound, and the leaf of the account and
    -- the token holds what it held before, or the new account, and the amount on top.
    pub process_deposit-IsSound :
        let (id, db) = get_account_id pub_hex w.db in
        IsInTree id event.token_id
        → w.batcher.batch_counter + 1 < 2 ^ 64
        → let w' = process_deposit h pts event w in
          IsSound w'
          × (get_balance id event.token_id w'.db
              ≡ some (
                  credit
                    (or_new_account event id (get_balance id event.token_id w.db))
                    event.amount))
    unfolding process_deposit
    process_deposit-IsSound r room =
        let (id, db) = get_account_id pub_hex w.db in
        rw (known, process_deposit)
          (subst
            (λ o.
              IsSound (credited id db)
              × (get_balance id event.token_id (credited id db).db
                  ≡ some (credit (or_new_account event id o) event.amount)))
            (same_balance pub_hex w.db id event.token_id)
            (credit_deposit-IsSound event id w.db (record w { db = db })
              (sym (same_root pub_hex w.db)) (get_account_id-IsSound pub_hex w s) r room))

  module _ (pts : Points) (key : Bytes) (token : ℕ) (w : World) (s : IsSound w) where
    -- Opening an account, whether it is there already, is new or its key does not decode, keeps the
    -- world sound where the account and token have room in the tree and the batch counter has
    -- room, and a balance that is returned is the one stored.
    pub open_balance-IsSound :
        let (id, db) = get_account_id key w.db in
        IsInTree id token
        → w.batcher.batch_counter + 1 < 2 ^ 64
        → let (found, w') = open_balance h pts key token w in
          IsSound w'
          × ((acc : BalanceState) → found ≡ some acc → get_balance id token w'.db ≡ some acc)
    unfolding open_balance
    open_balance-IsSound r room =
        let (id, db) = get_account_id key w.db in
        let s' = get_account_id-IsSound key w s in
        elim (Option-cases (get_balance id token db)) [
          | inr (acc, e) ↦ rw (e, open_balance) (s', λ acc' f. e ∙ f)
          | inl e ↦ elim (Option-cases (decode_pub_key_xy pts key)) [
            | inl f ↦ rw (e, f, open_balance) (s', λ acc' f. ground arith)
            | inr (xy, f) ↦
                rw (e, f, open_balance)
                  (
                    book_deposit-IsSound db (opened_account id token xy) lab_credit xy.0 xy.1
                        (genesis_update h db (leaf_index id token)) (record w { db = db }) refl s' r
                        room,
                    λ acc' g. stored_new (opened_account id token xy) db ∙ g,
                  )
          ]
        ]
