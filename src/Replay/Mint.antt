-- ===== src/Replay/Mint.antt =====
-- Replaying a published deposit writes the leaf that the sequencer wrote.
use nowa_zk.Base.{
  ℕ, ◌+◌, ◌/◌, ◌%◌, ◌^◌, ◌≡◌, refl, subst, sym, ◌∙◌, ap, true, Option, none, some, arith,
}
use nowa_zk.Base.Bytes.Decimal.{print, parse-print}
use nowa_zk.Base.Int.{ℤ, pos, ◌+ℤ◌, ◌≤ℤ◌}
use nowa_zk.Mimc.{Mimc}
use nowa_zk.Types.{BalanceState, StateUpdate}
use nowa_zk.State.{Db, leaf_index, set_balance, get_balance}
use nowa_zk.State.Leaf.{leaf_index_parts}
use nowa_zk.Sequencer.{World, credit, empty_state_update}
use nowa_zk.Sequencer.Deposits.{
  DepositEvent, or_new_account, pre_image, deposit_transition, credit_deposit, book_deposit,
}
use nowa_zk.Replay.{leg_account, apply_leg, replay_legs, replay_transition}
use nowa_zk.Replay.Trades.{IsLeaf, not_negative}

-- The account that the event credits: its leaf is the tree's, it bears the event's key, and it
-- does not become negative.
pub record IsCredited (event : DepositEvent) (id : ℕ) (acc : BalanceState) : Type 0 where
  pub leaf : IsLeaf acc
  pub same_id : acc.account_id ≡ id
  pub same_token : acc.token_id ≡ event.token_id
  pub key_x : acc.pub_key_x ≡ event.pub_key_x
  pub key_y : acc.pub_key_y ≡ event.pub_key_y
  pub nonneg : pos 0 ≤ℤ acc.balance +ℤ event.amount

module _ (h : Mimc) (snap : Db) where
  leg_account-update :
      (u : StateUpdate) (acc : BalanceState) (balance : ℤ)
      → IsLeaf acc
      → u.index ≡ leaf_index acc.account_id acc.token_id
      → u.nonce ≡ acc.nonce
      → leg_account u acc.pub_key_x acc.pub_key_y balance 0 ≡ record acc { balance = balance }
  leg_account-update u acc balance r i n =
      let (a, t, lt) = leaf_index_parts acc.account_id acc.token_id r.room in
      let small = r.room.token in
      let n' : (u.nonce + 0) % 2 ^ 64 ≡ acc.nonce = omega (arith, r.nonce) in
      let a' : u.index / 256 ≡ acc.account_id = ap (λ k. k / 256) i ∙ a in
      let t' : (u.index % 256) % 2 ^ 32 ≡ acc.token_id =
        ap (λ k. (k % 256) % 2 ^ 32) i ∙ omega arith in
      rw (a', t', n') refl

  replay_transition-leg :
      (u : StateUpdate) (acc : BalanceState) (amount : ℤ) (db : Db)
      → IsLeaf acc
      → u.index ≡ leaf_index acc.account_id acc.token_id
      → u.nonce ≡ acc.nonce
      → u.balance ≡ print acc.balance
      → pos 0 ≤ℤ acc.balance +ℤ amount
      → replay_transition h (deposit_transition h snap amount acc.pub_key_x acc.pub_key_y u) db
        ≡ (true, set_balance h (credit acc amount) db)
  unfolding replay_transition replay_legs apply_leg deposit_transition
  replay_transition-leg u acc amount db r i n b le =
      rw
        (
          parse-print amount,
          replay_transition,
          b,
          parse-print acc.balance,
          parse-print acc.pub_key_x,
          parse-print acc.pub_key_y,
          not_negative (acc.balance +ℤ amount) le,
        )
        (ap (λ x. (true, set_balance h x db))
          (leg_account-update u acc (acc.balance +ℤ amount) r i n))

  -- What the pre-image of a leaf says of the account.
  pre_image_lem :
      (event : DepositEvent) (db : Db) (id index : ℕ) (o : Option BalanceState)
      → let u = pre_image h db index o in
        let acc = or_new_account event id o in
        (u.index ≡ index) × (u.nonce ≡ acc.nonce) × (u.balance ≡ print acc.balance)
  unfolding empty_state_update
  pre_image_lem event db id index none = (refl, refl, refl)
  pre_image_lem event db id index (some acc) = (refl, refl, refl)

  -- Replaying the published transition of a deposit succeeds and gives the sequencer's database
  -- after the deposit, where the credited account has its leaf in the tree, bears the event's key
  -- and does not become negative.
  pub replay_transition-deposit :
      (event : DepositEvent) (id : ℕ) (before : Db) (w : World)
      → let found = get_balance id event.token_id w.db in
        IsCredited event id (or_new_account event id found)
        → replay_transition h
            (deposit_transition h snap event.amount event.pub_key_x event.pub_key_y
              (pre_image h w.db (leaf_index id event.token_id) found))
            w.db
          ≡ (true, (credit_deposit h event id before w).db)
  unfolding credit_deposit book_deposit
  replay_transition-deposit event id before w c =
      let found = get_balance id event.token_id w.db in
      let acc = or_new_account event id found in
      let u = pre_image h w.db (leaf_index id event.token_id) found in
      let (index, nonce, balance) =
        pre_image_lem event w.db id (leaf_index id event.token_id) found in
      let at =
        index
        ∙ ap (λ a. leaf_index a event.token_id) (sym c.same_id)
        ∙ ap (λ t. leaf_index acc.account_id t) (sym c.same_token) in
      subst
        (λ x.
          replay_transition h (deposit_transition h snap event.amount x event.pub_key_y u) w.db
          ≡ (true, set_balance h (credit acc event.amount) w.db))
        c.key_x
        (subst
          (λ y.
            replay_transition h (deposit_transition h snap event.amount acc.pub_key_x y u) w.db
            ≡ (true, set_balance h (credit acc event.amount) w.db))
          c.key_y (replay_transition-leg u acc event.amount w.db c.leaf at nonce balance c.nonneg))
