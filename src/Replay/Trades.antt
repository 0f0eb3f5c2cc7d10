-- ===== src/Replay/Trades.antt =====
-- Replaying what the sequencer published writes the very leaves that the sequencer wrote.
use nowa_zk.Base.{◌+◌, ◌%◌, ◌^◌, ◌<◌, ◌≡◌, refl, subst, sym, ◌∙◌, ap, true, false, arith}
use nowa_zk.Base.Bytes.Decimal.{print, parse-print}
use nowa_zk.Base.Int.{ℤ, pos, ◌+ℤ◌, ◌-ℤ◌, ◌≤ℤ◌, ltb_ℤ, int_laws}
use nowa_zk.Mimc.{Mimc}
use nowa_zk.Types.{BalanceState, Order}
use nowa_zk.State.{Db, leaf_index, set_balance}
use nowa_zk.State.Leaf.{IsInTree, leaf_index_parts}
use nowa_zk.Sequencer.{
  Parties, snapshot_update, trade_transition, after_seller_base, after_seller_quote,
  after_buyer_base, after_buyer_quote,
}
use nowa_zk.Replay.{leg_account, neg, apply_leg, replay_legs, replay_transition}

-- A stored leaf whose pre-image a transition can carry.
pub record IsLeaf (acc : BalanceState) : Type 0 where
  pub room : IsInTree acc.account_id acc.token_id
  pub nonce : acc.nonce < 2 ^ 64

pub not_negative : (z : ℤ) → pos 0 ≤ℤ z → ltb_ℤ z (pos 0) ≡ false
not_negative z le = ground arith

module _ (h : Mimc) where
  leg_account_lem :
      (snap : Db) (acc : BalanceState) (balance : ℤ)
      → IsLeaf acc
      → leg_account (snapshot_update h snap acc) acc.pub_key_x acc.pub_key_y balance 0
        ≡ record acc { balance = balance }
  unfolding snapshot_update
  leg_account_lem snap acc balance r =
      let (a, t, lt) = leaf_index_parts acc.account_id acc.token_id r.room in
      let small = r.room.token in
      let n : (acc.nonce + 0) % 2 ^ 64 ≡ acc.nonce = omega (arith, r.nonce) in
      let t' : (leaf_index acc.account_id acc.token_id % 256) % 2 ^ 32 ≡ acc.token_id =
        omega arith in
      rw (a, t', n) refl

  -- A leg replays the write of the account with the delta, whatever database it is replayed on.
  apply_leg_lem :
      (snap db : Db) (acc : BalanceState) (delta balance : ℤ)
      → IsLeaf acc
      → acc.balance +ℤ delta ≡ balance
      → pos 0 ≤ℤ balance
      → apply_leg h
          (snapshot_update h snap acc)
          (print acc.pub_key_x)
          (print acc.pub_key_y)
          delta
          0
          db
        ≡ (true, set_balance h (record acc { balance = balance }) db)
  unfolding apply_leg snapshot_update
  apply_leg_lem snap db acc delta balance r e le =
      rw
        (
          parse-print acc.balance,
          parse-print acc.pub_key_x,
          parse-print acc.pub_key_y,
          not_negative (acc.balance +ℤ delta) (subst (λ z. pos 0 ≤ℤ z) (sym e) le),
          apply_leg,
        )
        (ap (λ x. (true, set_balance h x db))
          (leg_account_lem snap acc (acc.balance +ℤ delta) r
            ∙ ap (λ z. record acc { balance = z }) e))

  -- The same with the key of the account as the transition names it.
  apply_leg-keyed :
      (snap db : Db) (acc : BalanceState) (delta balance x y : ℤ)
      → IsLeaf acc
      → acc.balance +ℤ delta ≡ balance
      → pos 0 ≤ℤ balance
      → acc.pub_key_x ≡ x
      → acc.pub_key_y ≡ y
      → apply_leg h (snapshot_update h snap acc) (print x) (print y) delta 0 db
        ≡ (true, set_balance h (record acc { balance = balance }) db)
  apply_leg-keyed snap db acc delta balance x y r e le ex ey =
      subst
        (λ z.
          apply_leg h (snapshot_update h snap acc) (print z) (print y) delta 0 db
          ≡ (true, set_balance h (record acc { balance = balance }) db))
        ex
        (subst
          (λ z.
            apply_leg h (snapshot_update h snap acc) (print acc.pub_key_x) (print z) delta 0 db
            ≡ (true, set_balance h (record acc { balance = balance }) db))
          ey (apply_leg_lem snap db acc delta balance r e le))

-- What the published trade must satisfy: the leaves are the tree's, both leaves of an account bear
-- its key, and no balance or amount is negative.
pub record IsReplayable (p : Parties) (amount quote : ℤ) : Type 0 where
  pub seller_base : IsLeaf p.seller_base
  pub seller_quote : IsLeaf p.seller_quote
  pub buyer_base : IsLeaf p.buyer_base
  pub buyer_quote : IsLeaf p.buyer_quote
  pub seller_x : p.seller_quote.pub_key_x ≡ p.seller_base.pub_key_x
  pub seller_y : p.seller_quote.pub_key_y ≡ p.seller_base.pub_key_y
  pub buyer_x : p.buyer_quote.pub_key_x ≡ p.buyer_base.pub_key_x
  pub buyer_y : p.buyer_quote.pub_key_y ≡ p.buyer_base.pub_key_y
  pub amount_nonneg : pos 0 ≤ℤ amount
  pub quote_nonneg : pos 0 ≤ℤ quote
  pub seller_nonneg : pos 0 ≤ℤ p.seller_quote.balance
  pub buyer_nonneg : pos 0 ≤ℤ p.buyer_base.balance
  pub seller_covered : amount ≤ℤ p.seller_base.balance
  pub buyer_covered : quote ≤ℤ p.buyer_quote.balance

add_neg : (a b : ℤ) → a +ℤ neg b ≡ a -ℤ b
add_neg a b = omega int_laws

minus_nonneg : (a b : ℤ) → b ≤ℤ a → pos 0 ≤ℤ a -ℤ b
minus_nonneg a b le = omega int_laws

plus_nonneg : (a b : ℤ) → pos 0 ≤ℤ a → pos 0 ≤ℤ b → pos 0 ≤ℤ a +ℤ b
plus_nonneg a b p q = omega int_laws

module _ (h : Mimc) (sell buy : Order) (p : Parties) (amount quote : ℤ) (snap : Db)
    (r : IsReplayable p amount quote) where
  -- Replaying the transition of a trade succeeds and makes the four writes of the sequencer,
  -- on whatever database it is replayed, where no balance or amount is negative, what pays is
  -- covered, both leaves of an account bear its key, and the tree has the leaves.
  pub replay_transition-trade :
      (db : Db)
      → replay_transition h (trade_transition h sell buy p amount quote snap) db
        ≡ (true, after_buyer_quote h p amount quote db)
  unfolding replay_transition replay_legs trade_transition
  replay_transition-trade db =
      let db1 = after_seller_base h p amount db in
      let db2 = after_seller_quote h p amount quote db in
      let db3 = after_buyer_base h p amount quote db in
      let seller = p.seller_base in
      let buyer = p.buyer_base in
      let leg1 =
        apply_leg_lem h snap db seller (neg amount) (seller.balance -ℤ amount) r.seller_base
          (add_neg seller.balance amount) (minus_nonneg _ _ r.seller_covered) in
      let leg2 =
        apply_leg-keyed h (after_seller_base h p amount snap) db1 p.seller_quote quote
          (p.seller_quote.balance +ℤ quote) seller.pub_key_x seller.pub_key_y r.seller_quote refl
          (plus_nonneg _ _ r.seller_nonneg r.quote_nonneg) r.seller_x r.seller_y in
      let leg3 =
        apply_leg_lem h (after_seller_quote h p amount quote snap) db2 buyer amount
          (buyer.balance +ℤ amount) r.buyer_base refl
          (plus_nonneg _ _ r.buyer_nonneg r.amount_nonneg) in
      let leg4 =
        apply_leg-keyed h (after_buyer_base h p amount quote snap) db3 p.buyer_quote (neg quote)
          (p.buyer_quote.balance -ℤ quote) buyer.pub_key_x buyer.pub_key_y r.buyer_quote
          (add_neg p.buyer_quote.balance quote) (minus_nonneg _ _ r.buyer_covered) r.buyer_x
          r.buyer_y in
      rw (parse-print amount, parse-print quote, replay_transition, leg1, leg2, leg3, leg4) refl
