-- ===== src/Sequencer/Settle.antt =====
-- sequencer/cmd/sequencer/main.go: what `applyTrade` does once both parties are loaded.
use nowa_zk.Base.{
  ℕ, ◌^◌, ◌<◌, ◌≡◌, ◌≢◌, refl, subst, ◌∙◌, ap, Bool, false, ◌&&◌, ◌||◌, Option, some, arith, inl,
  inr, Bool-cases, ◌==◌, ◌⊎◌, ◌+◌,
}
use nowa_zk.Base.Int.{ℤ, pos, ◌+ℤ◌, ◌-ℤ◌, ◌≤ℤ◌, ◌<ℤ◌, ltb_ℤ, int_laws}
use nowa_zk.Base.Options.{◌>>=◌}
use nowa_zk.Mimc.{Mimc}
use nowa_zk.Types.{BalanceState, Order}
use nowa_zk.State.{Db, set_balance, get_balance, db_root}
use nowa_zk.State.Leaf.{IsInTree, IsSynced, set_balance-IsSynced}
use nowa_zk.Base.Bytes.Decimal.{print}
use nowa_zk.Batcher.Sealing.{IsValid, add_transition-IsValid}
use nowa_zk.Batcher.Chain.{IsChained, add_transition-IsChained}
use nowa_zk.Sequencer.{Parties, debit, credit, after_buyer_quote, settle, World, applied, skipped}

-- The four leaves of two accounts and two tokens, none of them the same as another.
pub record IsDistinct (p : Parties) : Type 0 where
  pub seller_ids : p.seller_quote.account_id ≡ p.seller_base.account_id
  pub buyer_ids : p.buyer_quote.account_id ≡ p.buyer_base.account_id
  pub base_ids : p.buyer_base.token_id ≡ p.seller_base.token_id
  pub quote_ids : p.buyer_quote.token_id ≡ p.seller_quote.token_id
  pub accounts : p.seller_base.account_id ≢ p.buyer_base.account_id
  pub tokens : p.seller_base.token_id ≢ p.seller_quote.token_id

pub record HasRoom (p : Parties) : Type 0 where
  pub seller_base : IsInTree p.seller_base.account_id p.seller_base.token_id
  pub seller_quote : IsInTree p.seller_quote.account_id p.seller_quote.token_id
  pub buyer_base : IsInTree p.buyer_base.account_id p.buyer_base.token_id
  pub buyer_quote : IsInTree p.buyer_quote.account_id p.buyer_quote.token_id

abbrev pub is_at : BalanceState → ℕ → ℕ → Bool
is_at acc a t = (a == acc.account_id) && (t == acc.token_id)

-- The four balances after a trade, and that no other has changed.
pub record IsMoved (p : Parties) (amount quote : ℤ) (db db' : Db) : Type 0 where
  pub seller_base :
      get_balance p.seller_base.account_id p.seller_base.token_id db'
      ≡ some (debit p.seller_base amount)
  pub seller_quote :
      get_balance p.seller_quote.account_id p.seller_quote.token_id db'
      ≡ some (credit p.seller_quote quote)
  pub buyer_base :
      get_balance p.buyer_base.account_id p.buyer_base.token_id db'
      ≡ some (credit p.buyer_base amount)
  pub buyer_quote :
      get_balance p.buyer_quote.account_id p.buyer_quote.token_id db'
      ≡ some (debit p.buyer_quote quote)
  pub others :
      (a t : ℕ)
      → is_at p.seller_base a t
          || is_at p.seller_quote a t
          || is_at p.buyer_base a t
          || is_at p.buyer_quote a t
        ≡ false
      → get_balance a t db' ≡ get_balance a t db

module _ (h : Mimc) (p : Parties) (amount quote : ℤ) (db : Db) where
  after_buyer_quote-IsMoved :
      IsDistinct p → IsMoved p amount quote db (after_buyer_quote h p amount quote db)
  unfolding set_balance
  after_buyer_quote-IsMoved d =
      let sa = d.seller_ids in
      let ba = d.buyer_ids in
      let bt = d.base_ids in
      let qt = d.quote_ids in
      let na = d.accounts in
      let nt = d.tokens in
      record {
        seller_base = ground arith;
        seller_quote = ground arith;
        buyer_base = ground arith;
        buyer_quote = ground arith;
        others = λ a t e. ground arith;
      }

  after_buyer_quote-IsSynced :
      HasRoom p → IsSynced h db → IsSynced h (after_buyer_quote h p amount quote db)
  after_buyer_quote-IsSynced r s =
      set_balance-IsSynced h _ _
        (set_balance-IsSynced h _ _
          (set_balance-IsSynced h _ _ (set_balance-IsSynced h _ _ s r.seller_base) r.seller_quote)
          r.buyer_base)
        r.buyer_quote

-- What the seller and the buyer hold together of a token.
abbrev pub held : ℕ → ℕ → ℕ → Db → Option ℤ
held seller buyer token db = do
  x ← get_balance seller token db
  y ← get_balance buyer token db
  some (x.balance +ℤ y.balance)

held_lem :
    (seller buyer token : ℕ) (db : Db) (x y : BalanceState)
    → get_balance seller token db ≡ some x
    → get_balance buyer token db ≡ some y
    → held seller buyer token db ≡ some (x.balance +ℤ y.balance)
held_lem seller buyer token db x y e f = simp (e, f)

-- A trade that is applied: the balances move, both sums stay, and no balance that was not negative
-- becomes so.
pub record IsTraded (p : Parties) (amount quote : ℤ) (db db' : Db) : Type 0 where
  pub moved : IsMoved p amount quote db db'
  pub base_kept :
      held p.seller_base.account_id p.buyer_base.account_id p.seller_base.token_id db'
      ≡ some (p.seller_base.balance +ℤ p.buyer_base.balance)
  pub quote_kept :
      held p.seller_base.account_id p.buyer_base.account_id p.seller_quote.token_id db'
      ≡ some (p.seller_quote.balance +ℤ p.buyer_quote.balance)
  pub seller_covered : pos 0 ≤ℤ p.seller_base.balance -ℤ amount
  pub buyer_covered : pos 0 ≤ℤ p.buyer_quote.balance -ℤ quote

sum_kept_left : (a b x : ℤ) → (a -ℤ x) +ℤ (b +ℤ x) ≡ a +ℤ b
sum_kept_left a b x = omega int_laws

sum_kept_right : (a b x : ℤ) → (a +ℤ x) +ℤ (b -ℤ x) ≡ a +ℤ b
sum_kept_right a b x = omega int_laws

covered : (a x : ℤ) → ltb_ℤ a x ≡ false → pos 0 ≤ℤ a -ℤ x
covered a x e = let q : x ≤ℤ a = ground arith in omega int_laws

module _ (h : Mimc) (sell buy : Order) (p : Parties) (amount quote : ℤ) (w : World) where
  traded :
      IsDistinct p
      → ltb_ℤ p.seller_base.balance amount ≡ false
      → ltb_ℤ p.buyer_quote.balance quote ≡ false
      → IsTraded p amount quote w.db (after_buyer_quote h p amount quote w.db)
  traded d e f =
      let after = after_buyer_quote h p amount quote w.db in
      let m = after_buyer_quote-IsMoved h p amount quote w.db d in
      record {
        moved = m;
        base_kept =
            held_lem p.seller_base.account_id p.buyer_base.account_id p.seller_base.token_id after _
              _ m.seller_base
              (subst
                (λ t.
                  get_balance p.buyer_base.account_id t after ≡ some (credit p.buyer_base amount))
                d.base_ids m.buyer_base)
            ∙ ap some (sum_kept_left p.seller_base.balance p.buyer_base.balance amount);
        quote_kept =
            held_lem p.seller_base.account_id p.buyer_base.account_id p.seller_quote.token_id after
              _ _
              (subst
                (λ a.
                  get_balance a p.seller_quote.token_id after ≡ some (credit p.seller_quote quote))
                d.seller_ids m.seller_quote)
              (subst
                (λ a.
                  get_balance a p.seller_quote.token_id after ≡ some (debit p.buyer_quote quote))
                d.buyer_ids
                (subst
                  (λ t.
                    get_balance p.buyer_quote.account_id t after ≡ some (debit p.buyer_quote quote))
                  d.quote_ids m.buyer_quote))
            ∙ ap some (sum_kept_right p.seller_quote.balance p.buyer_quote.balance quote);
        seller_covered = covered _ _ e;
        buyer_covered = covered _ _ f;
      }

  -- A trade on four different leaves is skipped, and changes nothing, where the seller holds too
  -- little of the base or the buyer too little of the quote; otherwise it is applied, the four
  -- balances move and no other does, the two hold together of each token what they held before, and
  -- what pays is covered.
  pub settle_outcome :
      IsDistinct p
      → let (done, w') = settle h sell buy p amount quote w in
        ((p.seller_base.balance <ℤ amount) ⊎ (p.buyer_quote.balance <ℤ quote))
          × (done ≡ skipped)
          × (w' ≡ w)
        ⊎ (done ≡ applied) × IsTraded p amount quote w.db w'.db
  unfolding settle
  settle_outcome d = elim (Bool-cases (ltb_ℤ p.seller_base.balance amount)) [
    | inl short ↦ rw (short, settle) (inl (inl (ground arith), refl, refl))
    | inr e ↦ elim (Bool-cases (ltb_ℤ p.buyer_quote.balance quote)) [
      | inl short ↦ rw (e, short, settle) (inl (inr (ground arith), refl, refl))
      | inr f ↦ rw (e, f, settle) (inr (refl, traded d e f))
    ]
  ]

  -- The world that a trade starts from: the tree holds the balances, and the transitions so far end
  -- at its root.
  module _ (r : HasRoom p) (s : IsSynced h w.db) (v : IsValid h w.batcher)
      (room : w.batcher.batch_counter + 1 < 2 ^ 64) where
    -- A trade on leaves that the tree has room for, from a world whose tree holds the balances,
    -- whose batches are valid with room in the batch counter, and whose transitions so far end at
    -- the root of the tree, leads to a world of which these three hold again.
    pub settle-IsSound :
        IsChained (print (pos (db_root h w.db))) w.batcher
        → let w' = (settle h sell buy p amount quote w).1 in
          IsSynced h w'.db
          × IsValid h w'.batcher
          × IsChained (print (pos (db_root h w'.db))) w'.batcher
    unfolding settle
    settle-IsSound c = elim (Bool-cases (ltb_ℤ p.seller_base.balance amount)) [
      | inl short ↦ rw (short, settle) (s, v, c)
      | inr e ↦ elim (Bool-cases (ltb_ℤ p.buyer_quote.balance quote)) [
        | inl short ↦ rw (e, short, settle) (s, v, c)
        | inr f ↦
            rw (e, f, settle)
              (
                after_buyer_quote-IsSynced h p amount quote w.db r s,
                add_transition-IsValid h _ _ _ w.batcher v room,
                add_transition-IsChained h _ _ _ w.batcher v c,
              )
      ]
    ]
