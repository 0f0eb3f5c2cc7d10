-- ===== src/Api/Valid.antt =====
-- Whatever requests come, the books stay valid and the tree and the balances together.
use nowa_zk.Base.{
  ℕ, ◌+◌, ◌^◌, ◌<◌, ◌≡◌, refl, Bool, true, false, ◌||◌, Option, none, some, if◌then◌else◌, inl, inr,
  ◌⊎◌,
}
use nowa_zk.Base.Bytes.{Bytes, no_text, trim_space}
use nowa_zk.Mimc.{Mimc}
use nowa_zk.Types.{Order, BalanceState}
use nowa_zk.State.{Db, get_account_id}
use nowa_zk.State.Leaf.{IsInTree}
use nowa_zk.Engine.{snapshot_orderbook}
use nowa_zk.Engine.Books.{IsValidEngine}
use nowa_zk.Engine.Orders.{process_order-IsValidEngine, get_or_create-IsValidEngine}
use nowa_zk.Sequencer.{Points, World}
use nowa_zk.Sequencer.Deposits.{open_balance}
use nowa_zk.Sequencer.Deposits.Sound.{IsSound, get_account_id-IsSound, open_balance-IsSound}
use nowa_zk.Batcher.{get_latest_batch, get_batch}
use nowa_zk.Api.{
  Server, Method, get, post, options, other, Response, Handler, OrderRequest, is_get, is_post,
  allow, token_of, parse_uint, read_order, handle_order, handle_orderbook,
}
use nowa_zk.Api.Accounts.{
  AccountQuery, or_default, account_key, open_both, handle_account, with_account, balance_reply,
  proof_reply, handle_balance, handle_proof, handle_batch_latest, handle_batch_count,
  handle_batch_by_id,
}

module _ (P : Server → Type 0) (s : Server) (kept : P s) where
  keeps_unless :
      {A : Type 0} (test : Bool) (bad good : Response A × Server)
      → P bad.1
      → P good.1
      → P (if test then good else bad).1
  keeps_unless true bad good p q = q
  keeps_unless false bad good p q = p

  maybe-keeps :
      {A B : Type 0} (o : Option B) (missing : Response A × Server)
      (found : B → Response A × Server)
      → P missing.1
      → ((b : B) → P (found b).1)
      → P (elim o as (λ _. Response A × Server) [ none ↦ missing | some b ↦ found b ]).1
  maybe-keeps none missing found p q = p
  maybe-keeps (some b) missing found p q = q b

  either-keeps :
      {A B C : Type 0} (o : B ⊎ C) (left : B → Response A × Server)
      (right : C → Response A × Server)
      → ((b : B) → P (left b).1)
      → ((c : C) → P (right c).1)
      → P (elim o as (λ _. Response A × Server) [ inl b ↦ left b | inr c ↦ right c ]).1
  either-keeps (inl b) left right p q = p b
  either-keeps (inr c) left right p q = q c

  allow-keeps :
      {A : Type 0} (allowed : Method → Bool) (m : Method) (handler : Handler A)
      → P (handler s).1
      → P (allow allowed m handler s).1
  unfolding allow
  allow-keeps allowed options handler p = kept
  allow-keeps allowed get handler p = keeps_unless (allowed get) _ _ kept p
  allow-keeps allowed post handler p = keeps_unless (allowed post) _ _ kept p
  allow-keeps allowed other handler p = keeps_unless (allowed other) _ _ kept p

module _ (h : Mimc) where
  open_both-IsSound :
      (pts : Points) (key : Bytes) (base quote : ℕ) (w : World)
      → let r = open_balance h pts key base w in
        IsSound h r.1
        → IsSound h (open_balance h pts key quote r.1).1
        → IsSound h (open_both h pts key base quote w).1
  unfolding open_both
  open_both-IsSound pts key base quote w first second =
      let r = open_balance h pts key base w in
      let t = open_balance h pts key quote r.1 in
      elim r.0
        as (λ o.
          IsSound h
            (elim o as (λ _. Option (BalanceState × BalanceState) × World) [
              | none ↦ (none, r.1)
              | some b ↦ elim t.0 as (λ _. Option (BalanceState × BalanceState) × World) [
                | none ↦ (none, t.1)
                | some q ↦ (some (b, q), t.1)
              ]
            ]).1) [
              | none ↦ first
              | some b ↦
                  elim t.0
                    as (λ o.
                      IsSound h
                        (elim o as (λ _. Option (BalanceState × BalanceState) × World) [
                          | none ↦ (none, t.1)
                          | some q ↦ (some (b, q), t.1)
                        ]).1) [ none ↦ second | some q ↦ second ]
            ]

  -- Every book is valid, and the tree, the balances and the batches belong together.
  pub record IsValidServer (s : Server) : Type 0 where
    pub books : IsValidEngine s.engine
    pub world : IsSound h s.world

  module _ (s : Server) (v : IsValidServer s) where
    order-IsValidServer :
        (now : ℕ → ℕ) (verify : Order → Bool) (m : Method) (body : Option OrderRequest)
        → IsValidServer (handle_order now verify m body s).1
    unfolding handle_order
    order-IsValidServer now verify m body = allow-keeps IsValidServer s v is_post m _ (
        either-keeps IsValidServer s v (read_order body) _ _ (λ e. v)
          λ order. record {
            books = process_order-IsValidEngine now verify order s.engine v.books;
            world = v.world;
          })

    orderbook-IsValidServer : (m : Method) (q : Bytes) → IsValidServer (handle_orderbook m q s).1
    unfolding handle_orderbook snapshot_orderbook
    orderbook-IsValidServer m q = allow-keeps IsValidServer s v is_get m _ (
        maybe-keeps IsValidServer s v (token_of q) _ _ v λ token_id. record {
          books = (get_or_create-IsValidEngine token_id s.engine v.books).2;
          world = v.world;
        })

    with_account-IsValidServer :
        {A : Type 0} (m : Method) (key token : Bytes) (reply : Bytes → ℕ → ℕ → Db → A)
        → IsValidServer (with_account m key token reply s).1
    unfolding with_account
    with_account-IsValidServer m key token reply = allow-keeps IsValidServer s v is_get m _ (
        keeps_unless IsValidServer s v (no_text (trim_space key)) _ _
          (maybe-keeps IsValidServer s v (token_of token) _ _ v λ token_id. record {
            books = v.books;
            world = get_account_id-IsSound h (trim_space key) s.world v.world;
          })
          v)

    account-IsValidServer :
        (pts : Points) (m : Method) (q : AccountQuery)
        → let key = account_key m q in
          let base = or_default 1 (parse_uint 32 q.base_token) in
          let quote = or_default 2 (parse_uint 32 q.quote_token) in
          let w = (open_balance h pts key base s.world).1 in
          IsInTree (get_account_id key s.world.db).0 base
          → IsInTree (get_account_id key w.db).0 quote
          → s.world.batcher.batch_counter + 1 < 2 ^ 64
          → w.batcher.batch_counter + 1 < 2 ^ 64
          → IsValidServer (handle_account h pts m q s).1
    unfolding handle_account
    account-IsValidServer pts m q base_room quote_room room later =
        let key = account_key m q in
        let base = or_default 1 (parse_uint 32 q.base_token) in
        let quote = or_default 2 (parse_uint 32 q.quote_token) in
        let first = open_balance-IsSound h pts key base s.world v.world base_room room in
        let w = (open_balance h pts key base s.world).1 in
        let second = open_balance-IsSound h pts key quote w first.0 quote_room later in
        let opened = open_both-IsSound pts key base quote s.world first.0 second.0 in
        let after : IsValidServer
            (record s { world = (open_both h pts key base quote s.world).1 }) =
          record { books = v.books; world = opened } in
        allow-keeps IsValidServer s v (λ m'. is_get m' || is_post m') m _
          (keeps_unless IsValidServer s v (no_text key) _ _
            (maybe-keeps IsValidServer s v (open_both h pts key base quote s.world).0 _ _ after
              λ both. after)
            v)

    -- Whatever request the sequencer's API serves, every book stays valid and the tree, the
    -- balances and the batches stay together, and the three readers of batches change nothing;
    -- where the account that an /account request would name has room in the tree under both of its
    -- tokens, and the batch counter has room before and after the first of them is opened.
    pub handlers-IsValidServer :
        (now : ℕ → ℕ) (verify : Order → Bool) (m_order m : Method) (body : Option OrderRequest)
        (key token : Bytes) (pts : Points) (q : AccountQuery)
        → let account = account_key m q in
          let base = or_default 1 (parse_uint 32 q.base_token) in
          let quote = or_default 2 (parse_uint 32 q.quote_token) in
          let w = (open_balance h pts account base s.world).1 in
          IsInTree (get_account_id account s.world.db).0 base
          → IsInTree (get_account_id account w.db).0 quote
          → s.world.batcher.batch_counter + 1 < 2 ^ 64
          → w.batcher.batch_counter + 1 < 2 ^ 64
          → IsValidServer (handle_order now verify m_order body s).1
            × IsValidServer (handle_orderbook m token s).1
            × IsValidServer (handle_account h pts m q s).1
            × IsValidServer (handle_balance m key token s).1
            × IsValidServer (handle_proof h m key token s).1
            × ((handle_batch_latest m s).1 ≡ s)
            × ((handle_batch_count m s).1 ≡ s)
            × ((handle_batch_by_id m token s).1 ≡ s)
    unfolding handle_balance handle_proof handle_batch_latest handle_batch_count handle_batch_by_id
    handlers-IsValidServer now verify m_order m body key token pts q base_room quote_room room
          later =
        let same : Server → Type 0 = λ s'. s' ≡ s in
        (
          order-IsValidServer now verify m_order body,
          orderbook-IsValidServer m token,
          account-IsValidServer pts m q base_room quote_room room later,
          with_account-IsValidServer m key token balance_reply,
          with_account-IsValidServer m key token (proof_reply h),
          allow-keeps same s refl is_get m _
              (maybe-keeps same s refl (get_latest_batch s.world.batcher) _ _ refl λ b. refl),
          allow-keeps same s refl is_get m _ refl,
          allow-keeps same s refl is_get m _ (
              keeps_unless same s refl (no_text token) _ _
                (maybe-keeps same s refl (parse_uint 64 token) _ _ refl
                  λ id. maybe-keeps same s refl (get_batch id s.world.batcher) _ _ refl λ b. refl)
                refl),
        )
