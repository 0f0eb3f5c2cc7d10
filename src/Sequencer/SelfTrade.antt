-- ===== src/Sequencer/SelfTrade.antt =====
-- sequencer/cmd/sequencer/main.go: a trade of an account with itself. `applyTrade` loads each leaf
-- twice and writes the second copy over the first.
use nowa_zk.Base.{◌≡◌, ◌≢◌, arith, some, false, refl}
use nowa_zk.Base.Int.{ℤ, ltb_ℤ}
use nowa_zk.Mimc.{Mimc}
use nowa_zk.Types.{BalanceState, Order}
use nowa_zk.State.{get_balance, set_balance}
use nowa_zk.Sequencer.{Parties, World, applied, settle, credit, debit}

-- What `getOrCreateBalance` returns for an account on both sides.
abbrev pub same_party : BalanceState → BalanceState → Parties
same_party base quote = record {
  seller_base = base;
  seller_quote = quote;
  buyer_base = base;
  buyer_quote = quote;
}

-- A trade of an account with itself whose balances cover it, on two tokens, is applied and
-- leaves the account with the whole amount of the base on top and without the quote: the debit of
-- the base and the credit of the quote are overwritten.
pub self_trade_mints :
    (h : Mimc) (sell buy : Order) (base quote : BalanceState) (amount price : ℤ) (w : World)
    → quote.account_id ≡ base.account_id
    → base.token_id ≢ quote.token_id
    → ltb_ℤ base.balance amount ≡ false
    → ltb_ℤ quote.balance price ≡ false
    → let (done, w') = settle h sell buy (same_party base quote) amount price w in
      (done ≡ applied)
      × (get_balance base.account_id base.token_id w'.db ≡ some (credit base amount))
      × (get_balance quote.account_id quote.token_id w'.db ≡ some (debit quote price))
unfolding settle set_balance
self_trade_mints h sell buy base quote amount price w same apart e f =
    rw (e, f, settle) (refl, ground arith, ground arith)
