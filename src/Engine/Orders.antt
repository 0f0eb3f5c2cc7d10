-- ===== src/Engine/Orders.antt =====
-- `ProcessOrder`: what it refuses, and that it keeps every book valid.
use nowa_zk.Base.{
  ℕ, ◌≡◌, refl, Bool, true, List, [], arith, inl, inr, Bool-cases, Option-cases, ◌==◌, ◌↔◌, ◌≢◌,
  sym, ◌∙◌,
}
use nowa_zk.Base.Int.{pos, ◌<ℤ◌, leb_ℤ}
use nowa_zk.Types.{Order, Trade}
use nowa_zk.Engine.{
  Orderbook, Engine, accepted, place, get_or_create_orderbook, put_book, process_order, new_engine,
}
use nowa_zk.Engine.Books.{IsValidBook, IsValidEngine}
use nowa_zk.Engine.Place.{place_buy-IsValidBook, place_sell-IsValidBook}

module _ (now : ℕ → ℕ) (verify : Order → Bool) (order : Order) (e : Engine) where
  -- The three tests of `ProcessOrder`.
  record IsAcceptable : Type 0 where
    pub amount : pos 0 <ℤ order.amount
    pub price : pos 0 <ℤ order.price
    pub signed : verify order ≡ true

  -- An order is accepted exactly when it passes the three tests, and one that is refused leaves the
  -- engine as it was.
  process_order_outcome :
      let (r, e') = process_order now verify order e in
      ((r ≡ accepted) ↔ IsAcceptable) × (r ≢ accepted → e' ≡ e)
  unfolding process_order
  process_order_outcome = ((λ h. ground arith, λ h. ground arith), λ h. ground arith)

-- The books of an engine to which one book has been written.
put_book-IsValidEngine :
    (k : ℕ) (ob : Orderbook) (e : Engine)
    → IsValidEngine e
    → IsValidBook ob × (ob.token_id ≡ k)
    → IsValidEngine (put_book k ob e)
put_book-IsValidEngine k ob e h new j ob' found = elim (Bool-cases (j == k)) [
  | inl same ↦
      let e1 : ob ≡ ob' = ground arith in let e2 : j ≡ k = ground arith in rw (e2, ← e1) new
  | inr other ↦ h j ob' (ground arith)
]

module _ (k : ℕ) (e : Engine) (h : IsValidEngine e) where
  pub get_or_create-IsValidEngine :
      let (ob, e') = get_or_create_orderbook k e in
      IsValidBook ob × (ob.token_id ≡ k) × IsValidEngine e'
  unfolding get_or_create_orderbook
  get_or_create-IsValidEngine = elim (Option-cases (e.orderbooks k)) [
    | inl missing ↦
        rw (missing, get_or_create_orderbook)
          (empty, refl, put_book-IsValidEngine k _ e h (empty, refl))
    | inr (ob, found) ↦ rw (found, get_or_create_orderbook) ((h k ob found).0, (h k ob found).1, h)
  ]
    where
      empty : IsValidBook (record { token_id = k; bids = []; asks = [] })
      empty = record {
        bids_sorted = tt;
        asks_sorted = tt;
        bids_rest = tt;
        asks_rest = tt;
        uncrossed = tt;
      }

place-IsValidBook :
    (now : ℕ → ℕ) (order : Order) (ob : Orderbook) (queue : List Trade)
    → IsValidBook ob
    → pos 0 <ℤ order.amount
    → order.token_id ≡ ob.token_id
    → let ob' = (place now order ob queue).0 in IsValidBook ob' × (ob'.token_id ≡ ob.token_id)
place-IsValidBook now order ob queue v p t = elim (Bool-cases order.is_buy) [
  | inl buy ↦ simp buy (
      place_buy-IsValidBook now order ob queue
        (record { valid = v; positive = p; side = buy; listed = t }))
  | inr sell ↦ simp sell (
      place_sell-IsValidBook now order ob queue
        (record { valid = v; positive = p; side = sell; listed = t }))
]

placed-IsValidEngine :
    (now : ℕ → ℕ) (order : Order) (e : Engine)
    → IsValidEngine e
    → pos 0 <ℤ order.amount
    → let (ob, e') = get_or_create_orderbook order.token_id e in
      let (ob', queue) = place now order ob e'.trade_queue in
      IsValidEngine (put_book order.token_id ob' (record e' { trade_queue = queue }))
placed-IsValidEngine now order e h p =
    let k = order.token_id in
    let (ob, e') = get_or_create_orderbook k e in
    let (valid, named, kept) = get_or_create-IsValidEngine k e h in
    let (valid', named') = place-IsValidBook now order ob e'.trade_queue valid p (sym named) in
    put_book-IsValidEngine k (place now order ob e'.trade_queue).0
      (record e' { trade_queue = (place now order ob e'.trade_queue).1 }) kept
      (valid', named' ∙ named)

-- Whatever order comes, every book stays valid: sorted by price on both sides, no order empty, each
-- order on its own side and in its own token's book, and every bid below every ask.
pub process_order-IsValidEngine :
    (now : ℕ → ℕ) (verify : Order → Bool) (order : Order) (e : Engine)
    → IsValidEngine e
    → IsValidEngine (process_order now verify order e).1
unfolding process_order
process_order-IsValidEngine now verify order e h = elim (Bool-cases (leb_ℤ order.amount (pos 0))) [
  | inl bad ↦ rw bad h
  | inr amount ↦ rw amount (elim (Bool-cases (leb_ℤ order.price (pos 0))) [
    | inl bad ↦ rw bad h
    | inr price ↦ rw price (elim (Bool-cases (verify order)) [
      | inl signed ↦ rw signed (placed-IsValidEngine now order e h (ground arith))
      | inr unsigned ↦ rw unsigned h
    ])
  ])
]

pub new_engine-IsValidEngine : IsValidEngine new_engine
unfolding new_engine
new_engine-IsValidEngine k ob h = ground arith
