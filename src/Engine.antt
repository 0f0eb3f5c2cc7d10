-- ===== src/Engine.antt =====
-- sequencer/internal/engine/matching.go: the limit order books and the matching of an incoming
-- order. A book's mutex makes the calls on one token atomic, so a call is one step on the state;
-- calls on different tokens share only the channel of trades, which is the list of what was sent
-- on it, oldest first, and is never full.
pub mod Loop
pub mod Fills
pub mod Sides
pub mod Books
pub mod Place
pub mod Orders
pub mod Signature
pub mod Signed
mod Tests
use nowa_zk.Base.{
  ℕ, zero, suc, Bool, true, false, Option, none, some, List, [], ◌∷◌, ◌++◌, length, ◌==◌,
  if◌then◌else◌,
}
use nowa_zk.Base.Int.{ℤ, pos, ◌-ℤ◌, ltb_ℤ, leb_ℤ, eqb_ℤ}
use nowa_zk.Types.{Order, Trade}

pub record Orderbook : Type 0 where
  pub token_id : ℕ
  pub bids : List Order
  pub asks : List Order

pub record Engine : Type 0 where
  pub orderbooks : ℕ → Option Orderbook
  pub trade_queue : List Trade

pub data OrderError : Type 0 where
  bad_amount bad_price bad_signature : OrderError

pub data Outcome : Type 0 where
  accepted : Outcome
  rejected : OrderError → Outcome

unfoldable pub new_engine : Engine
new_engine = record { orderbooks = λ _. none; trade_queue = [] }

abbrev pub put_book : ℕ → Orderbook → Engine → Engine
put_book k ob e = record e { orderbooks = λ j. if j == k then some ob else e.orderbooks j }

-- `getOrCreateOrderbook`
unfoldable pub get_or_create_orderbook : ℕ → Engine → Orderbook × Engine
get_or_create_orderbook k e = elim (e.orderbooks k) [
  | some ob ↦ (ob, e)
  | none ↦
      let ob : Orderbook = record { token_id = k; bids = []; asks = [] } in (ob, put_book k ob e)
]

-- What the loop of `matchBids` and `matchAsks` works on: the opposite side of the book, what the
-- incoming order has left, and the channel.
pub record Matching : Type 0 where
  pub resting : List Order
  pub remaining : ℤ
  pub queue : List Trade

-- The amount of the best order is set to what it has left; a filled order is removed.
unfoldable pub leftover : Order → ℤ → List Order → List Order
leftover best left others =
    if eqb_ℤ left (pos 0) then others else record best { amount = left } ∷ others

-- The two loops differ in the side and in the test on the prices: `blocked incoming resting` is
-- "no match". `now` gives the reading of the clock when a channel holds so many trades.
module _ (now : ℕ → ℕ) (blocked : ℤ → ℤ → Bool) (incoming : Order) where
  -- The condition of the `for`, and the `break`.
  unfoldable pub goes_on : Matching → Bool
  goes_on m = elim m.resting [
    | [] ↦ false
    | best ∷ _ ↦
        if ltb_ℤ (pos 0) m.remaining
        then (if blocked incoming.price best.price then false else true)
        else false
  ]

  -- `matchAmount`: the smaller of the two.
  abbrev pub match_amount : ℤ → Order → ℤ
  match_amount remaining best = if leb_ℤ best.amount remaining then best.amount else remaining

  abbrev pub emit : ℤ → Order → List Trade → Trade
  emit remaining best queue = record {
    trade_id = now (length queue);
    maker_order = best;
    taker_order = incoming;
    match_price = best.price;
    match_amount = match_amount remaining best;
  }

  -- One round of the loop on the best resting order.
  unfoldable pub fill : Order → List Order → Matching → Matching
  unfolding leftover
  fill best others m =
      let left = best.amount -ℤ match_amount m.remaining best in
      record {
        resting = leftover best left others;
        remaining = m.remaining -ℤ match_amount m.remaining best;
        queue = m.queue ++ emit m.remaining best m.queue ∷ [];
      }

  unfoldable pub round : Matching → Matching
  unfolding fill
  round m = elim m.resting [ [] ↦ m | best ∷ others ↦ fill best others m ]

  -- The loop. A round removes an order or uses the incoming one up, so one round more than
  -- there are orders is enough fuel.
  unfoldable pub match_loop : ℕ → Matching → Matching
  unfolding goes_on round
  match_loop zero m = m
  match_loop (suc fuel) m = elim (goes_on m) [ true ↦ match_loop fuel (round m) | false ↦ m ]

  abbrev pub run_match : Matching → Matching
  run_match m = match_loop (suc (length m.resting)) m

-- "incoming buy price < best ask price, no match"
abbrev pub ask_blocked : ℤ → ℤ → Bool
ask_blocked incoming best = ltb_ℤ incoming best

-- "incoming sell price > best bid price, no match"
abbrev pub bid_blocked : ℤ → ℤ → Bool
bid_blocked incoming best = ltb_ℤ best incoming

-- `matchBids`: an incoming buy against the asks. The result holds the asks that rest, what the
-- order has left and the channel.
unfoldable pub match_bids : (ℕ → ℕ) → Order → Orderbook → ℤ → List Trade → Matching
unfolding match_loop
match_bids now incoming ob remaining queue =
    run_match now ask_blocked incoming
      (record { resting = ob.asks; remaining = remaining; queue = queue })

-- `matchAsks`: an incoming sell against the bids.
unfoldable pub match_asks : (ℕ → ℕ) → Order → Orderbook → ℤ → List Trade → Matching
unfolding match_loop
match_asks now incoming ob remaining queue =
    run_match now bid_blocked incoming
      (record { resting = ob.bids; remaining = remaining; queue = queue })

-- The loop that finds `insertIdx`: the place of the first order that the new one goes before.
unfoldable pub insert_index : (ℤ → ℤ → Bool) → ℤ → List Order → ℕ
insert_index before price [] = 0
insert_index before price (o ∷ os) =
    let rest = insert_index before price os in if before price o.price then 0 else suc rest

-- `append` at the end, or the shift by `copy` and the write at the place.
unfoldable pub insert_at : ℕ → Order → List Order → List Order
insert_at zero order os = order ∷ os
insert_at (suc i) order [] = order ∷ []
insert_at (suc i) order (o ∷ os) = o ∷ insert_at i order os

abbrev pub bid_before : ℤ → ℤ → Bool
bid_before price other = ltb_ℤ other price

abbrev pub ask_before : ℤ → ℤ → Bool
ask_before price other = ltb_ℤ price other

unfoldable pub insert_bid : Order → Orderbook → Orderbook
unfolding insert_index insert_at
insert_bid order ob = record ob {
  bids = insert_at (insert_index bid_before order.price ob.bids) order ob.bids;
}

unfoldable pub insert_ask : Order → Orderbook → Orderbook
unfolding insert_index insert_at
insert_ask order ob = record ob {
  asks = insert_at (insert_index ask_before order.price ob.asks) order ob.asks;
}

-- The branch of a buy order: match, then rest what is left.
unfoldable pub place_buy : (ℕ → ℕ) → Order → Orderbook → List Trade → Orderbook × List Trade
unfolding match_bids insert_bid
place_buy now order ob queue =
    let m = match_bids now order ob order.amount queue in
    let ob' : Orderbook = record ob { asks = m.resting } in
    (
      if ltb_ℤ (pos 0) m.remaining
          then insert_bid (record order { amount = m.remaining }) ob'
          else ob',
      m.queue,
    )

unfoldable pub place_sell : (ℕ → ℕ) → Order → Orderbook → List Trade → Orderbook × List Trade
unfolding match_asks insert_ask
place_sell now order ob queue =
    let m = match_asks now order ob order.amount queue in
    let ob' : Orderbook = record ob { bids = m.resting } in
    (
      if ltb_ℤ (pos 0) m.remaining
          then insert_ask (record order { amount = m.remaining }) ob'
          else ob',
      m.queue,
    )

abbrev pub place : (ℕ → ℕ) → Order → Orderbook → List Trade → Orderbook × List Trade
place now order ob queue =
    if order.is_buy then place_buy now order ob queue else place_sell now order ob queue

-- `ProcessOrder`; `verify` is `VerifyEdDSASignature` with an error read as "not valid".
unfoldable pub process_order : (ℕ → ℕ) → (Order → Bool) → Order → Engine → Outcome × Engine
unfolding get_or_create_orderbook place_buy place_sell
process_order now verify order e =
    if leb_ℤ order.amount (pos 0)
    then (rejected bad_amount, e)
    else (if leb_ℤ order.price (pos 0)
        then (rejected bad_price, e)
        else (if verify order
            then (let (ob, e') = get_or_create_orderbook order.token_id e in
                let (ob', queue) = place now order ob e'.trade_queue in
                (accepted, put_book order.token_id ob' (record e' { trade_queue = queue })))
            else (rejected bad_signature, e)))

-- `SnapshotOrderbook`: deep copies of the resting orders, and the engine, which may have gained
-- an empty book.
unfoldable pub snapshot_orderbook : ℕ → Engine → List Order × List Order × Engine
unfolding get_or_create_orderbook
snapshot_orderbook k e = let (ob, e') = get_or_create_orderbook k e in (ob.bids, ob.asks, e')
