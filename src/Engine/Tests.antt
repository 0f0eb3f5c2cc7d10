-- ===== src/Engine/Tests.antt =====
-- The books of engine_test.go, and the theorems at inputs that meet their hypotheses.
use nowa_zk.Base.{ℕ, ◌+◌, ◌≡◌, refl, Bool, true, false, List, [], ◌∷◌, arith, map, All}
use nowa_zk.Base.Int.{ℤ, pos, negsuc, ◌-ℤ◌}
use nowa_zk.Types.{Order}
use nowa_zk.Base.Bytes.{Bytes, codes}
use nowa_zk.Base.{Option, none, some}
use nowa_zk.Engine.Signature.{Curve}
use nowa_zk.Engine.{
  Engine, Orderbook, rejected, bad_amount, new_engine, process_order, snapshot_orderbook,
  ask_before, insert_index, insert_at, match_loop, ask_blocked, goes_on,
}
use nowa_zk.Engine.Loop.{match_loop_ends}
use nowa_zk.Engine.Sides.{insert_at_place, ask_order}
use nowa_zk.Engine.Books.{IsValidEngine, IsValidBook}
use nowa_zk.Engine.Place.{before_buy}
use nowa_zk.Engine.Orders.{process_order-IsValidEngine, new_engine-IsValidEngine}
use nowa_zk.Base.{take, drop, ◌++◌}

abbrev order_of : ℕ → ℕ → ℕ → Bool → Order
order_of nonce amount price buy = record {
  maker_address = [];
  token_id = 2;
  amount = pos amount;
  price = pos price;
  is_buy = buy;
  nonce = nonce;
  signature = [];
  circuit_signature = 1 ∷ [];
}

abbrev clock : ℕ → ℕ
clock n = 100 + n

abbrev trusting : Order → Bool
trusting o = true

abbrev one_ask : Engine
one_ask = (process_order clock trusting (order_of 1 40 10 false) new_engine).1

abbrev two_asks : Engine
two_asks = (process_order clock trusting (order_of 2 60 15 false) one_ask).1

abbrev after_bid : Engine
after_bid = (process_order clock trusting (order_of 3 70 20 true) two_asks).1

-- TestEngine_PartialMatches: 40 at 10 and 30 at 15 are traded, and 30 are left of the second ask.
partial_matches :
    map {B = ℤ × ℤ} (λ t. (t.match_amount, t.match_price)) after_bid.trade_queue
    ≡ (pos 40, pos 10) ∷ (pos 30, pos 15) ∷ []
unfolding process_order new_engine ◌-ℤ◌
partial_matches = refl

partial_matches_rest :
    map {B = ℤ × ℤ} (λ o. (o.amount, o.price)) (snapshot_orderbook 2 after_bid).1
    ≡ (pos 30, pos 15) ∷ []
unfolding process_order new_engine snapshot_orderbook ◌-ℤ◌
partial_matches_rest = refl

negative_amount :
    (process_order clock trusting (record (order_of 1 1 1 true) { amount = negsuc 9 }) new_engine).0
    ≡ rejected bad_amount
unfolding process_order new_engine
negative_amount = refl

abbrev asks : List Order
asks = order_of 1 40 10 false ∷ order_of 2 60 15 false ∷ []

abbrev bids : List Order
bids = order_of 1 40 9 true ∷ order_of 2 60 8 true ∷ []

abbrev book : Orderbook
book = record { token_id = 2; bids = bids; asks = asks }

book-IsValidBook : IsValidBook book
book-IsValidBook = record {
  bids_sorted = ((refl, tt), (tt, tt));
  asks_sorted = ((refl, tt), (tt, tt));
  bids_rest = (
    record { live = omega arith; side = refl; listed = refl },
    (record { live = omega arith; side = refl; listed = refl }, tt),
  );
  asks_rest = (
    record { live = omega arith; side = refl; listed = refl },
    (record { live = omega arith; side = refl; listed = refl }, tt),
  );
  uncrossed = omega arith;
}

two_asks-IsValidEngine : IsValidEngine two_asks
two_asks-IsValidEngine =
    process_order-IsValidEngine clock trusting (order_of 2 60 15 false) one_ask (
      process_order-IsValidEngine clock trusting (order_of 1 40 10 false) new_engine
        new_engine-IsValidEngine)

process_order-IsValidEngine_example : IsValidEngine after_bid
process_order-IsValidEngine_example =
    process_order-IsValidEngine clock trusting (order_of 3 70 20 true) two_asks
      two_asks-IsValidEngine

abbrev buy : Order
buy = order_of 3 70 20 true

abbrev sell : Order
sell = order_of 3 70 7 false

match_loop_ends_example :
    goes_on clock ask_blocked buy
      (match_loop clock ask_blocked buy 3 (before_buy clock buy book []))
    ≡ false
match_loop_ends_example =
    match_loop_ends clock ask_blocked buy 3 (before_buy clock buy book []) (omega arith)

abbrev new_ask : Order
new_ask = order_of 9 5 10 false

insert_at_place_example :
    let i = insert_index ask_before new_ask.price asks in
    (insert_at i new_ask asks ≡ take i asks ++ new_ask ∷ drop i asks)
    × All (λ x. ask_before new_ask.price x.price ≡ false) (take i asks)
    × All (λ x. ask_before new_ask.price x.price ≡ true) (drop i asks)
insert_at_place_example =
    insert_at_place ask_before ask_order new_ask asks book-IsValidBook.asks_sorted

-- A curve that takes the first byte of a key and checks that the message is not empty.
abbrev first_byte : Bytes → Option ℕ
first_byte [] = none
first_byte (b ∷ bs) = some b

abbrev any_curve : Curve
any_curve = record { Key = ℕ; parse_key = first_byte; check = λ k m s. some true; sha256 = λ m. m }

abbrev signed_order : Order
signed_order = record (order_of 3 70 20 true) {
  maker_address = codes "0xcd";
  signature =
      codes
        "0xabababababababababababababababababababababababababababababababababababababababababababababababababababababababababababababababab";
}

-- The same order as it is sent for the circuit: another text is signed there.
abbrev resent_order : Order
resent_order = record signed_order { circuit_signature = codes "00" }
