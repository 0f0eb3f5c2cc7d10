-- ===== src/Engine/Place.antt =====
-- `ProcessOrder` on one book: a buy or a sell that is placed leaves a valid book valid, and its
-- trades are fair.
use nowa_zk.Base.{
  ℕ, suc, ◌≡◌, refl, Bool, true, false, List, length, arith, inl, inr, All, Bool-cases,
}
use nowa_zk.Base.Int.{pos, ◌<ℤ◌, ltb_ℤ}
use nowa_zk.Types.{Order, Trade}
use nowa_zk.Engine.{
  Orderbook, Matching, goes_on, ask_before, bid_before, insert_bid, insert_ask, match_bids,
  match_asks, place_buy, place_sell, ask_blocked, bid_blocked,
}
use nowa_zk.Engine.Loop.{match_loop_ends}
use nowa_zk.Engine.Fills.{IsLive, Matched, match_loop-Matched}
use nowa_zk.Engine.Sides.{
  IsSorted, IsRobust, All-insert_at, All-map, insert-IsSorted, stopped-blocked, match_loop-IsRobust,
  ask_order, bid_order,
}
use nowa_zk.Engine.Books.{
  IsValidBook, IsListed, split_rest, join_rest, IsSorted-robust, IsListed-robust, IsUncrossed-asks,
  IsUncrossed-bids, insert_ask-IsUncrossed,
}

-- What the two branches of `ProcessOrder` start from.
pub record IsPlaceable (order : Order) (ob : Orderbook) (buy : Bool) : Type 0 where
  pub valid : IsValidBook ob
  pub positive : pos 0 <ℤ order.amount
  pub side : order.is_buy ≡ buy
  pub listed : order.token_id ≡ ob.token_id

module _ (now : ℕ → ℕ) (order : Order) (ob : Orderbook) (queue : List Trade) where
  abbrev pub before_buy : Matching
  before_buy = record { resting = ob.asks; remaining = order.amount; queue = queue }

  abbrev pub before_sell : Matching
  before_sell = record { resting = ob.bids; remaining = order.amount; queue = queue }

  module _ (h : IsPlaceable order ob true) where
    asks_before : All IsLive ob.asks × All (IsListed ob.token_id false) ob.asks
    asks_before = split_rest ob.token_id false ob.asks h.valid.asks_rest

    pub match_bids-Matched :
        Matched now ask_blocked order before_buy (match_bids now order ob order.amount queue)
    unfolding match_bids
    match_bids-Matched =
        match_loop-Matched now ask_blocked order (suc (length ob.asks)) before_buy
          (let p = h.positive in omega arith) asks_before.0

    buy_side :
        (R : List Order → Type 0)
        → IsRobust R
        → R ob.asks
        → R (match_bids now order ob order.amount queue).resting
    unfolding match_bids
    buy_side R robust k =
        match_loop-IsRobust now ask_blocked order R robust (suc (length ob.asks)) before_buy k

    buy_ended : goes_on now ask_blocked order (match_bids now order ob order.amount queue) ≡ false
    unfolding match_bids
    buy_ended =
        match_loop_ends now ask_blocked order (suc (length ob.asks)) before_buy (omega arith)

    -- The asks that are left, with the bids as they were.
    matched_buy :
        IsValidBook (record ob { asks = (match_bids now order ob order.amount queue).resting })
    matched_buy =
        let m = match_bids now order ob order.amount queue in
        record {
          bids_sorted = h.valid.bids_sorted;
          asks_sorted =
              buy_side (IsSorted ask_before) (IsSorted-robust ask_before) h.valid.asks_sorted;
          bids_rest = h.valid.bids_rest;
          asks_rest =
              join_rest ob.token_id false m.resting match_bids-Matched.live
                (buy_side _ (IsListed-robust ob.token_id false) asks_before.1);
          uncrossed = buy_side _ (IsUncrossed-asks ob.bids) h.valid.uncrossed;
        }

    pub place_buy-IsValidBook :
        let ob' = (place_buy now order ob queue).0 in IsValidBook ob' × (ob'.token_id ≡ ob.token_id)
    unfolding place_buy insert_bid
    place_buy-IsValidBook =
        let m = match_bids now order ob order.amount queue in
        let v = matched_buy in
        let left : Order = record order { amount = m.remaining } in
        elim (Bool-cases (ltb_ℤ (pos 0) m.remaining)) [
          | inl some_left ↦ rw some_left (
            record {
              bids_sorted = insert-IsSorted bid_before bid_order left ob.bids v.bids_sorted;
              asks_sorted = v.asks_sorted;
              bids_rest =
                  All-insert_at _ _ left ob.bids
                    (record { live = ground arith; side = h.side; listed = h.listed }) v.bids_rest;
              asks_rest = v.asks_rest;
              uncrossed =
                  All-insert_at _ _ left ob.bids
                    (All-map _ _ m.resting (λ a k. ground arith)
                      (stopped-blocked ask_before ask_order now order m v.asks_sorted (ground arith)
                        buy_ended))
                    v.uncrossed;
            },
            refl,
          )
          | inr used_up ↦ rw used_up (v, refl)
        ]

  module _ (h : IsPlaceable order ob false) where
    bids_before : All IsLive ob.bids × All (IsListed ob.token_id true) ob.bids
    bids_before = split_rest ob.token_id true ob.bids h.valid.bids_rest

    pub match_asks-Matched :
        Matched now bid_blocked order before_sell (match_asks now order ob order.amount queue)
    unfolding match_asks
    match_asks-Matched =
        match_loop-Matched now bid_blocked order (suc (length ob.bids)) before_sell
          (let p = h.positive in omega arith) bids_before.0

    sell_side :
        (R : List Order → Type 0)
        → IsRobust R
        → R ob.bids
        → R (match_asks now order ob order.amount queue).resting
    unfolding match_asks
    sell_side R robust k =
        match_loop-IsRobust now bid_blocked order R robust (suc (length ob.bids)) before_sell k

    sell_ended : goes_on now bid_blocked order (match_asks now order ob order.amount queue) ≡ false
    unfolding match_asks
    sell_ended =
        match_loop_ends now bid_blocked order (suc (length ob.bids)) before_sell (omega arith)

    -- The bids that are left, with the asks as they were.
    matched_sell :
        IsValidBook (record ob { bids = (match_asks now order ob order.amount queue).resting })
    matched_sell =
        let m = match_asks now order ob order.amount queue in
        record {
          bids_sorted =
              sell_side (IsSorted bid_before) (IsSorted-robust bid_before) h.valid.bids_sorted;
          asks_sorted = h.valid.asks_sorted;
          bids_rest =
              join_rest ob.token_id true m.resting match_asks-Matched.live
                (sell_side _ (IsListed-robust ob.token_id true) bids_before.1);
          asks_rest = h.valid.asks_rest;
          uncrossed = sell_side _ (IsUncrossed-bids ob.asks) h.valid.uncrossed;
        }

    pub place_sell-IsValidBook :
        let ob' = (place_sell now order ob queue).0 in
        IsValidBook ob' × (ob'.token_id ≡ ob.token_id)
    unfolding place_sell insert_ask
    place_sell-IsValidBook =
        let m = match_asks now order ob order.amount queue in
        let v = matched_sell in
        let left : Order = record order { amount = m.remaining } in
        elim (Bool-cases (ltb_ℤ (pos 0) m.remaining)) [
          | inl some_left ↦ rw some_left (
            record {
              bids_sorted = v.bids_sorted;
              asks_sorted = insert-IsSorted ask_before ask_order left ob.asks v.asks_sorted;
              bids_rest = v.bids_rest;
              asks_rest =
                  All-insert_at _ _ left ob.asks
                    (record { live = ground arith; side = h.side; listed = h.listed }) v.asks_rest;
              uncrossed =
                  insert_ask-IsUncrossed _ left m.resting ob.asks
                    (All-map _ _ m.resting (λ b k. ground arith)
                      (stopped-blocked bid_before bid_order now order m v.bids_sorted (ground arith)
                        sell_ended))
                    v.uncrossed;
            },
            refl,
          )
          | inr used_up ↦ rw used_up (v, refl)
        ]
