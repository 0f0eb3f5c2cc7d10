-- ===== src/Engine/Books.antt =====
-- The books stay sorted, live and uncrossed, and hold each order on its own side of its own
-- token's book, whatever orders come.
use nowa_zk.Base.{ℕ, ◌≡◌, Bool, true, false, some, List, [], ◌∷◌, All}
use nowa_zk.Base.Int.{ℤ, pos, ◌<ℤ◌}
use nowa_zk.Types.{Order}
use nowa_zk.Engine.{Orderbook, Engine, ask_before, bid_before, insert_at}
use nowa_zk.Engine.Fills.{IsLive}
use nowa_zk.Engine.Sides.{IsSorted, IsRobust, All-insert_at, All-map}

-- An order that may rest on the side `buy` of the book of `token`.
pub record IsResting (token : ℕ) (buy : Bool) (o : Order) : Type 0 where
  pub live : pos 0 <ℤ o.amount
  pub side : o.is_buy ≡ buy
  pub listed : o.token_id ≡ token

-- Every bid is below every ask.
abbrev pub IsUncrossed : List Order → List Order → Type 0
IsUncrossed bids asks = All (λ b. All (λ a. b.price <ℤ a.price) asks) bids

pub record IsValidBook (ob : Orderbook) : Type 0 where
  pub bids_sorted : IsSorted bid_before ob.bids
  pub asks_sorted : IsSorted ask_before ob.asks
  pub bids_rest : All (IsResting ob.token_id true) ob.bids
  pub asks_rest : All (IsResting ob.token_id false) ob.asks
  pub uncrossed : IsUncrossed ob.bids ob.asks

-- Every book that exists is listed under its own token and is valid.
abbrev pub IsValidEngine : Engine → Type 0
IsValidEngine e =
    (k : ℕ) (ob : Orderbook) → e.orderbooks k ≡ some ob → IsValidBook ob × (ob.token_id ≡ k)

-- The predicates that the loop keeps.
pub IsSorted-robust : (before : ℤ → ℤ → Bool) → IsRobust (IsSorted before)
IsSorted-robust before = record {
  drop_best = λ best others h. h.1;
  set_left = λ best left others h. h;
}

-- Uncrossed, as a predicate on the asks and on the bids.
pub IsUncrossed-asks : (bids : List Order) → IsRobust (IsUncrossed bids)
IsUncrossed-asks bids = record {
  drop_best = λ best others h. All-map _ _ bids (λ b k. k.1) h;
  set_left = λ best left others h. All-map _ _ bids (λ b k. k) h;
}

pub IsUncrossed-bids : (asks : List Order) → IsRobust (λ bids. IsUncrossed bids asks)
IsUncrossed-bids asks = record {
  drop_best = λ best others h. h.1;
  set_left = λ best left others h. h;
}

-- The side and the token, without the amount.
abbrev pub IsListed : ℕ → Bool → Order → Type 0
IsListed token buy o = (o.is_buy ≡ buy) × (o.token_id ≡ token)

pub IsListed-robust : (token : ℕ) (buy : Bool) → IsRobust (All (IsListed token buy))
IsListed-robust token buy = record {
  drop_best = λ best others h. h.1;
  set_left = λ best left others h. h;
}

pub split_rest :
    (token : ℕ) (buy : Bool) (os : List Order)
    → All (IsResting token buy) os
    → All IsLive os × All (IsListed token buy) os
split_rest token buy os h =
    (All-map _ _ os (λ o r. r.live) h, All-map _ _ os (λ o r. (r.side, r.listed)) h)

pub join_rest :
    (token : ℕ) (buy : Bool) (os : List Order)
    → All IsLive os
    → All (IsListed token buy) os
    → All (IsResting token buy) os
join_rest token buy [] h k = tt
join_rest token buy (o ∷ os) h k =
    (record { live = h.0; side = k.0.0; listed = k.0.1 }, join_rest token buy os h.1 k.1)

-- A new bid below all the asks, and a new ask above all the bids.
pub insert_ask-IsUncrossed :
    (i : ℕ) (o : Order) (bids asks : List Order)
    → All (λ b. b.price <ℤ o.price) bids
    → IsUncrossed bids asks
    → IsUncrossed bids (insert_at i o asks)
insert_ask-IsUncrossed i o [] asks h k = tt
insert_ask-IsUncrossed i o (b ∷ bids) asks h k =
    (All-insert_at _ i o asks h.0 k.0, insert_ask-IsUncrossed i o bids asks h.1 k.1)
