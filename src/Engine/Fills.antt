-- ===== src/Engine/Fills.antt =====
-- What the matching loop does to the amounts: nothing is lost and nothing is made, and each trade
-- is at the price of the resting order, which the incoming order's limit allows.
use nowa_zk.Base.{
  ℕ, ◌≡◌, refl, sym, subst, Bool, false, List, [], ◌∷◌, ◌++◌, arith, inl, inr, All, All-append,
  Bool-cases,
}
use nowa_zk.Base.Int.{
  ℤ, pos, ◌+ℤ◌, ◌-ℤ◌, ◌<ℤ◌, ◌≤ℤ◌, eqb_ℤ, int_laws, shift_amount, shift_amount_front,
}
use nowa_zk.Types.{Order, Trade}
use nowa_zk.Engine.{Matching, match_amount, emit, leftover, fill, match_loop}
use nowa_zk.Engine.Loop.{Next, match_loop_inv}
use mathlib.Core.List.{append_assoc, append-nil}

-- The sum of the amounts that rest, and that were traded.
unfoldable pub total : List Order → ℤ
total [] = pos 0
total (o ∷ os) = o.amount +ℤ total os

unfoldable pub traded : List Trade → ℤ
traded [] = pos 0
traded (t ∷ ts) = t.match_amount +ℤ traded ts

abbrev pub IsLive : Order → Type 0
IsLive o = pos 0 <ℤ o.amount

traded-append : (ts : List Trade) (t : Trade) → traded (ts ++ t ∷ []) ≡ traded ts +ℤ t.match_amount
unfolding traded
traded-append [] t = omega int_laws
traded-append (u ∷ ts) t = rw (traded-append ts t) (omega int_laws)

module _ (best : Order) (left : ℤ) (others : List Order) where
  total-leftover : total (leftover best left others) ≡ left +ℤ total others
  unfolding total leftover
  total-leftover = elim (Bool-cases (eqb_ℤ left (pos 0))) [
    | inl filled ↦ rw filled (let z : left ≡ pos 0 = ground arith in rw z (omega int_laws))
    | inr some_left ↦ rw some_left
  ]

  leftover-IsLive : pos 0 ≤ℤ left → All IsLive others → All IsLive (leftover best left others)
  unfolding leftover
  leftover-IsLive h k = elim (Bool-cases (eqb_ℤ left (pos 0))) [
    | inl filled ↦ rw filled k
    | inr some_left ↦ rw some_left (ground arith, k)
  ]

module _ (now : ℕ → ℕ) (blocked : ℤ → ℤ → Bool) (incoming : Order) where
  -- A trade between the incoming order and one that rested, at the latter's price.
  pub record IsFair (t : Trade) : Type 0 where
    pub taker : t.taker_order ≡ incoming
    pub at_resting_price : t.match_price ≡ t.maker_order.price
    pub within_limit : blocked incoming.price t.match_price ≡ false
    pub not_empty : pos 0 <ℤ t.match_amount
    pub covered : t.match_amount ≤ℤ t.maker_order.amount

  pub record Matched (before after : Matching) : Type 0 where
    pub fills : List Trade
    pub sent : after.queue ≡ before.queue ++ fills
    pub fair : All IsFair fills
    pub incoming_spent : traded fills +ℤ after.remaining ≡ before.remaining
    pub resting_spent : traded fills +ℤ total after.resting ≡ total before.resting
    pub not_overspent : pos 0 ≤ℤ after.remaining
    pub live : All IsLive after.resting

  match_amount_bounds :
      (remaining : ℤ) (best : Order)
      → pos 0 <ℤ remaining
      → IsLive best
      → let a = match_amount now blocked incoming remaining best in
        (pos 0 <ℤ a) × (a ≤ℤ best.amount) × (a ≤ℤ remaining)
  match_amount_bounds remaining best h k = ground arith

  module _ (start m : Matching) (h : Matched start m) (n : Next now blocked incoming m) where
    amount : ℤ
    amount = match_amount now blocked incoming m.remaining n.best

    trade : Trade
    trade = emit now blocked incoming m.remaining n.best m.queue

    next-IsLive : All IsLive (n.best ∷ n.others)
    next-IsLive = subst (All IsLive) n.front h.live

    bounds : (pos 0 <ℤ amount) × (amount ≤ℤ n.best.amount) × (amount ≤ℤ m.remaining)
    unfolding amount
    bounds = match_amount_bounds m.remaining n.best n.wanted next-IsLive.0

    trade-IsFair : IsFair trade
    unfolding amount trade
    trade-IsFair = record {
      taker = refl;
      at_resting_price = refl;
      within_limit = n.open_price;
      not_empty = bounds.0;
      covered = bounds.1;
    }

    resting_sum : n.best.amount +ℤ total n.others ≡ total m.resting
    unfolding total
    resting_sum = rw n.front

    fill-Matched : Matched start (fill now blocked incoming n.best n.others m)
    unfolding fill amount trade
    fill-Matched = record {
      fills = h.fills ++ trade ∷ [];
      sent = rw (h.sent, append_assoc);
      fair = All-append IsFair h.fills (trade ∷ []) h.fair (trade-IsFair, tt);
      incoming_spent =
          rw (traded-append h.fills trade, shift_amount (traded h.fills) amount m.remaining)
            h.incoming_spent;
      resting_spent =
          rw
            (
              traded-append h.fills trade,
              total-leftover n.best _ n.others,
              shift_amount_front (traded h.fills) amount n.best.amount (total n.others),
              resting_sum,
            )
            h.resting_spent;
      not_overspent = omega (int_laws, bounds);
      live =
          leftover-IsLive n.best (n.best.amount -ℤ amount) n.others (omega (int_laws, bounds))
            next-IsLive.1;
    }

  start-Matched : (m : Matching) → pos 0 ≤ℤ m.remaining → All IsLive m.resting → Matched m m
  unfolding traded
  start-Matched m h k = record {
    fills = [];
    sent = sym (append-nil m.queue);
    fair = tt;
    incoming_spent = omega int_laws;
    resting_spent = omega int_laws;
    not_overspent = h;
    live = k;
  }

  -- Any number of rounds, from a live side and an amount that is not negative: the trades sent are
  -- fair, and their amounts are what the incoming order and the resting orders have lost.
  pub match_loop-Matched :
      (fuel : ℕ) (m : Matching)
      → pos 0 ≤ℤ m.remaining
      → All IsLive m.resting
      → Matched m (match_loop now blocked incoming fuel m)
  match_loop-Matched fuel m h k =
      match_loop_inv now blocked incoming (Matched m) (λ m' n p. fill-Matched m m' p n) fuel m
        (start-Matched m h k)
