-- ===== src/Engine/Sides.antt =====
-- One side of a book: sorted by price, the older of two equal prices first. `before p q` says that
-- a new order at `p` goes in front of one at `q`; it is also the test that stops the matching of
-- an order at `p` against a best order at `q`.
use nowa_zk.Base.{
  ℕ, zero, suc, ◌≡◌, refl, ap, subst, take, drop, Bool, true, false, List, [], ◌∷◌, ◌++◌, arith,
  inl, inr, All, Bool-cases,
}
use nowa_zk.Base.Int.{ℤ, pos, ◌-ℤ◌, ◌<ℤ◌, eqb_ℤ}
use nowa_zk.Types.{Order}
use nowa_zk.Engine.{
  Matching, goes_on, match_amount, leftover, fill, match_loop, insert_index, insert_at, ask_before,
  bid_before,
}
use nowa_zk.Engine.Loop.{match_loop_inv}

pub record PriceOrder (before : ℤ → ℤ → Bool) : Type 0 where
  pub irrefl : (p : ℤ) → before p p ≡ false
  pub keeps : (p o x : ℤ) → before p o ≡ true → before x o ≡ false → before x p ≡ false
  pub reaches : (p o x : ℤ) → before p o ≡ true → before x o ≡ false → before p x ≡ true

pub ask_order : PriceOrder ask_before
ask_order = record {
  irrefl = λ p. ground arith;
  keeps = λ p o x h k. ground arith;
  reaches = λ p o x h k. ground arith;
}

pub bid_order : PriceOrder bid_before
bid_order = record {
  irrefl = λ p. ground arith;
  keeps = λ p o x h k. ground arith;
  reaches = λ p o x h k. ground arith;
}

module _ (before : ℤ → ℤ → Bool) where
  -- No later order belongs in front of an earlier one.
  abbrev pub IsSorted : List Order → Type 0
  IsSorted [] = Unit
  IsSorted (o ∷ os) = All (λ x. before x.price o.price ≡ false) os × IsSorted os

pub All-insert_at {κ} :
    (P : Order → Type κ) (i : ℕ) (o : Order) (os : List Order)
    → P o
    → All P os
    → All P (insert_at i o os)
unfolding insert_at
All-insert_at P zero o os h k = (h, k)
All-insert_at P (suc i) o [] h k = (h, tt)
All-insert_at P (suc i) o (x ∷ os) h k = (k.0, All-insert_at P i o os h k.1)

pub All-map {κ ν} :
    (P : Order → Type κ) (Q : Order → Type ν) (os : List Order)
    → ((o : Order) → P o → Q o)
    → All P os
    → All Q os
All-map P Q [] f h = tt
All-map P Q (o ∷ os) f h = (f o h.0, All-map P Q os f h.1)

module _ (before : ℤ → ℤ → Bool) (ord : PriceOrder before) where
  -- The place that the loop finds keeps the side sorted.
  pub insert-IsSorted :
      (o : Order) (os : List Order)
      → IsSorted before os
      → IsSorted before (insert_at (insert_index before o.price os) o os)
  unfolding insert_at insert_index
  insert-IsSorted o [] h = (tt, tt)
  insert-IsSorted o (x ∷ os) h = elim (Bool-cases (before o.price x.price)) [
    | inl front ↦ rw front (
      (
        ord.keeps o.price x.price x.price front (ord.irrefl x.price),
        All-map _ _ os (λ y k. ord.keeps o.price x.price y.price front k) h.0,
      ),
      h,
    )
    | inr behind ↦
        rw behind (
          All-insert_at _ (insert_index before o.price os) o os behind h.0,
          insert-IsSorted o os h.1,
        )
  ]

  module _ (now : ℕ → ℕ) (incoming : Order) where
    -- If the loop stops while the incoming order has something left, no resting order is within
    -- its limit.
    pub stopped-blocked :
        (m : Matching)
        → IsSorted before m.resting
        → pos 0 <ℤ m.remaining
        → goes_on now before incoming m ≡ false
        → All (λ o. before incoming.price o.price ≡ true) m.resting
    unfolding goes_on
    stopped-blocked m h k stop = go m.resting refl h
      where
        go :
            (os : List Order)
            → m.resting ≡ os
            → IsSorted before os
            → All (λ o. before incoming.price o.price ≡ true) os
        go [] e s = tt
        go (best ∷ others) e s =
            let b : before incoming.price best.price ≡ true = ground arith in
            (b, All-map _ _ others (λ x n. ord.reaches incoming.price best.price x.price b n) s.0)

-- What survives the removal of the best order and a change of its amount.
pub record IsRobust {κ} (R : List Order → Type κ) : Type κ where
  pub drop_best : (best : Order) (others : List Order) → R (best ∷ others) → R others
  pub set_left :
      (best : Order) (left : ℤ) (others : List Order)
      → R (best ∷ others)
      → R (record best { amount = left } ∷ others)

leftover-IsRobust {κ} :
    (R : List Order → Type κ) (robust : IsRobust R) (best : Order) (left : ℤ) (others : List Order)
    → R (best ∷ others)
    → R (leftover best left others)
unfolding leftover
leftover-IsRobust R robust best left others k = elim (Bool-cases (eqb_ℤ left (pos 0))) [
  | inl filled ↦ rw filled (robust.drop_best best others k)
  | inr some_left ↦ rw some_left (robust.set_left best left others k)
]

-- It survives the loop.
pub match_loop-IsRobust {κ} :
    (now : ℕ → ℕ) (blocked : ℤ → ℤ → Bool) (incoming : Order) (R : List Order → Type κ)
    → IsRobust R
    → (fuel : ℕ) (m : Matching) → R m.resting
    → R (match_loop now blocked incoming fuel m).resting
unfolding fill
match_loop-IsRobust now blocked incoming R robust fuel m h =
    match_loop_inv now blocked incoming (λ m'. R m'.resting)
      (λ m' n k.
        leftover-IsRobust R robust n.best
          (n.best.amount -ℤ match_amount now blocked incoming m'.remaining n.best) n.others
          (subst R n.front k))
      fuel m h

module _ (before : ℤ → ℤ → Bool) (ord : PriceOrder before) where
  -- Price, then time: on a sorted side a new order stands behind exactly the orders that it does
  -- not go in front of, those of its own price among them, and their order is unchanged.
  pub insert_at_place :
      (o : Order) (os : List Order)
      → IsSorted before os
      → let i = insert_index before o.price os in
        (insert_at i o os ≡ take i os ++ o ∷ drop i os)
        × All (λ x. before o.price x.price ≡ false) (take i os)
        × All (λ x. before o.price x.price ≡ true) (drop i os)
  unfolding insert_at insert_index
  insert_at_place o [] h = (refl, tt, tt)
  insert_at_place o (x ∷ os) h = elim (Bool-cases (before o.price x.price)) [
    | inl front ↦
        rw front (
          refl,
          tt,
          (front, All-map _ _ os (λ y k. ord.reaches o.price x.price y.price front k) h.0),
        )
    | inr behind ↦
        let (same, earlier, later) = insert_at_place o os h.1 in
        rw behind (ap (◌∷◌ x) same, (behind, earlier), later)
  ]
