-- ===== src/Engine/Loop.antt =====
-- The matching loop: a rule for invariants, its end, and what it conserves.
use nowa_zk.Base.{
  ℕ, zero, suc, ◌<◌, ◌≡◌, refl, ap, Bool, true, false, List, [], ◌∷◌, length, arith, inl, inr,
  Bool-cases, ◌⊎◌,
}
use nowa_zk.Base.Int.{ℤ, pos, ◌<ℤ◌, -ℤ_self}
use nowa_zk.Types.{Order}
use nowa_zk.Engine.{Matching, goes_on, match_amount, fill, round, match_loop}

module _ (now : ℕ → ℕ) (blocked : ℤ → ℤ → Bool) (incoming : Order) where
  -- The best order that a round works on.
  pub record Next (m : Matching) : Type 0 where
    pub best : Order
    pub others : List Order
    pub front : m.resting ≡ best ∷ others
    pub wanted : pos 0 <ℤ m.remaining
    pub open_price : blocked incoming.price best.price ≡ false

  pub goes_on-Next : (m : Matching) → goes_on now blocked incoming m ≡ true → Next m
  unfolding goes_on
  goes_on-Next m h = go m.resting refl
    where
      go : (os : List Order) → m.resting ≡ os → Next m
      go [] e = absurd (ground arith)
      go (best ∷ others) e = record {
        best = best;
        others = others;
        front = e;
        wanted = ground arith;
        open_price = ground arith;
      }

  -- What holds of a round on its best order holds of the round.
  pub round_lem :
      (m : Matching) (n : Next m)
      → round now blocked incoming m ≡ fill now blocked incoming n.best n.others m
  unfolding round
  round_lem m n = ground (arith, n.front)

  -- The rule for invariants.
  pub match_loop_inv {κ} :
      (P : Matching → Type κ)
      → ((m : Matching) (n : Next m) → P m → P (fill now blocked incoming n.best n.others m))
      → (fuel : ℕ) (m : Matching) → P m
      → P (match_loop now blocked incoming fuel m)
  unfolding match_loop
  match_loop_inv P keep zero m h = h
  match_loop_inv P keep (suc fuel) m h = elim (Bool-cases (goes_on now blocked incoming m)) [
    | inl more ↦
        rw (more, match_loop)
          (match_loop_inv P keep fuel (round now blocked incoming m)
            (rw (round_lem m (goes_on-Next m more)) (keep m (goes_on-Next m more) h)))
    | inr done ↦ rw (done, match_loop) h
  ]

  pub match_loop_stopped :
      (fuel : ℕ) (m : Matching)
      → goes_on now blocked incoming m ≡ false
      → match_loop now blocked incoming fuel m ≡ m
  unfolding match_loop
  match_loop_stopped zero m h = refl
  match_loop_stopped (suc fuel) m h = rw (h, match_loop)

  -- A round takes all of the best order, or all that the incoming order has left.
  match_amount-cases :
      (remaining : ℤ) (best : Order)
      → (match_amount now blocked incoming remaining best ≡ best.amount)
        ⊎ (match_amount now blocked incoming remaining best ≡ remaining)
  match_amount-cases remaining best = ground arith

  spent-stops : (m : Matching) → m.remaining ≡ pos 0 → goes_on now blocked incoming m ≡ false
  unfolding goes_on
  spent-stops m h = go m.resting refl
    where
      go : (os : List Order) → m.resting ≡ os → goes_on now blocked incoming m ≡ false
      go [] e = rw e
      go (best ∷ others) e = rw (e, h)

  emptied :
      (best : Order) (others : List Order) (m : Matching)
      → match_amount now blocked incoming m.remaining best ≡ best.amount
      → (fill now blocked incoming best others m).resting ≡ others
  unfolding fill
  emptied best others m e = rw (e, -ℤ_self)

  spent :
      (best : Order) (others : List Order) (m : Matching)
      → match_amount now blocked incoming m.remaining best ≡ m.remaining
      → (fill now blocked incoming best others m).remaining ≡ pos 0
  unfolding fill
  spent best others m e = rw (e, -ℤ_self)

  -- A round removes the best order, or leaves the incoming order nothing.
  fill_progress :
      (best : Order) (others : List Order) (m : Matching)
      → let m' = fill now blocked incoming best others m in
        (m'.resting ≡ others) ⊎ (goes_on now blocked incoming m' ≡ false)
  fill_progress best others m = elim (match_amount-cases m.remaining best) [
    | inl all_of_it ↦ inl (emptied best others m all_of_it)
    | inr used_up ↦ inr (spent-stops _ (spent best others m used_up))
  ]

  -- After one round, given that the loop ends from where the round leads.
  ends_after :
      (fuel : ℕ) (m : Matching) (n : Next m)
      → length m.resting < suc fuel
      → ((m' : Matching)
          → length m'.resting < fuel
          → goes_on now blocked incoming (match_loop now blocked incoming fuel m') ≡ false)
      → goes_on now blocked incoming
          (match_loop now blocked incoming fuel (fill now blocked incoming n.best n.others m))
        ≡ false
  ends_after fuel m n h ih = elim (fill_progress n.best n.others m) [
    | inl shorter ↦ ih _ (rw shorter (omega (arith, ap (length {A = Order}) n.front)))
    | inr stopped ↦ rw (match_loop_stopped fuel _ stopped) stopped
  ]

  -- With more fuel than there are resting orders the loop ends by its own test.
  pub match_loop_ends :
      (fuel : ℕ) (m : Matching)
      → length m.resting < fuel
      → goes_on now blocked incoming (match_loop now blocked incoming fuel m) ≡ false
  unfolding match_loop
  match_loop_ends zero m h = elim h [ ]
  match_loop_ends (suc fuel) m h = elim (Bool-cases (goes_on now blocked incoming m)) [
    | inl more ↦
        let n = goes_on-Next m more in
        rw (more, match_loop, round_lem m n) (ends_after fuel m n h (match_loop_ends fuel))
    | inr done ↦ rw (done, match_loop) done
  ]
