-- ===== src/Storage/Sort.antt =====
-- The bubble sort of `GetBatches`: every round moves the least of what is left to its end.
use mathlib.Core.List.{Perm, append_assoc, append-nil}
use mathlib.Core.List.Perm
use nowa_zk.Base.{
  ℕ, zero, suc, ◌+◌, ◌-◌, ◌≤◌, ◌<◌, ◌≡◌, refl, subst, ap, sym, ◌∙◌, List, [], ◌∷◌, ◌++◌, length,
  All, length-append, arith, ltb, Bool-cases, inl, inr, tests,
}
use nowa_zk.Storage.{bubble, bubble_rounds, bubble_sort}

-- Newest first: no element is below a later one.
abbrev pub Descending : List ℕ → Type 0
Descending [] = Unit
Descending (x ∷ xs) = All (λ y. y ≤ x) xs × Descending xs

-- One full round over `x ∷ xs`.
record Sunk (x : ℕ) (xs : List ℕ) : Type 1 where
  front : List ℕ
  least : ℕ
  eq : bubble (length xs) (x ∷ xs) ≡ front ++ least ∷ []
  size : length front ≡ length xs
  low : least ≤ x
  below : All (λ y. least ≤ y) front
  perm : Perm (front ++ least ∷ []) (x ∷ xs)
  keeps : (P : ℕ → Type 0) → All P (x ∷ xs) → All P front × P least

bubble-Sunk : (x : ℕ) (xs : List ℕ) → Sunk x xs
unfolding bubble
bubble-Sunk x [] = record {
  front = [];
  least = x;
  eq = refl;
  size = refl;
  low = omega arith;
  below = tt;
  perm = Perm.rfl;
  keeps = λ P h. (tt, h.0);
}
bubble-Sunk x (y ∷ xs) = elim (Bool-cases (ltb x y)) [
  | inl lt ↦
      let r = bubble-Sunk x xs in
      record {
        front = y ∷ r.front;
        least = r.least;
        eq = ground (arith, r.eq);
        size = omega (arith, r.size);
        low = r.low;
        below = (omega (tests, r.low, lt), r.below);
        perm = Perm.trans (Perm.cons y r.perm) (Perm.swap x y xs);
        keeps = λ P h. let k = r.keeps P (h.0, h.1.1) in ((h.1.0, k.0), k.1);
      }
  | inr ge ↦
      let r = bubble-Sunk y xs in
      record {
        front = x ∷ r.front;
        least = r.least;
        eq = ground (arith, r.eq);
        size = omega (arith, r.size);
        low = ground (arith, r.low, ge);
        below = (ground (arith, r.low, ge), r.below);
        perm = Perm.cons x r.perm;
        keeps = λ P h. let k = r.keeps P h.1 in ((h.0, k.0), k.1);
      }
]

-- A round over the front leaves what stands behind it.
bubble-append : (k : ℕ) (xs ys : List ℕ) → k < length xs → bubble k (xs ++ ys) ≡ bubble k xs ++ ys
unfolding bubble
bubble-append zero xs ys h = refl
bubble-append (suc k) [] ys h = elim h [ ]
bubble-append (suc k) (x ∷ []) ys h = absurd (omega arith)
bubble-append (suc k) (x ∷ y ∷ xs) ys h =
    ground (arith, bubble-append k (x ∷ xs) ys, bubble-append k (y ∷ xs) ys)

-- What the rounds keep: the last `i` elements are in place.
record Placed (i : ℕ) (orig xs : List ℕ) : Type 0 where
  left : List ℕ
  done : List ℕ
  split : xs ≡ left ++ done
  count : length done ≡ i
  sorted : Descending done
  above : All (λ x. All (λ y. y ≤ x) done) left
  perm : Perm xs orig

All-zip : (P Q : ℕ → Type 0) (xs : List ℕ) → All P xs → All Q xs → All (λ x. P x × Q x) xs
All-zip P Q [] h k = tt
All-zip P Q (x ∷ xs) h k = ((h.0, k.0), All-zip P Q xs h.1 k.1)

round_eq :
    (k x : ℕ) (left done : List ℕ)
    → k ≡ length left
    → let s = bubble-Sunk x left in bubble k (x ∷ left ++ done) ≡ s.front ++ s.least ∷ done
round_eq k x left done e =
    let s = bubble-Sunk x left in
    ap (λ n. bubble n (x ∷ left ++ done)) e
    ∙ bubble-append (length left) (x ∷ left) done (omega arith)
    ∙ ap (λ zs. zs ++ done) s.eq
    ∙ append_assoc s.front (s.least ∷ []) done

round_on :
    (i : ℕ) (orig left done : List ℕ)
    → suc i < length (left ++ done)
    → length done ≡ i
    → Descending done
    → All (λ x. All (λ y. y ≤ x) done) left
    → Perm (left ++ done) orig
    → Placed (suc i) orig (bubble (length (left ++ done) - i - 1) (left ++ done))
round_on i orig [] done h count sorted above perm = absurd (omega arith)
round_on i orig (x ∷ left) done h count sorted above perm =
    let s = bubble-Sunk x left in
    let kept = s.keeps (λ z. All (λ y. y ≤ z) done) above in
    let eq =
      round_eq (length (x ∷ left ++ done) - i - 1) x left done
        (omega (arith, count, length-append left done)) in
    record {
      left = s.front;
      done = s.least ∷ done;
      split = eq;
      count = omega (arith, count);
      sorted = (kept.1, sorted);
      above = All-zip (λ y. s.least ≤ y) (λ z. All (λ y. y ≤ z) done) s.front s.below kept.0;
      perm =
          subst (λ zs. Perm zs orig) (sym eq)
            (Perm.trans
              (subst (λ zs. Perm zs (x ∷ left ++ done)) (append_assoc s.front (s.least ∷ []) done)
                (Perm.append_right done s.perm))
              perm);
    }

one_round :
    (i : ℕ) (orig xs : List ℕ)
    → suc i < length xs
    → Placed i orig xs
    → Placed (suc i) orig (bubble (length xs - i - 1) xs)
one_round i orig xs h p =
    subst (λ zs. Placed (suc i) orig (bubble (length zs - i - 1) zs)) (sym p.split)
      (round_on i orig p.left p.done (subst (λ zs. suc i < length zs) p.split h) p.count p.sorted
        p.above (subst (λ zs. Perm zs orig) p.split p.perm))

bubble-length : (k : ℕ) (xs : List ℕ) → length (bubble k xs) ≡ length xs
unfolding bubble
bubble-length zero xs = refl
bubble-length (suc k) [] = refl
bubble-length (suc k) (x ∷ []) = refl
bubble-length (suc k) (x ∷ y ∷ xs) =
    ground (arith, bubble-length k (x ∷ xs), bubble-length k (y ∷ xs))

bubble_rounds-length : (r i : ℕ) (xs : List ℕ) → length (bubble_rounds r i xs) ≡ length xs
unfolding bubble_rounds
bubble_rounds-length zero i xs = refl
bubble_rounds-length (suc r) i xs =
    bubble_rounds-length r (suc i) (bubble (length xs - i - 1) xs)
    ∙ bubble-length (length xs - i - 1) xs

rounds_length : (xs : List ℕ) → length (bubble_sort xs) ≡ length xs
unfolding bubble_sort
rounds_length xs = bubble_rounds-length (length xs - 1) 0 xs

rounds-Placed :
    (r i : ℕ) (orig xs : List ℕ)
    → i + r < length xs
    → Placed i orig xs
    → Placed (i + r) orig (bubble_rounds r i xs)
unfolding bubble_rounds
rounds-Placed zero i orig xs h p = subst (λ n. Placed n orig xs) (omega arith) p
rounds-Placed (suc r) i orig xs h p =
    let next = bubble (length xs - i - 1) xs in
    subst (λ n. Placed n orig (bubble_rounds r (suc i) next)) (omega arith)
      (rounds-Placed r (suc i) orig next (omega (arith, bubble-length (length xs - i - 1) xs))
        (one_round i orig xs (omega arith) p))

-- After the last round at most one element is left in front of those in place.
append-Descending :
    (left done : List ℕ)
    → length left ≤ 1
    → Descending done
    → All (λ x. All (λ y. y ≤ x) done) left
    → Descending (left ++ done)
append-Descending [] done h sorted above = sorted
append-Descending (x ∷ []) done h sorted above = (above.0, sorted)
append-Descending (x ∷ y ∷ left) done h sorted above = absurd (omega arith)

none_done : (xs : List ℕ) → All (λ x. All (λ y. y ≤ x) []) xs
none_done [] = tt
none_done (x ∷ xs) = (tt, none_done xs)

unplaced : (xs : List ℕ) → Placed 0 xs xs
unplaced xs = record {
  left = xs;
  done = [];
  split = sym (append-nil xs);
  count = refl;
  sorted = tt;
  above = none_done xs;
  perm = Perm.rfl;
}

all_Placed : (xs : List ℕ) → Placed (length xs - 1) xs (bubble_sort xs)
unfolding bubble_sort bubble_rounds
all_Placed [] = unplaced []
all_Placed (x ∷ xs) =
    subst (λ n. Placed n (x ∷ xs) (bubble_rounds (length (x ∷ xs) - 1) 0 (x ∷ xs))) (omega arith)
      (rounds-Placed (length (x ∷ xs) - 1) 0 (x ∷ xs) (x ∷ xs) (omega arith) (unplaced (x ∷ xs)))

-- The bubble sort returns a descending permutation of its argument.
pub bubble_sort-Descending : (xs : List ℕ) → Descending (bubble_sort xs) × Perm (bubble_sort xs) xs
bubble_sort-Descending xs =
    let p = all_Placed xs in
    let sorted =
      append-Descending p.left p.done
        (omega (arith, ap length p.split, rounds_length xs, p.count, length-append p.left p.done))
        p.sorted p.above in
    (subst Descending (sym p.split) sorted, p.perm)
