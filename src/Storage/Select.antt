-- ===== src/Storage/Select.antt =====
-- The lists of `GetBatches`: where a page is cut out, what the sort and the cut keep of every
-- element, and the keys that are read.
use mathlib.Core.List.{Memᴰ}
use nowa_zk.Base.{
  ℕ, zero, suc, ◌+◌, ◌-◌, ◌%◌, ◌^◌, ◌<◌, ◌≤◌, ◌≡◌, ◌↔◌, refl, sym, ap, subst, ◌∙◌, true, false,
  none, some, List, [], ◌∷◌, length, take, drop, All, length-drop, drop_short, take_long, arith,
  ltb, leb, if◌then◌else◌, Bool-cases, tests, inl, inr, ◌⊎◌,
}
use nowa_zk.Base.Bytes.{Bytes}
use nowa_zk.Base.Int.{pos}
use nowa_zk.Storage.{
  scan_keys, scan_proof_key, bubble, bubble_rounds, bubble_sort, as_int, cut, slice, select_page,
}

as_int_small : (n : ℕ) → n < 2 ^ 63 → as_int n ≡ pos n
unfolding as_int
as_int_small n h = ground arith

add_sub : (a n : ℕ) → a + n - a ≡ n
add_sub a n = omega arith

cut-pos : (a n : ℕ) (xs : List ℕ) → cut (pos a) (pos (a + n)) xs ≡ some (take n (drop a xs))
unfolding cut slice
cut-pos a n xs = elim (Bool-cases (leb (length xs) a)) [
  | inl short ↦
      ground
        (arith, short, drop_short a xs (omega (tests, short)), take_long {A = ℕ} n [] (omega arith))
  | inr long ↦ elim (Bool-cases (ltb (length xs) (a + n))) [
    | inl clamped ↦
        let size = length-drop a xs in
        ground (
          arith,
          long,
          clamped,
          take_long (length xs - a) (drop a xs) (omega (arith, size)),
          take_long n (drop a xs) (omega (tests, size, clamped)),
        )
    | inr whole ↦ ground (arith, long, whole, ap (λ k. take k (drop a xs)) (add_sub a n))
  ]
]

-- Where the sum of offset and limit is an `int`, a page is what the two numbers say.
pub select_page-in_range :
    (offset limit : ℕ) (xs : List ℕ)
    → offset + limit < 2 ^ 63
    → select_page offset limit xs ≡ some (take limit (drop offset xs))
unfolding select_page
select_page-in_range offset limit xs h =
    ap (λ z. cut z (as_int ((offset + limit) % 2 ^ 64)) xs) (as_int_small offset (omega arith))
    ∙ ap (λ z. cut (pos offset) z xs) (ap as_int (omega arith) ∙ as_int_small (offset + limit) h)
    ∙ cut-pos offset limit xs

pub some_inj : {m n : ℕ} → some m ≡ some n → m ≡ n
some_inj e = ground (arith, e)

pub scan_mem :
    (k : Bytes) (ks : List Bytes) (n : ℕ)
    → scan_proof_key k ≡ some n
    → Memᴰ k ks
    → Memᴰ n (scan_keys ks)
unfolding scan_keys
scan_mem k [] n scanned m = elim m [ ]
scan_mem k (j ∷ ks) n scanned (Memᴰ.head e) =
    subst (λ o. Memᴰ n (elim o [ none ↦ scan_keys ks | some i ↦ i ∷ scan_keys ks ]))
      (sym (sym (ap scan_proof_key e) ∙ scanned)) (Memᴰ.head refl)
scan_mem k (j ∷ ks) n scanned (Memᴰ.tail m) =
    elim (scan_proof_key j)
      as (λ o. Memᴰ n (elim o [ none ↦ scan_keys ks | some n ↦ n ∷ scan_keys ks ])) [
        | none ↦ scan_mem k ks n scanned m
        | some _ ↦ Memᴰ.tail (scan_mem k ks n scanned m)
      ]

module _ (P : ℕ → Type 0) where
  pub All-take : (n : ℕ) (xs : List ℕ) → All P xs → All P (take n xs)
  All-take zero xs h = tt
  All-take (suc n) [] h = tt
  All-take (suc n) (x ∷ xs) h = (h.0, All-take n xs h.1)

  pub All-drop : (n : ℕ) (xs : List ℕ) → All P xs → All P (drop n xs)
  All-drop zero xs h = h
  All-drop (suc n) [] h = tt
  All-drop (suc n) (x ∷ xs) h = All-drop n xs h.1

  All-bubble : (k : ℕ) (xs : List ℕ) → All P xs → All P (bubble k xs)
  unfolding bubble
  All-bubble zero xs h = h
  All-bubble (suc k) [] h = tt
  All-bubble (suc k) (x ∷ []) h = h
  All-bubble (suc k) (x ∷ y ∷ xs) h =
      elim (ltb x y) as (λ b. All P (if b then y ∷ bubble k (x ∷ xs) else x ∷ bubble k (y ∷ xs))) [
        | true ↦ (h.1.0, All-bubble k (x ∷ xs) (h.0, h.1.1))
        | false ↦ (h.0, All-bubble k (y ∷ xs) h.1)
      ]

  All-bubble_rounds : (r i : ℕ) (xs : List ℕ) → All P xs → All P (bubble_rounds r i xs)
  unfolding bubble_rounds
  All-bubble_rounds zero i xs h = h
  All-bubble_rounds (suc r) i xs h =
      All-bubble_rounds r (suc i) (bubble (length xs - i - 1) xs)
        (All-bubble (length xs - i - 1) xs h)

  pub All-bubble_sort : (xs : List ℕ) → All P xs → All P (bubble_sort xs)
  unfolding bubble_sort
  All-bubble_sort xs h = All-bubble_rounds (length xs - 1) 0 xs h

-- The slice is out of range, and `GetBatches` panics, exactly where the offset is no `int`, or
-- where a batch is left behind the offset and the sum of offset and limit is no `int`; for 64-bit
-- offset and limit.
pub select_page-panics :
    (offset limit : ℕ) (numbers : List ℕ)
    → offset < 2 ^ 64
    → limit < 2 ^ 64
    → (select_page offset limit numbers ≡ none)
      ↔ ((2 ^ 63 ≤ offset) ⊎ ((offset < length numbers) × (2 ^ 63 ≤ offset + limit)))
unfolding select_page cut slice as_int
select_page-panics offset limit numbers h k = ground arith
