-- ===== src/Base/Bytes/Decimal.antt =====
-- `(*big.Int).String`, `%d` and `(*big.Int).SetString(s, 10)`: what is printed parses back.
use nowa_zk.Base.{
  ℕ, zero, suc, ◌+◌, ◌-◌, ◌*◌, ◌/◌, ◌%◌, ◌≤◌, ◌<◌, ◌≡◌, refl, true, false, ◌&&◌, Option, none, some,
  List, [], ◌∷◌, All, arith, ltb, leb, ◌==◌, if◌then◌else◌,
}
use nowa_zk.Base.Int.{ℤ, pos, negsuc}

-- The digits of `n` in front of `rest`; `n < fuel` is enough.
unfoldable pub digits : ℕ → ℕ → List ℕ → List ℕ
digits zero n rest = rest
digits (suc f) n rest = elim (ltb n 10) [
  | true ↦ (48 + n) ∷ rest
  | false ↦ digits f (n / 10) ((48 + n % 10) ∷ rest)
]

-- `%d` of an unsigned number
unfoldable pub print_ℕ : ℕ → List ℕ
unfolding digits
print_ℕ n = digits (suc n) n []

unfoldable pub print : ℤ → List ℕ
unfolding print_ℕ
print (pos n) = print_ℕ n
print (negsuc n) = b'-' ∷ print_ℕ (suc n)

unfoldable pub parse_digits : ℕ → List ℕ → Option ℕ
parse_digits acc [] = some acc
parse_digits acc (c ∷ s) =
    let rest = parse_digits (acc * 10 + (c - 48)) s in if leb 48 c && leb c 57 then rest else none

-- Digits alone; the empty text is refused.
unfoldable pub parse_ℕ : List ℕ → Option ℕ
unfolding parse_digits
parse_ℕ [] = none
parse_ℕ (c ∷ s) = parse_digits 0 (c ∷ s)

-- -n, where -0 is 0
abbrev pub negate : ℕ → ℤ
negate zero = pos 0
negate (suc n) = negsuc n

abbrev as_pos : Option ℕ → Option ℤ
as_pos none = none
as_pos (some n) = some (pos n)

abbrev as_neg : Option ℕ → Option ℤ
as_neg none = none
as_neg (some n) = some (negate n)

-- `SetString(s, 10)`: one sign may stand in front.
unfoldable pub parse : List ℕ → Option ℤ
unfolding parse_ℕ
parse [] = none
parse (c ∷ s) =
    if c == b'-'
    then as_neg (parse_ℕ s)
    else (if c == b'+' then as_pos (parse_ℕ s) else as_pos (parse_ℕ (c ∷ s)))

parse_digits-digits :
    (f n : ℕ) (rest : List ℕ) → n < f → parse_digits 0 (digits f n rest) ≡ parse_digits n rest
unfolding digits parse_digits
parse_digits-digits zero n rest h = elim h [ ]
parse_digits-digits (suc f) n rest h =
    ground (arith, parse_digits-digits f (n / 10) ((48 + n % 10) ∷ rest))

-- The first byte printed is a digit.
record Starts (s : List ℕ) : Type 0 where
  first : ℕ
  others : List ℕ
  split : s ≡ first ∷ others
  digit : 48 ≤ first

digits-Starts : (f n c : ℕ) (rest : List ℕ) → 48 ≤ c → Starts (digits f n (c ∷ rest))
unfolding digits
digits-Starts zero n c rest h = record { first = c; others = rest; split = refl; digit = h }
digits-Starts (suc f) n c rest h =
    elim (ltb n 10)
      as (λ b. Starts (elim b [
        | true ↦ (48 + n) ∷ c ∷ rest
        | false ↦ digits f (n / 10) ((48 + n % 10) ∷ c ∷ rest)
      ])) [
        | true ↦ record { first = 48 + n; others = c ∷ rest; split = refl; digit = omega arith }
        | false ↦ digits-Starts f (n / 10) (48 + n % 10) (c ∷ rest) (omega arith)
      ]

print_ℕ-Starts : (n : ℕ) → Starts (print_ℕ n)
unfolding print_ℕ
print_ℕ-Starts n =
    elim (ltb n 10)
      as (λ b.
        Starts (elim b [ true ↦ (48 + n) ∷ [] | false ↦ digits n (n / 10) ((48 + n % 10) ∷ []) ])) [
          | true ↦ record { first = 48 + n; others = []; split = refl; digit = omega arith }
          | false ↦ digits-Starts n (n / 10) (48 + n % 10) [] (omega arith)
        ]

parse_digits-print_ℕ : (n : ℕ) → parse_digits 0 (print_ℕ n) ≡ some n
unfolding print_ℕ parse_digits
parse_digits-print_ℕ n = parse_digits-digits (suc n) n [] (omega arith)

pub parse_ℕ-print_ℕ : (n : ℕ) → parse_ℕ (print_ℕ n) ≡ some n
unfolding parse_ℕ
parse_ℕ-print_ℕ n = let s = print_ℕ-Starts n in ground (arith, s.split, parse_digits-print_ℕ n)

pub parse-print : (z : ℤ) → parse (print z) ≡ some z
unfolding parse print
parse-print (pos n) = let s = print_ℕ-Starts n in ground (arith, s.split, parse_ℕ-print_ℕ n)
parse-print (negsuc n) = ground (arith, parse_ℕ-print_ℕ (suc n))

-- Only digits are printed.
abbrev pub IsDigit : ℕ → Type 0
IsDigit c = (48 ≤ c) × (c ≤ 57)

digits-IsDigit :
    (f n : ℕ) (rest : List ℕ) → All IsDigit rest → n < f → All IsDigit (digits f n rest)
unfolding digits
digits-IsDigit zero n rest h lt = h
digits-IsDigit (suc f) n rest h lt =
    (elim (ltb n 10)
        as (λ b.
          ltb n 10 ≡ b
          → All IsDigit (elim b [
            | true ↦ (48 + n) ∷ rest
            | false ↦ digits f (n / 10) ((48 + n % 10) ∷ rest)
          ])) [
            | true ↦ λ small. ((omega arith, ground arith), h)
            | false ↦ λ big.
                digits-IsDigit f (n / 10) ((48 + n % 10) ∷ rest) ((omega arith, omega arith), h)
                  (ground arith)
          ])
      refl

pub print_ℕ-IsDigit : (n : ℕ) → All IsDigit (print_ℕ n)
unfolding print_ℕ
print_ℕ-IsDigit n = digits-IsDigit (suc n) n [] tt (omega arith)

printed_sample : parse (print (negsuc 1204)) ≡ some (negsuc 1204)
unfolding parse print
printed_sample = refl
