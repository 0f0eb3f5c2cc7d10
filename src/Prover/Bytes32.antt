-- ===== src/Prover/Bytes32.antt =====
-- prover/cmd/prover/start.go, `rootToBytes32` and `hashToBytes32`: the words of the call, from the
-- texts of a batch.
use nowa_zk.Base.{
  ℕ, zero, suc, ◌+◌, ◌*◌, ◌/◌, ◌%◌, ◌^◌, ◌<◌, ◌≡◌, refl, sym, ap, ◌∙◌, Bool, true, false, ◌&&◌,
  ◌||◌, Option, none, some, [], ◌∷◌, All, length, drop, arith, ltb, lt→ltb, ◌==◌, if◌then◌else◌,
}
use nowa_zk.Base.Bytes.{trim_space, trim_left, trim_right, Bytes, codes, eqb, eq_of_eqb}
use nowa_zk.Base.Bytes.Decimal.{print, parse, parse-print, IsDigit, print_ℕ-IsDigit}
use nowa_zk.Base.Int.{ℤ, pos, negsuc}
use nowa_zk.Circuit.Assign.{parse_hex}
use nowa_zk.Replay.Batches.{from_bytes}

-- `FillBytes` of so many bytes, in front of `rest`
unfoldable pub fill_bytes : ℕ → ℕ → Bytes → Bytes
fill_bytes zero n rest = rest
fill_bytes (suc k) n rest = fill_bytes k (n / 256) ((n % 256) ∷ rest)

-- `strings.HasPrefix(s, "0x") || strings.HasPrefix(s, "0X")`
abbrev pub has_0x : Bytes → Bool
has_0x (a ∷ b ∷ s) = (a == 48) && ((b == 120) || (b == 88))
has_0x s = false

-- A decimal text first, and hexadecimal where that fails.
abbrev pub decimal_or_hex : Bytes → Option ℤ
decimal_or_hex s = elim (parse s) [ some z ↦ some z | none ↦ parse_hex s ]

-- The range check and `FillBytes`; `BitLen() > 256` is 2^256 or more.
unfoldable pub word : Option ℤ → Option Bytes
unfolding fill_bytes
word none = none
word (some (negsuc n)) = none
word (some (pos n)) = if ltb n (2 ^ 256) then some (fill_bytes 32 n []) else none

unfoldable pub root_to_bytes32 : Bytes → Option Bytes
unfolding trim_space parse parse_hex word
root_to_bytes32 root =
    let trimmed = trim_space root in
    word (if has_0x trimmed then parse_hex (drop 2 trimmed) else decimal_or_hex trimmed)

abbrev pub zero_word : Bytes
unfolding fill_bytes
zero_word = fill_bytes 32 0 []

abbrev or_zero_word : Option Bytes → Bytes
or_zero_word none = zero_word
or_zero_word (some w) = w

-- An error is the word 0.
unfoldable pub hash_to_bytes32 : Bytes → Bytes
unfolding root_to_bytes32 fill_bytes
hash_to_bytes32 v =
    if eqb v [] || eqb v (codes "0") then zero_word else or_zero_word (root_to_bytes32 v)

abbrev pow256 : ℕ → ℕ
pow256 zero = 1
pow256 (suc k) = pow256 k * 256

from_bytes-fill_bytes :
    (k n : ℕ) (rest : Bytes) → n < pow256 k → from_bytes 0 (fill_bytes k n rest) ≡ from_bytes n rest
unfolding fill_bytes from_bytes
from_bytes-fill_bytes zero n rest h = ap (λ m. from_bytes m rest) (omega arith)
from_bytes-fill_bytes (suc k) n rest h =
    from_bytes-fill_bytes k (n / 256) ((n % 256) ∷ rest) (omega arith)
    ∙ ap (λ m. from_bytes m rest) (omega arith)

left_digits : (s : Bytes) → All IsDigit s → trim_left s ≡ s
unfolding trim_left
left_digits [] h = refl
left_digits (c ∷ s) h = ground (arith, h.0)

right_digits : (s : Bytes) → All IsDigit s → trim_right s ≡ s
unfolding trim_right
right_digits [] h = refl
right_digits (c ∷ s) h = ground (arith, h.0, right_digits s h.1)

digits_not_0x : (s : Bytes) → All IsDigit s → has_0x s ≡ false
digits_not_0x [] h = refl
digits_not_0x (a ∷ []) h = refl
digits_not_0x (a ∷ b ∷ s) h = ground (arith, h.1.0)

decimal_chosen :
    (s : Bytes) (z : ℤ)
    → has_0x s ≡ false
    → parse s ≡ some z
    → (if has_0x s then parse_hex (drop 2 s) else decimal_or_hex s) ≡ some z
decimal_chosen s z plain parsed = ground (arith, plain, parsed)

word_of_digits :
    (s : Bytes) (z : ℤ) → All IsDigit s → parse s ≡ some z → root_to_bytes32 s ≡ word (some z)
unfolding root_to_bytes32 trim_space
word_of_digits s z d parsed =
    ap (λ t. word (if has_0x t then parse_hex (drop 2 t) else decimal_or_hex t))
      (ap trim_right (left_digits s d) ∙ right_digits s d)
    ∙ ap word (decimal_chosen s z (digits_not_0x s d) parsed)

print-IsDigit : (n : ℕ) → All IsDigit (print (pos n))
unfolding print
print-IsDigit n = print_ℕ-IsDigit n

word_in_range : (n : ℕ) → n < 2 ^ 256 → word (some (pos n)) ≡ some (fill_bytes 32 n [])
unfolding word
word_in_range n h = ap (λ b. if b then some (fill_bytes 32 n []) else none) (lt→ltb n (2 ^ 256) h)

fill_bytes-length : (k n : ℕ) (rest : Bytes) → length (fill_bytes k n rest) ≡ k + length rest
unfolding fill_bytes
fill_bytes-length zero n rest = omega arith
fill_bytes-length (suc k) n rest = omega (arith, fill_bytes-length k (n / 256) ((n % 256) ∷ rest))

-- A decimal text below 2^256 becomes the 32 bytes of its number.
pub root_to_bytes32-print :
    (n : ℕ)
    → n < 2 ^ 256
    → (w : Bytes) × (root_to_bytes32 (print (pos n)) ≡ some w)
      × (from_bytes 0 w ≡ n)
      × (length w ≡ 32)
unfolding from_bytes zero_word
root_to_bytes32-print n h = (
  fill_bytes 32 n [],
  word_of_digits (print (pos n)) (pos n) (print-IsDigit n) (parse-print (pos n))
      ∙ word_in_range n h,
  from_bytes-fill_bytes 32 n [] (omega arith),
  fill_bytes-length 32 n [],
)

zero_text :
    (n : ℕ) (s : Bytes) → parse s ≡ some (pos n) → (eqb s [] || eqb s (codes "0")) ≡ true → n ≡ 0
unfolding parse eqb
zero_text n [] parsed e = ground (arith, parsed)
zero_text n (c ∷ s) parsed e =
    let same = eq_of_eqb (c ∷ s) (codes "0") e in
    let zero_parsed : parse (codes "0") ≡ some (pos 0) = refl in
    pos_inj (sym parsed ∙ ap parse same ∙ zero_parsed)
  where
    pos_inj : {m n : ℕ} → some (pos m) ≡ some (pos n) → m ≡ n
    pos_inj e = ground (arith, e)

from_either :
    (zero_given : Bool) (read : Option Bytes) (n : ℕ) (w : Bytes)
    → (zero_given ≡ true → n ≡ 0)
    → read ≡ some w
    → from_bytes 0 w ≡ n
    → from_bytes 0 (if zero_given then zero_word else or_zero_word read) ≡ n
unfolding from_bytes zero_word
from_either true read n w zero_case eq value = sym (zero_case refl)
from_either false read n w zero_case eq value = ap (λ o. from_bytes 0 (or_zero_word o)) eq ∙ value

pub hash_to_bytes32-print :
    (n : ℕ) → n < 2 ^ 256 → from_bytes 0 (hash_to_bytes32 (print (pos n))) ≡ n
unfolding hash_to_bytes32
hash_to_bytes32-print n h =
    let s = print (pos n) in
    let w = root_to_bytes32-print n h in
    from_either (eqb s [] || eqb s (codes "0")) (root_to_bytes32 s) n w.0
      (zero_text n s (parse-print (pos n))) w.1 w.2
