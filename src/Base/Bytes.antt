-- ===== src/Base/Bytes.antt =====
-- Texts as lists of bytes, with what the code uses of Go's `strings`, `encoding/hex`, `fmt` and
-- `math/big`: prefixes, hexadecimal, and the decimal digits of a number, printed and parsed.
pub mod Decimal
use Prim.Native.Char.{code}
use Prim.Native.String
use Prim.Native.String.{String}
use nowa_zk.Base.{
  ℕ, suc, ◌+◌, ◌-◌, ◌*◌, ◌/◌, ◌%◌, ◌≡◌, refl, Bool, true, false, ◌&&◌, ◌||◌, Option, none, some,
  List, [], ◌∷◌, arith, leb, ◌==◌, if◌then◌else◌,
}

abbrev pub Bytes : Type 0
Bytes = List ℕ

-- The bytes of a literal.
abbrev pub codes : String → Bytes
codes String.[] = []
codes (String.◌∷◌ c s) = code c ∷ codes s

-- `s == t`
unfoldable pub eqb : Bytes → Bytes → Bool
eqb [] [] = true
eqb [] (c ∷ t) = false
eqb (c ∷ s) [] = false
eqb (c ∷ s) (d ∷ t) = (c == d) && eqb s t

pub eq_of_eqb : (s t : Bytes) → eqb s t ≡ true → s ≡ t
unfolding eqb
eq_of_eqb [] [] h = ground arith
eq_of_eqb [] (c ∷ t) h = ground arith
eq_of_eqb (c ∷ s) [] h = ground arith
eq_of_eqb (c ∷ s) (d ∷ t) h = ground (arith, eq_of_eqb s t)

pub eqb_refl : (s : Bytes) → eqb s s ≡ true
unfolding eqb
eqb_refl [] = ground arith
eqb_refl (c ∷ s) = ground (arith, eqb_refl s)

-- `strings.TrimPrefix(s, "0x")`
unfoldable pub trim_0x : Bytes → Bytes
trim_0x [] = []
trim_0x (a ∷ []) = a ∷ []
trim_0x (a ∷ b ∷ s) = if (a == b'0') && (b == b'x') then s else a ∷ b ∷ s

-- The value of a hexadecimal digit, of either case.
unfoldable pub nibble : ℕ → Option ℕ
nibble c =
    if leb b'0' c && leb c b'9'
    then some (c - 48)
    else (if leb b'a' c && leb c b'f'
        then some (c - 87)
        else (if leb b'A' c && leb c b'F' then some (c - 55) else none))

abbrev pub pair_up : Option ℕ → Option ℕ → Option Bytes → Option Bytes
pair_up (some a) (some b) (some rest) = some ((a * 16 + b) ∷ rest)
pair_up _ _ _ = none

pub pair_parts :
    (x y : Option ℕ) (r : Option Bytes) (t : Bytes)
    → pair_up x y r ≡ some t
    → (a b : ℕ) × (s : Bytes) × (x ≡ some a) × (y ≡ some b) × (r ≡ some s)
pair_parts (some a) (some b) (some s) t e = (a, b, s, refl, refl, refl)
pair_parts none y r t e = absurd (ground (arith, e))
pair_parts (some a) none r t e = absurd (ground (arith, e))
pair_parts (some a) (some b) none t e = absurd (ground (arith, e))

-- `hex.DecodeString`: an odd length and a byte that is no digit are errors.
unfoldable pub hex_decode : Bytes → Option Bytes
unfolding nibble
hex_decode [] = some []
hex_decode (a ∷ []) = none
hex_decode (a ∷ b ∷ s) = pair_up (nibble a) (nibble b) (hex_decode s)

-- `hex.EncodeToString`, in lower case.
abbrev hex_digit : ℕ → ℕ
hex_digit n = if leb n 9 then n + 48 else n + 87

unfoldable pub hex_encode : Bytes → Bytes
hex_encode [] = []
hex_encode (b ∷ s) = hex_digit (b / 16) ∷ hex_digit (b % 16) ∷ hex_encode s

-- The blanks of `unicode.IsSpace` in ASCII.
abbrev pub blank : ℕ → Bool
blank c = (c == 32) || (leb 9 c && leb c 13)

unfoldable pub trim_left : Bytes → Bytes
trim_left [] = []
trim_left (c ∷ s) = let rest = trim_left s in if blank c then rest else c ∷ s

abbrev pub no_text : Bytes → Bool
no_text [] = true
no_text (c ∷ s) = false

unfoldable pub trim_right : Bytes → Bytes
trim_right [] = []
trim_right (c ∷ s) = let rest = trim_right s in if blank c && no_text rest then [] else c ∷ rest

-- `strings.TrimSpace`, on ASCII
unfoldable pub trim_space : Bytes → Bytes
unfolding trim_left trim_right
trim_space s = trim_right (trim_left s)
