-- ===== src/Engine/Signature.antt =====
-- sequencer/internal/engine/signature.go: the signature of an order over its text form. The curve
-- (gnark-crypto's `eddsa`) is a parameter.
use nowa_zk.Base.{
  ℕ, ◌≡◌, Bool, true, false, Option, none, some, [], ◌∷◌, ◌++◌, arith, length, ◌==◌, if◌then◌else◌,
}
use nowa_zk.Base.Bytes.{Bytes, codes, trim_0x, hex_decode}
use nowa_zk.Base.Bytes.Decimal.{print, print_ℕ}
use nowa_zk.Base.Options.{◌>>=◌, >>=-eq-some}
use nowa_zk.Types.{Order}

-- `parse_key` is `PublicKey.SetBytes`, `check` is `PublicKey.Verify` with MiMC inside (`none` is an
-- error), `sha256` is `crypto/sha256`.
pub record Curve : Type 1 where
  pub Key : Type 0
  pub parse_key : Bytes → Option Key
  pub check : Key → Bytes → Bytes → Option Bool
  pub sha256 : Bytes → Bytes

-- `%t`
abbrev pub print_bool : Bool → Bytes
print_bool true = codes "true"
print_bool false = codes "false"

abbrev pub colon : Bytes → Bytes
colon rest = b':' ∷ rest

-- `fmt.Sprintf("%s:%d:%s:%s:%t:%d", …)`, with the key as the client wrote it.
unfoldable pub message : Order → Bytes
message o =
    o.maker_address
    ++ colon (
        print_ℕ o.token_id
        ++ colon (
            print o.amount
            ++ colon (print o.price ++ colon (print_bool o.is_buy ++ colon (print_ℕ o.nonce)))))

-- `msgHash[0] = 0`
abbrev clear_first : Bytes → Bytes
clear_first [] = []
clear_first (b ∷ bs) = 0 ∷ bs

module _ (c : Curve) where
  -- `VerifyEdDSASignature`; `none` is an error.
  unfoldable pub verify_eddsa_signature : Order → Option Bool
  unfolding message
  verify_eddsa_signature o = do
    key_bytes ← hex_decode (trim_0x o.maker_address)
    key ← c.parse_key key_bytes
    sig ← hex_decode (trim_0x o.signature)
    if length sig == 64 then c.check key sig (clear_first (c.sha256 (message o))) else none

  -- `err != nil || !valid` refuses the order.
  unfoldable pub is_signed : Order → Bool
  unfolding verify_eddsa_signature
  is_signed o = elim (verify_eddsa_signature o) [ none ↦ false | some valid ↦ valid ]

  -- An order is taken as signed only on a key that parses, a signature of 64 bytes, and the
  -- curve's word that it signs the order's own message.
  pub record IsSigned (o : Order) : Type 0 where
    pub key : c.Key
    pub sig : Bytes
    pub key_bytes : Bytes
    pub key_text : hex_decode (trim_0x o.maker_address) ≡ some key_bytes
    pub sig_text : hex_decode (trim_0x o.signature) ≡ some sig
    pub parsed : c.parse_key key_bytes ≡ some key
    pub long : length sig ≡ 64
    pub checked : c.check key sig (clear_first (c.sha256 (message o))) ≡ some true

  verified : (o : Order) → is_signed o ≡ true → verify_eddsa_signature o ≡ some true
  unfolding is_signed
  verified o h = ground arith

  guarded :
      (n : ℕ) (r : Option Bool)
      → (if n == 64 then r else none) ≡ some true
      → (n ≡ 64) × (r ≡ some true)
  guarded n r h = ground arith

  -- An order that `ProcessOrder` takes as signed has all of this: no step of the check was skipped.
  pub is_signed-IsSigned : (o : Order) → is_signed o ≡ true → IsSigned o
  unfolding verify_eddsa_signature
  is_signed-IsSigned o h =
      let (key_bytes, e1, h1) =
        >>=-eq-some (hex_decode (trim_0x o.maker_address)) _ (verified o h) in
      let (key, e2, h2) = >>=-eq-some (c.parse_key key_bytes) _ h1 in
      let (sig, e3, h3) = >>=-eq-some (hex_decode (trim_0x o.signature)) _ h2 in
      record {
        key = key;
        sig = sig;
        key_bytes = key_bytes;
        key_text = e1;
        sig_text = e3;
        parsed = e2;
        long = (guarded (length sig) _ h3).0;
        checked = (guarded (length sig) _ h3).1;
      }
