-- ===== src/Blob/RoundTrip.antt =====
-- What is packed into a blob is unpacked again, and what does not fit is refused.
use nowa_zk.Base.{
  ℕ, suc, ◌+◌, ◌-◌, ◌*◌, ◌%◌, ◌^◌, ◌≤◌, ◌<◌, ◌≡◌, refl, ◌∙◌, ap, Option, none, some, ◌∷◌, ◌++◌,
  length, take, drop, arith, Bool, ltb, if◌then◌else◌, false,
}
use nowa_zk.Base.Bytes.{Bytes}
use nowa_zk.Base.Options.{◌>>=◌, >>=-eq-some}
use nowa_zk.Blob.{
  blob_limbs, bytes_per_limb, max_payload_len, put_uint32, uint32, copy_into, pack_limbs,
  unpack_limbs, pack_blob, read_payload, unpack_blob,
}
use nowa_zk.Blob.Limbs.{length-copy_into, unpack_limbs-pack_limbs, take-copy_into_all}

-- A length below 2 ^ 32 is read back from its four bytes.
uint32-put_uint32 : (n : ℕ) (s : Bytes) → n < 2 ^ 32 → uint32 (put_uint32 n ++ s) ≡ n
uint32-put_uint32 n s lt = omega arith

-- Reading a payload that is all there.
read_payload_lem :
    (raw : Bytes) (n : ℕ)
    → 4 ≤ length raw
    → uint32 raw ≡ n
    → n ≤ length raw - 4
    → read_payload raw ≡ some (take n (drop 4 raw))
unfolding read_payload
read_payload_lem raw n long e le =
    let enough : ltb (length raw) 4 ≡ false = ground arith in
    let inside : ltb (length raw - 4) n ≡ false = ground arith in
    rw (enough, e, inside, read_payload) refl

-- The four bytes of the length and the payload, in front of zeros.
filled :
    (n a b c d : ℕ) (payload : Bytes)
    → copy_into (n + 4) (a ∷ b ∷ c ∷ d ∷ payload) ≡ a ∷ b ∷ c ∷ d ∷ copy_into n payload
unfolding copy_into
filled n a b c d payload =
    let e : n + 4 ≡ suc (suc (suc (suc n))) = omega arith in
    ap (λ k. copy_into k (a ∷ b ∷ c ∷ d ∷ payload)) e

read_payload-copy_into :
    (n : ℕ) (payload : Bytes)
    → length payload < 2 ^ 32
    → length payload ≤ n
    → read_payload (put_uint32 (length payload) ++ copy_into n payload) ≡ some payload
read_payload-copy_into n payload lt le =
    let rest = copy_into n payload in
    let long = length-copy_into n payload in
    read_payload_lem (put_uint32 (length payload) ++ rest) (length payload) (omega arith)
      (uint32-put_uint32 (length payload) rest lt) (omega arith)
    ∙ ap some (take-copy_into_all n payload le)

-- Through so many limbs.
through_limbs :
    (n : ℕ) (payload : Bytes)
    → length payload < 2 ^ 32
    → length payload + 4 ≤ n * bytes_per_limb
    → read_payload (unpack_limbs n (pack_limbs n (put_uint32 (length payload % 2 ^ 32) ++ payload)))
      ≡ some payload
through_limbs n payload lt le =
    let len = length payload in
    let room = n * bytes_per_limb - 4 in
    let whole : n * bytes_per_limb ≡ room + 4 = omega arith in
    let small : len % 2 ^ 32 ≡ len = omega arith in
    ap (λ k. read_payload (unpack_limbs n (pack_limbs n (put_uint32 k ++ payload)))) small
    ∙ ap read_payload (
        unpack_limbs-pack_limbs n (put_uint32 len ++ payload)
        ∙ ap (λ k. copy_into k (put_uint32 len ++ payload)) whole
        ∙ filled room _ _ _ _ payload)
    ∙ read_payload-copy_into room payload lt (omega arith)

if_fits : {b : Bool} (blob : Bytes) → b ≡ false → (if b then none else some blob) ≡ some blob
if_fits blob e = rw e refl

pack_blob_fits :
    (payload : Bytes)
    → length payload + 4 ≤ max_payload_len
    → pack_blob payload
      ≡ some (pack_limbs blob_limbs (put_uint32 (length payload % 2 ^ 32) ++ payload))
unfolding pack_blob
pack_blob_fits payload le =
    let fits : ltb max_payload_len (length payload + 4) ≡ false = ground arith in
    if_fits (pack_limbs blob_limbs (put_uint32 (length payload % 2 ^ 32) ++ payload)) fits

-- A payload that fits into a blob is packed and unpacked unchanged.
pub unpack_blob-pack_blob :
    (payload : Bytes)
    → length payload + 4 ≤ max_payload_len
    → (pack_blob payload >>= unpack_blob) ≡ some payload
unfolding unpack_blob
unpack_blob-pack_blob payload le =
    ap (λ o. o >>= unpack_blob) (pack_blob_fits payload le)
    ∙ through_limbs blob_limbs payload (omega arith) le

-- The same with what is done next.
pub unpack_blob-pack_blob_then :
    {B : Type 0} (payload : Bytes) (k : Bytes → Option B)
    → length payload + 4 ≤ max_payload_len
    → (pack_blob payload >>= λ blob. unpack_blob blob >>= k) ≡ k payload
unpack_blob-pack_blob_then payload k le =
    let (blob, e, f) =
      >>=-eq-some (pack_blob payload) unpack_blob (unpack_blob-pack_blob payload le) in
    ap (λ o. o >>= λ b. unpack_blob b >>= k) e ∙ ap (λ o. o >>= k) f
