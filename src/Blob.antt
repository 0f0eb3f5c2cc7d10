-- ===== src/Blob.antt =====
-- prover/internal/da/blob.go: a payload packed into the 4096 field elements of an EIP-4844 blob,
-- and unpacked again (sequencer/cmd/reconstruct-proof/replay.go has a copy of the unpacking).
pub mod Limbs
pub mod RoundTrip
mod Tests
use nowa_zk.Base.{
  ℕ, zero, suc, ◌+◌, ◌-◌, ◌*◌, ◌/◌, ◌%◌, ◌^◌, Bool, Option, none, some, List, [], ◌∷◌, ◌++◌, length,
  take, drop, ltb, if◌then◌else◌,
}
use nowa_zk.Base.Bytes.{Bytes}

abbrev pub blob_limbs : ℕ
blob_limbs = 4096

abbrev pub bytes_per_limb : ℕ
bytes_per_limb = 31

abbrev pub max_payload_len : ℕ
max_payload_len = blob_limbs * bytes_per_limb

-- `binary.BigEndian.PutUint32`
abbrev pub put_uint32 : ℕ → Bytes
put_uint32 n = (n / 2 ^ 24) % 256 ∷ (n / 2 ^ 16) % 256 ∷ (n / 2 ^ 8) % 256 ∷ n % 256 ∷ []

-- `binary.BigEndian.Uint32` of the first four bytes
abbrev pub uint32 : Bytes → ℕ
uint32 (a ∷ b ∷ c ∷ d ∷ s) = a * 2 ^ 24 + b * 2 ^ 16 + c * 2 ^ 8 + d
uint32 s = 0

-- The first `n` bytes copied into `n` bytes that are 0.
unfoldable pub copy_into : ℕ → Bytes → Bytes
copy_into zero s = []
copy_into (suc n) [] = 0 ∷ copy_into n []
copy_into (suc n) (b ∷ s) = b ∷ copy_into n s

-- The loop of `packBlob` over so many limbs; behind the end of the bytes a limb stays 0.
unfoldable pub pack_limbs : ℕ → Bytes → Bytes
unfolding copy_into
pack_limbs zero raw = []
pack_limbs (suc n) raw = 0 ∷ copy_into bytes_per_limb raw ++ pack_limbs n (drop bytes_per_limb raw)

-- The loop of `UnpackBlob`: `blob[i*32+1 : i*32+32]` of each limb.
unfoldable pub unpack_limbs : ℕ → Bytes → Bytes
unpack_limbs zero blob = []
unpack_limbs (suc n) blob =
    take bytes_per_limb (drop 1 blob) ++ unpack_limbs n (drop (1 + bytes_per_limb) blob)

-- `packBlob`; `none` is an error.
unfoldable pub pack_blob : Bytes → Option Bytes
unfolding pack_limbs
pack_blob payload =
    if ltb max_payload_len (length payload + 4)
    then none
    else some (pack_limbs blob_limbs (put_uint32 (length payload % 2 ^ 32) ++ payload))

-- The end of `UnpackBlob`, on the bytes of the limbs.
unfoldable pub read_payload : Bytes → Option Bytes
read_payload raw =
    if ltb (length raw) 4
    then none
    else (if ltb (length raw - 4) (uint32 raw) then none else some (take (uint32 raw) (drop 4 raw)))

-- `UnpackBlob`
unfoldable pub unpack_blob : Bytes → Option Bytes
unfolding unpack_limbs read_payload
unpack_blob blob = read_payload (unpack_limbs blob_limbs blob)
