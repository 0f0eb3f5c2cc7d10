-- ===== src/Blob/Tests.antt =====
-- A payload through a blob, and limbs by evaluation.
use nowa_zk.Base.{◌≡◌, refl, some, [], ◌∷◌, arith}
use nowa_zk.Base.Options.{◌>>=◌}
use nowa_zk.Blob.{pack_blob, unpack_blob, pack_limbs, unpack_limbs, read_payload}
use nowa_zk.Blob.RoundTrip.{unpack_blob-pack_blob}

two_limbs :
    read_payload (unpack_limbs 2 (pack_limbs 2 (0 ∷ 0 ∷ 0 ∷ 3 ∷ 7 ∷ 8 ∷ 9 ∷ [])))
    ≡ some (7 ∷ 8 ∷ 9 ∷ [])
unfolding read_payload unpack_limbs pack_limbs
two_limbs = refl

unpack_blob-pack_blob_example : (pack_blob (7 ∷ 8 ∷ 9 ∷ []) >>= unpack_blob) ≡ some (7 ∷ 8 ∷ 9 ∷ [])
unpack_blob-pack_blob_example = unpack_blob-pack_blob (7 ∷ 8 ∷ 9 ∷ []) (omega arith)
