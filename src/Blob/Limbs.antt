-- ===== src/Blob/Limbs.antt =====
-- Limbs hold the bytes that are packed into them, filled up with zeros.
use nowa_zk.Base.{
  ℕ, zero, suc, ◌+◌, ◌*◌, ◌≤◌, ◌≡◌, refl, sym, ◌∙◌, ap, [], ◌∷◌, ◌++◌, length, take, drop, arith,
}
use nowa_zk.Base.Bytes.{Bytes}
use nowa_zk.Blob.{bytes_per_limb, copy_into, pack_limbs, unpack_limbs}

pub length-copy_into : (n : ℕ) (s : Bytes) → length (copy_into n s) ≡ n
unfolding copy_into
length-copy_into zero s = refl
length-copy_into (suc n) [] = ap suc (length-copy_into n [])
length-copy_into (suc n) (b ∷ s) = ap suc (length-copy_into n s)

take-copy_into : (n : ℕ) (s t : Bytes) → take n (copy_into n s ++ t) ≡ copy_into n s
unfolding copy_into
take-copy_into zero s t = refl
take-copy_into (suc n) [] t = ap (λ r. 0 ∷ r) (take-copy_into n [] t)
take-copy_into (suc n) (b ∷ s) t = ap (λ r. b ∷ r) (take-copy_into n s t)

drop-copy_into : (n : ℕ) (s t : Bytes) → drop n (copy_into n s ++ t) ≡ t
unfolding copy_into
drop-copy_into zero s t = refl
drop-copy_into (suc n) [] t = drop-copy_into n [] t
drop-copy_into (suc n) (b ∷ s) t = drop-copy_into n s t

drop-nil : (n : ℕ) → drop {A = ℕ} n [] ≡ []
drop-nil zero = refl
drop-nil (suc n) = refl

copy_into-add :
    (n m : ℕ) (s : Bytes) → copy_into (n + m) s ≡ copy_into n s ++ copy_into m (drop n s)
unfolding copy_into
copy_into-add zero m s = ap (λ k. copy_into k s) (omega arith)
copy_into-add (suc n) m [] =
    let e : suc n + m ≡ suc (n + m) = omega arith in
    ap (λ k. copy_into k []) e
    ∙ ap (λ r. 0 ∷ r)
        (copy_into-add n m [] ∙ ap (λ r. copy_into n [] ++ copy_into m r) (drop-nil n))
copy_into-add (suc n) m (b ∷ s) =
    let e : suc n + m ≡ suc (n + m) = omega arith in
    ap (λ k. copy_into k (b ∷ s)) e ∙ ap (λ r. b ∷ r) (copy_into-add n m s)

no_bytes : (s : Bytes) → copy_into (0 * bytes_per_limb) s ≡ []
unfolding copy_into
no_bytes s = refl

-- Unpacking so many limbs gives the bytes back, and zeros behind them.
pub unpack_limbs-pack_limbs :
    (n : ℕ) (raw : Bytes) → unpack_limbs n (pack_limbs n raw) ≡ copy_into (n * bytes_per_limb) raw
unfolding unpack_limbs pack_limbs
unpack_limbs-pack_limbs zero raw = sym (no_bytes raw)
unpack_limbs-pack_limbs (suc n) raw =
    let rest = drop bytes_per_limb raw in
    let more : suc n * bytes_per_limb ≡ bytes_per_limb + n * bytes_per_limb = omega arith in
    rw
      (
        take-copy_into bytes_per_limb raw (pack_limbs n rest),
        drop-copy_into bytes_per_limb raw (pack_limbs n rest),
        unpack_limbs-pack_limbs n rest,
        more,
        copy_into-add bytes_per_limb (n * bytes_per_limb) raw,
      )
      refl

-- The bytes themselves stand in front.
pub take-copy_into_all : (n : ℕ) (s : Bytes) → length s ≤ n → take (length s) (copy_into n s) ≡ s
unfolding copy_into
take-copy_into_all n [] le = refl
take-copy_into_all zero (b ∷ s) le = absurd (omega arith)
take-copy_into_all (suc n) (b ∷ s) le = ap (λ r. b ∷ r) (take-copy_into_all n s (omega arith))
