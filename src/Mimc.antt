-- ===== src/Mimc.antt =====
-- gnark-crypto's scalar field of BN254 (`fr.Element`) and its MiMC hasher, which the program only
-- calls. An element is its canonical number; `sum xs` is `NewMiMC`, one `Write` for each element
-- and `Sum`.
use nowa_zk.Base.{ℕ, ◌-◌, ◌%◌, ◌^◌, ◌<◌, ◌≡◌, List}
use nowa_zk.Base.Int.{ℤ, pos, negsuc}
use native.Mathlib.Nat.{mod-eq_of_lt}

-- The modulus has 254 bits.
pub record Mimc : Type 0 where
  pub modulus : ℕ
  pub sum : List ℕ → ℕ
  pub modulus_large : 2 ^ 253 < modulus
  pub sum_lt : (xs : List ℕ) → sum xs < modulus

module _ (h : Mimc) where
  -- `SetBigInt`: the residue, also of a negative number.
  unfoldable pub fr : ℤ → ℕ
  fr (pos n) = n % h.modulus
  fr (negsuc n) = h.modulus - 1 - n % h.modulus

  -- A number below the modulus is its own residue.
  pub fr-pos : (n : ℕ) → n < h.modulus → fr (pos n) ≡ n
  unfolding fr
  fr-pos n lt = mod-eq_of_lt lt
