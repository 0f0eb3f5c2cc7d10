-- ===== src/Circuit/Frontend.antt =====
-- What the circuit uses of gnark: the operations of `frontend.API` on canonical field elements,
-- with what gnark documents of them on the values that an honest assignment gives them, and
-- the check of an EdDSA signature.
use nowa_zk.Base.{ℕ, ◌+◌, ◌-◌, ◌*◌, ◌^◌, ◌≤◌, ◌<◌, ◌≡◌, ◌≢◌, Bool, true, Option, some}
use nowa_zk.Base.Bytes.{Bytes}
use nowa_zk.Mimc.{Mimc}

-- A point of the curve.
pub record PublicKey : Type 0 where
  pub x : ℕ
  pub y : ℕ

pub record Signature : Type 0 where
  pub r_x : ℕ
  pub r_y : ℕ
  pub s : ℕ

pub record Api (h : Mimc) : Type 0 where
  pub add : ℕ → ℕ → ℕ
  pub sub : ℕ → ℕ → ℕ
  pub mul : ℕ → ℕ → ℕ
  pub or : ℕ → ℕ → ℕ
  pub is_zero : ℕ → ℕ
  -- `none` where the first argument is no boolean.
  pub select : ℕ → ℕ → ℕ → Option ℕ
  pub assert_is_equal : ℕ → ℕ → Bool
  pub assert_is_boolean : ℕ → Bool
  pub assert_is_less_or_equal : ℕ → ℕ → Bool
  pub to_binary : ℕ → ℕ → Bool
  pub add_exact : (a b : ℕ) → a + b < h.modulus → add a b ≡ a + b
  pub sub_exact : (a b : ℕ) → b ≤ a → a < h.modulus → sub a b ≡ a - b
  pub sub_differs : (a b : ℕ) → a < h.modulus → b < h.modulus → a ≢ b → sub a b ≢ 0
  pub mul_exact : (a b : ℕ) → a * b < h.modulus → mul a b ≡ a * b
  pub or_left : (b : ℕ) → b ≤ 1 → or 1 b ≡ 1
  pub or_right : (b : ℕ) → b ≤ 1 → or 0 b ≡ b
  pub is_zero_zero : is_zero 0 ≡ 1
  pub is_zero_other : (a : ℕ) → a ≢ 0 → is_zero a ≡ 0
  pub select_one : (x y : ℕ) → select 1 x y ≡ some x
  pub select_zero : (x y : ℕ) → select 0 x y ≡ some y
  pub equal_self : (a : ℕ) → assert_is_equal a a ≡ true
  pub boolean_bit : (a : ℕ) → a ≤ 1 → assert_is_boolean a ≡ true
  pub less_or_equal : (a b : ℕ) → a ≤ b → b < h.modulus → assert_is_less_or_equal a b ≡ true
  pub fits : (v n : ℕ) → v < 2 ^ n → v < h.modulus → to_binary v n ≡ true

-- `verify` is gnark's `eddsa.Verify`, `assign_sig` its `Signature.Assign` on decoded bytes.
pub record Eddsa : Type 0 where
  pub verify : Signature → ℕ → PublicKey → Bool
  pub assign_sig : Bytes → Signature
