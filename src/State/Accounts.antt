-- ===== src/State/Accounts.antt =====
-- Account ids: one key keeps one id, and two keys never share one.
use nowa_zk.Base.{ℕ, ◌+◌, ◌^◌, ◌<◌, ◌≡◌, none, some, arith, inl, inr, Option-cases}
use nowa_zk.Base.Bytes.{Bytes, eqb_refl, eq_of_eqb, trim_0x}
use nowa_zk.State.{Db, get_account_id, empty_db}

-- The counter's value.
abbrev pub next_id : Db → ℕ
next_id db = elim db.next_account_id [ none ↦ 0 | some n ↦ n ]

-- Every id given out is below the counter, and no two keys have the same one.
pub record HasIds (db : Db) : Type 0 where
  pub below : (k : Bytes) (id : ℕ) → db.account_ids k ≡ some id → id < next_id db
  pub distinct :
      (j k : Bytes) (id : ℕ) → db.account_ids j ≡ some id → db.account_ids k ≡ some id → j ≡ k

pub empty_db-HasIds : HasIds empty_db
empty_db-HasIds = record { below = λ k id e. ground arith; distinct = λ j k id e f. ground arith }

module _ (key : Bytes) (db : Db) (h : HasIds db) (room : next_id db + 1 < 2 ^ 64) where
  -- Looking a key up keeps the ids distinct, returns the id that is then stored for the key, and
  -- leaves the id of every key that had one.
  pub get_account_id-HasIds :
      let (id, db') = get_account_id key db in
      HasIds db'
      × (db'.account_ids (trim_0x key) ≡ some id)
      × ((k : Bytes) (i : ℕ) → db.account_ids k ≡ some i → db'.account_ids k ≡ some i)
  unfolding get_account_id
  get_account_id-HasIds = elim (Option-cases (db.account_ids (trim_0x key))) [
    | inl unknown ↦
        rw (unknown, get_account_id)
          (
            record {
              below = λ k id e. ground (arith, h.below k id);
              distinct = λ j k id e f. ground (
                arith,
                h.below j id,
                h.below k id,
                h.distinct j k id,
                eq_of_eqb j (trim_0x key),
                eq_of_eqb k (trim_0x key),
              );
            },
            rw eqb_refl,
            λ k i e. ground (arith, eq_of_eqb k (trim_0x key)),
          )
    | inr (id, known) ↦ rw (known, get_account_id) (h, known, λ k i e. e)
  ]
