-- ===== src/Indexer/Pool.antt =====
-- indexer/internal/indexer/pool.go: pending transactions, oldest first.
use Prim.Native.Nat.{min}
use nowa_zk.Base.{
  ℕ, zero, suc, ◌-◌, ◌≤◌, ◌≡◌, refl, subst, sym, ◌∙◌, Bool, true, false, ◌||◌, List, [], ◌∷◌, ◌++◌,
  length, take, drop, length-append, length-drop, take-append-drop, length-take, arith, ltb,
  if◌then◌else◌, Bool-cases, inl, inr, Option,
}
use nowa_zk.Base.Bytes.{Bytes, eqb}
use nowa_zk.Base.Int.{ℤ}

-- `rpc.Transaction`; the numbers of `*big.Int` may be absent
pub record Transaction : Type 0 where
  pub hash : Bytes
  pub from_address : Bytes
  pub to : Bytes
  pub contract_address : Bytes
  pub value : Option ℤ
  pub call_data : Bytes
  pub nonce : ℕ
  pub gas : ℕ
  pub gas_price : Option ℤ
  pub gas_tip_cap : Option ℤ
  pub gas_fee_cap : Option ℤ
  pub block_number : Option ℤ
  pub block_hash : Bytes
  pub index : ℕ
  pub is_contract_deployment : Bool

pub record TransactionPool : Type 0 where
  pub txs : List Transaction
  pub max : ℕ

unfoldable pub new_transaction_pool : TransactionPool
new_transaction_pool = record { txs = []; max = 10000 }

unfoldable pub in_pool : Bytes → List Transaction → Bool
in_pool h [] = false
in_pool h (tx ∷ txs) = eqb tx.hash h || in_pool h txs

-- `txs[1:]` of a slice that is not empty
abbrev pub evict : List Transaction → List Transaction
evict [] = []
evict (tx ∷ txs) = txs

unfoldable pub add_transaction : Transaction → TransactionPool → TransactionPool
unfolding in_pool
add_transaction tx p =
    let grown = p.txs ++ tx ∷ [] in
    if in_pool tx.hash p.txs
    then p
    else record p { txs = if ltb p.max (length grown) then evict grown else grown }

-- What is taken and what is left; `n` is not negative.
unfoldable pub get_transactions : ℕ → TransactionPool → List Transaction × TransactionPool
get_transactions n p =
    let m = if ltb (length p.txs) n then length p.txs else n in
    (take m p.txs, record p { txs = drop m p.txs })

unfoldable pub clear : TransactionPool → TransactionPool
clear p = record p { txs = [] }

-- Each hash once.
abbrev pub IsDistinct : List Transaction → Type 0
IsDistinct [] = Unit
IsDistinct (tx ∷ txs) = (in_pool tx.hash txs ≡ false) × IsDistinct txs

pub record IsValidPool (p : TransactionPool) : Type 0 where
  pub bounded : length p.txs ≤ p.max
  pub distinct : IsDistinct p.txs

eqb_sym : (s t : Bytes) → eqb s t ≡ eqb t s
unfolding eqb
eqb_sym [] [] = refl
eqb_sym [] (c ∷ t) = refl
eqb_sym (c ∷ s) [] = refl
eqb_sym (c ∷ s) (d ∷ t) = ground (arith, eqb_sym s t)

in_pool-append :
    (h : Bytes) (txs : List Transaction) (tx : Transaction)
    → in_pool h txs ≡ false
    → eqb tx.hash h ≡ false
    → in_pool h (txs ++ tx ∷ []) ≡ false
unfolding in_pool
in_pool-append h [] tx e k = ground (arith, k)
in_pool-append h (t ∷ txs) tx e k = ground (arith, e, in_pool-append h txs tx)

append-IsDistinct :
    (txs : List Transaction) (tx : Transaction)
    → IsDistinct txs
    → in_pool tx.hash txs ≡ false
    → IsDistinct (txs ++ tx ∷ [])
unfolding in_pool
append-IsDistinct [] tx d e = (refl, tt)
append-IsDistinct (t ∷ txs) tx d e = elim (Bool-cases (eqb t.hash tx.hash)) [
  | inl same ↦ absurd (ground (arith, e, same))
  | inr other ↦ (
    in_pool-append t.hash txs tx d.0 (eqb_sym tx.hash t.hash ∙ other),
    append-IsDistinct txs tx d.1 (ground (arith, e, other)),
  )
]

drop-IsDistinct : (n : ℕ) (txs : List Transaction) → IsDistinct txs → IsDistinct (drop n txs)
drop-IsDistinct zero txs d = d
drop-IsDistinct (suc n) [] d = tt
drop-IsDistinct (suc n) (t ∷ txs) d = drop-IsDistinct n txs d.1

evict-IsDistinct : (txs : List Transaction) → IsDistinct txs → IsDistinct (evict txs)
evict-IsDistinct [] d = tt
evict-IsDistinct (t ∷ txs) d = d.1

evict-length : (txs : List Transaction) → length (evict txs) ≡ length txs - 1
evict-length [] = omega arith
evict-length (t ∷ txs) = omega arith

grown-IsValidPool :
    (tx : Transaction) (p : TransactionPool)
    → IsValidPool p
    → in_pool tx.hash p.txs ≡ false
    → IsValidPool (record p {
      txs =
          if ltb p.max (length (p.txs ++ tx ∷ []))
          then evict (p.txs ++ tx ∷ [])
          else p.txs ++ tx ∷ [];
    })
grown-IsValidPool tx p v new =
    let grown = p.txs ++ tx ∷ [] in
    let d = append-IsDistinct p.txs tx v.distinct new in
    let size = length-append p.txs (tx ∷ []) in
    elim (Bool-cases (ltb p.max (length grown))) [
      | inl full ↦
          subst (λ b. IsValidPool (record p { txs = if b then evict grown else grown })) (sym full)
            (record {
              bounded = omega (arith, evict-length grown, size, v.bounded);
              distinct = evict-IsDistinct grown d;
            })
      | inr room ↦
          subst (λ b. IsValidPool (record p { txs = if b then evict grown else grown })) (sym room)
            (record { bounded = ground (arith, room); distinct = d })
    ]

-- On a pool that holds each hash once and no more than its maximum, adding, taking and clearing
-- keep it so; and taking `n` returns the oldest `n`, or all there are, and leaves the others.
pool-IsValidPool :
    (p : TransactionPool) (tx : Transaction) (n : ℕ)
    → IsValidPool p
    → let taken = get_transactions n p in
      IsValidPool (add_transaction tx p)
      × IsValidPool taken.1
      × (taken.0 ++ taken.1.txs ≡ p.txs)
      × (length taken.0 ≡ min n (length p.txs))
      × IsValidPool (clear p)
unfolding add_transaction get_transactions clear
pool-IsValidPool p tx n v =
    let m : ℕ = if ltb (length p.txs) n then length p.txs else n in
    (
      (elim (in_pool tx.hash p.txs)
            as (λ b.
              in_pool tx.hash p.txs ≡ b
              → IsValidPool (
                  if b then p else record p {
                    txs =
                        if ltb p.max (length (p.txs ++ tx ∷ []))
                        then evict (p.txs ++ tx ∷ [])
                        else p.txs ++ tx ∷ [];
                  })) [ true ↦ λ _. v | false ↦ λ new. grown-IsValidPool tx p v new ])
          refl,
      record {
        bounded = omega (arith, length-drop m p.txs, v.bounded);
        distinct = drop-IsDistinct m p.txs v.distinct;
      },
      take-append-drop m p.txs,
      ground (arith, length-take m p.txs),
      record { bounded = omega arith; distinct = tt },
    )
