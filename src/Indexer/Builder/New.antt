-- ===== src/Indexer/Builder/New.antt =====
-- Transactions that were not processed: none of them is filtered out.
use nowa_zk.Base.{
  ℕ, zero, suc, ◌%◌, ◌^◌, ◌≡◌, refl, sym, ap, ◌∙◌, false, ◌||◌, some, List, [], ◌∷◌, ◌++◌, map,
  take, drop, arith,
}
use nowa_zk.Base.Bytes.{Bytes, eqb}
use nowa_zk.Indexer.Pool.{Transaction}
use nowa_zk.Indexer.Store.{Batch}
use nowa_zk.Indexer.Trades.{Ethereum}
use nowa_zk.Indexer.Builder.{
  BatchBuilder, is_processed, filter_processed_txs, build_batch, append_to_batch, batch_of,
  extended, mark_processed, build_new, append_new,
}

-- No transaction has been processed or stands in the list twice.
abbrev pub IsNew : List Bytes → List Transaction → Type 0
IsNew ps [] = Unit
IsNew ps (tx ∷ txs) = (is_processed tx.hash ps ≡ false) × IsNew (tx.hash ∷ ps) txs

abbrev pub hashes : List Transaction → List Bytes
hashes txs = map (λ tx. tx.hash) txs

IsNew-same :
    (ps qs : List Bytes) (txs : List Transaction)
    → ((h : Bytes) → is_processed h ps ≡ is_processed h qs)
    → IsNew ps txs
    → IsNew qs txs
unfolding is_processed
IsNew-same ps qs [] same new = tt
IsNew-same ps qs (tx ∷ txs) same new = (
  sym (same tx.hash) ∙ new.0,
  IsNew-same (tx.hash ∷ ps) (tx.hash ∷ qs) txs (λ h. ap (λ b. eqb tx.hash h || b) (same h)) new.1,
)

is_processed-swap :
    (h p : Bytes) (ps qs : List Bytes)
    → is_processed h (ps ++ p ∷ qs) ≡ is_processed h (p ∷ (ps ++ qs))
unfolding is_processed
is_processed-swap h p [] qs = refl
is_processed-swap h p (q ∷ ps) qs = ground (arith, is_processed-swap h p ps qs)

is_processed-drop :
    (h p : Bytes) (ps : List Bytes) → is_processed h (p ∷ ps) ≡ false → is_processed h ps ≡ false
unfolding is_processed
is_processed-drop h p ps e = ground arith

is_processed_monotone :
    (h : Bytes) (qs ps : List Bytes) → is_processed h (qs ++ ps) ≡ false → is_processed h ps ≡ false
unfolding is_processed
is_processed_monotone h [] ps e = e
is_processed_monotone h (q ∷ qs) ps e =
    is_processed_monotone h qs ps (is_processed-drop h q (qs ++ ps) e)

-- What is new after more has been processed was new before.
IsNew-weaken : (qs ps : List Bytes) (txs : List Transaction) → IsNew (qs ++ ps) txs → IsNew ps txs
IsNew-weaken qs ps [] new = tt
IsNew-weaken qs ps (tx ∷ txs) new = (
  is_processed_monotone tx.hash qs ps new.0,
  IsNew-weaken qs (tx.hash ∷ ps) txs (
      IsNew-same (tx.hash ∷ (qs ++ ps)) (qs ++ tx.hash ∷ ps) txs
        (λ h. sym (is_processed-swap h tx.hash qs ps)) new.1),
)

pub IsNew-take :
    (n : ℕ) (ps : List Bytes) (txs : List Transaction) → IsNew ps txs → IsNew ps (take n txs)
IsNew-take zero ps txs new = tt
IsNew-take (suc n) ps [] new = tt
IsNew-take (suc n) ps (tx ∷ txs) new = (new.0, IsNew-take n (tx.hash ∷ ps) txs new.1)

-- What is left is new after the first ones have been processed.
pub IsNew-drop :
    (n : ℕ) (ps : List Bytes) (txs : List Transaction)
    → IsNew ps txs
    → IsNew (hashes (take n txs) ++ ps) (drop n txs)
IsNew-drop zero ps txs new = new
IsNew-drop (suc n) ps [] new = tt
IsNew-drop (suc n) ps (tx ∷ txs) new =
    let taken = hashes (take n txs) in
    IsNew-same (taken ++ tx.hash ∷ ps) (tx.hash ∷ (taken ++ ps)) (drop n txs)
      (λ h. is_processed-swap h tx.hash taken ps) (IsNew-drop n (tx.hash ∷ ps) txs new.1)

-- A list of which the second part is processed after the first.
pub IsNew-append :
    (ps : List Bytes) (txs us : List Transaction)
    → IsNew ps (txs ++ us)
    → IsNew ps txs × IsNew (hashes txs ++ ps) us
IsNew-append ps [] us new = (tt, new)
IsNew-append ps (tx ∷ txs) us new =
    let rest = IsNew-append (tx.hash ∷ ps) txs us new.1 in
    (
      (new.0, rest.0),
      IsNew-same (hashes txs ++ tx.hash ∷ ps) (tx.hash ∷ (hashes txs ++ ps)) us
          (λ h. is_processed-swap h tx.hash (hashes txs) ps) rest.1,
    )

filter-IsNew :
    (ps : List Bytes) (txs : List Transaction) → IsNew ps txs → filter_processed_txs ps txs ≡ txs
unfolding filter_processed_txs
filter-IsNew ps [] new = refl
filter-IsNew ps (tx ∷ txs) new =
    ground (arith, new.0, filter-IsNew ps txs (IsNew-weaken (tx.hash ∷ []) ps txs new.1))

module _ (eth : Ethereum) (bb : BatchBuilder) where
  pub build_batch-IsNew :
      (clock : ℕ → ℕ) (tx : Transaction) (txs : List Transaction)
      → IsNew bb.processed_txs (tx ∷ txs)
      → build_batch eth clock (tx ∷ txs) bb
        ≡ some (
          batch_of eth bb.batch_num (clock bb.batch_num) (tx ∷ txs),
          record (mark_processed eth (tx ∷ txs) bb) { batch_num = suc bb.batch_num % 2 ^ 64 },
        )
  unfolding build_batch
  build_batch-IsNew clock tx txs new =
      ap (λ us. build_new eth clock us bb) (filter-IsNew bb.processed_txs (tx ∷ txs) new)

  pub append_to_batch-IsNew :
      (b : Batch) (tx : Transaction) (txs : List Transaction)
      → IsNew bb.processed_txs (tx ∷ txs)
      → append_to_batch eth b (tx ∷ txs) bb
        ≡ some (extended eth b (tx ∷ txs), mark_processed eth (tx ∷ txs) bb)
  unfolding append_to_batch
  append_to_batch-IsNew b tx txs new =
      ap (λ us. append_new eth b us bb) (filter-IsNew bb.processed_txs (tx ∷ txs) new)
