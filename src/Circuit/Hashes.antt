-- ===== src/Circuit/Hashes.antt =====
-- The running hash that the batcher keeps of the deposits is the one that the circuit recomputes.
use nowa_zk.Base.{ℕ, ◌^◌, ◌<◌, ◌≡◌, refl, ◌∙◌, ap, arith, [], ◌∷◌}
use nowa_zk.Base.Bytes.Decimal.{print, parse-print}
use nowa_zk.Base.Int.{ℤ, pos}
use nowa_zk.Mimc.{Mimc, fr-pos}
use nowa_zk.State.{Db, leaf_index}
use nowa_zk.State.Leaf.{IsInTree, leaf_index_parts}
use nowa_zk.Sequencer.{empty_state_update}
use nowa_zk.Sequencer.Deposits.{deposit_transition, genesis_update}
use nowa_zk.Batcher.{next_deposit_hash, next_withdrawal_hash, mimc_hash3, amount_of}

amount_of-print : (z : ℤ) → amount_of (print z) ≡ z
amount_of-print z = rw (parse-print z, amount_of) refl

mimc_hash3_lem :
    (h : Mimc) (a b c : ℕ)
    → a < h.modulus
    → b < h.modulus
    → c < h.modulus
    → mimc_hash3 h (pos a) (pos b) (pos c) ≡ pos (h.sum (a ∷ b ∷ c ∷ []))
unfolding mimc_hash3
mimc_hash3_lem h a b c p q r = rw (fr-pos h a p, fr-pos h b q, fr-pos h c r) refl

module _ (h : Mimc) (snap before : Db) (id token : ℕ) (x y : ℤ) (amount d w : ℕ) where
  -- For a deposit in range below 2 ^ 252 the batcher extends the hash of the deposits by the index
  -- of the leaf and the amount, as `processOperation` does, and keeps the hash of the withdrawals.
  next_hashes-deposit :
      IsInTree id token
      → amount < 2 ^ 252
      → d < h.modulus
      → let t =
          deposit_transition h snap
            (pos amount)
            x
            y
            (genesis_update h before (leaf_index id token)) in
        (next_deposit_hash h t (pos d) ≡ pos (h.sum (d ∷ leaf_index id token ∷ amount ∷ [])))
        × (next_withdrawal_hash h t (pos w) ≡ pos w)
  unfolding next_deposit_hash next_withdrawal_hash deposit_transition empty_state_update
  next_hashes-deposit r lt small =
      let big = h.modulus_large in
      let (a, t, le) = leaf_index_parts id token r in
      (
        ap (mimc_hash3 h (pos d) (pos (leaf_index id token))) (amount_of-print (pos amount))
            ∙ mimc_hash3_lem h d (leaf_index id token) amount small (omega arith) (omega arith),
        refl,
      )
