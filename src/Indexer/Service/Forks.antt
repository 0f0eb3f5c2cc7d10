-- ===== src/Indexer/Service/Forks.antt =====
-- Reorgs: the fork point, and what a reorg rolls back.
use nowa_zk.Base.{
  ℕ, zero, suc, ◌<◌, ◌≤◌, ◌≡◌, ◌⊎◌, refl, sym, ap, subst, ◌∙◌, false, some, List, [], ◌∷◌, arith,
  ltb, ◌==◌, if◌then◌else◌, All, inl, inr, Bool-cases, Option-cases,
}
use nowa_zk.Base.Bytes.{Bytes, eqb, eq_of_eqb, eqb_refl}
use nowa_zk.Storage.{KvStore}
use nowa_zk.Indexer.Store.{
  Batch, BatchCodecs, BatchStore, batch_of_key, batch_prefix, delete_keys_after,
  delete_batches_after, get_latest_batch, get_block_hash,
}
use nowa_zk.Indexer.Trades.{Ethereum}
use nowa_zk.Indexer.Service.{Chain, Config, find_fork_point, handle_reorg}

module _ (kv : KvStore) (codecs : BatchCodecs) (eth : Ethereum) (config : Config) where
  -- The chain has the hash that is stored for the block.
  abbrev pub Agrees : Chain → BatchStore kv codecs → ℕ → Type 0
  Agrees chain st n =
      (h : Bytes) × (chain.header_hash n ≡ some h) × (get_block_hash kv codecs n st ≡ some h)

  disagree_unless :
      (chain : Chain) (n : ℕ) (st : BatchStore kv codecs) (h stored : Bytes)
      → chain.header_hash n ≡ some h
      → get_block_hash kv codecs n st ≡ some stored
      → eqb stored h ≡ false
      → ¬ Agrees chain st n
  disagree_unless chain n st h stored e d differ agrees =
      ground (arith, e, d, differ, agrees.1, agrees.2, eqb_refl h)

  -- A block on which they agree is the answer; otherwise the answer is that for the blocks below.
  fork-cases :
      (chain : Chain) (n : ℕ) (st : BatchStore kv codecs) (fork : ℕ)
      → find_fork_point kv codecs eth config chain (suc n) st ≡ some fork
      → ((fork ≡ suc n) × Agrees chain st (suc n))
        ⊎ ((find_fork_point kv codecs eth config chain n st ≡ some fork)
            × ¬ Agrees chain st (suc n))
  unfolding find_fork_point
  fork-cases chain n st fork e = elim (Option-cases (chain.header_hash (suc n))) [
    | inl failed ↦ absurd (ground (arith, e, failed))
    | inr header ↦ elim (Option-cases (get_block_hash kv codecs (suc n) st)) [
      | inl unknown ↦
          inr (ground (arith, e, header.1, unknown), λ agrees. ground (arith, agrees.2, unknown))
      | inr stored ↦ elim (Bool-cases (eqb stored.0 header.0)) [
        | inl same ↦
            let eq = eq_of_eqb stored.0 header.0 same in
            inl (
              ground (arith, e, header.1, stored.1, same),
              (header.0, header.1, stored.1 ∙ ap (λ x. some x) eq),
            )
        | inr differ ↦ inr (
          ground (arith, e, header.1, stored.1, differ),
          disagree_unless chain (suc n) st header.0 stored.0 header.1 stored.1 differ,
        )
      ]
    ]
  ]

  -- Where findForkPoint succeeds, its answer is the last block up to the given one on which the
  -- node and the store agree, or 0 where they agree on none.
  pub find_fork_point-IsLast :
      (chain : Chain) (n : ℕ) (st : BatchStore kv codecs) (fork : ℕ)
      → find_fork_point kv codecs eth config chain n st ≡ some fork
      → (fork ≤ n)
        × ((fork ≡ 0) ⊎ Agrees chain st fork)
        × ((k : ℕ) → fork < k → k ≤ n → ¬ Agrees chain st k)
  unfolding find_fork_point
  find_fork_point-IsLast chain zero st fork e =
      let none_below : fork ≡ 0 = ground (arith, e) in
      (omega arith, inl none_below, λ k above below. absurd (omega arith))
  find_fork_point-IsLast chain (suc n) st fork e = elim (fork-cases chain n st fork e) [
    | inl here ↦ (
      omega (arith, here.0),
      inr (subst (Agrees chain st) (sym here.0) here.1),
      λ k above below. absurd (omega (arith, here.0)),
    )
    | inr lower ↦
        let rest = find_fork_point-IsLast chain n st fork lower.0 in
        (
          omega (arith, rest.0),
          rest.1,
          λ k above below. elim (Bool-cases (k == suc n)) [
            | inl top ↦
                let eq : k ≡ suc n = ground (arith, top) in
                λ agrees. lower.1 (subst (Agrees chain st) eq agrees)
            | inr other ↦ rest.2 k above (ground (arith, other))
          ],
        )
  ]

  -- A reorg deletes no batch.
  delete_keys_after_none :
      (n : ℕ) (ks : List Bytes) (st : BatchStore kv codecs)
      → All (λ k. batch_of_key k ≤ n) ks
      → delete_keys_after kv codecs n ks st ≡ st
  unfolding delete_keys_after
  delete_keys_after_none n [] st h = refl
  delete_keys_after_none n (k ∷ ks) st h =
      ap (delete_keys_after kv codecs n ks) (ground (arith, h.0))
      ∙ delete_keys_after_none n ks st h.1

  delete_after_latest :
      (n : ℕ) (st : BatchStore kv codecs)
      → n ≡ st.count
      → All (λ k. batch_of_key k ≤ n) (kv.keys batch_prefix st.db)
      → delete_batches_after kv codecs n st ≡ st
  unfolding delete_batches_after
  delete_after_latest n st e small =
      ap
        (λ (st' : BatchStore kv codecs). record st' {
          count = if ltb n st'.count then n else st'.count;
        })
        (delete_keys_after_none n (kv.keys batch_prefix st.db) st small)
      ∙ ground (arith, e)

  -- Whatever the fork point, a reorg rolls back no batch: the store stays as it is, where no key is
  -- that of a batch behind the latest one and that stands under its number.
  pub handle_reorg_nothing :
      (fork : ℕ) (st : BatchStore kv codecs)
      → All (λ k. batch_of_key k ≤ st.count) (kv.keys batch_prefix st.db)
      → ((b : Batch) → get_latest_batch kv codecs st ≡ some b → b.number ≡ st.count)
      → handle_reorg kv codecs eth config fork st ≡ st
  unfolding handle_reorg
  handle_reorg_nothing fork st small latest = elim (Option-cases (get_latest_batch kv codecs st)) [
    | inl empty ↦ rw (empty, handle_reorg)
    | inr found ↦
        let b = found.0 in
        let number = latest b found.1 in
        rw (found.1, handle_reorg)
          (delete_after_latest b.number st number (
            subst (λ n. All (λ k. batch_of_key k ≤ n) (kv.keys batch_prefix st.db)) (sym number)
              small))
  ]
