-- ===== src/Batcher/Sealing.antt =====
-- A batch is sealed with exactly 25 transitions, and its two hashes are those of its transitions.
use nowa_zk.Base.{
  ℕ, ◌+◌, ◌%◌, ◌^◌, ◌≤◌, ◌<◌, ◌≡◌, refl, true, false, none, some, List, [], ◌∷◌, ◌++◌, length,
  length-append, arith, inl, inr, Bool-cases, ◌==◌,
}
use nowa_zk.Base.Bytes.{Bytes}
use nowa_zk.Base.Bytes.Decimal.{print}
use nowa_zk.Base.Int.{ℤ, pos}
use nowa_zk.Mimc.{Mimc}
use nowa_zk.Types.{StateTransition, ZkBatch}
use nowa_zk.Batcher.{
  Batcher, batch_size, new_batcher, next_deposit_hash, next_withdrawal_hash, extend_batch,
  append_transition, sealed_batch, seal, add_transition,
}

module _ (h : Mimc) where
  -- The hash of a batch's deposits, and of its withdrawals, over the transitions in order.
  unfoldable pub deposit_fold : List StateTransition → ℤ → ℤ
  deposit_fold [] acc = acc
  deposit_fold (t ∷ ts) acc = deposit_fold ts (next_deposit_hash h t acc)

  unfoldable pub withdrawal_fold : List StateTransition → ℤ → ℤ
  withdrawal_fold [] acc = acc
  withdrawal_fold (t ∷ ts) acc = withdrawal_fold ts (next_withdrawal_hash h t acc)

  deposit_fold-append :
      (ts : List StateTransition) (t : StateTransition) (acc : ℤ)
      → deposit_fold (ts ++ t ∷ []) acc ≡ next_deposit_hash h t (deposit_fold ts acc)
  unfolding deposit_fold
  deposit_fold-append [] t acc = refl
  deposit_fold-append (u ∷ ts) t acc = deposit_fold-append ts t (next_deposit_hash h u acc)

  withdrawal_fold-append :
      (ts : List StateTransition) (t : StateTransition) (acc : ℤ)
      → withdrawal_fold (ts ++ t ∷ []) acc ≡ next_withdrawal_hash h t (withdrawal_fold ts acc)
  unfolding withdrawal_fold
  withdrawal_fold-append [] t acc = refl
  withdrawal_fold-append (u ∷ ts) t acc = withdrawal_fold-append ts t (next_withdrawal_hash h u acc)

  -- A batch that the prover can take: 25 transitions, and the hashes that the circuit recomputes.
  pub record IsSealed (id : ℕ) (b : ZkBatch) : Type 0 where
    pub numbered : b.batch_id ≡ id
    pub full : length b.transitions ≡ batch_size
    pub deposits : b.deposit_hash ≡ print (deposit_fold b.transitions (pos 0))
    pub withdrawals : b.withdrawal_hash ≡ print (withdrawal_fold b.transitions (pos 0))

  -- The current batch is not full and bears the counter's number, its running hashes are right, and
  -- the sealed batches are numbered from 1 up to it without a gap.
  pub record IsValid (b : Batcher) : Type 0 where
    pub open_batch : length b.current_batch.transitions < batch_size
    pub numbered : b.current_batch.batch_id ≡ b.batch_counter
    pub counted : b.history_size + 1 ≡ b.batch_counter
    pub deposits : b.current_deposit_hash ≡ deposit_fold b.current_batch.transitions (pos 0)
    pub withdrawals :
        b.current_withdrawal_hash ≡ withdrawal_fold b.current_batch.transitions (pos 0)
    pub sealed : (i : ℕ) (x : ZkBatch) → b.batch_history i ≡ some x → IsSealed i x
    pub no_gap :
        (i : ℕ) → 1 ≤ i → i < b.batch_counter → (x : ZkBatch) × (b.batch_history i ≡ some x)
    pub not_yet : (i : ℕ) → b.batch_counter ≤ i → b.batch_history i ≡ none
    pub latest : b.latest_batch ≡ b.batch_history b.history_size

  pub new_batcher-IsValid : IsValid new_batcher
  unfolding new_batcher deposit_fold withdrawal_fold
  new_batcher-IsValid = record {
    open_batch = omega arith;
    numbered = refl;
    counted = omega arith;
    deposits = refl;
    withdrawals = refl;
    sealed = λ i x e. ground arith;
    no_gap = λ i lo hi. absurd (omega arith);
    not_yet = λ i le. refl;
    latest = refl;
  }

  module _ (t : StateTransition) (old_root new_root : Bytes) (b : Batcher) (v : IsValid b) where
    abbrev pub appended : Batcher
    appended = append_transition h t old_root new_root b

    pub appended_length :
        length appended.current_batch.transitions ≡ length b.current_batch.transitions + 1
    unfolding append_transition
    appended_length = length-append b.current_batch.transitions (t ∷ [])

    not_full : (length appended.current_batch.transitions == batch_size) ≡ false → IsValid appended
    unfolding append_transition extend_batch
    not_full room = record {
      open_batch = ground (arith, appended_length, v.open_batch);
      numbered = v.numbered;
      counted = v.counted;
      deposits = rw (deposit_fold-append, v.deposits);
      withdrawals = rw (withdrawal_fold-append, v.withdrawals);
      sealed = v.sealed;
      no_gap = v.no_gap;
      not_yet = v.not_yet;
      latest = v.latest;
    }

    sealed_batch-IsSealed :
        (length appended.current_batch.transitions == batch_size) ≡ true
        → IsSealed b.current_batch.batch_id (sealed_batch h appended)
    unfolding append_transition extend_batch sealed_batch
    sealed_batch-IsSealed is_full = record {
      numbered = refl;
      full = ground arith;
      deposits = rw (deposit_fold-append, v.deposits);
      withdrawals = rw (withdrawal_fold-append, v.withdrawals);
    }

    module _ (room : b.batch_counter + 1 < 2 ^ 64)
        (sealing : IsSealed b.current_batch.batch_id (sealed_batch h appended)) where
      unknown : b.batch_history b.current_batch.batch_id ≡ none
      unknown = v.not_yet _ (omega (arith, v.numbered))

      seal-IsSealed :
          (i : ℕ) (x : ZkBatch) → (seal h appended).batch_history i ≡ some x → IsSealed i x
      unfolding append_transition seal
      seal-IsSealed i x e = elim (Bool-cases (i == b.current_batch.batch_id)) [
        | inl same ↦
            let e' : i ≡ b.current_batch.batch_id = ground arith in
            let x' : sealed_batch h appended ≡ x = ground arith in rw (e', ← x') sealing
        | inr other ↦ v.sealed i x (ground arith)
      ]

      no_gap_in :
          (i : ℕ)
          → 1 ≤ i
          → i < (b.batch_counter + 1) % 2 ^ 64
          → (x : ZkBatch) × ((seal h appended).batch_history i ≡ some x)
      unfolding append_transition seal
      no_gap_in i lo hi = elim (Bool-cases (i == b.current_batch.batch_id)) [
        | inl same ↦ (sealed_batch h appended, rw same)
        | inr other ↦
            let n = v.numbered in let (x, e) = v.no_gap i lo (ground arith) in (x, rw other e)
      ]

      full : IsValid (seal h appended)
      unfolding append_transition seal deposit_fold withdrawal_fold
      full = record {
        open_batch = omega arith;
        numbered = refl;
        counted = rw unknown (omega (arith, v.counted));
        deposits = refl;
        withdrawals = refl;
        sealed = seal-IsSealed;
        no_gap = no_gap_in;
        not_yet = λ i le. let n = v.numbered in ground (arith, v.not_yet i);
        latest = let n = v.numbered in let c = v.counted in rw unknown (ground arith);
      }

    -- Every call keeps the batcher valid: what it seals has exactly 25 transitions, the next number
    -- and the hashes of its own deposits and withdrawals.
    pub add_transition-IsValid :
        b.batch_counter + 1 < 2 ^ 64 → IsValid (add_transition h t old_root new_root b)
    unfolding add_transition
    add_transition-IsValid room =
        elim (Bool-cases (length appended.current_batch.transitions == batch_size)) [
          | inl is_full ↦ rw is_full (full room (sealed_batch-IsSealed is_full))
          | inr more ↦ rw more (not_full more)
        ]
