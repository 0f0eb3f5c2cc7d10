-- ===== src/Batcher/Chain.antt =====
-- If each transition starts at the root where the one before it ended, then so does each batch: the
-- old root of a sealed batch is the new root of the batch before it, as the rollup contract asks.
use nowa_zk.Base.{
  ℕ, suc, ◌<◌, ◌≡◌, refl, sym, ◌∙◌, ap, some, length, arith, inl, inr, Bool-cases, ◌==◌,
}
use nowa_zk.Base.Bytes.{Bytes}
use nowa_zk.Mimc.{Mimc}
use nowa_zk.Types.{StateTransition, ZkBatch}
use nowa_zk.Batcher.{
  Batcher, batch_size, new_batcher, extend_batch, append_transition, sealed_batch, seal,
  add_transition,
}
use nowa_zk.Batcher.Sealing.{IsValid, appended_length}

-- `root` is where the last transition that was added ended.
pub record IsChained (root : Bytes) (b : Batcher) : Type 0 where
  pub reached : 0 < length b.current_batch.transitions → b.current_batch.new_root ≡ root
  pub idle :
      length b.current_batch.transitions ≡ 0
      → (x : ZkBatch) → b.latest_batch ≡ some x
      → x.new_root ≡ root
  pub joined :
      0 < length b.current_batch.transitions
      → (x : ZkBatch) → b.latest_batch ≡ some x
      → b.current_batch.old_root ≡ x.new_root
  pub links :
      (i : ℕ) (x y : ZkBatch)
      → b.batch_history i ≡ some x
      → b.batch_history (suc i) ≡ some y
      → y.old_root ≡ x.new_root

pub new_batcher-IsChained : (root : Bytes) → IsChained root new_batcher
unfolding new_batcher
new_batcher-IsChained root = record {
  reached = λ lt. absurd (omega arith);
  idle = λ e x f. ground arith;
  joined = λ lt x f. ground arith;
  links = λ i x y e f. ground arith;
}

module _ (h : Mimc) (t : StateTransition) (root new_root : Bytes) (b : Batcher) (v : IsValid h b)
    (c : IsChained root b) where
  abbrev appended : Batcher
  appended = append_transition h t root new_root b

  -- The old root of the current batch after the call, given the batch before it.
  old_root_joins :
      (x : ZkBatch) → b.latest_batch ≡ some x → appended.current_batch.old_root ≡ x.new_root
  unfolding append_transition extend_batch
  old_root_joins x e = elim (Bool-cases (length b.current_batch.transitions == 0)) [
    | inl empty ↦ rw empty (sym (c.idle (ground arith) x e))
    | inr begun ↦ rw begun (c.joined (ground arith) x e)
  ]

  not_full : 0 < length appended.current_batch.transitions → IsChained new_root appended
  unfolding append_transition extend_batch
  not_full some_in = record {
    reached = λ lt. refl;
    idle = λ e x f. absurd (omega arith);
    joined = λ lt x f. old_root_joins x f;
    links = c.links;
  }

  -- The sealed batch starts where the batch before it ended.
  sealed_joins :
      (i : ℕ) (x : ZkBatch)
      → suc i ≡ b.current_batch.batch_id
      → b.batch_history i ≡ some x
      → (sealed_batch h appended).old_root ≡ x.new_root
  unfolding sealed_batch
  sealed_joins i x e f =
      let n = v.numbered in
      let k = v.counted in
      let at : b.history_size ≡ i = omega arith in
      old_root_joins x (v.latest ∙ ap b.batch_history at ∙ f)

  sealed_links :
      (i : ℕ) (x y : ZkBatch)
      → (seal h appended).batch_history i ≡ some x
      → (seal h appended).batch_history (suc i) ≡ some y
      → y.old_root ≡ x.new_root
  unfolding append_transition seal
  sealed_links i x y e f =
      let n = v.numbered in ground (arith, c.links i x y, v.not_yet (suc i), sealed_joins i x)

  full : IsChained new_root (seal h appended)
  unfolding append_transition extend_batch seal sealed_batch
  full = record {
    reached = λ lt. absurd (omega arith);
    idle = λ e x f. ground arith;
    joined = λ lt x f. absurd (omega arith);
    links = sealed_links;
  }

-- A call whose old root is where the last one ended keeps the batches chained, and ends at its own
-- new root.
pub add_transition-IsChained :
    (h : Mimc) (t : StateTransition) (root new_root : Bytes) (b : Batcher)
    → IsValid h b
    → IsChained root b
    → IsChained new_root (add_transition h t root new_root b)
unfolding add_transition
add_transition-IsChained h t root new_root b v c =
    elim (Bool-cases
      (length (append_transition h t root new_root b).current_batch.transitions == batch_size)) [
        | inl is_full ↦ rw is_full (full h t root new_root b v c)
        | inr more ↦ rw more (
            not_full h t root new_root b v c (omega (arith, appended_length h t root new_root b v)))
      ]
