-- ===== src/Prover/Liveness.antt =====
-- The prover gets ahead: rounds that fail delay a batch and lose none.
use nowa_zk.Base.{
  ℕ, zero, suc, ◌+◌, ◌-◌, ◌^◌, ◌<◌, ◌≤◌, ◌≡◌, sym, ap, subst, ◌∙◌, true, false, Option, some, [],
  arith, inl, inr, ◌⊎◌,
}
use nowa_zk.Base.Options.{◌>>=◌}
use nowa_zk.Mimc.{Mimc}
use nowa_zk.Types.{ZkBatch}
use nowa_zk.Storage.{KvStore, Codecs}
use nowa_zk.Circuit.Frontend.{Eddsa}
use nowa_zk.Circuit.Assign.{assign_batch}
use nowa_zk.Prover.{
  Da, Call, mined, is_reverted, Attempt, waits, skips, proves, Round, prepare, attempt, Prover,
  advance, apply_attempt, turn, run,
}
use nowa_zk.Prover.Runs.{IsHonest, IsHandled, attempt-cases}

module _ (Proof : Type 0) (h : Mimc) (eddsa : Eddsa) (da : Da) where
  -- Every step from the witness to the receipt succeeds for the batch.
  pub record IsProvable (r : Round Proof) (b : ZkBatch) : Type 0 where
    pub proof : Proof
    pub call : Call Proof
    pub status : Option ℕ
    pub generated : (assign_batch h eddsa b >>= r.prove) ≡ some proof
    pub verified : r.verify proof ≡ true
    pub prepared : prepare Proof da b proof ≡ some call
    pub sent : r.send call ≡ mined status
    pub not_reverted : is_reverted status ≡ false

  -- A round in which batch `next` is there, and is empty or passes every step.
  pub record IsWorking (next : ℕ) (r : Round Proof) : Type 0 where
    pub latest : ℕ
    pub known : r.latest ≡ some latest
    pub reached : next ≤ latest
    pub batch : ZkBatch
    pub served : r.fetch next ≡ some batch
    pub passes : (batch.transitions ≡ []) ⊎ IsProvable r batch

  module _ (kv : KvStore) (codecs : Codecs) where
    settled_last :
        (r : Round Proof) (id : ℕ) (a : Attempt Proof) (q : Prover Proof h eddsa da kv codecs)
        → IsHandled Proof h eddsa da r id a
        → (apply_attempt Proof h eddsa da kv codecs a q).last ≡ id
    unfolding advance
    settled_last r id waits q h = elim h [ ]
    settled_last r id (skips b) q (IsHandled.skipped asked empty) = asked
    settled_last r id (proves b call) q (IsHandled.proved asked left pr e1 e2 e3 st e4 e5) = asked

    module _ (rounds : ℕ → Round Proof) (honest : (t : ℕ) → IsHonest Proof h eddsa da (rounds t))
        (p : Prover Proof h eddsa da kv codecs) (small : p.last < 2 ^ 64 - 1) where
      abbrev last_at : ℕ → ℕ
      last_at t = (run Proof h eddsa da kv codecs rounds t p).last

      -- A round keeps the last batch or goes to the next one.
      round-cases :
          (t : ℕ)
          → last_at t < 2 ^ 64 - 1
          → (last_at (suc t) ≡ last_at t)
            ⊎ ((last_at (suc t) ≡ suc (last_at t)) × (last_at (suc t) < 2 ^ 64 - 1))
      unfolding run turn
      round-cases t in_range =
          let q = run Proof h eddsa da kv codecs rounds t p in
          let a = attempt Proof h eddsa da (rounds t) q.last in
          elim (attempt-cases Proof h eddsa da (rounds t) q.last (honest t) in_range) [
            | inl idle ↦ inl (ap (λ b. (apply_attempt Proof h eddsa da kv codecs b q).last) idle)
            | inr next ↦
                let e = settled_last (rounds t) (suc q.last) a q next.0 in
                inr (e, subst (λ n. n < 2 ^ 64 - 1) (sym e) next.1)
          ]

      last-in_range : (t : ℕ) → last_at t < 2 ^ 64 - 1
      unfolding run
      last-in_range zero = small
      last-in_range (suc t) =
          let i = last-in_range t in
          elim (round-cases t i) [
            | inl same ↦ subst (λ n. n < 2 ^ 64 - 1) (sym same) i
            | inr next ↦ next.1
          ]

      -- From a round on, the last batch stays, or at some time it is the next one.
      passes :
          (d t m : ℕ) → last_at t ≡ m → (last_at (d + t) ≡ m) ⊎ ((t' : ℕ) × (last_at t' ≡ suc m))
      passes zero t m e = inl (subst (λ n. last_at n ≡ m) (omega arith) e)
      passes (suc d) t m e = elim (passes d t m e) [
        | inr later ↦ inr later
        | inl still ↦ elim (round-cases (d + t) (last-in_range (d + t))) [
          | inl same ↦ inl (subst (λ n. last_at n ≡ m) (omega arith) (same ∙ still))
          | inr next ↦ inr (suc (d + t), next.0 ∙ ap suc still)
        ]
      ]

      -- Wherever the prover is behind `target`, it is there at a later time, or a later round works
      -- for the batch that it then waits for.
      abbrev pub IsFair : ℕ → Type 0
      IsFair target =
          (t : ℕ)
          → (run Proof h eddsa da kv codecs rounds t p).last < target
          → (t' : ℕ) × (t ≤ t')
            × ((target ≤ (run Proof h eddsa da kv codecs rounds t' p).last)
                ⊎ IsWorking (suc (run Proof h eddsa da kv codecs rounds t' p).last) (rounds t'))
