-- ===== src/Prover/Invariant.antt =====
-- The rounds of the prover as a whole: the batches are handled one after the other, and the store
-- names the last of them.
use mathlib.Core.List.{append-nil}
use nowa_zk.Base.{
  ℕ, zero, suc, ◌-◌, ◌^◌, ◌<◌, ◌≡◌, Bool, true, false, Option, refl, sym, ap, subst, ◌∙◌, none,
  some, List, [], ◌∷◌, ◌++◌, arith, inl, inr, ◌⊎◌,
}
use nowa_zk.Mimc.{Mimc}
use nowa_zk.Storage.{
  KvStore, KvLaws, Codecs, get_last_processed_batch, clear_halt_state, last_processed_key, halt_key,
  scan_uint64,
}
use nowa_zk.Storage.Saved.{get-save_last_processed}
use nowa_zk.Circuit.Frontend.{Eddsa}
use nowa_zk.Prover.{
  Da, Attempt, waits, skips, proves, Round, attempt, Prover, advance, apply_attempt, turn, run,
  handled, history, start,
}
use nowa_zk.Prover.Runs.{IsHonest, IsHandled, attempt-cases}

abbrev last_read : Option ℕ → ℕ
last_read none = 0
last_read (some n) = n

module _ (Proof : Type 0) (h : Mimc) (eddsa : Eddsa) (da : Da) (kv : KvStore)
    (codecs : Codecs) where
  -- The list handles the batches from `first` on, one after the other and each once, in rounds of
  -- the run; `next` is the one after the last.
  pub data IsGapless (rounds : ℕ → Round Proof) (first : ℕ)
      : List (Attempt Proof) → (next : ℕ) → Type 0 where
    nothing : IsGapless rounds first [] first
    handled_next :
        {done : List (Attempt Proof)} {a : Attempt Proof} {next : ℕ}
        → IsGapless rounds first done next
        → (t : ℕ) → IsHandled Proof h eddsa da (rounds t) next a
        → IsGapless rounds first (done ++ a ∷ []) (suc next)

  abbrev pub IsSynced : Prover Proof h eddsa da kv codecs → Type 0
  IsSynced p = get_last_processed_batch kv codecs p.store ≡ some p.last

  apply_attempt-handled :
      (r : Round Proof) (id : ℕ) (a : Attempt Proof) (p : Prover Proof h eddsa da kv codecs)
      → KvLaws kv
      → IsHandled Proof h eddsa da r id a
      → id < 2 ^ 64
      → ((apply_attempt Proof h eddsa da kv codecs a p).last ≡ id)
        × IsSynced (apply_attempt Proof h eddsa da kv codecs a p)
        × (handled Proof h eddsa da kv codecs a ≡ a ∷ [])
  unfolding advance
  apply_attempt-handled r id waits p laws h small = elim h [ ]
  apply_attempt-handled r id (skips b) p laws (IsHandled.skipped asked empty) small = (
    asked,
    get-save_last_processed kv codecs laws p.store b.batch_id (omega (arith, asked)),
    refl,
  )
  apply_attempt-handled r id (proves b call) p laws
        (IsHandled.proved asked left pr e1 e2 e3 st e4 e5) small =
      (
        asked,
        get-save_last_processed kv codecs laws p.store b.batch_id (omega (arith, asked)),
        refl,
      )

  start-synced :
      (p : Prover Proof h eddsa da kv codecs)
      → KvLaws kv
      → IsSynced p
      → (clear_halt : Bool) → (start Proof h eddsa da kv codecs clear_halt p.store).last ≡ p.last
  unfolding start get_last_processed_batch clear_halt_state
  start-synced p laws synced true =
      let kept =
        laws.get-delete_other last_processed_key halt_key p.store (λ e. ground (arith, e)) in
      ap last_read (
        ap (λ v. elim v as (λ _. Option ℕ) [ none ↦ some 0 | some s ↦ scan_uint64 s ]) kept
        ∙ synced)
  start-synced p laws synced false = ap last_read synced

  -- The prover after some rounds of a run that began with batch `first`.
  pub record IsRunning (rounds : ℕ → Round Proof) (first : ℕ) (done : List (Attempt Proof))
      (q : Prover Proof h eddsa da kv codecs) : Type 0 where
    pub gapless : IsGapless rounds first done (suc q.last)
    pub in_range : q.last < 2 ^ 64 - 1
    pub in_sync : IsSynced q
    pub resumes :
        (clear_halt : Bool) → (start Proof h eddsa da kv codecs clear_halt q.store).last ≡ q.last

  next_round :
      (rounds : ℕ → Round Proof) (first t : ℕ) (done : List (Attempt Proof))
      (q : Prover Proof h eddsa da kv codecs) (a : Attempt Proof)
      → KvLaws kv
      → IsRunning rounds first done q
      → (a ≡ waits)
        ⊎ (IsHandled Proof h eddsa da (rounds t) (suc q.last) a × (suc q.last < 2 ^ 64 - 1))
      → IsRunning rounds first
          (done ++ handled Proof h eddsa da kv codecs a)
          (apply_attempt Proof h eddsa da kv codecs a q)
  next_round rounds first t done q a laws i (inl idle) =
      subst
        (λ b.
          IsRunning rounds first (done ++ handled Proof h eddsa da kv codecs b)
            (apply_attempt Proof h eddsa da kv codecs b q))
        (sym idle) (subst (λ d. IsRunning rounds first d q) (sym (append-nil done)) i)
  next_round rounds first t done q a laws i (inr next) =
      let s =
        apply_attempt-handled (rounds t) (suc q.last) a q laws next.0 (omega (arith, next.1)) in
      record {
        gapless =
            subst
              (λ n. IsGapless rounds first (done ++ handled Proof h eddsa da kv codecs a) (suc n))
              (sym s.0)
              (subst (λ d. IsGapless rounds first (done ++ d) (suc (suc q.last))) (sym s.2)
                (IsGapless.handled_next i.gapless t next.0));
        in_range = subst (λ n. n < 2 ^ 64 - 1) (sym s.0) next.1;
        in_sync = s.1;
        resumes = start-synced (apply_attempt Proof h eddsa da kv codecs a q) laws s.1;
      }

  -- After any number of rounds the batches that the prover has skipped or submitted are those from
  -- the one after its first `last` to its present `last`, one after the other; each of them was
  -- empty, or its proof verified and its call was mined and not reverted; and the store names the
  -- last one, so that a prover started on it goes on from there, whether it clears the halt state
  -- or not. Where the indexer answers with the batch it is asked for and has no batch 2^64 - 1, the
  -- store named the first `last`, and the database obeys its laws.
  pub run-IsRunning :
      KvLaws kv
      → (rounds : ℕ → Round Proof) → ((t : ℕ) → IsHonest Proof h eddsa da (rounds t))
      → (p : Prover Proof h eddsa da kv codecs) → p.last < 2 ^ 64 - 1
      → IsSynced p
      → (t : ℕ)
      → IsRunning rounds
          (suc p.last)
          (history Proof h eddsa da kv codecs rounds t p)
          (run Proof h eddsa da kv codecs rounds t p)
  unfolding run turn history
  run-IsRunning laws rounds honest p small synced zero = record {
    gapless = IsGapless.nothing;
    in_range = small;
    in_sync = synced;
    resumes = start-synced p laws synced;
  }
  run-IsRunning laws rounds honest p small synced (suc t) =
      let i = run-IsRunning laws rounds honest p small synced t in
      let q = run Proof h eddsa da kv codecs rounds t p in
      next_round rounds (suc p.last) t (history Proof h eddsa da kv codecs rounds t p) q
        (attempt Proof h eddsa da (rounds t) q.last) laws i
        (attempt-cases Proof h eddsa da (rounds t) q.last (honest t) i.in_range)
