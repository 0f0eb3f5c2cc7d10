-- ===== src/Prover/Runs.antt =====
-- The loop of the prover: what its rounds handle, and what the store knows of it.
use nowa_zk.Base.{
  ℕ, suc, ◌-◌, ◌^◌, ◌<◌, ◌≤◌, ◌≡◌, ◌≢◌, refl, sym, ap, subst, ◌∙◌, Bool, true, false, Option, none,
  some, List, [], ◌∷◌, arith, ltb→lt, lt→ltb, ltb, if◌then◌else◌, Bool-cases, Option-cases, inl,
  inr, ◌⊎◌,
}
use nowa_zk.Base.Options.{◌>>=◌}
use nowa_zk.Mimc.{Mimc}
use nowa_zk.Types.{ZkBatch, StateTransition}
use nowa_zk.Circuit.Frontend.{Eddsa}
use nowa_zk.Circuit.Assign.{assign_batch}
use nowa_zk.Prover.{
  Da, Call, Submission, failed, mined, is_reverted, Attempt, waits, skips, proves, Round, prepare,
  prove_and_submit, process, take_batch, attempt,
}

not_ltb : (m n : ℕ) → n ≤ m → ltb m n ≡ false
not_ltb m n h = ground arith

module _ (Proof : Type 0) (h : Mimc) (eddsa : Eddsa) (da : Da) where
  -- The indexer answers with the batch it was asked for, and no batch has the largest number.
  pub record IsHonest (r : Round Proof) : Type 0 where
    pub asked : (n : ℕ) (b : ZkBatch) → r.fetch n ≡ some b → b.batch_id ≡ n
    pub bounded : (n : ℕ) → r.latest ≡ some n → n < 2 ^ 64 - 1

  -- What stands behind a batch that the loop leaves behind itself: it had no transitions, or its
  -- proof was verified and its call was mined and not reverted.
  pub data IsHandled (r : Round Proof) (id : ℕ) : Attempt Proof → Type 0 where
    skipped : {b : ZkBatch} → b.batch_id ≡ id → b.transitions ≡ [] → IsHandled r id (skips b)
    proved :
        {b : ZkBatch} {call : Call Proof}
        → b.batch_id ≡ id
        → b.transitions ≢ []
        → (proof : Proof) → (assign_batch h eddsa b >>= r.prove) ≡ some proof
        → r.verify proof ≡ true
        → prepare Proof da b proof ≡ some call
        → (status : Option ℕ) → r.send call ≡ mined status
        → is_reverted status ≡ false
        → IsHandled r id (proves b call)

  submission-cases :
      (s : Submission)
      → (s ≡ failed)
        ⊎ ((status : Option ℕ) × (s ≡ mined status) × (is_reverted status ≡ true))
        ⊎ ((status : Option ℕ) × (s ≡ mined status) × (is_reverted status ≡ false))
  submission-cases failed = inl refl
  submission-cases (mined status) = elim (Bool-cases (is_reverted status)) [
    | inl reverted ↦ inr (inl (status, refl, reverted))
    | inr good ↦ inr (inr (status, refl, good))
  ]

  submit-cases :
      (r : Round Proof) (b : ZkBatch) (id : ℕ)
      → b.batch_id ≡ id
      → b.transitions ≢ []
      → (prove_and_submit Proof h eddsa da r b ≡ waits)
        ⊎ IsHandled r id (prove_and_submit Proof h eddsa da r b)
  unfolding prove_and_submit
  submit-cases r b id asked some_left = elim (Option-cases (assign_batch h eddsa b >>= r.prove)) [
    | inl none_proved ↦ inl (ground (arith, none_proved))
    | inr p ↦ elim (Bool-cases (r.verify p.0)) [
      | inr refused ↦ inl (ground (arith, p.1, refused))
      | inl good ↦ elim (Option-cases (prepare Proof da b p.0)) [
        | inl unprepared ↦ inl (ground (arith, p.1, good, unprepared))
        | inr c ↦ elim (submission-cases (r.send c.0)) [
          | inl lost ↦ inl (ground (arith, p.1, good, c.1, lost))
          | inr (inl s) ↦ inl (ground (arith, p.1, good, c.1, s.1, s.2))
          | inr (inr s) ↦ inr (
              subst (IsHandled r id) (ground (arith, p.1, good, c.1, s.1, s.2))
                (IsHandled.proved {b = b} asked some_left p.0 p.1 good c.1 s.0 s.1 s.2))
        ]
      ]
    ]
  ]

  abbrev Turned : Round Proof → ℕ → Attempt Proof → Type 0
  Turned r id a = (a ≡ waits) ⊎ IsHandled r id a

  process-cases :
      (r : Round Proof) (b : ZkBatch) (id : ℕ) (ts : List StateTransition)
      → b.transitions ≡ ts
      → b.batch_id ≡ id
      → Turned r id (process Proof h eddsa da r b)
  unfolding process
  process-cases r b id [] empty asked =
      inr (subst (IsHandled r id) (ground (arith, empty)) (IsHandled.skipped {b = b} asked empty))
  process-cases r b id (t ∷ ts) some_left asked =
      subst (Turned r id) (ground (arith, some_left))
        (submit-cases r b id asked (λ e. ground (arith, some_left, e)))

  attempt-next :
      (r : Round Proof) (last : ℕ)
      → last < 2 ^ 64 - 1
      → attempt Proof h eddsa da r last ≡ take_batch Proof h eddsa da r (suc last)
  unfolding attempt
  attempt-next r last small = ap (take_batch Proof h eddsa da r) (omega arith)

  -- `take_batch` on the answers of the indexer
  abbrev chosen : Round Proof → ℕ → Option ℕ → Option ZkBatch → Attempt Proof
  chosen r next known fetched = elim known [
    | none ↦ waits
    | some latest ↦
        let fetched_turn : Attempt Proof = elim fetched [
          | none ↦ waits
          | some b ↦ process Proof h eddsa da r b
        ] in
        if ltb latest next then waits else fetched_turn
  ]

  take_batch-process :
      (r : Round Proof) (next latest : ℕ) (b : ZkBatch)
      → r.latest ≡ some latest
      → next ≤ latest
      → r.fetch next ≡ some b
      → take_batch Proof h eddsa da r next ≡ process Proof h eddsa da r b
  unfolding take_batch
  take_batch-process r next latest b known new fetched =
      ap (λ l. chosen r next l (r.fetch next)) known
      ∙ ap (λ f. chosen r next (some latest) f) fetched
      ∙ ap (λ late. if late then waits else process Proof h eddsa da r b) (not_ltb latest next new)

  -- Where the indexer has a later batch and answers, the round processes the next one.
  pub attempt-process :
      (r : Round Proof) (last latest : ℕ) (b : ZkBatch)
      → last < 2 ^ 64 - 1
      → r.latest ≡ some latest
      → last < latest
      → r.fetch (suc last) ≡ some b
      → attempt Proof h eddsa da r last ≡ process Proof h eddsa da r b
  attempt-process r last latest b small known new fetched =
      attempt-next r last small
      ∙ take_batch-process r (suc last) latest b known (omega arith) fetched

  nothing_fetched :
      (r : Round Proof) (next : ℕ) (known : Option ℕ) → chosen r next known none ≡ waits
  nothing_fetched r next none = refl
  nothing_fetched r next (some latest) = same_turn (ltb latest next)
    where
      same_turn : (late : Bool) → Path (Attempt Proof) (if late then waits else waits) waits
      same_turn true = refl
      same_turn false = refl

  take_batch-waits :
      (r : Round Proof) (next : ℕ)
      → (r.latest ≡ none)
        ⊎ ((latest : ℕ) × (r.latest ≡ some latest) × (latest < next))
        ⊎ (r.fetch next ≡ none)
      → take_batch Proof h eddsa da r next ≡ waits
  unfolding take_batch
  take_batch-waits r next (inl unknown) = ap (λ l. chosen r next l (r.fetch next)) unknown
  take_batch-waits r next (inr (inl l)) =
      ap (λ k. chosen r next k (r.fetch next)) l.1
      ∙ ap (λ late. if late then waits else chosen r 0 (some 0) (r.fetch next))
          (lt→ltb l.0 next l.2)
  take_batch-waits r next (inr (inr missing)) =
      ap (λ f. chosen r next r.latest f) missing ∙ nothing_fetched r next r.latest

  waiting :
      (r : Round Proof) (last : ℕ)
      → last < 2 ^ 64 - 1
      → (r.latest ≡ none)
        ⊎ ((latest : ℕ) × (r.latest ≡ some latest) × (latest < suc last))
        ⊎ (r.fetch (suc last) ≡ none)
      → attempt Proof h eddsa da r last ≡ waits
  waiting r last small why = attempt-next r last small ∙ take_batch-waits r (suc last) why

  -- A round either waits or handles the next batch, which has not the largest number.
  pub attempt-cases :
      (r : Round Proof) (last : ℕ)
      → IsHonest r
      → last < 2 ^ 64 - 1
      → (attempt Proof h eddsa da r last ≡ waits)
        ⊎ (IsHandled r (suc last) (attempt Proof h eddsa da r last) × (suc last < 2 ^ 64 - 1))
  attempt-cases r last honest small = elim (Option-cases r.latest) [
    | inl unknown ↦ inl (waiting r last small (inl unknown))
    | inr l ↦ elim (Bool-cases (ltb last l.0)) [
      | inr none_new ↦ inl (waiting r last small (inr (inl (l.0, l.1, ground (arith, none_new)))))
      | inl new ↦ elim (Option-cases (r.fetch (suc last))) [
        | inl missing ↦ inl (waiting r last small (inr (inr missing)))
        | inr b ↦
            let below = ltb→lt last l.0 new in
            let same = attempt-process r last l.0 b.0 small l.1 below b.1 in
            elim (process-cases r b.0 (suc last) b.0.transitions refl
              (honest.asked (suc last) b.0 b.1)) [
                | inl idle ↦ inl (same ∙ idle)
                | inr done ↦ inr (
                  subst (IsHandled r (suc last)) (sym same) done,
                  omega (arith, below, honest.bounded l.0 l.1),
                )
              ]
      ]
    ]
  ]
