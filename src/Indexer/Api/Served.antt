-- ===== src/Indexer/Api/Served.antt =====
-- What `/status` and `/batch/{number}` answer on a store that runs.
use nowa_zk.Base.{
  ℕ, zero, suc, ◌+◌, ◌-◌, ◌%◌, ◌^◌, ◌<◌, ◌≤◌, ◌≡◌, ◌⊎◌, refl, sym, ap, subst, ◌∙◌, true, false,
  Option, none, some, [], ◌∷◌, length, length-append, arith, ltb, leb, ◌==◌, if◌then◌else◌, inl,
  inr, Bool-cases,
}
use nowa_zk.Base.Int.{pos}
use nowa_zk.Storage.{KvStore, KvLaws}
use nowa_zk.ProverApi.{sent, bad_request, not_found}
use nowa_zk.Indexer.Store.{
  Batch, BatchCodecs, BatchStore, get_batch, get_latest_batch, get_all_batches, batches_to,
  get_last_deleted_batch,
}
use nowa_zk.Indexer.Store.Cleanup.{IsDeleted}
use nowa_zk.Indexer.Api.{
  BatchRange, batch_range, reply_of, batch_number, serve_batch, handle_status, handle_latest_batch,
  handle_get_batch,
}
use nowa_zk.Indexer.Api.Window.{IsWindow, Runs, runs-IsWindow}

module _ (kv : KvStore) (codecs : BatchCodecs) where
  cached :
      (n : ℕ) (b : Batch) (st : BatchStore kv codecs)
      → st.batches n ≡ some b
      → get_batch kv codecs n st ≡ (some b, st)
  unfolding get_batch
  cached n b st e = rw (e, get_batch)

  missing :
      (n : ℕ) (st : BatchStore kv codecs)
      → IsDeleted kv codecs n st
      → get_batch kv codecs n st ≡ (none, st)
  unfolding get_batch
  missing n st gone = rw (gone.0, gone.1, get_batch)

  -- The answer to a number that an `int` holds.
  get_batch_served :
      (n : ℕ) (o : Option Batch) (st : BatchStore kv codecs)
      → n < 2 ^ 63
      → get_batch kv codecs n st ≡ (o, st)
      → handle_get_batch kv codecs (some (pos n)) st ≡ (reply_of o, st)
  unfolding handle_get_batch
  get_batch_served n o st small e =
      let same : n % 2 ^ 64 ≡ n = omega (arith, small) in
      let held : ltb n (2 ^ 63) ≡ true = ground (arith, small) in
      ap
        (λ b. elim (if b then some (pos n) else none) [
          | none ↦ (bad_request, st)
          | some number ↦ serve_batch kv codecs (batch_number number) st
        ])
        held
      ∙ ap (λ i. serve_batch kv codecs i st) same
      ∙ ap (λ r. (reply_of r.0, r.1)) e

  -- The answer to a number beyond every `int`.
  abbrev pub IsRefused : ℕ → BatchStore kv codecs → Type 0
  IsRefused n st = (2 ^ 63 ≤ n) × (handle_get_batch kv codecs (some (pos n)) st ≡ (bad_request, st))

  large-IsRefused : (n : ℕ) (st : BatchStore kv codecs) → 2 ^ 63 ≤ n → IsRefused n st
  unfolding handle_get_batch
  large-IsRefused n st large =
      let beyond : ltb n (2 ^ 63) ≡ false = ground (arith, large) in
      (
        large,
        ap
            (λ b. elim (if b then some (pos n) else none) [
              | none ↦ (bad_request, st)
              | some number ↦ serve_batch kv codecs (batch_number number) st
            ])
            beyond,
      )

  -- A store that is an interval has one batch for every number of it.
  length-batches_to :
      (last n : ℕ) (st : BatchStore kv codecs)
      → IsWindow kv codecs last st
      → n ≤ st.count
      → length (batches_to kv codecs n st) ≡ n - last
  length-batches_to last zero st w le = omega arith
  length-batches_to last (suc n) st w le =
      let before = length-batches_to last n st w (omega (arith, le)) in
      length-append (batches_to kv codecs n st) _ ∙ elim (Bool-cases (ltb last (suc n))) [
        | inl above ↦
            let h = w.held (suc n) (ground (arith, above)) le in
            ap
              (λ (o : Option Batch).
                length (batches_to kv codecs n st)
                + length (elim o [ none ↦ [] | some b ↦ b ∷ [] ]))
              h.1
            ∙ ground (arith, before, above)
        | inr old ↦
            let g = w.gone (suc n) (inl (ground (arith, old))) in
            ap
              (λ (o : Option Batch).
                length (batches_to kv codecs n st)
                + length (elim o [ none ↦ [] | some b ↦ b ∷ [] ]))
              g.0
            ∙ ground (arith, before, old)
      ]

  -- The answer to a number, where the interval has the bounds `oldest` and `newest`.
  abbrev pub IsAnswered : (oldest newest n : ℕ) → BatchStore kv codecs → Type 0
  IsAnswered oldest newest n st =
      ((oldest ≤ n)
        × (n ≤ newest)
        × (b : Batch) × (b.number ≡ n)
        × (handle_get_batch kv codecs (some (pos n)) st ≡ (sent b, st)))
      ⊎ (((n < oldest) ⊎ (newest < n))
          × (handle_get_batch kv codecs (some (pos n)) st ≡ (not_found, st)))

  window-IsAnswered :
      (last n : ℕ) (st : BatchStore kv codecs)
      → IsWindow kv codecs last st
      → n < 2 ^ 63
      → IsAnswered (suc last) st.count n st
  window-IsAnswered last n st w small = elim (Bool-cases (leb n last)) [
    | inl old ↦
        let below : n ≤ last = ground (arith, old) in
        inr (
          inl (omega arith),
          get_batch_served n none st small (missing n st (w.gone n (inl below))),
        )
    | inr young ↦ elim (Bool-cases (ltb st.count n)) [
      | inl later ↦
          let above : st.count < n = ground (arith, later) in
          inr (inr above, get_batch_served n none st small (missing n st (w.gone n (inr above))))
      | inr within ↦
          let behind : last < n = ground (arith, young) in
          let upto : n ≤ st.count = ground (arith, within) in
          let h = w.held n behind upto in
          inl (behind, upto, h.0, h.2, get_batch_served n (some h.0) st small (cached n h.0 st h.1))
    ]
  ]

  unbuilt :
      (last n : ℕ) (st : BatchStore kv codecs)
      → last ≤ st.count
      → st.count ≡ 0
      → IsAnswered (suc last) st.count n st
      → handle_get_batch kv codecs (some (pos n)) st ≡ (not_found, st)
  unbuilt last n st le empty (inl within) = absurd (omega (arith, within.0, within.1))
  unbuilt last n st le empty (inr outside) = outside.1

  batch_range_window :
      (count last : ℕ)
      → last ≤ count
      → count < 2 ^ 64 - 1
      → ((batch_range count last).oldest ≡ suc last)
        × ((batch_range count last).total_in_db ≡ count - last)
  batch_range_window count last le room = (ground arith, ground arith)

  -- The latest batch is what `GetBatch` finds under the number of batches.
  latest_served :
      (st : BatchStore kv codecs)
      → IsDeleted kv codecs 0 st
      → (o : Option Batch) → get_batch kv codecs st.count st ≡ (o, st)
      → st.batches st.count ≡ o
      → handle_latest_batch kv codecs st ≡ reply_of (get_batch kv codecs st.count st).0
  unfolding handle_latest_batch get_latest_batch
  latest_served st gone o got e =
      elim (Bool-cases (st.count == 0)) [
        | inl empty ↦
            let nothing = gone.0 in
            let zero_count : st.count ≡ 0 = ground (arith, empty) in
            ap reply_of (ap (λ b. if b then none else st.batches st.count) empty)
            ∙ ap reply_of (sym nothing ∙ ap st.batches (sym zero_count) ∙ e)
        | inr some_built ↦
            ap reply_of (ap (λ b. if b then none else st.batches st.count) some_built ∙ e)
      ]
      ∙ sym (ap (λ r. reply_of r.0) got)

  window_latest :
      (last : ℕ) (st : BatchStore kv codecs)
      → IsWindow kv codecs last st
      → handle_latest_batch kv codecs st ≡ reply_of (get_batch kv codecs st.count st).0
  window_latest last st w =
      let first = w.gone 0 (inl (omega arith)) in
      elim (Bool-cases (leb st.count last)) [
        | inl old ↦
            let g = w.gone st.count (inl (ground (arith, old))) in
            latest_served st first none (missing st.count st g) g.0
        | inr young ↦
            let h = w.held st.count (ground (arith, young)) (omega arith) in
            latest_served st first (some h.0) (cached st.count h.0 st h.1) h.1
      ]

  module _ (laws : KvLaws kv) where
    int-IsAnswered :
        (st : BatchStore kv codecs) (n : ℕ)
        → Runs kv codecs st
        → n < 2 ^ 63
        → (((handle_status kv codecs st).range ≡ none)
            × (handle_get_batch kv codecs (some (pos n)) st ≡ (not_found, st)))
          ⊎ ((r : BatchRange) × ((handle_status kv codecs st).range ≡ some r)
              × (r.newest ≡ (handle_status kv codecs st).batch_count)
              × (r.total_in_db ≡ length (get_all_batches kv codecs st))
              × IsAnswered r.oldest r.newest n st)
    unfolding handle_status get_all_batches
    int-IsAnswered st n run small =
        let last = get_last_deleted_batch kv codecs st in
        let w = runs-IsWindow kv codecs laws st run in
        let bounds = batch_range_window st.count last w.ordered w.room in
        let answered = window-IsAnswered last n st w small in
        elim (Bool-cases (ltb 0 st.count)) [
          | inl some_built ↦ inr (
            batch_range st.count last,
            rw (some_built, handle_status),
            refl,
            bounds.1 ∙ sym (length-batches_to last st.count st w (omega arith)),
            subst (λ i. IsAnswered i st.count n st) (sym bounds.0) answered,
          )
          | inr none_built ↦
              let empty : st.count ≡ 0 = ground (arith, none_built) in
              inl (rw (none_built, handle_status), unbuilt last n st w.ordered empty answered)
        ]

    -- On a store that began without batches and was then changed only by saving the next batch
    -- or one that it holds, by cleanups up to a batch that was built or the next, and by marks
    -- of blocks, with room in the numbers: /status names a range of batches exactly where
    -- batches were built; the range ends at the number of batches, and total_in_db is how many
    -- batches the cache has. For a number that an int holds, 0 or more and below 2^63,
    -- /batch/{number} serves the batch of that number where the range has it, and answers 404
    -- otherwise and where there is no range; for one from 2^63 on it answers 400. None of these
    -- changes the store. /batch/latest answers with what the store has under the number of
    -- batches.
    pub status-IsAnswered :
        (st : BatchStore kv codecs) (n : ℕ)
        → Runs kv codecs st
        → (handle_latest_batch kv codecs st ≡ reply_of (get_batch kv codecs st.count st).0)
          × (IsRefused n st
              ⊎ ((n < 2 ^ 63)
                  × ((((handle_status kv codecs st).range ≡ none)
                        × (handle_get_batch kv codecs (some (pos n)) st ≡ (not_found, st)))
                      ⊎ ((r : BatchRange) × ((handle_status kv codecs st).range ≡ some r)
                          × (r.newest ≡ (handle_status kv codecs st).batch_count)
                          × (r.total_in_db ≡ length (get_all_batches kv codecs st))
                          × IsAnswered r.oldest r.newest n st))))
    status-IsAnswered st n run = (
      window_latest (get_last_deleted_batch kv codecs st) st (runs-IsWindow kv codecs laws st run),
      elim (Bool-cases (ltb n (2 ^ 63))) [
        | inl small ↦
            let fits : n < 2 ^ 63 = ground (arith, small) in
            inr (fits, int-IsAnswered st n run fits)
        | inr large ↦ inl (large-IsRefused n st (ground (arith, large)))
      ],
    )
