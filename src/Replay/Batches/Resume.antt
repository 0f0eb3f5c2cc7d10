-- ===== src/Replay/Batches/Resume.antt =====
-- A replay that ends well has verified every batch, and is resumed behind the last one.
use nowa_zk.Base.{
  ℕ, zero, suc, ◌+◌, ◌-◌, ◌%◌, ◌^◌, ◌≤◌, ◌<◌, ◌≡◌, refl, sym, subst, ◌∙◌, ap, Bool, true, false,
  none, some, length, leb, arith, inl, inr, Option-cases, Bool-cases, if◌then◌else◌,
}
use nowa_zk.Base.Bytes.{Bytes, eqb_refl}
use nowa_zk.Mimc.{Mimc}
use nowa_zk.State.{Db, set_meta, get_meta}
use nowa_zk.Replay.{Step, and_then}
use nowa_zk.Replay.Batches.{
  Source, last_replayed_batch_key, put_uint64, from_bytes, read_checkpoint, replay_one_batch,
  replay_from, replay_all_batches,
}

-- A number below 2 ^ 64 is read back from its eight bytes.
from_bytes-put_uint64 : (n : ℕ) → n < 2 ^ 64 → from_bytes 0 (put_uint64 n) ≡ n
unfolding from_bytes
from_bytes-put_uint64 n lt = omega arith

get_meta-set_meta :
    (key value : Bytes) (db : Db) → get_meta key (set_meta key value db) ≡ some value
unfolding set_meta
get_meta-set_meta key value db = ground (arith, eqb_refl key)

read_checkpoint_lem :
    (db : Db) (value : Bytes) (n : ℕ)
    → get_meta last_replayed_batch_key db ≡ some value
    → length value ≡ 8
    → from_bytes 0 value ≡ n
    → n + 1 < 2 ^ 64
    → read_checkpoint db ≡ some (n + 1)
unfolding read_checkpoint
read_checkpoint_lem db value n e long back lt =
    let next : (n + 1) % 2 ^ 64 ≡ n + 1 = omega arith in
    rw (e, long, back, next, read_checkpoint) refl

-- The checkpoint behind a batch that was kept.
read_checkpoint-set_meta :
    (i : ℕ) (db : Db)
    → i + 1 < 2 ^ 64
    → read_checkpoint (set_meta last_replayed_batch_key (put_uint64 i) db) ≡ some (i + 1)
read_checkpoint-set_meta i db lt =
    read_checkpoint_lem _ (put_uint64 i) i
      (get_meta-set_meta last_replayed_batch_key (put_uint64 i) db) refl
      (from_bytes-put_uint64 i (omega arith)) lt

-- A step that ends well has a first step that does.
pub and_then_ok :
    (first rest : Step) (db db' : Db)
    → and_then first rest db ≡ (true, db')
    → (db1 : Db) × (first db ≡ (true, db1)) × (rest db1 ≡ (true, db'))
and_then_ok first rest db db' e = go (first db) refl e
  where
    go :
        (r : Bool × Db)
        → first db ≡ r
        → (if r.0 then rest r.1 else (false, r.1)) ≡ (true, db')
        → (db1 : Db) × (first db ≡ (true, db1)) × (rest db1 ≡ (true, db'))
    go (true, db1) f k = (db1, f, k)
    go (false, db1) f k = ground arith

module _ (h : Mimc) (src : Source) where
  replay_from_checkpoint :
      (n i : ℕ) (db db' : Db)
      → i + n < 2 ^ 64
      → read_checkpoint db ≡ some i
      → replay_from h src n i db ≡ (true, db')
      → read_checkpoint db' ≡ some (i + n)
  unfolding replay_from
  replay_from_checkpoint zero i db db' lt c e =
      let same : db ≡ db' = ap (λ (r : Bool × Db). r.1) e in
      let none_left : i + 0 ≡ i = omega arith in
      subst (λ d. read_checkpoint d ≡ some (i + 0)) same (c ∙ ap some (sym none_left))
  replay_from_checkpoint (suc n) i db db' lt c e =
      let kept = λ (d : Db). set_meta last_replayed_batch_key (put_uint64 i) d in
      let (db1, ok, rest) =
        and_then_ok (replay_one_batch h src i) (λ d. replay_from h src n (i + 1) (kept d)) db db'
          e in
      let moved : i + 1 + n ≡ i + suc n = omega arith in
      replay_from_checkpoint n (i + 1) (kept db1) db' (omega arith)
        (read_checkpoint-set_meta i db1 (omega arith)) rest
      ∙ ap some moved

  module _ (count : ℕ) (known : src.batch_count ≡ some count) where
    from_checkpoint :
        (db : Db) (i : ℕ)
        → read_checkpoint db ≡ some i
        → replay_all_batches h src db ≡ replay_from h src (count - i) i db
    unfolding replay_all_batches
    from_checkpoint db i e = rw (e, known, replay_all_batches) refl

    no_checkpoint :
        (db : Db) → read_checkpoint db ≡ none → replay_all_batches h src db ≡ (false, db)
    unfolding replay_all_batches
    no_checkpoint db e = rw (e, replay_all_batches) refl

    nothing_left : (n i : ℕ) (db : Db) → n ≡ 0 → replay_from h src n i db ≡ (true, db)
    unfolding replay_from
    nothing_left n i db e = rw e refl

    -- A replay that ends well and is started again on its database ends well at once and changes
    -- nothing, where L1 still has the same number of batches, below 2 ^ 64.
    pub replay_all_batches-resumes :
        (db db' : Db)
        → count < 2 ^ 64
        → replay_all_batches h src db ≡ (true, db')
        → replay_all_batches h src db' ≡ (true, db')
    replay_all_batches-resumes db db' lt e = elim (Option-cases (read_checkpoint db)) [
      | inl f ↦
          let wrong : false ≡ true = ap (λ (r : Bool × Db). r.0) (sym (no_checkpoint db f) ∙ e) in
          ground arith
      | inr (i, f) ↦
          let run = sym (from_checkpoint db i f) ∙ e in
          elim (Bool-cases (leb i count)) [
            | inl le ↦
                let some_left : i ≤ count = ground arith in
                let end : i + (count - i) ≡ count = omega arith in
                let reached =
                  replay_from_checkpoint (count - i) i db db' (omega arith) f run ∙ ap some end in
                from_checkpoint db' count reached
                ∙ nothing_left (count - count) count db' (omega arith)
            | inr gt ↦
                let past : count < i = ground arith in
                let idle = nothing_left (count - i) i db (omega arith) in
                let same : db ≡ db' = ap (λ (r : Bool × Db). r.1) (sym idle ∙ run) in
                subst (λ d. replay_all_batches h src d ≡ (true, db')) same e
          ]
    ]
