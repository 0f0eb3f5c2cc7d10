-- ===== src/Prover/Inputs.antt =====
-- The words of the call of `submitProofWithBlob` and the public inputs of `generateProof`.
use nowa_zk.Base.{ℕ, ◌^◌, ◌<◌, [], ◌∷◌, ◌≡◌, refl, sym, ap, ◌∙◌, Option, none, some, arith}
use nowa_zk.Base.Bytes.{Bytes, trim_0x}
use nowa_zk.Base.Bytes.Decimal.{print, parse, parse-print}
use nowa_zk.Base.Int.{ℤ, pos}
use nowa_zk.Base.Options.{>>=-eq-some}
use nowa_zk.Mimc.{Mimc, fr}
use nowa_zk.Types.{ZkBatch}
use nowa_zk.Circuit.Frontend.{Eddsa}
use nowa_zk.Circuit.{StateTransitionCircuit}
use nowa_zk.Circuit.Assign.{assign_batch, assign_root, assign_hash, assign_all, parse_hex}
use nowa_zk.Replay.Batches.{from_bytes}
use nowa_zk.Prover.Bytes32.{
  root_to_bytes32, hash_to_bytes32, root_to_bytes32-print, hash_to_bytes32-print,
}
use nowa_zk.Prover.{Da, Call, or_zero, prepare}
use nowa_zk.Prover.Calls.{some_inj, inversion}

-- The roots and hashes of a batch as the batcher prints them.
pub record IsPrinted (b : ZkBatch) : Type 0 where
  pub old : ℕ
  pub new : ℕ
  pub withdrawals : ℕ
  pub deposits : ℕ
  pub old_text : b.old_root ≡ print (pos old)
  pub new_text : b.new_root ≡ print (pos new)
  pub withdrawal_text : b.withdrawal_hash ≡ print (pos withdrawals)
  pub deposit_text : b.deposit_hash ≡ print (pos deposits)
  pub in_range : (old < 2 ^ 256) × (new < 2 ^ 256) × (withdrawals < 2 ^ 256) × (deposits < 2 ^ 256)

or_zero-parses : (s : Bytes) (z : ℤ) → parse s ≡ some z → or_zero s ≡ s
unfolding parse
or_zero-parses [] z e = ground (arith, e)
or_zero-parses (c ∷ s) z e = refl

root_word :
    (text word : Bytes) (n : ℕ)
    → text ≡ print (pos n)
    → n < 2 ^ 256
    → root_to_bytes32 text ≡ some word
    → from_bytes 0 word ≡ n
root_word text word n printed h e =
    let w = root_to_bytes32-print n h in
    ap (from_bytes 0) (some_inj (sym e ∙ ap root_to_bytes32 printed ∙ w.1)) ∙ w.2

hash_word :
    (text : Bytes) (n : ℕ)
    → text ≡ print (pos n)
    → n < 2 ^ 256
    → from_bytes 0 (hash_to_bytes32 (or_zero text)) ≡ n
hash_word text n printed h =
    ap (λ s. from_bytes 0 (hash_to_bytes32 s))
      (or_zero-parses text (pos n) (ap parse printed ∙ parse-print (pos n)) ∙ printed)
    ∙ hash_to_bytes32-print n h

module _ (Proof : Type 0) (da : Da) (h : Mimc) (eddsa : Eddsa) where
  assigned_root :
      (text : Bytes) (n v : ℕ)
      → text ≡ print (pos n)
      → assign_root h eddsa text ≡ some v
      → v ≡ fr h (pos n)
  assigned_root text n v printed e = some_inj (
      sym e
      ∙ ap
          (λ o. elim o as (λ _. Option ℕ) [
            | some z ↦ some (fr h z)
            | none ↦ elim (parse_hex (trim_0x text)) [ none ↦ none | some z ↦ some (fr h z) ]
          ])
          (ap parse printed ∙ parse-print (pos n)))

  assigned_hash :
      (text : Bytes) (n : ℕ) → text ≡ print (pos n) → assign_hash h eddsa text ≡ fr h (pos n)
  assigned_hash text n printed =
      ap (λ o. elim o as (λ _. ℕ) [ none ↦ fr h (pos 0) | some z ↦ fr h z ])
        (ap parse printed ∙ parse-print (pos n))

  -- The words of the submitted call, read as numbers, are, as elements of the scalar field, the
  -- public inputs that the proof was made for: the two roots and the two hashes. For a batch whose
  -- roots and hashes are printed in decimal and are below 2^256, and whose call and assignment
  -- exist.
  pub prepare-assign_batch :
      (b : ZkBatch) (proof : Proof) (call : Call Proof) (c : StateTransitionCircuit)
      → IsPrinted b
      → prepare Proof da b proof ≡ some call
      → assign_batch h eddsa b ≡ some c
      → (c.old_root ≡ fr h (pos (from_bytes 0 call.old_root)))
        × (c.new_root ≡ fr h (pos (from_bytes 0 call.new_root)))
        × (c.withdrawal_hash ≡ fr h (pos (from_bytes 0 call.withdrawal_hash)))
        × (c.deposit_hash ≡ fr h (pos (from_bytes 0 call.deposit_hash)))
  unfolding assign_batch
  prepare-assign_batch b proof call c p e assigned =
      let q = inversion Proof da b proof call e in
      let old = >>=-eq-some (assign_root h eddsa b.old_root) _ assigned in
      let new = >>=-eq-some (assign_root h eddsa b.new_root) _ old.2 in
      let ops = >>=-eq-some (assign_all h eddsa b.transitions) _ new.2 in
      let same = some_inj ops.2 in
      let input = λ (n : ℕ). fr h (pos n) in
      (
        sym (ap (λ k. k.old_root) same)
            ∙ assigned_root b.old_root p.old old.0 p.old_text old.1
            ∙ ap input
                (sym (root_word b.old_root call.old_root p.old p.old_text p.in_range.0 q.old_word)),
        sym (ap (λ k. k.new_root) same)
            ∙ assigned_root b.new_root p.new new.0 p.new_text new.1
            ∙ ap input
                (sym (root_word b.new_root call.new_root p.new p.new_text p.in_range.1 q.new_word)),
        sym (ap (λ k. k.withdrawal_hash) same)
            ∙ assigned_hash b.withdrawal_hash p.withdrawals p.withdrawal_text
            ∙ ap input (
                sym (
                  ap (from_bytes 0) q.withdrawal_word
                  ∙ hash_word b.withdrawal_hash p.withdrawals p.withdrawal_text p.in_range.2)),
        sym (ap (λ k. k.deposit_hash) same)
            ∙ assigned_hash b.deposit_hash p.deposits p.deposit_text
            ∙ ap input (
                sym (
                  ap (from_bytes 0) q.deposit_word
                  ∙ hash_word b.deposit_hash p.deposits p.deposit_text p.in_range.3)),
      )
