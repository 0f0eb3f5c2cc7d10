-- ===== src/Circuit/Path.antt =====
-- The circuit's climb is the hashing up of a path, and the path that the sequencer published is the
-- one that the circuit is given.
use nowa_zk.Base.{
  ℕ, ◌≤◌, ◌<◌, ◌≡◌, refl, List, [], ◌∷◌, All, some, arith, inl, inr, Bool-cases, ◌==◌,
}
use nowa_zk.Base.Bytes.Decimal.{parse-print}
use nowa_zk.Base.Int.{pos}
use nowa_zk.Mimc.{Mimc, fr-pos}
use nowa_zk.Merkle.Proof.{fold_path}
use nowa_zk.Sequencer.{path_text}
use nowa_zk.Circuit.Frontend.{Api, Eddsa}
use nowa_zk.Circuit.{merkle_root}
use nowa_zk.Circuit.Assign.{assign_texts, assign_numbers}

module _ (h : Mimc) where
  -- On bits, `merkleRoot` succeeds and is the fold.
  pub merkle_root-fold_path :
      (api : Api h) (eddsa : Eddsa) (path bits : List ℕ) (cur : ℕ)
      → All (λ b. b ≤ 1) bits
      → merkle_root h api eddsa cur path bits ≡ some (fold_path h cur path bits)
  unfolding merkle_root fold_path
  merkle_root-fold_path api eddsa [] bits cur a = refl
  merkle_root-fold_path api eddsa (s ∷ path) [] cur a = refl
  merkle_root-fold_path api eddsa (s ∷ path) (b ∷ bits) cur (le, a) = elim (Bool-cases (b == 1)) [
    | inl e ↦
        let one : b ≡ 1 = ground arith in
        rw (one, api.select_one s cur, api.select_one cur s)
          (merkle_root-fold_path api eddsa path bits (h.sum (s ∷ cur ∷ [])) a)
    | inr e ↦
        let zero : b ≡ 0 = ground arith in
        rw (zero, api.select_zero s cur, api.select_zero cur s)
          (merkle_root-fold_path api eddsa path bits (h.sum (cur ∷ s ∷ [])) a)
  ]

  -- Numbers of the field are assigned as they are.
  pub assign_texts-path_text :
      (eddsa : Eddsa) (path : List ℕ)
      → All (λ n. n < h.modulus) path
      → assign_texts h eddsa (path_text h path) ≡ some path
  unfolding assign_texts
  assign_texts-path_text eddsa [] a = refl
  assign_texts-path_text eddsa (n ∷ path) (lt, a) =
      rw (parse-print (pos n), fr-pos h n lt, assign_texts-path_text eddsa path a)

  pub assign_numbers_lem :
      (eddsa : Eddsa) (bits : List ℕ) → All (λ b. b ≤ 1) bits → assign_numbers h eddsa bits ≡ bits
  unfolding assign_numbers
  assign_numbers_lem eddsa [] a = refl
  assign_numbers_lem eddsa (b ∷ bits) (le, a) =
      let big = h.modulus_large in rw (fr-pos h b (omega arith), assign_numbers_lem eddsa bits a)
