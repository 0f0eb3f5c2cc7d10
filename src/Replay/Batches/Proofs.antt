-- ===== src/Replay/Batches/Proofs.antt =====
-- The proof that `buildProof` prints leads from the stored leaf to the root of the rebuilt tree.
use nowa_zk.Base.{ℕ, ◌≡◌, refl, List, none, some}
use nowa_zk.Base.Bytes.{Bytes}
use nowa_zk.Mimc.{Mimc}
use nowa_zk.Merkle.Proof.{fold_path}
use nowa_zk.State.{db_root, db_path, leaf_index, get_account_id, Db}
use nowa_zk.State.Leaf.{IsInTree, IsSynced, leaf_of, db_path_proves}
use nowa_zk.Sequencer.{path_text}
use nowa_zk.Sequencer.Deposits.Sound.{get_account_id-IsSynced}
use nowa_zk.Replay.Batches.{build_proof}

module _ (h : Mimc) (pub_key : Bytes) (token : ℕ) (db : Db) (s : IsSynced h db) where
  -- Where the tree holds the balances and has room for the account and the token, the siblings of
  -- the proof are the texts of a path that leads from the stored leaf, or 0, to the root.
  pub build_proof_verifies :
      IsInTree (get_account_id pub_key db).0 token
      → let (out, db') = build_proof h pub_key token db in
        let leaf : ℕ = elim (leaf_of h (db'.balances out.account_id out.token_id)) [
          | none ↦ 0
          | some v ↦ v
        ] in
        (path : List ℕ) × (out.siblings ≡ path_text h path)
        × (fold_path h leaf path out.path_bits ≡ db_root h db')
  unfolding build_proof
  build_proof_verifies r =
      let (id, db') = get_account_id pub_key db in
      (
        (db_path h db' (leaf_index id token)).0,
        refl,
        db_path_proves h id token db' (get_account_id-IsSynced h pub_key db s) r,
      )
