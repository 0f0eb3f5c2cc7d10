-- ===== src/Api/Served.antt =====
-- The proof that /proof serves leads from the stored leaf to the root of the served tree.
use nowa_zk.Base.{
  ℕ, ◌≡◌, refl, sym, subst, Bool, true, false, Option, none, some, List, if◌then◌else◌, arith,
}
use nowa_zk.Base.Bytes.{Bytes, no_text, trim_space}
use nowa_zk.Mimc.{Mimc}
use nowa_zk.Merkle.Proof.{fold_path}
use nowa_zk.State.{Db, db_root, db_path, leaf_index, get_account_id}
use nowa_zk.State.Leaf.{IsInTree, IsSynced, leaf_of, db_path_proves}
use nowa_zk.Sequencer.{path_text}
use nowa_zk.Sequencer.Deposits.Sound.{get_account_id-IsSynced}
use nowa_zk.Api.{
  Server, Method, get, post, options, other, Response, Refusal, refused, answered, pub_key_required,
  invalid_token_id, allow, token_of,
}
use nowa_zk.Api.Accounts.{ProofReply, with_account, proof_reply, handle_proof}
use nowa_zk.Api.Valid.{IsValidServer}

-- An answer of /balance and /proof, and the server behind it.
record Served {A : Type 0} (key : Bytes) (reply : Bytes → ℕ → ℕ → Db → A) (s s' : Server) (r : A)
    : Type 0 where
  token_id : ℕ
  db_after : s'.world.db ≡ (get_account_id key s.world.db).1
  eq : r ≡ reply key (get_account_id key s.world.db).0 token_id (get_account_id key s.world.db).1

answered_inj : {A : Type 0} {x y : A} → answered x ≡ answered y → x ≡ y
answered_inj e = ground (arith, e)

refused_answer : {A : Type 0} {e : Refusal} {r : A} → ¬ (refused e ≡ answered r)
refused_answer e = ground (arith, e)

module _ {A : Type 0} (key : Bytes) (reply : Bytes → ℕ → ℕ → Db → A) (s : Server) (r : A) where
  -- `with_account` once it is known whether there is a key and a token.
  abbrev reached : Bool → Option ℕ → Response A × Server
  reached empty t =
      let id = get_account_id key s.world.db in
      let found : Response A × Server = elim t [
        | none ↦ (refused invalid_token_id, s)
        | some token_id ↦ (
          answered (reply key id.0 token_id id.1),
          record s { world = record (s.world) { db = id.1 } },
        )
      ] in
      if empty then (refused pub_key_required, s) else found

  reached-Served :
      (empty : Bool) (t : Option ℕ)
      → (reached empty t).0 ≡ answered r
      → Served key reply s (reached empty t).1 r
  reached-Served true t e = absurd (refused_answer e)
  reached-Served false none e = absurd (refused_answer e)
  reached-Served false (some token_id) e = record {
    token_id = token_id;
    db_after = refl;
    eq = sym (answered_inj e);
  }

served :
    {A : Type 0} (m : Method) (pub_key token : Bytes) (reply : Bytes → ℕ → ℕ → Db → A) (s : Server)
    (r : A)
    → (with_account m pub_key token reply s).0 ≡ answered r
    → Served (trim_space pub_key) reply s (with_account m pub_key token reply s).1 r
unfolding with_account allow
served get pub_key token reply s r e =
    let key = trim_space pub_key in reached-Served key reply s r (no_text key) (token_of token) e
served post pub_key token reply s r e = absurd (refused_answer e)
served options pub_key token reply s r e = absurd (ground (arith, e))
served other pub_key token reply s r e = absurd (refused_answer e)

module _ (h : Mimc) where
  -- The siblings are the texts of a path from the stored leaf, or 0, to the root.
  pub record IsProof (db : Db) (r : ProofReply) : Type 0 where
    pub path : List ℕ
    pub printed : r.siblings ≡ path_text h path
    pub leads :
        let leaf : ℕ = elim (leaf_of h (db.balances r.account_id r.token_id)) [
          | none ↦ 0
          | some v ↦ v
        ] in
        fold_path h leaf path r.path_bits ≡ db_root h db

  proof_reply-IsProof :
      (key : Bytes) (id token : ℕ) (db : Db)
      → IsSynced h db
      → IsInTree id token
      → IsProof db (proof_reply h key id token db)
  unfolding proof_reply
  proof_reply-IsProof key id token db y room = record {
    path = (db_path h db (leaf_index id token)).0;
    printed = refl;
    leads = db_path_proves h id token db y room;
  }

  -- A proof that /proof serves has siblings that are the texts of a path from the leaf of the
  -- stored balance, or 0 where there is none, to the root of the tree behind the request. Where the
  -- server is valid before it and the tree has room for the account and the token.
  pub handle_proof-IsProof :
      (s : Server) (m : Method) (pub_key token : Bytes) (r : ProofReply)
      → IsValidServer h s
      → (handle_proof h m pub_key token s).0 ≡ answered r
      → IsInTree r.account_id r.token_id
      → IsProof (handle_proof h m pub_key token s).1.world.db r
  unfolding handle_proof proof_reply
  handle_proof-IsProof s m pub_key token r v e room =
      let key = trim_space pub_key in
      let id = get_account_id key s.world.db in
      let w = served m pub_key token (proof_reply h) s r e in
      let p =
        proof_reply-IsProof key id.0 w.token_id id.1
          (get_account_id-IsSynced h key s.world.db v.world.synced)
          (reply_room key id.0 w.token_id id.1
            (subst (λ q. IsInTree q.account_id q.token_id) w.eq room)) in
      subst (λ db. IsProof db r) (sym w.db_after) (subst (IsProof id.1) (sym w.eq) p)
    where
      reply_room :
          (key : Bytes) (id token : ℕ) (db : Db)
          → IsInTree
              (proof_reply h key id token db).account_id
              (proof_reply h key id token db).token_id
          → IsInTree id token
      reply_room key id token db room = room
