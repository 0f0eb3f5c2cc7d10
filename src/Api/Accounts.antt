-- ===== src/Api/Accounts.antt =====
-- sequencer/internal/api/server.go: the handlers that read the tree and the batcher.
use nowa_zk.Base.{ℕ, Bool, true, false, ◌&&◌, ◌||◌, Option, none, some, List, if◌then◌else◌}
use nowa_zk.Base.Bytes.{Bytes, codes, no_text, trim_space}
use nowa_zk.Base.Bytes.Decimal.{print}
use nowa_zk.Mimc.{Mimc}
use nowa_zk.Types.{BalanceState, ZkBatch}
use nowa_zk.State.{Db, get_account_id, get_balance, leaf_index, db_path}
use nowa_zk.Batcher.{get_latest_batch, get_batch, get_batch_count}
use nowa_zk.Sequencer.{Points, World, path_text}
use nowa_zk.Sequencer.Deposits.{open_balance}
use nowa_zk.Api.{
  Server, Method, Response, answered, refused, Handler, is_get, is_post, allow, token_of,
  parse_uint, pub_key_required, invalid_token_id, invalid_pub_key, no_batches, missing_batch_id,
  invalid_batch_id, batch_not_found,
}

pub record AccountView : Type 0 where
  pub token_id : ℕ
  pub account_id : ℕ
  pub index : ℕ
  pub balance : Bytes
  pub nonce : ℕ
  pub pub_key_x : Bytes
  pub pub_key_y : Bytes

pub record AccountReply : Type 0 where
  pub pub_key : Bytes
  pub base : AccountView
  pub quote : AccountView

-- The query of /account; `body` is the "pubkey" of the body, empty where it does not decode.
pub record AccountQuery : Type 0 where
  pub pub_key : Bytes
  pub body : Bytes
  pub base_token : Bytes
  pub quote_token : Bytes

-- `base_token` and `quote_token`: what does not parse is passed over.
abbrev pub or_default : ℕ → Option ℕ → ℕ
or_default d none = d
or_default d (some v) = v

unfoldable pub account_view : ℕ → BalanceState → AccountView
unfolding print leaf_index
account_view token_id acc = record {
  token_id = token_id;
  account_id = acc.account_id;
  index = leaf_index acc.account_id acc.token_id;
  balance = print acc.balance;
  nonce = acc.nonce;
  pub_key_x = print acc.pub_key_x;
  pub_key_y = print acc.pub_key_y;
}

unfoldable pub account_key : Method → AccountQuery → Bytes
unfolding trim_space
account_key m q =
    let given = trim_space q.pub_key in
    if no_text given && is_post m then trim_space q.body else given

pub record BalanceReply : Type 0 where
  pub pub_key : Bytes
  pub account_id : ℕ
  pub token_id : ℕ
  pub balance : Bytes
  pub nonce : ℕ
  pub exists : Bool

pub record ProofReply : Type 0 where
  pub pub_key : Bytes
  pub account_id : ℕ
  pub token_id : ℕ
  pub index : ℕ
  pub balance : Bytes
  pub nonce : ℕ
  pub pub_key_x : Bytes
  pub pub_key_y : Bytes
  pub siblings : List Bytes
  pub path_bits : List ℕ

-- A field of an account that may be missing, with what the handler starts from.
abbrev field {ℓ} : {A : Type ℓ} → A → (BalanceState → A) → Option BalanceState → A
field start f none = start
field start f (some acc) = f acc

-- The key and the token of /balance and /proof, and the account that the tree gives the key,
-- which may be new.
unfoldable pub with_account :
    {A : Type 0} → Method → Bytes → Bytes → (Bytes → ℕ → ℕ → Db → A) → Handler A
unfolding allow token_of trim_space get_account_id
with_account {A} m pub_key token reply = allow is_get m λ s.
    let key = trim_space pub_key in
    let found : Response A × Server = elim (token_of token) [
      | none ↦ (refused invalid_token_id, s)
      | some token_id ↦
          let r = get_account_id key s.world.db in
          (
            answered (reply key r.0 token_id r.1),
            record s { world = record (s.world) { db = r.1 } },
          )
    ] in
    if no_text key then (refused pub_key_required, s) else found

unfoldable pub balance_reply : Bytes → ℕ → ℕ → Db → BalanceReply
unfolding print
balance_reply key id token db =
    let acc = get_balance id token db in
    record {
      pub_key = key;
      account_id = id;
      token_id = token;
      balance = field (codes "0") (λ a. print a.balance) acc;
      nonce = field 0 (λ a. a.nonce) acc;
      exists = field false (λ a. true) acc;
    }

unfoldable pub handle_balance : Method → Bytes → Bytes → Handler BalanceReply
unfolding with_account balance_reply
handle_balance m pub_key token = with_account m pub_key token balance_reply

module _ (h : Mimc) where
  -- `open` for both tokens; the second is not opened where the first fails.
  unfoldable pub open_both :
      Points → Bytes → ℕ → ℕ → World → Option (BalanceState × BalanceState) × World
  unfolding open_balance
  open_both pts key base quote w =
      let r = open_balance h pts key base w in
      let t = open_balance h pts key quote r.1 in
      elim r.0 as (λ _. Option (BalanceState × BalanceState) × World) [
        | none ↦ (none, r.1)
        | some b ↦ elim t.0 as (λ _. Option (BalanceState × BalanceState) × World) [
          | none ↦ (none, t.1)
          | some q ↦ (some (b, q), t.1)
        ]
      ]

  unfoldable pub handle_account : Points → Method → AccountQuery → Handler AccountReply
  unfolding allow parse_uint account_key account_view open_both
  handle_account pts m q =
      allow (λ m'. is_get m' || is_post m') m
        λ s.
          let key = account_key m q in
          let base = or_default 1 (parse_uint 32 q.base_token) in
          let quote = or_default 2 (parse_uint 32 q.quote_token) in
          let r = open_both pts key base quote s.world in
          let after : Server = record s { world = r.1 } in
          let opened : Response AccountReply × Server = elim r.0 [
            | none ↦ (refused invalid_pub_key, after)
            | some both ↦ (
              answered (record {
                pub_key = key;
                base = account_view base both.0;
                quote = account_view quote both.1;
              }),
              after,
            )
          ] in
          if no_text key then (refused pub_key_required, s) else opened

  unfoldable pub proof_reply : Bytes → ℕ → ℕ → Db → ProofReply
  unfolding print leaf_index
  proof_reply key id token db =
      let acc = get_balance id token db in
      let index = leaf_index id token in
      let r = db_path h db index in
      record {
        pub_key = key;
        account_id = id;
        token_id = token;
        index = index;
        balance = field (codes "0") (λ a. print a.balance) acc;
        nonce = field 0 (λ a. a.nonce) acc;
        pub_key_x = field (codes "0") (λ a. print a.pub_key_x) acc;
        pub_key_y = field (codes "0") (λ a. print a.pub_key_y) acc;
        siblings = path_text h r.0;
        path_bits = r.1;
      }

  unfoldable pub handle_proof : Method → Bytes → Bytes → Handler ProofReply
  unfolding with_account proof_reply
  handle_proof m pub_key token = with_account m pub_key token proof_reply

unfoldable pub handle_batch_latest : Method → Handler ZkBatch
unfolding allow
handle_batch_latest m = allow is_get m λ s.
    elim (get_latest_batch s.world.batcher) as (λ _. Response ZkBatch × Server) [
      | none ↦ (refused no_batches, s)
      | some b ↦ (answered b, s)
    ]

unfoldable pub handle_batch_count : Method → Handler ℕ
unfolding allow
handle_batch_count m = allow is_get m λ s. (answered (get_batch_count s.world.batcher), s)

-- The argument is what stands behind "/batch/".
unfoldable pub handle_batch_by_id : Method → Bytes → Handler ZkBatch
unfolding allow parse_uint
handle_batch_by_id m id_str = allow is_get m λ s.
    let found : Response ZkBatch × Server = elim (parse_uint 64 id_str) [
      | none ↦ (refused invalid_batch_id, s)
      | some id ↦ elim (get_batch id s.world.batcher) [
        | none ↦ (refused batch_not_found, s)
        | some b ↦ (answered b, s)
      ]
    ] in
    if no_text id_str then (refused missing_batch_id, s) else found
