-- ===== src/Api/Tests.antt =====
-- A server with the sample accounts and empty books.
use nowa_zk.Base.{◌≡◌, refl, true, some, arith, [], ◌∷◌}
use nowa_zk.Base.Bytes.{codes, eqb, trim_0x, trim_space, trim_left, trim_right, hex_decode}
use nowa_zk.Base.Bytes.Decimal.{print, parse_ℕ, parse_digits}
use nowa_zk.Base.Int.{pos}
use nowa_zk.Samples.{sample_hash, sample_db, sample_db-IsSynced, sample_world, sample_room}
use nowa_zk.State.{db_root, get_account_id, set_balance}
use nowa_zk.Engine.{new_engine}
use nowa_zk.Engine.Orders.{new_engine-IsValidEngine}
use nowa_zk.Batcher.{new_batcher, add_transition, append_transition}
use nowa_zk.Batcher.Sealing.{new_batcher-IsValid}
use nowa_zk.Batcher.Chain.{new_batcher-IsChained}
use nowa_zk.Sequencer.{Points, decode_pub_key_xy}
use nowa_zk.Sequencer.Deposits.{open_balance, book_deposit}
use nowa_zk.Api.{
  Server, get, post, OrderRequest, parse_uint, handle_order, handle_orderbook, allow, token_of,
}
use nowa_zk.Api.Accounts.{
  AccountQuery, ProofReply, account_key, handle_account, handle_balance, handle_proof, proof_reply,
  with_account, handle_batch_latest, handle_batch_count, handle_batch_by_id,
}
use nowa_zk.Api.Valid.{IsValidServer, handlers-IsValidServer}
use nowa_zk.Api.Served.{IsProof, handle_proof-IsProof}

abbrev points : Points
points = record { set_bytes = λ s. some (pos 1, pos 2); compress = λ x y. some (171 ∷ 205 ∷ []) }

abbrev server : Server
server = record { engine = new_engine; world = sample_world }

server-IsValidServer : IsValidServer sample_hash server
server-IsValidServer = record {
  books = new_engine-IsValidEngine;
  world = record {
    synced = sample_db-IsSynced;
    batches = new_batcher-IsValid sample_hash;
    chained = new_batcher-IsChained (print (pos (db_root sample_hash sample_db)));
  };
}

abbrev order_body : OrderRequest
order_body = record {
  maker_address = codes "0xabcd";
  token_id = 2;
  amount = codes "40";
  price = codes "10";
  is_buy = true;
  nonce = 1;
  signature = [];
  circuit_signature = codes "0x01";
}

abbrev account_query : AccountQuery
account_query = record {
  pub_key = codes " 0xabcd";
  body = [];
  base_token = codes "2";
  quote_token = codes "1";
}

abbrev served_reply : ProofReply
served_reply =
    proof_reply sample_hash (codes "0xabcd") 0 2 (get_account_id (codes "0xabcd") sample_db).1

handle_proof-IsProof_example :
    IsProof sample_hash
      (handle_proof sample_hash get (codes "0xabcd") (codes "2") server).1.world.db
      served_reply
unfolding handle_proof with_account allow token_of parse_uint parse_ℕ parse_digits trim_space
    trim_left trim_right get_account_id eqb proof_reply set_balance
handle_proof-IsProof_example =
    handle_proof-IsProof sample_hash server get (codes "0xabcd") (codes "2") served_reply
      server-IsValidServer refl (sample_room 0 2 (omega arith) (omega arith))

handlers-IsValidServer_example :
    IsValidServer sample_hash (handle_order (λ n. n) (λ o. true) post (some order_body) server).1
    × IsValidServer sample_hash (handle_orderbook get (codes "2") server).1
    × IsValidServer sample_hash (handle_account sample_hash points get account_query server).1
    × IsValidServer sample_hash (handle_balance get (codes "0xabcd") (codes "2") server).1
    × IsValidServer sample_hash (handle_proof sample_hash get (codes "0xabcd") (codes "2") server).1
    × ((handle_batch_latest get server).1 ≡ server)
    × ((handle_batch_count get server).1 ≡ server)
    × ((handle_batch_by_id get (codes "2") server).1 ≡ server)
unfolding account_key parse_uint parse_ℕ parse_digits trim_space trim_left trim_right get_account_id
    eqb set_balance open_balance book_deposit decode_pub_key_xy hex_decode add_transition
    append_transition new_batcher trim_0x
handlers-IsValidServer_example =
    handlers-IsValidServer sample_hash server server-IsValidServer (λ n. n) (λ o. true) post get
      (some order_body) (codes "0xabcd") (codes "2") points account_query
      (sample_room 0 2 (omega arith) (omega arith)) (sample_room 0 1 (omega arith) (omega arith))
      (omega arith) (omega arith)
