-- ===== src/Api.antt =====
-- sequencer/internal/api/server.go: the handlers, as functions of a request and the server. The
-- router, the headers and the JSON of requests and answers are libraries: a body that does not
-- decode is `none`, and an answer is a record with the keys of its JSON object. `main` always gives
-- the server a tree and a batcher, so that the tests for nil are left out.
pub mod Accounts
pub mod Valid
pub mod Served
mod Tests
use nowa_zk.Base.{
  ◌⊎◌, inl, inr, ℕ, ◌^◌, Bool, true, false, Option, none, some, List, map, ltb, if◌then◌else◌,
}
use nowa_zk.Base.Bytes.{Bytes, no_text}
use nowa_zk.Base.Bytes.Decimal.{print, parse, parse_ℕ}
use nowa_zk.Types.{Order}
use nowa_zk.Engine.{
  Engine, OrderError, Outcome, accepted, rejected, process_order, snapshot_orderbook,
}
use nowa_zk.Sequencer.{World}

pub record Server : Type 0 where
  pub engine : Engine
  pub world : World

pub data Method : Type 0 where
  get post options other : Method

-- The errors, by what is written to the client.
pub data Refusal : Type 0 where
  wrong_method invalid_json invalid_amount invalid_price circuit_signature_required : Refusal
  order_refused : OrderError → Refusal
  pub_key_required invalid_token_id invalid_pub_key no_batches missing_batch_id : Refusal
  invalid_batch_id batch_not_found : Refusal

-- The code of `http.Error`
unfoldable pub status : Refusal → ℕ
status wrong_method = 405
status invalid_pub_key = 500
status no_batches = 404
status batch_not_found = 404
status _ = 400

pub data Response {ℓ} (A : Type ℓ) : Type ℓ where
  -- The answer to OPTIONS.
  preflight : Response A
  refused : Refusal → Response A
  answered : A → Response A

abbrev pub Handler : Type 0 → Type 0
Handler A = Server → Response A × Server

abbrev pub is_get : Method → Bool
is_get get = true
is_get _ = false

abbrev pub is_post : Method → Bool
is_post post = true
is_post _ = false

-- The first lines of every handler.
unfoldable pub allow : {A : Type 0} → (Method → Bool) → Method → Handler A → Handler A
allow allowed options handler s = (preflight, s)
allow allowed get handler s = if allowed get then handler s else (refused wrong_method, s)
allow allowed post handler s = if allowed post then handler s else (refused wrong_method, s)
allow allowed other handler s = if allowed other then handler s else (refused wrong_method, s)

-- `strconv.ParseUint(s, 10, bits)`
abbrev pub below : ℕ → Option ℕ → Option ℕ
below bits none = none
below bits (some n) = if ltb n (2 ^ bits) then some n else none

unfoldable pub parse_uint : ℕ → Bytes → Option ℕ
unfolding parse_ℕ
parse_uint bits s = below bits (parse_ℕ s)

pub record OrderRequest : Type 0 where
  pub maker_address : Bytes
  pub token_id : ℕ
  pub amount : Bytes
  pub price : Bytes
  pub is_buy : Bool
  pub nonce : ℕ
  pub signature : Bytes
  pub circuit_signature : Bytes

pub record OrderView : Type 0 where
  pub maker_address : Bytes
  pub token_id : ℕ
  pub amount : Bytes
  pub price : Bytes
  pub is_buy : Bool
  pub nonce : ℕ

unfoldable pub order_to_view : Order → OrderView
unfolding print
order_to_view o = record {
  maker_address = o.maker_address;
  token_id = o.token_id;
  amount = print o.amount;
  price = print o.price;
  is_buy = o.is_buy;
  nonce = o.nonce;
}

-- The order of a request, or what is wrong with it.
unfoldable pub read_order : Option OrderRequest → Refusal ⊎ Order
unfolding parse
read_order none = inl invalid_json
read_order (some req) = elim (parse req.amount) [
  | none ↦ inl invalid_amount
  | some amount ↦ elim (parse req.price) [
    | none ↦ inl invalid_price
    | some price ↦
        if no_text req.circuit_signature
        then inl circuit_signature_required
        else inr (record {
          maker_address = req.maker_address;
          token_id = req.token_id;
          amount = amount;
          price = price;
          is_buy = req.is_buy;
          nonce = req.nonce;
          signature = req.signature;
          circuit_signature = req.circuit_signature;
        })
  ]
]

abbrev pub order_response : Outcome → Response (Unit {0})
order_response accepted = answered tt
order_response (rejected e) = refused (order_refused e)

unfoldable pub handle_order :
    (ℕ → ℕ) → (Order → Bool) → Method → Option OrderRequest → Handler (Unit {0})
unfolding allow read_order process_order
handle_order now verify m body = allow is_post m λ s.
    elim (read_order body) as (λ _. Response (Unit {0}) × Server) [
      | inl e ↦ (refused e, s)
      | inr order ↦
          let r = process_order now verify order s.engine in
          (order_response r.0, record s { engine = r.1 })
    ]

pub record OrderbookView : Type 0 where
  pub token_id : ℕ
  pub bids : List OrderView
  pub asks : List OrderView

-- The token of a query: 1 where it is not given.
unfoldable pub token_of : Bytes → Option ℕ
unfolding parse_uint
token_of q = if no_text q then some 1 else parse_uint 32 q

unfoldable pub handle_orderbook : Method → (token_id : Bytes) → Handler OrderbookView
unfolding allow token_of snapshot_orderbook order_to_view
handle_orderbook m q = allow is_get m λ s.
    elim (token_of q) as (λ _. Response OrderbookView × Server) [
      | none ↦ (refused invalid_token_id, s)
      | some token_id ↦
          let r = snapshot_orderbook token_id s.engine in
          (
            answered (record {
              token_id = token_id;
              bids = map order_to_view r.0;
              asks = map order_to_view r.1;
            }),
            record s { engine = r.2 },
          )
    ]
