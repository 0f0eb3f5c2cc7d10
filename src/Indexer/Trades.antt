-- ===== src/Indexer/Trades.antt =====
-- indexer/internal/indexer/abi_parser.go: the trades in the data of a transaction. go-ethereum's
-- ABI, EIP-712 and secp256k1 are a parameter.
use nowa_zk.Base.{
  ℕ, ◌-◌, Bool, ◌&&◌, Option, none, some, List, [], ◌∷◌, ◌++◌, length, take, drop, ltb, leb, ◌==◌,
  if◌then◌else◌,
}
use nowa_zk.Base.Bytes.{Bytes, codes, hex_decode, hex_encode}
use nowa_zk.Base.Bytes.Decimal.{print_ℕ, print}
use nowa_zk.Base.Int.{ℤ}
use nowa_zk.Indexer.Store.{ParsedTrade}

pub record Order : Type 0 where
  pub user_address : Bytes
  pub base_token : Bytes
  pub quote_token : Bytes
  pub amount : ℕ
  pub is_amount_in_quote : Bool
  pub nonce : ℤ
  pub order_type : ℕ
  pub side : ℕ
  pub limit_price : ℕ
  pub stop_price : ℕ
  pub time_in_force : ℕ
  pub cancel_after : ℕ
  pub wallet_signature : Bytes
  pub balance_snapshot : ℕ
  pub allowance_snapshot : ℕ

-- A value of the map that is hashed.
pub data Field : Type 0 where
  text : Bytes → Field
  flag : Bool → Field

pub record PubKey : Type 0 where
  -- `X.Bytes()` and `Y.Bytes()`
  pub x : Bytes
  pub y : Bytes
  -- `PubkeyToAddress(...).Hex()`
  pub address : Bytes

pub record Ethereum : Type 0 where
  -- `MethodById` and `Unpack` for the ABI of the order book, and the JSON of `mapToStruct`: the
  -- buys and the sells.
  pub unpack : (selector args : Bytes) → Option (List Order × List Order)
  -- `HashStruct` of the domain and of the message
  pub domain_separator : Option Bytes
  pub hash_struct : List (Bytes × Field) → Option Bytes
  pub keccak256 : Bytes → Bytes
  -- `Ecrecover` and `UnmarshalPubkey`
  pub ecrecover : (hash sig : Bytes) → Option Bytes
  pub unmarshal_pubkey : Bytes → Option PubKey

abbrev pub strip_0x : Bytes → Bytes
strip_0x (a ∷ b ∷ s) = if (a == 48) && (b == 120) then s else a ∷ b ∷ s
strip_0x s = s

-- `fmt.Sprintf("0x%x", address)`
abbrev pub hex_address : Bytes → Field
hex_address a = text (codes "0x" ++ hex_encode a)

abbrev pub number : ℕ → Field
number n = text (print_ℕ n)

-- The message, in the order of the type's fields.
unfoldable pub message : Order → List (Bytes × Field)
unfolding hex_encode print_ℕ print
message o =
    (codes "userAddress", hex_address o.user_address)
    ∷ (codes "baseToken", hex_address o.base_token)
    ∷ (codes "quoteToken", hex_address o.quote_token)
    ∷ (codes "amount", number o.amount)
    ∷ (codes "isAmountInQuote", flag o.is_amount_in_quote)
    ∷ (codes "nonce", text (print o.nonce))
    ∷ (codes "orderType", number o.order_type)
    ∷ (codes "side", number o.side)
    ∷ (codes "limitPrice", number o.limit_price)
    ∷ (codes "stopPrice", number o.stop_price)
    ∷ (codes "timeInForce", number o.time_in_force)
    ∷ (codes "cancelAfter", number o.cancel_after)
    ∷ (codes "balanceSnapshot", number o.balance_snapshot)
    ∷ (codes "allowanceSnapshot", number o.allowance_snapshot)
    ∷ []

-- `if sig[64] >= 27 { sig[64] -= 27 }`, for a signature of 65 bytes or more
unfoldable pub normal_signature : Bytes → Bytes
normal_signature sig = elim (drop 64 sig) [
  | [] ↦ sig
  | v ∷ rest ↦ take 64 sig ++ (if leb 27 v then v - 27 else v) ∷ rest
]

module _ (eth : Ethereum) where
  unfoldable pub message_hash_of : Order → Option Bytes
  unfolding message
  message_hash_of o = elim eth.domain_separator [
    | none ↦ none
    | some separator ↦ elim (eth.hash_struct (message o)) [
      | none ↦ none
      | some h ↦ some (eth.keccak256 (25 ∷ 1 ∷ separator ++ h))
    ]
  ]

  abbrev pub trade_of : Bytes → Bytes → PubKey → ParsedTrade
  trade_of hash sig key = record {
    message_hash = hex_encode hash;
    pub_key_x = hex_encode key.x;
    pub_key_y = hex_encode key.y;
    sig_r = hex_encode (take 32 sig);
    sig_s = hex_encode (take 32 (drop 32 sig));
    signer_address = key.address;
  }

  unfoldable pub recover : Bytes → Bytes → Option ParsedTrade
  unfolding hex_encode
  recover hash sig = elim (eth.ecrecover hash sig) [
    | none ↦ none
    | some bytes ↦ elim (eth.unmarshal_pubkey bytes) [
      | none ↦ none
      | some key ↦ some (trade_of hash sig key)
    ]
  ]

  unfoldable pub extract_trade : Order → Option ParsedTrade
  unfolding message_hash_of recover normal_signature
  extract_trade o = elim (message_hash_of o) [
    | none ↦ none
    | some hash ↦
        if ltb (length o.wallet_signature) 65
        then none
        else recover hash (normal_signature o.wallet_signature)
  ]

  -- The loop over orders: one that fails is passed over.
  unfoldable pub extract_trades : List Order → List ParsedTrade
  unfolding extract_trade
  extract_trades [] = []
  extract_trades (o ∷ os) =
      let rest = extract_trades os in elim (extract_trade o) [ none ↦ rest | some t ↦ t ∷ rest ]

  unfoldable pub parse_trades_from_tx_data : Bytes → Option (List ParsedTrade)
  unfolding hex_decode extract_trades
  parse_trades_from_tx_data tx_data = elim (hex_decode (strip_0x tx_data)) [
    | none ↦ none
    | some bytes ↦
        if ltb (length bytes) 4 then none else elim (eth.unpack (take 4 bytes) (drop 4 bytes)) [
          | none ↦ none
          | some orders ↦ some (extract_trades orders.0 ++ extract_trades orders.1)
        ]
  ]
