-- ===== src/Circuit/Assign.antt =====
-- prover/cmd/prover/start.go, `generateProof`: the assignment of a batch to the circuit's
-- variables. A text that is no number leaves a nil, which `frontend.NewWitness` refuses: `none`.
use nowa_zk.Base.{
  ℕ, zero, suc, ◌+◌, ◌*◌, ◌==◌, ◌||◌, if◌then◌else◌, Bool, true, false, Option, none, some, List,
  [], ◌∷◌, length,
}
use nowa_zk.Base.Bytes.{Bytes, trim_0x, nibble, hex_decode}
use nowa_zk.Base.Bytes.Decimal.{parse, negate}
use nowa_zk.Base.Int.{ℤ, pos}
use nowa_zk.Base.Options.{◌>>=◌}
use nowa_zk.Mimc.{Mimc, fr}
use nowa_zk.Types.{StateUpdate, StateTransition, ZkBatch}
use nowa_zk.Circuit.Frontend.{PublicKey, Signature, Eddsa}
use nowa_zk.Circuit.{Update, Operation, StateTransitionCircuit, batch_size}

-- `boolToVar`
abbrev pub bool_to_var : Bool → ℕ
bool_to_var true = 1
bool_to_var false = 0

-- `SetString(s, 16)`
unfoldable pub parse_nibbles : ℕ → Bytes → Option ℕ
parse_nibbles acc [] = some acc
parse_nibbles acc (c ∷ s) = do d ← nibble c; parse_nibbles (acc * 16 + d) s

abbrev pub parse_hex_digits : Bytes → Option ℕ
parse_hex_digits [] = none
parse_hex_digits (c ∷ s) = parse_nibbles 0 (c ∷ s)

unfoldable pub parse_hex : Bytes → Option ℤ
unfolding parse_nibbles
parse_hex [] = none
parse_hex (c ∷ s) =
    if c == b'-'
    then (parse_hex_digits s >>= λ n. some (negate n))
    else (if c == b'+'
        then (parse_hex_digits s >>= λ n. some (pos n))
        else (parse_hex_digits (c ∷ s) >>= λ n. some (pos n)))

module _ (h : Mimc) (eddsa : Eddsa) where
  -- A text that is put into a variable.
  abbrev pub assign_text : Bytes → Option ℕ
  assign_text text = do z ← parse text; some (fr h z)

  unfoldable pub assign_texts : List Bytes → Option (List ℕ)
  unfolding parse fr
  assign_texts [] = some []
  assign_texts (text ∷ texts) = do v ← assign_text text; vs ← assign_texts texts; some (v ∷ vs)

  -- The bits of a path are numbers already.
  unfoldable pub assign_numbers : List ℕ → List ℕ
  unfolding fr
  assign_numbers [] = []
  assign_numbers (n ∷ ns) = fr h (pos n) ∷ assign_numbers ns

  -- The five lines of a leg, with `assignPath`.
  unfoldable pub assign_update : StateUpdate → Option Update
  unfolding assign_texts assign_numbers parse fr
  assign_update u = do
    balance ← assign_text u.balance
    path ← assign_texts u.path
    some (record {
      index = fr h (pos u.index);
      balance = balance;
      nonce = fr h (pos u.nonce);
      is_genesis = bool_to_var u.is_genesis;
      path = path;
      path_bits = assign_numbers u.path_bits;
    })

  abbrev pub no_sig : Signature
  no_sig = record { r_x = 0; r_y = 0; s = 0 }

  -- `assignEdDSASig`, and zeros on an error.
  unfoldable pub assign_sig : Bytes → Signature
  assign_sig text = elim (hex_decode (trim_0x text)) [
    | none ↦ no_sig
    | some bytes ↦
        if (length bytes == 64) || (length bytes == 96) then eddsa.assign_sig bytes else no_sig
  ]

  abbrev pub assign_key : Bytes → Bytes → Option PublicKey
  assign_key x_text y_text = do
    x ← assign_text x_text
    y ← assign_text y_text
    some (record { x = x; y = y })

  -- One `circuit.Ops[i]`
  unfoldable pub assign_operation : StateTransition → Option Operation
  unfolding assign_update assign_sig parse fr
  assign_operation t = do
    amount ← assign_text t.amount
    quote_amount ← assign_text t.quote_amount
    maker_key ← assign_key t.maker_pub_key_x t.maker_pub_key_y
    maker_base ← assign_update t.maker_base
    maker_quote ← assign_update t.maker_quote
    taker_key ← assign_key t.taker_pub_key_x t.taker_pub_key_y
    taker_base ← assign_update t.taker_base
    taker_quote ← assign_update t.taker_quote
    some (record {
      op_type = fr h (pos t.op_type);
      amount = amount;
      quote_amount = quote_amount;
      maker_pub_key = maker_key;
      maker_sig = assign_sig t.maker_sig;
      maker_base = maker_base;
      maker_quote = maker_quote;
      taker_pub_key = taker_key;
      taker_sig = assign_sig t.taker_sig;
      taker_base = taker_base;
      taker_quote = taker_quote;
    })

  -- The loop over `BatchSize`: where the batch is too short its last transition is taken again; an
  -- empty batch is an index out of range.
  unfoldable pub assign_operations :
      ℕ → StateTransition → List StateTransition → Option (List Operation)
  unfolding assign_operation
  assign_operations zero last ts = some []
  assign_operations (suc n) last [] = do
    op ← assign_operation last
    ops ← assign_operations n last []
    some (op ∷ ops)
  assign_operations (suc n) last (t ∷ ts) = do
    op ← assign_operation t
    ops ← assign_operations n t ts
    some (op ∷ ops)

  abbrev pub assign_all : List StateTransition → Option (List Operation)
  assign_all [] = none
  assign_all (t ∷ ts) = assign_operations batch_size t (t ∷ ts)

  -- A root: decimal, or else hexadecimal.
  abbrev pub assign_root : Bytes → Option ℕ
  assign_root text = elim (parse text) [
    | some z ↦ some (fr h z)
    | none ↦ elim (parse_hex (trim_0x text)) [ none ↦ none | some z ↦ some (fr h z) ]
  ]

  -- A hash that is no number is 0.
  abbrev pub assign_hash : Bytes → ℕ
  assign_hash text = elim (parse text) [ none ↦ fr h (pos 0) | some z ↦ fr h z ]

  -- The assignment in `generateProof`
  unfoldable pub assign_batch : ZkBatch → Option StateTransitionCircuit
  unfolding assign_operations parse parse_hex fr
  assign_batch b = do
    old_root ← assign_root b.old_root
    new_root ← assign_root b.new_root
    ops ← assign_all b.transitions
    some (record {
      old_root = old_root;
      new_root = new_root;
      withdrawal_hash = assign_hash b.withdrawal_hash;
      deposit_hash = assign_hash b.deposit_hash;
      ops = ops;
    })
