-- ===== src/Samples.antt =====
-- Concrete inputs that the tests of several parts share: a hash, two funded accounts and the world
-- of a sequencer that holds them.
use nowa_zk.Base.{ℕ, ◌+◌, ◌*◌, ◌%◌, ◌^◌, ◌<◌, List, [], ◌∷◌, arith, Bool}
use nowa_zk.Base.Int.{pos}
use nowa_zk.Mimc.{Mimc}
use nowa_zk.Types.{BalanceState, Order}
use nowa_zk.State.{Db, empty_db, set_balance}
use nowa_zk.State.Leaf.{IsInTree, IsSynced, empty_db-IsSynced, set_balance-IsSynced}
use nowa_zk.Batcher.{new_batcher}
use nowa_zk.Sequencer.{Parties, World}

-- A sum of the elements with weights, in place of MiMC.
abbrev pub weighted_sum : List ℕ → ℕ
weighted_sum [] = 7
weighted_sum (x ∷ xs) = 3 * weighted_sum xs + x

abbrev pub sample_hash : Mimc
sample_hash = record {
  modulus = 2 ^ 254;
  sum = λ xs. weighted_sum xs % 2 ^ 254;
  modulus_large = omega arith;
  sum_lt = λ xs. omega arith;
}

abbrev pub sample_account : ℕ → ℕ → ℕ → BalanceState
sample_account id token balance = record {
  account_id = id;
  token_id = token;
  pub_key_x = pos (10 * id);
  pub_key_y = pos (20 * id);
  balance = pos balance;
  nonce = 0;
}

abbrev pub sample_parties : Parties
sample_parties = record {
  seller_base = sample_account 3 2 500;
  seller_quote = sample_account 3 1 0;
  buyer_base = sample_account 4 2 100;
  buyer_quote = sample_account 4 1 9000;
}

abbrev pub sample_room : (id token : ℕ) → id < 2 ^ 20 → token < 256 → IsInTree id token
sample_room id token p q = record { account = p; token = q }

abbrev pub sample_db : Db
sample_db = set_balance sample_hash sample_parties.buyer_quote (
    set_balance sample_hash sample_parties.buyer_base (
      set_balance sample_hash sample_parties.seller_quote
        (set_balance sample_hash sample_parties.seller_base empty_db)))

pub sample_db-IsSynced : IsSynced sample_hash sample_db
sample_db-IsSynced =
    set_balance-IsSynced sample_hash _ _
      (set_balance-IsSynced sample_hash _ _
        (set_balance-IsSynced sample_hash _ _
          (set_balance-IsSynced sample_hash _ _ (empty_db-IsSynced sample_hash)
            (sample_room 3 2 (omega arith) (omega arith)))
          (sample_room 3 1 (omega arith) (omega arith)))
        (sample_room 4 2 (omega arith) (omega arith)))
      (sample_room 4 1 (omega arith) (omega arith))

abbrev pub sample_world : World
sample_world = record { db = sample_db; batcher = new_batcher }

abbrev pub sample_order : Bool → Order
sample_order is_buy = record {
  maker_address = [];
  token_id = 2;
  amount = pos 40;
  price = pos 10;
  is_buy = is_buy;
  nonce = 1;
  signature = [];
  circuit_signature = 1 ∷ [];
}
