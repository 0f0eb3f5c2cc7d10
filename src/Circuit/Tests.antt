-- ===== src/Circuit/Tests.antt =====
-- The sample trade in the circuit, with arithmetic modulo 2 ^ 254 and a check that takes every
-- signature.
use nowa_zk.Base.{
  ℕ, ◌+◌, ◌-◌, ◌*◌, ◌%◌, ◌^◌, ◌<◌, ◌≡◌, refl, ◌==◌, leb, ltb, if◌then◌else◌, Option, none, some,
  true, false, arith,
}
use nowa_zk.Base.Options.{◌>>=◌}
use nowa_zk.Base.Int.{pos}
use nowa_zk.Types.{BalanceState}
use nowa_zk.Samples.{
  sample_hash, sample_parties, sample_db, sample_db-IsSynced, sample_order, sample_room,
}
use nowa_zk.State.{db_root, set_balance, get_balance}
use nowa_zk.State.Leaf.{IsInTree}
use nowa_zk.Sequencer.{trade_transition, after_buyer_quote}
use nowa_zk.Sequencer.Settle.{IsDistinct}
use nowa_zk.Circuit.Frontend.{Api, Eddsa}
use nowa_zk.Circuit.{Acc, process_operation}
use nowa_zk.Circuit.Assign.{assign_operation}
use nowa_zk.Circuit.Trade.{IsFunded, IsProvable}
use nowa_zk.Circuit.Settled.{process_operation-trade}
use nowa_zk.Circuit.Minted.{process_operation-deposit}
use nowa_zk.Sequencer.{credit}
use nowa_zk.Sequencer.Deposits.{new_account, deposit_transition, genesis_update}
use nowa_zk.State.{leaf_index}
use nowa_zk.Base.{[], ◌∷◌}

abbrev select_bit : ℕ → ℕ → ℕ → Option ℕ
select_bit b x y = if b == 1 then some x else (if b == 0 then some y else none)

sample_api : Api sample_hash
sample_api = record {
  add = λ a b. (a + b) % 2 ^ 254;
  sub = λ a b. (a + 2 ^ 254 - b) % 2 ^ 254;
  mul = λ a b. (a * b) % 2 ^ 254;
  or = λ a b. if a == 0 then b else 1;
  is_zero = λ a. if a == 0 then 1 else 0;
  select = select_bit;
  assert_is_equal = λ a b. a == b;
  assert_is_boolean = λ a. leb a 1;
  assert_is_less_or_equal = leb;
  to_binary = λ v n. ltb v (2 ^ n);
  add_exact = λ a b lt. omega arith;
  sub_exact = λ a b le lt. omega arith;
  sub_differs = λ a b p q n e. n (omega arith);
  mul_exact = λ a b lt. omega arith;
  or_left = λ b le. refl;
  or_right = λ b le. refl;
  is_zero_zero = refl;
  is_zero_other = λ a n. ground arith;
  select_one = λ x y. refl;
  select_zero = λ x y. refl;
  equal_self = λ a. ground arith;
  boolean_bit = λ a le. ground arith;
  less_or_equal = λ a b le lt. ground arith;
  fits = λ v n lt lt'. ground arith;
}

abbrev sample_eddsa : Eddsa
sample_eddsa = record {
  verify = λ s m k. true;
  assign_sig = λ bytes. record { r_x = 1; r_y = 2; s = 3 };
}

sample-IsDistinct : IsDistinct sample_parties
sample-IsDistinct = record {
  seller_ids = refl;
  buyer_ids = refl;
  base_ids = refl;
  quote_ids = refl;
  accounts = λ e. absurd (omega arith);
  tokens = λ e. absurd (omega arith);
}

sample-IsFunded :
    (acc : BalanceState) (n : ℕ)
    → IsInTree acc.account_id acc.token_id
    → get_balance acc.account_id acc.token_id sample_db ≡ some acc
    → acc.balance ≡ pos n
    → n < 2 ^ 252
    → acc.nonce < 2 ^ 64
    → IsFunded sample_hash sample_db acc n
sample-IsFunded acc n r e f lt lt' = record {
  stored = record { synced = sample_db-IsSynced; room = r; held = e };
  amount = f;
  bound = lt;
  nonce = lt';
}

sample-IsProvable :
    IsProvable sample_hash sample_api sample_eddsa
      (sample_order false)
      (sample_order true)
      sample_parties
      40
      400
      sample_db
unfolding set_balance
sample-IsProvable = record {
  distinct = sample-IsDistinct;
  seller_base = 500;
  seller_quote = 0;
  buyer_base = 100;
  buyer_quote = 9000;
  seller_base_in =
      sample-IsFunded sample_parties.seller_base 500 (sample_room 3 2 (omega arith) (omega arith))
        refl refl (omega arith) (omega arith);
  seller_quote_in =
      sample-IsFunded sample_parties.seller_quote 0 (sample_room 3 1 (omega arith) (omega arith))
        refl refl (omega arith) (omega arith);
  buyer_base_in =
      sample-IsFunded sample_parties.buyer_base 100 (sample_room 4 2 (omega arith) (omega arith))
        refl refl (omega arith) (omega arith);
  buyer_quote_in =
      sample-IsFunded sample_parties.buyer_quote 9000 (sample_room 4 1 (omega arith) (omega arith))
        refl refl (omega arith) (omega arith);
  seller_key = refl;
  buyer_key = refl;
  amount_small = omega arith;
  quote_small = omega arith;
  seller_covered = omega arith;
  buyer_covered = omega arith;
  seller_signed = refl;
  buyer_signed = refl;
}

abbrev start : Acc
start = record { root = db_root sample_hash sample_db; withdrawal_hash = 0; deposit_hash = 0 }

process_operation-trade_example :
    (assign_operation sample_hash sample_eddsa (
        trade_transition sample_hash
          (sample_order false)
          (sample_order true)
          sample_parties
          (pos 40)
          (pos 400)
          sample_db)
      >>= λ op. process_operation sample_hash sample_api sample_eddsa op start)
    ≡ some (record start {
      root =
          db_root sample_hash
            (after_buyer_quote sample_hash sample_parties (pos 40) (pos 400) sample_db);
    })
process_operation-trade_example =
    process_operation-trade sample_hash sample_api sample_eddsa (sample_order false)
      (sample_order true) sample_parties 40 400 sample_db sample-IsProvable start refl

process_operation-deposit_example :
    let after =
      set_balance sample_hash (credit (new_account 7 2 (pos 70) (pos 140)) (pos 77)) sample_db in
    (assign_operation sample_hash sample_eddsa (
        deposit_transition sample_hash after
          (pos 77)
          (pos 70)
          (pos 140)
          (genesis_update sample_hash sample_db (leaf_index 7 2)))
      >>= λ op. process_operation sample_hash sample_api sample_eddsa op start)
    ≡ some (record start {
      root = db_root sample_hash after;
      deposit_hash = sample_hash.sum (0 ∷ leaf_index 7 2 ∷ 77 ∷ []);
    })
unfolding set_balance
process_operation-deposit_example =
    process_operation-deposit sample_hash sample_api sample_eddsa refl sample_db 7 2 (pos 70)
      (pos 140) 77 sample_db-IsSynced (sample_room 7 2 (omega arith) (omega arith)) refl
      (omega arith) start refl
