-- ===== src/Replay/Tests.antt =====
-- A published trade replayed on the database that it was made from.
use nowa_zk.Base.{◌≡◌, refl, arith, true, false}
use nowa_zk.Base.Int.{pos}
use nowa_zk.Samples.{sample_hash, sample_parties, sample_db, sample_order, sample_room}
use nowa_zk.Sequencer.{trade_transition, after_buyer_quote}
use nowa_zk.Replay.{replay_transition}
use nowa_zk.Replay.Mint.{replay_transition-deposit}
use nowa_zk.Sequencer.Deposits.{DepositEvent, deposit_transition, pre_image, credit_deposit}
use nowa_zk.State.{get_balance, set_balance, leaf_index}
use nowa_zk.Samples.{sample_world}
use nowa_zk.Base.Int.{int_laws}
use nowa_zk.Replay.Trades.{IsReplayable, replay_transition-trade}

sample-IsReplayable : IsReplayable sample_parties (pos 40) (pos 400)
sample-IsReplayable = record {
  seller_base = record { room = sample_room 3 2 (omega arith) (omega arith); nonce = omega arith };
  seller_quote = record { room = sample_room 3 1 (omega arith) (omega arith); nonce = omega arith };
  buyer_base = record { room = sample_room 4 2 (omega arith) (omega arith); nonce = omega arith };
  buyer_quote = record { room = sample_room 4 1 (omega arith) (omega arith); nonce = omega arith };
  seller_x = refl;
  seller_y = refl;
  buyer_x = refl;
  buyer_y = refl;
  amount_nonneg = omega arith;
  quote_nonneg = omega arith;
  seller_nonneg = omega arith;
  buyer_nonneg = omega arith;
  seller_covered = omega arith;
  buyer_covered = omega arith;
}

replay_transition-trade_example :
    replay_transition sample_hash
      (trade_transition sample_hash
        (sample_order false)
        (sample_order true)
        sample_parties
        (pos 40)
        (pos 400)
        sample_db)
      sample_db
    ≡ (true, after_buyer_quote sample_hash sample_parties (pos 40) (pos 400) sample_db)
replay_transition-trade_example =
    replay_transition-trade sample_hash (sample_order false) (sample_order true) sample_parties
      (pos 40) (pos 400) sample_db sample-IsReplayable sample_db

abbrev sample_event : DepositEvent
sample_event = record { token_id = 2; pub_key_x = pos 30; pub_key_y = pos 60; amount = pos 77 }

replay_transition-deposit_example :
    replay_transition sample_hash
      (deposit_transition sample_hash sample_db
        (pos 77)
        (pos 30)
        (pos 60)
        (pre_image sample_hash sample_db (leaf_index 3 2) (get_balance 3 2 sample_db)))
      sample_db
    ≡ (true, (credit_deposit sample_hash sample_event 3 sample_db sample_world).db)
unfolding set_balance
replay_transition-deposit_example =
    replay_transition-deposit sample_hash sample_db sample_event 3 sample_db sample_world (record {
      leaf = record { room = sample_room 3 2 (omega arith) (omega arith); nonce = omega arith };
      same_id = refl;
      same_token = refl;
      key_x = refl;
      key_y = refl;
      nonneg = omega int_laws;
    })
