-- ===== src/Sequencer/Tests.antt =====
-- The theorems about trades and deposits at inputs that meet their hypotheses.
use nowa_zk.Base.{◌≡◌, refl, some, [], ◌∷◌, arith, ◌⊎◌, true, false}
use nowa_zk.Base.Bytes.{codes, hex_encode}
use nowa_zk.Base.Bytes.Decimal.{print}
use nowa_zk.Base.Int.{pos, ◌<ℤ◌}
use nowa_zk.Samples.{
  sample_hash, sample_parties, sample_db, sample_db-IsSynced, sample_world, sample_order,
  sample_room,
}
use nowa_zk.State.{db_root, get_balance, get_account_id, set_balance}
use nowa_zk.State.Leaf.{IsSynced}
use nowa_zk.Batcher.{new_batcher}
use nowa_zk.Batcher.Sealing.{IsValid, new_batcher-IsValid}
use nowa_zk.Batcher.Chain.{IsChained, new_batcher-IsChained}
use nowa_zk.Sequencer.{Points, applied, skipped, settle, credit, debit}
use nowa_zk.Sequencer.SelfTrade.{same_party, self_trade_mints}
use nowa_zk.Sequencer.Settle.{IsDistinct, HasRoom, IsTraded, settle_outcome, settle-IsSound}
use nowa_zk.Sequencer.Deposits.{DepositEvent, or_new_account, process_deposit}
use nowa_zk.Sequencer.Deposits.Sound.{IsSound, process_deposit-IsSound}

sample-IsDistinct : IsDistinct sample_parties
sample-IsDistinct = record {
  seller_ids = refl;
  buyer_ids = refl;
  base_ids = refl;
  quote_ids = refl;
  accounts = λ e. absurd (omega arith);
  tokens = λ e. absurd (omega arith);
}

sample-HasRoom : HasRoom sample_parties
sample-HasRoom = record {
  seller_base = sample_room 3 2 (omega arith) (omega arith);
  seller_quote = sample_room 3 1 (omega arith) (omega arith);
  buyer_base = sample_room 4 2 (omega arith) (omega arith);
  buyer_quote = sample_room 4 1 (omega arith) (omega arith);
}

-- The trade of 40 at 10 is applied.
sample_applied :
    (settle sample_hash
      (sample_order false)
      (sample_order true)
      sample_parties
      (pos 40)
      (pos 400)
      sample_world).0
    ≡ applied
unfolding settle
sample_applied = refl

settle_outcome_example :
    let (done, w') =
      settle sample_hash
        (sample_order false)
        (sample_order true)
        sample_parties
        (pos 40)
        (pos 400)
        sample_world in
    ((pos 500 <ℤ pos 40) ⊎ (pos 9000 <ℤ pos 400)) × (done ≡ skipped) × (w' ≡ sample_world)
    ⊎ (done ≡ applied) × IsTraded sample_parties (pos 40) (pos 400) sample_db w'.db
settle_outcome_example =
    settle_outcome sample_hash (sample_order false) (sample_order true) sample_parties (pos 40)
      (pos 400) sample_world sample-IsDistinct

settle-IsSound_example :
    let w' =
      (settle sample_hash
        (sample_order false)
        (sample_order true)
        sample_parties
        (pos 40)
        (pos 400)
        sample_world).1 in
    IsSynced sample_hash w'.db
    × IsValid sample_hash w'.batcher
    × IsChained (print (pos (db_root sample_hash w'.db))) w'.batcher
unfolding new_batcher
settle-IsSound_example =
    settle-IsSound sample_hash (sample_order false) (sample_order true) sample_parties (pos 40)
      (pos 400) sample_world sample-HasRoom sample_db-IsSynced (new_batcher-IsValid sample_hash)
      (omega arith) (new_batcher-IsChained (print (pos (db_root sample_hash sample_db))))

-- A library of points that takes any bytes for the point of their first one.
abbrev any_points : Points
any_points = record {
  set_bytes = λ s. some (pos 1, pos 2);
  compress = λ x y. some (171 ∷ 205 ∷ []);
}

abbrev sample_event : DepositEvent
sample_event = record { token_id = 2; pub_key_x = pos 1; pub_key_y = pos 2; amount = pos 77 }

sample-IsSound : IsSound sample_hash sample_world
sample-IsSound = record {
  synced = sample_db-IsSynced;
  batches = new_batcher-IsValid sample_hash;
  chained = new_batcher-IsChained (print (pos (db_root sample_hash sample_db)));
}

process_deposit-IsSound_example :
    let w' = process_deposit sample_hash any_points sample_event sample_world in
    IsSound sample_hash w'
    × (get_balance 0 2 w'.db
        ≡ some (credit (or_new_account sample_event 0 (get_balance 0 2 sample_db)) (pos 77)))
unfolding hex_encode get_account_id set_balance new_batcher
process_deposit-IsSound_example =
    process_deposit-IsSound sample_hash any_points sample_event (codes "0xabcd") sample_world
      sample-IsSound refl (sample_room 0 2 (omega arith) (omega arith)) (omega arith)

self_trade_mints_example :
    let (done, w') =
      settle sample_hash
        (sample_order false)
        (sample_order true)
        (same_party sample_parties.buyer_base sample_parties.buyer_quote)
        (pos 40)
        (pos 400)
        sample_world in
    (done ≡ applied)
    × (get_balance 4 2 w'.db ≡ some (credit sample_parties.buyer_base (pos 40)))
    × (get_balance 4 1 w'.db ≡ some (debit sample_parties.buyer_quote (pos 400)))
self_trade_mints_example =
    self_trade_mints sample_hash (sample_order false) (sample_order true) sample_parties.buyer_base
      sample_parties.buyer_quote (pos 40) (pos 400) sample_world refl (λ e. absurd (omega arith))
      refl refl
