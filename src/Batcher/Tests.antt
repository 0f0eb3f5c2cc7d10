-- ===== src/Batcher/Tests.antt =====
-- The first transition of a new batcher.
use nowa_zk.Base.{arith, true, false}
use nowa_zk.Base.Bytes.{codes}
use nowa_zk.Base.Int.{pos}
use nowa_zk.Types.{StateTransition}
use nowa_zk.Samples.{sample_hash, sample_parties, sample_db, sample_order}
use nowa_zk.Batcher.{new_batcher, add_transition}
use nowa_zk.Batcher.Sealing.{IsValid, new_batcher-IsValid, add_transition-IsValid}
use nowa_zk.Batcher.Chain.{IsChained, new_batcher-IsChained, add_transition-IsChained}
use nowa_zk.Sequencer.{trade_transition}

abbrev sample_transition : StateTransition
sample_transition =
    trade_transition sample_hash (sample_order false) (sample_order true) sample_parties (pos 40)
      (pos 400) sample_db

add_transition-IsValid_example :
    IsValid sample_hash
      (add_transition sample_hash sample_transition (codes "1") (codes "2") new_batcher)
unfolding new_batcher
add_transition-IsValid_example =
    add_transition-IsValid sample_hash sample_transition (codes "1") (codes "2") new_batcher
      (new_batcher-IsValid sample_hash) (omega arith)

add_transition-IsChained_example :
    IsChained
      (codes "2")
      (add_transition sample_hash sample_transition (codes "1") (codes "2") new_batcher)
add_transition-IsChained_example =
    add_transition-IsChained sample_hash sample_transition (codes "1") (codes "2") new_batcher
      (new_batcher-IsValid sample_hash) (new_batcher-IsChained (codes "1"))
