-- ===== src/Indexer/Api/Tests.antt =====
-- Runs of the indexer's API on small stores whose first batches were cleaned up, and witnesses.
use nowa_zk.Base.{ℕ, suc, ◌+◌, ◌-◌, ◌^◌, ◌<◌, ◌≡◌, ◌⊎◌, refl, none, some, [], length, arith}
use nowa_zk.Base.Bytes.{codes, eqb}
use nowa_zk.Base.Bytes.Decimal.{print_ℕ, parse_ℕ}
use nowa_zk.Base.Int.{pos, negsuc}
use nowa_zk.Storage.{after_prefix}
use nowa_zk.Storage.Memory.{memory, memory_laws, lookup, remove, keys_of}
use nowa_zk.ProverApi.{sent, bad_request, not_found}
use nowa_zk.Indexer.Store.{
  Batch, BatchCodecs, BatchStore, save_batch, get_batch, get_latest_batch, get_all_batches,
  cleanup_old_batches, delete_range, delete_batch, get_last_deleted_batch, set_last_deleted_batch,
  read_mark, little_endian, from_little_endian, new_batch_store, load_keys, put,
}
use nowa_zk.Indexer.Service.{Config, Service, start, init_starting_block, clear_all_data}
use nowa_zk.Indexer.Runs.{ethereum, config}
use nowa_zk.Indexer.Api.{BatchRange, reply_of, handle_status, handle_latest_batch, handle_get_batch}
use nowa_zk.Indexer.Api.Window.{Runs, fresh, saved, cleaned}
use nowa_zk.Indexer.Api.Served.{IsAnswered, IsRefused, status-IsAnswered}
use nowa_zk.Indexer.Api.Reset.{reset_keeps_mark}

abbrev batch : ℕ → Batch
batch n = record {
  number = n;
  hash = [];
  transactions = [];
  old_state_root = [];
  new_state_root = [];
  timestamp = 0;
  status = codes "pending";
  traces = [];
  trades = [];
}

-- The codec of the tests writes the number of a batch only.
abbrev test_codecs : BatchCodecs
test_codecs = record {
  batches = record {
    marshal = λ b. print_ℕ b.number;
    unmarshal = λ s. elim (parse_ℕ s) [ none ↦ none | some n ↦ some (batch n) ];
  };
  metas = record { marshal = λ m. print_ℕ m.number; unmarshal = λ s. none };
}

abbrev TestStore : Type 0
TestStore = BatchStore memory test_codecs

abbrev empty_store : TestStore
empty_store = record { db = []; batches = λ n. none; count = 0 }

abbrev first_two : TestStore
first_two =
    save_batch memory test_codecs (batch 2) (save_batch memory test_codecs (batch 1) empty_store)

-- Batch 2 is proved, so batch 1 is deleted.
abbrev trimmed : TestStore
trimmed = cleanup_old_batches memory test_codecs (some 2) first_two

trimmed_status : handle_status memory test_codecs trimmed ≡ record {
  batch_count = 2;
  range = some (record { oldest = 2; newest = 2; total_in_db = 1; last_deleted = some 1 });
}
unfolding handle_status cleanup_old_batches save_batch delete_range delete_batch
    get_last_deleted_batch set_last_deleted_batch read_mark little_endian from_little_endian lookup
    remove eqb print_ℕ
trimmed_status = refl

trimmed_latest : handle_latest_batch memory test_codecs trimmed ≡ sent (batch 2)
unfolding handle_latest_batch get_latest_batch cleanup_old_batches save_batch delete_range
    delete_batch get_last_deleted_batch set_last_deleted_batch read_mark little_endian lookup remove
    eqb print_ℕ
trimmed_latest = refl

trimmed_one : (handle_get_batch memory test_codecs (some (pos 1)) trimmed).0 ≡ not_found
unfolding handle_get_batch get_batch cleanup_old_batches save_batch delete_range delete_batch
    get_last_deleted_batch set_last_deleted_batch read_mark little_endian lookup remove eqb print_ℕ
trimmed_one = refl

-- -1 is read as 2^64 - 1.
trimmed_negative : (handle_get_batch memory test_codecs (some (negsuc 0)) trimmed).0 ≡ not_found
unfolding handle_get_batch get_batch cleanup_old_batches save_batch delete_range delete_batch
    get_last_deleted_batch set_last_deleted_batch read_mark little_endian lookup remove eqb print_ℕ
trimmed_negative = refl

large_number : (handle_get_batch memory test_codecs (some (pos (2 ^ 63))) trimmed).0 ≡ bad_request
unfolding handle_get_batch
large_number = refl

no_number : (handle_get_batch memory test_codecs none trimmed).0 ≡ bad_request
unfolding handle_get_batch
no_number = refl

undeleted_one :
    get_last_deleted_batch memory test_codecs (save_batch memory test_codecs (batch 1) empty_store)
    ≡ 0
unfolding get_last_deleted_batch save_batch read_mark lookup remove eqb print_ℕ
undeleted_one = refl

counted_one : (save_batch memory test_codecs (batch 1) empty_store).count ≡ 1
unfolding save_batch
counted_one = refl

counted_two : first_two.count ≡ 2
unfolding save_batch
counted_two = refl

undeleted : get_last_deleted_batch memory test_codecs empty_store ≡ 0
unfolding get_last_deleted_batch read_mark lookup
undeleted = refl

fresh_runs : Runs memory test_codecs empty_store
unfolding lookup
fresh_runs = fresh [] (λ n. refl) refl

trimmed_runs : Runs memory test_codecs trimmed
trimmed_runs =
    cleaned
      (saved (saved fresh_runs (batch 1) (omega (arith, undeleted)) (omega arith) (omega arith))
        (batch 2) (omega (arith, undeleted_one)) (omega (arith, counted_one)) (omega arith))
      2 (omega (arith, counted_two))

status-IsAnswered_example :
    (handle_latest_batch memory test_codecs trimmed
      ≡ reply_of (get_batch memory test_codecs trimmed.count trimmed).0)
    × (IsRefused memory test_codecs 2 trimmed
        ⊎ ((2 < 2 ^ 63)
            × ((((handle_status memory test_codecs trimmed).range ≡ none)
                  × (handle_get_batch memory test_codecs (some (pos 2)) trimmed
                      ≡ (not_found, trimmed)))
                ⊎ ((r : BatchRange) × ((handle_status memory test_codecs trimmed).range ≡ some r)
                    × (r.newest ≡ (handle_status memory test_codecs trimmed).batch_count)
                    × (r.total_in_db ≡ length (get_all_batches memory test_codecs trimmed))
                    × IsAnswered memory test_codecs r.oldest r.newest 2 trimmed))))
status-IsAnswered_example = status-IsAnswered memory test_codecs memory_laws trimmed 2 trimmed_runs

-- Three batches of which the third is proved, so the first two are deleted.
abbrev one_left : TestStore
one_left =
    cleanup_old_batches memory test_codecs (some 3)
      (save_batch memory test_codecs (batch 3) first_two)

-- The store that a restart loads.
abbrev reloaded : TestStore
reloaded = record { db = one_left.db; batches = put 3 (some (batch 3)) (λ n. none); count = 3 }

one_left_loads : new_batch_store memory test_codecs one_left.db ≡ some reloaded
unfolding new_batch_store load_keys cleanup_old_batches save_batch delete_range delete_batch
    get_last_deleted_batch set_last_deleted_batch read_mark little_endian lookup remove keys_of
    after_prefix eqb print_ℕ parse_ℕ
one_left_loads = refl

reloaded_mark : get_last_deleted_batch memory test_codecs reloaded ≡ 2
unfolding cleanup_old_batches save_batch delete_range delete_batch get_last_deleted_batch
    set_last_deleted_batch read_mark little_endian from_little_endian lookup remove eqb print_ℕ
reloaded_mark = refl

-- Indexing begins with block 5.
abbrev late : Config
late = record config { index_from_block = 5 }

reset_keeps_mark_example :
    (db' : memory.Db) × (s : Service memory test_codecs ethereum late) × (r : BatchRange)
    × (clear_all_data memory test_codecs ethereum late one_left.db ≡ some db')
    × (start memory test_codecs ethereum late db' ≡ some s)
    × (s.batch_builder.batch_num ≡ 1)
    × (let started = init_starting_block memory test_codecs ethereum late s.batches in
        let st' = save_batch memory test_codecs (batch 1) started.1 in
        (started.0 ≡ late.index_from_block - 1)
        × ((handle_status memory test_codecs st').range ≡ some r)
        × (r.oldest ≡ suc 2)
        × (r.newest ≡ 1)
        × (r.total_in_db ≡ 2 ^ 64 + 1 - 2)
        × ((handle_get_batch memory test_codecs (some (pos 1)) st').0 ≡ sent (batch 1))
        × (cleanup_old_batches memory test_codecs (some 1) st' ≡ st'))
reset_keeps_mark_example =
    reset_keeps_mark memory test_codecs memory_laws ethereum late one_left.db reloaded 2 1 (batch 1)
      one_left_loads reloaded_mark (omega arith) (omega arith) (omega arith) refl
