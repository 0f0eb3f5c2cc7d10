-- ===== src/ProverApi/Tests.antt =====
-- The handlers on the store of three proofs of Storage/Tests, and a witness.
use nowa_zk.Base.{◌*◌, ◌≡◌, refl, take, arith}
use nowa_zk.Base.Bytes.{codes, hex_encode}
use nowa_zk.Base.Bytes.Decimal.{parse, parse_ℕ}
use nowa_zk.Base.Int.{pos, negsuc}
use nowa_zk.Prover.Bytes32.{fill_bytes}
use nowa_zk.Storage.Lines.{lines}
use nowa_zk.Storage.Memory.{memory, memory_laws}
use nowa_zk.Storage.Pages.{newest_first}
use nowa_zk.Storage.Tests.{three_proofs, three_proofs-IsKept}
use nowa_zk.ProverApi.{
  handle_get_batches, normal_limit, bad_request, state_root_hex, big_to_hash_hex,
}
use nowa_zk.ProverApi.Pages.{IsServed, joined, handle_get_batches-IsServed}

page_zero : handle_get_batches memory lines (pos 0) (pos 25) three_proofs ≡ bad_request
unfolding handle_get_batches
page_zero = refl

rounded_limits :
    (normal_limit (pos 11) ≡ 25) × (normal_limit (pos 100) ≡ 100) × (normal_limit (negsuc 3) ≡ 10)
unfolding normal_limit
rounded_limits = (refl, refl, refl)

hex_root :
    state_root_hex (codes "77")
    ≡ codes "0x000000000000000000000000000000000000000000000000000000000000004d"
unfolding state_root_hex big_to_hash_hex parse parse_ℕ fill_bytes hex_encode
hex_root = refl

-- The first page of ten, and nothing before it; the page after it.
handle_get_batches-IsServed_example :
    IsServed memory lines memory_laws three_proofs three_proofs-IsKept 1
      (normal_limit (pos 10))
      (handle_get_batches memory lines (pos 2) (pos 10) three_proofs)
    × (joined memory lines (pos 10) 1 three_proofs
        ≡ take (1 * normal_limit (pos 10)) (newest_first memory lines three_proofs))
handle_get_batches-IsServed_example =
    handle_get_batches-IsServed memory lines memory_laws three_proofs three_proofs-IsKept 1 (pos 10)
      (omega arith)
