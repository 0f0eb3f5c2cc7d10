-- ===== src/Lib.antt =====
-- nowa-zk: an order book exchange that settles its trades as a validity rollup. A sequencer
-- (sequencer/) matches signed orders and keeps the balances in a sparse Merkle tree, a prover
-- (prover/) proves batches of state transitions in a gnark circuit, and a contract on L1 accepts the
-- proofs. Anyone can rebuild the tree from the published batches.
--
-- How the parts interact, and which file models which:
--   Types      sequencer/internal/types/types.go, the data that the parts exchange
--   Engine     sequencer/internal/engine: `ProcessOrder` checks an order, matches it against the
--              opposite side of its token's book (`matchBids`, `matchAsks`) and rests what is left
--              (`insertBid`, `insertAsk`); the trades go into a channel
--   Merkle     sequencer/internal/state/merkle_db.go, the tree in LevelDB (`Update`, `GetPath`,
--              `Root`), and in Merkle/Reference the tree of prover/circuits/merkle.go as a function
--              of its leaves
--   State      the rest of merkle_db.go: balances, account ids, metadata
--   Batcher    sequencer/internal/batcher: transitions gathered into batches of 25
--   Sequencer  sequencer/cmd/sequencer: `applyTrade` takes a trade of the channel, changes four
--              leaves and hands a transition to the batcher; Sequencer/Deposits does the same for
--              deposits on L1 and for the lab credit (sequencer/internal/api/account.go), and
--              Sequencer/SelfTrade follows a trade of an account with itself
--   Api        sequencer/internal/api/server.go: the handlers of orders, books, accounts, proofs and
--              batches, on the engine and the world of the sequencer
--   Replay     sequencer/cmd/reconstruct-proof: published transitions applied again (replay.go), and in
--              Replay/Batches batch by batch with a checkpoint (main.go)
--   Blob       prover/internal/da/blob.go: payloads packed into blobs
--   Storage    prover/internal/storage/store.go: what the prover keeps in Badger, an interface
--              `KvStore` with its laws; Storage/Memory and Storage/Lines are an instance for the tests
--   Prover     prover/cmd/prover/start.go: the loop of `start` as rounds, each with what the indexer,
--              Groth16 and the chain answer in it, and `submitProofWithBlob` up to its call
--   ProverApi  prover/internal/api/server.go: the handlers of batches and their status on the store
--   Indexer    indexer/internal/indexer: the pool (pool.go), the store of batches and its marks
--              (store.go, cleanup.go), the builder (batch.go, abi_parser.go), and in Indexer/Service
--              the way from the blocks of the node to batches (process_block_range.go, indexer.go);
--              Indexer/Api is the API on the store (api.go)
--   Circuit    prover/circuits/state_circuit.go, the constraints, and in Circuit/Assign the
--              assignment of a batch in prover/cmd/prover/start.go
--   Base, Mimc, Samples  helpers: integers, texts, options; the hash; inputs for the tests
--
-- Conventions. A `*big.Int` is Base/Int's ℤ, a `uint64` a natural number with its wrap-around written
-- out, a string a list of bytes. A handler is a function from a state to a result and a state; a
-- mutex makes it one step. The goroutines share a `World` (database and batcher). In the circuit a
-- violated constraint is `none`. Three loops run on fuel: the matching, one round more than there are
-- resting orders (Engine/Loop); the filling of batches, one round for each transaction of a block
-- (Indexer/Service/Fill); and the ranges of a poll, one round for each hundred new blocks
-- (Indexer/Service/Ticks). The files named show that this is enough, in Fill for transactions that
-- are new and in Ticks for ranges that succeed; in the last two, fuel that runs out is `none`.
-- Other loops are structural.
--
-- Parameters, for code that is not in the repository: the scalar field and MiMC (Mimc, with the
-- size of the modulus and that a hash is an element), BabyJubJub points (`Points`) and signatures
-- (`Curve`, `Eddsa`), gnark's `frontend.API` (Circuit/Frontend, with what gnark documents of it on
-- canonical elements), L1, Blobscan and Go's reading of gzip and JSON (`Source`), Badger (`KvStore`
-- and `KvLaws`), JSON (`Codecs`), gzip, keccak256 and KZG (`Da`), what a round of the prover meets
-- (`Round`), the contract of the batches (`Registry`), and the clock. Samples and the Tests modules
-- give concrete ones.
--
-- Not modelled: failures of LevelDB and Badger themselves, HTTP and RPC, the Groth16 proof, the fees
-- and the signature of the transaction to L1, the RPC client and the websocket of the indexer, its
-- functions that nothing calls (`processBlock`, `catchUpBlocks`), cancelled contexts, logging and
-- configuration, the generated bindings.
pub mod Base
pub mod Types
pub mod Mimc
pub mod Engine
pub mod Merkle
pub mod State
pub mod Batcher
pub mod Sequencer
pub mod Replay
pub mod Circuit
pub mod Blob
pub mod Storage
pub mod Prover
pub mod Api
pub mod ProverApi
pub mod Indexer
pub mod Samples
