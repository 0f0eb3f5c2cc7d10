-- ===== src/Indexer.antt =====
-- indexer/internal/indexer: the pool of pending transactions, the store of batches, the builder,
-- and the service that goes from blocks to batches.
pub mod Pool
pub mod Store
pub mod Trades
pub mod Builder
pub mod Service
mod Tests
mod Runs
pub mod Api
