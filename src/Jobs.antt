-- ===== src/Jobs.antt =====
-- Asynchronous query jobs: the transaction repository, the queue, the locks and the worker.
pub mod Transactions
pub mod Queue
pub mod Locks
pub mod World
pub mod Worker
pub mod Executor
pub mod Requests
mod Tests
