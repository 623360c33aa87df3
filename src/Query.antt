-- ===== src/Query.antt =====
-- guarded_query/query.py
pub mod Failures
pub mod Fetch
pub mod Reference
pub mod Batches
pub mod Execution
pub mod Service
pub mod Plan
pub mod Session
pub mod Connection
pub mod Lease
pub mod Slots
pub mod Shutdown
pub mod Samples
mod Tests
