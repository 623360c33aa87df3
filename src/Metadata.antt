-- ===== src/Metadata.antt =====
-- metadata/
pub mod Revision
pub mod Context
pub mod Service
pub mod Served
pub mod Requests
pub mod Pinned
pub mod Evicted
pub mod Samples
mod Tests
