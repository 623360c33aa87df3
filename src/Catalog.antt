-- ===== src/Catalog.antt =====
-- metadata/catalog.py
pub mod Quoting
pub mod Failures
pub mod Comments
pub mod Literals
pub mod Numbers
pub mod Markers
pub mod Rows
pub mod Grouping
pub mod Loading
pub mod Snapshots
pub mod Loaded
pub mod Asked
mod Tests
