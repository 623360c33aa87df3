-- ===== src/Encoding.antt =====
-- guarded_query/result_encoding.py: which result types pass, and how a value is written.
mod Defs
pub mod Laws
mod Tests
unfoldable pub use Defs.*
