-- ===== src/Sql.antt =====
-- guarded_query/sql_validation.py
pub mod Tree
pub mod Allowlists
pub mod Handlers
pub mod Scope
pub mod Validate
pub mod Growth
pub mod Nodes
pub mod Published
pub mod Accepted
mod Tests
