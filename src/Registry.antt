-- ===== src/Registry.antt =====
-- source_catalog/registry.py: the sources that the service publishes, as its configuration files define
-- them. What the file system and YAML give for a file is an input, with its texts stripped as pydantic does.
pub mod Failures
pub mod Paths
pub mod Names
pub mod Budgets
pub mod Bounded
pub mod Files
pub mod Resolve
pub mod Registered
pub mod Resolved
pub mod Publishable
pub mod Published
mod Tests
