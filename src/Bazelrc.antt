-- ===== src/Bazelrc.antt =====
-- crates/bazelrc: reading, expanding and combining `.bazelrc` files.
pub mod Preprocess
pub mod Tokenize
pub mod Options
pub mod Parse
pub mod Discover
pub mod Load
pub mod Expand
pub mod Query
pub mod Resolve
mod Samples
mod Tests
