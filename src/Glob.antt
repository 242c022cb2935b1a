-- ===== src/Glob.antt =====
-- crates/mcpdef-policy/src/glob.rs: one glob engine, in two dialects.
pub mod Pattern
pub mod Names
pub mod Search
pub mod Overlap
pub mod Paths
pub mod UriGlob
pub mod Shared
