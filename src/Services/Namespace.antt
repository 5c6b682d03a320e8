-- ===== src/Services/Namespace.antt =====
-- services/namespace.c: nodes, open descriptions and handles. The callbacks of the storage are
-- parameters.
pub mod Paths
pub mod Table
pub mod Open
pub mod Data
pub mod Info
pub mod Stale
pub mod Rights
pub mod Content
mod Tests
