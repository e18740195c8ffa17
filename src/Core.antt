-- ===== src/Core.antt =====
-- crates/kengram-core: the domain types and the pure parts of retrieval.
pub mod Relation
pub mod Label
pub mod Failure
pub mod Fusion
pub mod Json
pub mod Tags
pub mod Sparse
