-- ===== src/Mcp.antt =====
-- crates/kengram-mcp/src: the operations behind the server's tools, and the worker's drainers.
pub mod Normalize
pub mod Finalize
pub mod Link
pub mod Drain
pub mod Expansion
pub mod Search
pub mod EmbedDrain
pub mod Filter
pub mod Graph
pub mod Capture
pub mod Backfill
pub mod Relate
pub mod Rerank
pub mod Gates
pub mod Legs
pub mod Pipeline
pub mod Neighbors
pub mod Retrieval
pub mod Retract
