-- ===== src/Cli.antt =====
-- crates/kengram-cli: the corpus tools.
pub mod Chunk
