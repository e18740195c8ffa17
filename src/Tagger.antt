-- ===== src/Tagger.antt =====
-- The deterministic tagger, crates/kengram-tagger-deterministic/src. The embedder, the model behind
-- the recognition of names, the regular expressions and the reading of the taxonomy are parameters.
pub mod Kind
pub mod Topics
pub mod Names
pub mod Pipeline
