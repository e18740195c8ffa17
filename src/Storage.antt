-- ===== src/Storage.antt =====
-- crates/kengram-storage/src: the tables behind the worker's queues, and what must stay out of the index.
pub mod TagQueue
pub mod Hygiene
pub mod Queries
pub mod EmbedQueue
pub mod Links
