-- ===== src/Lib.antt =====
-- kEngram: a shared memory for agents. Thoughts are captured into PostgreSQL, a worker embeds and
-- tags them through two queues, and a server finds them by fusing several rankings. This library
-- models the logic of the program that does not depend on a model or on the database's own code.
--
-- The parts and the files that model them, source paths from the repository's root:
--   Core (crates/kengram-core/src): Core/Relation is relation.rs with the targets of tagger.rs and
--     `link_target_from_row` of crates/kengram-storage/src/lib.rs; Core/Label is scope.rs and
--     source.rs; Core/Failure is the error types of embedder.rs and tagger.rs with the bridge in
--     crates/kengram-tagger-deterministic/src/lib.rs; Core/Fusion is search.rs; Core/Tags is tags.rs;
--     Core/Sparse is sparse.rs, the merged map by its entries in the order of keys;
--     Core/Json has the JSON documents that metadata and results are.
--   Cli/Chunk is the cutting of thoughts in crates/kengram-cli/src/chunk.rs.
--   Storage (crates/kengram-storage/src/lib.rs): Storage/TagQueue is the table `pending_tags` and
--     Storage/EmbedQueue the table `pending_embeddings` with their statements and
--     the source of an embedding, Storage/Hygiene the fences before the retrieval index,
--     Storage/Queries the quoting of texts, Storage/Links the tables of edges and thoughts behind
--     `fetch_related_thoughts`, whose conditions Storage/Links/Selection states by their meaning.
--     Storage/TagQueue/Refined sees the queue as a function from a thought to its job.
--   Tagger (crates/kengram-tagger-deterministic/src): Tagger/Kind is kind.rs with `cosine_similarity` of
--     lib.rs, Tagger/Topics is topics.rs, Tagger/Names ner.rs and dates.rs, and Tagger/Pipeline `tag` of
--     lib.rs with preprocess.rs.
--   Mcp (crates/kengram-mcp/src): Mcp/Normalize is normalize.rs; Mcp/Finalize is finalize.rs
--     with filters.rs and validate.rs; Mcp/Link is link.rs, its two operations in
--     Mcp/Link/Operations; Mcp/Drain is the tag drainer and Mcp/EmbedDrain the drainer of
--     embeddings in drain.rs; Mcp/Expansion is the cleaning in query_expansion.rs; Mcp/Search has
--     the terms of search.rs and Mcp/Filter its test of tags against a filter, with the JSON
--     document of the tags; Mcp/Graph is the merge of the neighbours in search.rs, Mcp/Neighbors
--     how they are collected, Mcp/Retrieval and Mcp/Legs the legs, Mcp/Rerank the rerank stage
--     with the trait of crates/kengram-embed/src/reranker.rs, Mcp/Gates the request and its
--     switches, and Mcp/Pipeline the search as a whole; Mcp/Capture is capture.rs with the gate's
--     request and result of crates/kengram-storage/src/corpus_hygiene.rs, Mcp/Capture/Gate its
--     loop and Mcp/Capture/Recovery the recovery after a deadline; Mcp/Relate is relate.rs,
--     Mcp/Retract retract.rs, and Mcp/Backfill backfill.rs with the healing statement of storage.
--   Prelude, Text, Unicode, Float, Sorting and Dedupe hold what the parts share: lists, texts as
--     lists of code points with the operations of `str`, interfaces for Unicode tables and
--     floating-point numbers, the stable sort, and the loop that keeps the first value of each key.
--
-- How state and operations correspond: a function of the source is a definition of the same name,
-- unless a comment says otherwise; a function that changes a value gives back the changed value.
-- The drainer works on a `World` of the thoughts' rows, the queue, and the relation replacements
-- that were carried out, and whether a statement reaches the database is an argument of each job.
-- A call of the serialized relation mutation, of a tagger, of SHA-256 and of the printing and
-- parsing of UUIDs is an argument. So are the encoders, the reranker and the statements of the
-- legs that a search takes, the gates of the database, which `capture` and `retract_thought` call,
-- by their answers, and the clock, by the times at which calls and sleeps end. The deterministic
-- tagger takes the embedder, the recognizer of names, the matches of its regular expressions and
-- the parsed taxonomy as arguments. What a search may panic at is none.
--
-- Numbers are natural numbers. The attempts of a job are an `i32` in the source: the sum saturates
-- in the drainer and is an error in the database. Byte positions and sizes stay below 2^64 as
-- sizes of values in memory. The loop of `chunk_spans` takes fuel: one round more than there are
-- words, since a round moves ahead by a word at least if the overlap is below two thirds of the
-- target. The loop of `capture` over lost races takes fuel: 2001 answers of the gate, since each
-- round but the last sleeps for a millisecond or to the deadline of two seconds; the slices of the
-- rerank stage one round for each candidate; that of `embed_backfill` one round more than its
-- limit, since each round that goes on has found a job. Every other loop is structural.
--
-- Not modelled: SQL functions in the migrations, HTTP clients, the MCP surface, the command line,
-- the evaluation tools, the ONNX model that recognizes names, and the statements behind the search
-- legs, which are arguments of the search.
pub mod Cli
pub mod Core
pub mod Dedupe
pub mod Float
pub mod Mcp
pub mod Prelude
pub mod Sorting
pub mod Storage
pub mod Tagger
pub mod Text
pub mod Unicode
