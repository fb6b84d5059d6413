-- ===== src/Extract.antt =====
-- pkg/extract/subgraph/extractor.go: the chunks of a query, and a snapshot from the rules that a
-- query returns. Running Bazel and decoding its XML are left out.
pub mod Chunks
pub mod Rules
pub mod Changes
