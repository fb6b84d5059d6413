-- ===== src/Api.antt =====
-- internal/api: the middleware, the reading of a snapshot, the ingest endpoint and rescoring.
pub mod Auth
pub mod Refs
pub mod Snapshots
pub mod Ingest
pub mod Rescore
pub mod Scores
