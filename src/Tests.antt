-- ===== src/Tests.antt =====
-- Runs of the definitions on small snapshots, and the theorems at concrete inputs.
mod Samples
mod OfGraph
mod OfQuery
mod OfScoring
mod OfWebhook
mod OfCache
mod OfExtract
mod Database
mod OfIngestion
mod OfApi
mod OfChanges
mod OfCli
mod OfScores
mod OfTenant
