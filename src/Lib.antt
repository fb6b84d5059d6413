-- ===== src/Lib.antt =====
-- Toposcope scores the structural change that a commit makes to a Bazel build graph. An extractor
-- turns the build into a snapshot (nodes by label, and edges); two snapshots give a delta; the
-- scoring engine runs its metrics on the delta and the two snapshots and gives a score with a grade,
-- hotspots and suggestions; the query functions cut the part of a snapshot out that a reader asks for.
--
-- Which file models what (paths are those of the repository):
--   Base            what the parts share: byte strings (Go's `strings`), association lists (Go's maps,
--                   in the order in which a loop visits them), float64 as an interface, sort.Slice
--                   as an interface; Base/Steps the methods that change a state and may fail, with what
--                   holds after them
--   Graph           pkg/graph/types.go; Graph/Degrees the degree maps and the packages; Graph/Diff
--                   ComputeDelta of pkg/graph/delta.go
--   Query           pkg/graphquery/query.go: Query/Extract is ExtractSubgraph, Query/Ego EgoGraph,
--                   Query/Search the breadth-first level that both run; Query/Cap is CapGraph,
--                   Query/Packages AggregatePackages, Query/Rank the ranking that both cut by; Query/Paths
--                   is FindPaths (Paths/Labels, Paths/Rounds and Paths/Fuel its breadth-first search,
--                   Paths/Correct the backtracking)
--   Scoring         pkg/scoring: Scoring the types, Scoring/Engine engine.go and defaults.go,
--                   Scoring/Weights config.go, and one module for each m_*.go (CrossPackage, Fanout,
--                   Centrality, BlastRadius, Credits); Scoring/Hotspots and Scoring/Suggestions the
--                   two reports of the engine
--   Extract         pkg/extract/subgraph/extractor.go: Extract/Chunks chunkTargets, Extract/Rules the
--                   labels and buildSnapshot (Rules/Origin and Rules/Sources for where its nodes and
--                   edges come from)
--                   Extract/Changes is pkg/extract/bazeldiff/bazeldiff.go
--   Webhook         internal/webhook/github.go (events, ParseEvent); Webhook/Signature VerifySignature,
--                   Webhook/Handlers and Webhook/Serve the handlers and ServeHTTP of handler.go
--   Cache           internal/api/cache.go; Cache/History the caches that calls make of a new one
--   Ingestion       internal/ingestion/service.go: the request, the rows and the interface `Backend`;
--                   Ingestion/Store the methods that write and ensureBaseline,
--                   Ingestion/Process CreateIngestion and ProcessPR; Ingestion/Outcome and
--                   Ingestion/Blobs what ProcessPR leaves behind
--   Api             internal/api: Api/Auth middleware.go, Api/Refs storageIDFromRef of rescore.go and the
--                   blob identifier of snapshots.go, Api/Snapshots loadSnapshot of snapshots.go,
--                   Api/Ingest ingest.go, Api/Rescore rescore.go, Api/Scores repos.go with
--                   Api/Scores/History for handleHistory
--   Tenant          the tables of internal/platform/migrations; Tenant/Delete DeleteRepo and Tenant/Ensure
--                   EnsureTenantAndRepo of internal/tenant/service.go
--   Cli             cmd/toposcope: the options, and the interface `Workspace`; Cli/Score runScore of
--                   score.go (Score/Laws, Score/Still, Score/Correct and Score/Whole for what holds
--                   of it, Score/Dirty for uncommitted changes), Cli/Diff runDiff of diff.go
--   Tests           sample graphs, and each theorem applied to them
--
-- Parameters. float64 is an instance `Float W` of the operations that the scoring uses; where a
-- theorem needs laws of the arithmetic it takes `IsOrdered W`, which states facts of IEEE 754 for
-- values that are no NaN. Base/Tenths is an instance over whole tenths, on which the witnesses run.
-- sort.Slice is an argument; `Sorts` states that it permutes and orders, and Base/Sort has an
-- insertion sort that does.  uuid.New() is an argument of compute_delta. strings.TrimSpace is an
-- argument of the reading of labels. The webhook takes the JSON decoders, the HMAC and the
-- hexadecimal decoder as arguments, and the tenant and ingestion services as a record of
-- operations on a state of any type. The ingestion service and the API take a `Backend`: the SQL
-- statements, the blob storage, the extractor, the scorer and encoding/json as operations on a state
-- of any type, each with its failure. A theorem that needs the state to behave takes the laws it uses:
-- `Observes` (which statements change the status of an ingestion), `DrawsIds` (identifiers of rows
-- name no blobs), `Persists` (a blob or a row that was written is read back). Tests/Database is a
-- backend of maps that has all three. The detection of changes takes `Tools`: the files, the running
-- of a command and strings.TrimSpace, with the laws `IsKeeping`. The commands take a `Workspace`: git, the
-- extractor, the cached files and the renderer on a state of any type, with the laws `IsGit`. A snapshot
-- counts as one of the ref that was checked out when it was extracted, whether or not the tree had
-- uncommitted changes. A deferred call is counted in the state, and done when runScore leaves.
-- The history takes CreatedAt.Format, json.Unmarshal of a breakdown and sort.Strings as arguments. A
-- DELETE on the tables fails where a foreign key of the schema would break, and so does the INSERT of
-- a repository; a nil map entry in the history is `none`.
--
-- A Go map is an association list; a map of the source has no key twice, which the theorems that need
-- it state as `NoDup`. Pointers to nodes in a snapshot are never nil. int is ℕ where the source only
-- counts; a depth or a cap below zero is not modelled. The loops of the source run over a list or count
-- down a depth, but for two in FindPaths, which run on fuel. The loop over the queue has as much as
-- there are sources and edges: a round takes an entry out, and each entry put in is a source or the
-- target of an edge that had no distance. The backtracking from a target has its distance as fuel:
-- each parent is one step nearer to a source.
--
-- Not modelled: the handlers of the HTTP server that pass the result of a graph query on, the queries of
-- the tenant service (single SQL statements), the storage clients, the snapshot command, the flags and
-- the printing of the command line, its server of the user interface, the running of Bazel and the
-- decoding of its output, and the web interface.

pub mod Api
pub mod Base
pub mod Cache
pub mod Cli
pub mod Extract
pub mod Graph
pub mod Ingestion
pub mod Query
pub mod Scoring
pub mod Tenant
pub mod Tests
pub mod Webhook
