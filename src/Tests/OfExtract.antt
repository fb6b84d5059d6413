-- ===== src/Tests/OfExtract.antt =====
-- pkg/extract/subgraph/extractor.go on a few short labels.
use toposcope.Base.{◌≡◌, refl, true, List, [], ◌∷◌, Str, In, codes}
use toposcope.Base.{length}
use toposcope.Graph.{Snapshot}
use toposcope.Extract.Rules.{XmlRule, build_snapshot}
use toposcope.Extract.Rules.Sources.{ComesFrom}
use toposcope.Extract.Rules.Laws.{IsBuilt, build_snapshot-IsBuilt}
use toposcope.Extract.Chunks.{chunk_targets, is_filled}
use toposcope.Extract.Chunks.Laws.{concat, Fits, chunk_targets_lem}

abbrev targets : List Str
targets = codes "//a" ∷ codes "//b" ∷ codes "//long" ∷ []

two_chunks : chunk_targets targets 8 ≡ (codes "//a" ∷ codes "//b" ∷ []) ∷ (codes "//long" ∷ []) ∷ []
unfolding chunk_targets
two_chunks = refl

chunk_targets_example :
    (concat (chunk_targets targets 8) ≡ targets)
    × (is_filled targets ≡ true
        → (ts : List Str) → In ts (chunk_targets targets 8)
        → Fits 8 ts × (is_filled ts ≡ true))
chunk_targets_example = chunk_targets_lem targets 8

abbrev rules : List XmlRule
rules =
    record {
      class_name = codes "go_library";
      name = codes "//a:a";
      lists =
          record {
            name = codes "deps";
            labels = codes "//b:c" ∷ codes "@maven//x" ∷ codes "//b:c" ∷ [];
            strs = [];
          }
          ∷ [];
    }
    ∷ []

abbrev built : Snapshot
built = build_snapshot (λ s. s) (codes "s") 0 0 rules (codes "c") []

build_snapshot_example :
    IsBuilt built.nodes built.edges
    × ComesFrom (λ s. s) rules built.nodes built.edges
    × (built.stats.node_count ≡ length built.nodes)
    × (built.stats.edge_count ≡ length built.edges)
build_snapshot_example = build_snapshot-IsBuilt (λ s. s) (codes "s") 0 0 rules (codes "c") []

one_edge : length built.edges ≡ 1
unfolding build_snapshot
one_edge = refl
