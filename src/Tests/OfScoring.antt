-- ===== src/Tests/OfScoring.antt =====
-- pkg/scoring: the metrics and the engine on the samples, over whole tenths.
use toposcope.Base.{
  ◌≤◌, ◌<◌, ◌≡◌, ◌≢◌, refl, ◌↔◌, ◌⊎◌, inl, inr, List, [], ◌∷◌, some, Str, In, NoDup, codes, length,
  min, str_eq,
}
use toposcope.Base.Int.{ℤ, negsuc}
use toposcope.Base.Tenths.{tenths_float}
use toposcope.Base.Sort.{by_insertion, by_insertion-Sorts}
use toposcope.Graph.{Node, Edge, edge_key}
use toposcope.Scoring.{EvidenceItem, EvidenceType, Hotspot, SuggestedAction, MetricResult}
use toposcope.Scoring.CrossPackage
use toposcope.Scoring.CrossPackage.{cross_package_key}
use toposcope.Scoring.CrossPackage.Laws.{IsCrossing, price, evidence-evaluate}
use toposcope.Scoring.Fanout
use toposcope.Scoring.Fanout.{fanout_key, fanout_summary}
use toposcope.Scoring.Fanout.Laws.{HasGrown, growth_item, out_degree, fanout_evidence}
use toposcope.Scoring.Centrality.Laws.{in_degree}
use toposcope.Scoring.BlastRadius
use toposcope.Scoring.BlastRadius.{affected_keys}
use toposcope.Scoring.BlastRadius.Laws.{IsTouched, blast_evidence}
use toposcope.Scoring.Credits
use toposcope.Scoring.Credits.Laws.{CrossesBoundary, credits_evidence}
use toposcope.Scoring.Hotspots.{compute_hotspots}
use toposcope.Scoring.Hotspots.Laws.{Blames, compute_hotspots_lem}
use toposcope.Scoring.Suggestions.{generate_suggestions}
use toposcope.Scoring.Suggestions.Laws.{IsFrom, IsSuggesting, generate_suggestions_lem}
use toposcope.Scoring.Engine.{default_metrics}
use toposcope.Scoring.Engine.Laws.{FailsOrScores, score_lem}
use toposcope.Tests.Samples.{
  app, lib, web, base, head, change, cross_metric, fanout_metric, blast_metric, credits_metric,
  result_of,
}

evidence-evaluate_example :
    ((i : EvidenceItem ℤ)
      → In i (CrossPackage.evaluate cross_metric change base head).evidence
      → (e : Edge) × In e change.added_edges
        × ((c : IsCrossing head e) × (i.from ≡ e.from)
            × (i.to ≡ e.to)
            × (i.value ≡ price cross_metric c)))
    × ((e : Edge)
        → In e change.added_edges
        → IsCrossing head e
        → (i : EvidenceItem ℤ) × In i (CrossPackage.evaluate cross_metric change base head).evidence
          × (i.from ≡ e.from)
          × (i.to ≡ e.to))
evidence-evaluate_example = evidence-evaluate cross_metric change base head

fanout_evidence_example :
    In (growth_item {W = ℤ} base head web) (Fanout.evaluate fanout_metric change base head).evidence
    ↔ ((k : Str) × (n : Node) × HasGrown 1 base head k n
        × (growth_item {W = ℤ} base head web ≡ growth_item {W = ℤ} base head k))
fanout_evidence_example =
    fanout_evidence fanout_metric change base head (growth_item {W = ℤ} base head web)

blast_evidence_example :
    (length (BlastRadius.evaluate by_insertion blast_metric change base head).evidence
      ≡ min 3 (length (affected_keys change)))
    × ((i : EvidenceItem ℤ)
        → In i (BlastRadius.evaluate by_insertion blast_metric change base head).evidence
        → IsTouched change i.from × (i.value ≡ tenths_float.of_nat (in_degree base i.from)))
    × ((i : EvidenceItem ℤ) (k : Str)
        → In i (BlastRadius.evaluate by_insertion blast_metric change base head).evidence
        → IsTouched change k
        → ((j : EvidenceItem ℤ)
            → In j (BlastRadius.evaluate by_insertion blast_metric change base head).evidence
            → j.from ≢ k)
        → in_degree base k ≤ in_degree base i.from)
blast_evidence_example =
    blast_evidence by_insertion by_insertion-Sorts blast_metric change base head

-- The evidence for the edge that the change removes.
abbrev removed_item : EvidenceItem ℤ
removed_item = record {
  type = EvidenceType.edge_removed;
  summary = codes "Removed cross-boundary edge: //app/a:a -> //lib/b:b";
  from = app;
  to = lib;
  value = negsuc 4;
}

credited : In removed_item (Credits.evaluate credits_metric change base head).evidence
unfolding Credits.evaluate str_eq
credited = inl refl

credits_evidence_example :
    ((e : Edge) × In e change.removed_edges
      × CrossesBoundary base e
      × ((d : Edge) × In d base.edges × (edge_key d ≡ edge_key e))
      × (app ≡ e.from)
      × (lib ≡ e.to)
      × (EvidenceType.edge_removed ≡ EvidenceType.edge_removed))
    ⊎ ((k : Str) × (n : Node) × In (k, n) base.nodes
        × (out_degree head k < out_degree base k)
        × (app ≡ k)
        × (EvidenceType.edge_removed ≡ EvidenceType.fanout_change))
credits_evidence_example = credits_evidence credits_metric change base head removed_item credited

grown :
    In (growth_item {W = ℤ} base head web) (Fanout.evaluate fanout_metric change base head).evidence
unfolding Fanout.evaluate fanout_summary str_eq
grown = inl refl

abbrev reduced_item : EvidenceItem ℤ
reduced_item = record {
  type = EvidenceType.fanout_change;
  summary = codes "Fanout reduced: //app/a:a 1 -> 0 (-1)";
  from = app;
  to = [];
  value = negsuc 9;
}

reduced : In reduced_item (Credits.evaluate credits_metric change base head).evidence
unfolding Credits.evaluate str_eq
reduced = inr (inl refl)

abbrev two_results : List (MetricResult ℤ)
two_results = result_of cross_package_key ∷ result_of fanout_key ∷ []

compute_hotspots_example :
    (length (compute_hotspots by_insertion two_results) ≤ 10)
    × ((h : Hotspot ℤ)
        → In h (compute_hotspots by_insertion two_results)
        → (2 ≤ length h.metric_keys)
          × NoDup h.metric_keys
          × ((mk : Str) → In mk h.metric_keys → Blames two_results mk h.node_key))
compute_hotspots_example = compute_hotspots_lem by_insertion by_insertion-Sorts two_results

generate_suggestions_example :
    (length (generate_suggestions two_results) ≤ 5)
    × ((x : SuggestedAction ℤ)
        → In x (generate_suggestions two_results)
        → (mr : MetricResult ℤ) × In mr two_results
          × IsFrom mr.key mr.evidence x
          × IsSuggesting mr.key)
generate_suggestions_example = generate_suggestions_lem two_results

score_example :
    FailsOrScores by_insertion
      (default_metrics {W = ℤ} by_insertion)
      (some change)
      (some base)
      (some head)
score_example =
    score_lem by_insertion (default_metrics by_insertion) (some change) (some base) (some head)
