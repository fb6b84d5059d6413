-- ===== src/Scoring/Suggestions.antt =====
-- pkg/scoring/engine.go: generateSuggestions.
pub mod Laws
use toposcope.Base.{
  ℕ, ltb, leb, Bool, not, ◌&&◌, List, [], ◌∷◌, ◌++◌, Option, none, some, Str, Dict, codes, decimal,
  bump, is_empty, str_eq, length, take, if◌then◌else◌,
}
use toposcope.Base.Float.{Float}
use toposcope.Scoring.{MetricResult, EvidenceItem, SuggestedAction}
use toposcope.Scoring.CrossPackage.{cross_package_key}
use toposcope.Scoring.Fanout.{fanout_key}
use toposcope.Scoring.Centrality.{centrality_key}

-- The loop that counts the added edges of each source.
unfoldable pub source_edges : {W : Type 0} → List (EvidenceItem W) → Dict ℕ → Dict ℕ
unfolding is_empty bump
source_edges [] m = m
source_edges (ev ∷ evs) m = source_edges evs (if is_empty ev.from then m else bump ev.from m)

module _ {W : Type 0} ⦃fl : Float W⦄ where
  unfoldable pub split_action : Str → EvidenceItem W → SuggestedAction W
  split_action metric_key ev = record {
    title = codes "Consider splitting " ++ ev.from;
    description =
        codes "This target now has "
        ++ (fl.format ev.value
            ++ codes " dependencies. Targets with high fanout become fragile and slow to build.");
    targets = ev.from ∷ [];
    confidence = fl.tenths 7;
    addresses = metric_key ∷ [];
  }

  unfoldable pub shared_action : Str → Str → ℕ → SuggestedAction W
  unfolding decimal
  shared_action metric_key source n = record {
    title = codes "Extract shared dependency for " ++ source;
    description =
        codes "This target added "
        ++ (decimal n
            ++ codes " cross-package dependencies. Consider extracting a shared library.");
    targets = source ∷ [];
    confidence = fl.tenths 5;
    addresses = metric_key ∷ [];
  }

  unfoldable pub foundational_action : Str → EvidenceItem W → SuggestedAction W
  foundational_action metric_key ev = record {
    title =
        codes "This change depends on foundational package "
        ++ (ev.to ++ (codes " (" ++ (fl.format ev.value ++ codes " reverse deps)")));
    description =
        codes
          "This is a foundational target; depending on it is expected. No action needed unless a narrower API exists.";
    targets = ev.to ∷ [];
    confidence = fl.tenths 3;
    addresses = metric_key ∷ [];
  }

  unfoldable pub avoid_action : Str → EvidenceItem W → SuggestedAction W
  avoid_action metric_key ev = record {
    title = codes "Avoid direct dependency on " ++ ev.to;
    description =
        codes "This target has "
        ++ (fl.format ev.value
            ++ codes " reverse dependencies. Consider depending on a narrower interface.");
    targets = ev.to ∷ [];
    confidence = fl.tenths 5;
    addresses = metric_key ∷ [];
  }

  unfoldable pub fanout_actions : Str → List (EvidenceItem W) → List (SuggestedAction W)
  unfolding split_action is_empty
  fanout_actions metric_key [] = []
  fanout_actions metric_key (ev ∷ evs) =
      let rest = fanout_actions metric_key evs in
      if fl.le (fl.of_nat 20) ev.value && not (is_empty ev.from)
      then split_action metric_key ev ∷ rest
      else rest

  unfoldable pub shared_actions : Str → Dict ℕ → List (SuggestedAction W)
  unfolding shared_action
  shared_actions metric_key [] = []
  shared_actions metric_key ((source, n) ∷ m) =
      let rest = shared_actions metric_key m in
      if leb 3 n then shared_action metric_key source n ∷ rest else rest

  unfoldable pub centrality_actions : Str → List (EvidenceItem W) → List (SuggestedAction W)
  unfolding foundational_action avoid_action is_empty
  centrality_actions metric_key [] = []
  centrality_actions metric_key (ev ∷ evs) =
      let rest = centrality_actions metric_key evs in
      if is_empty ev.to
      then rest
      else if fl.le (fl.of_nat 1000) ev.value
      then foundational_action metric_key ev ∷ rest
      else if fl.le (fl.of_nat 100) ev.value
      then avoid_action metric_key ev ∷ rest
      else rest

  -- The switch on the key of a metric.
  unfoldable pub actions_for : MetricResult W → List (SuggestedAction W)
  unfolding fanout_actions shared_actions centrality_actions source_edges str_eq fanout_key
      cross_package_key centrality_key
  actions_for mr =
      if str_eq mr.key fanout_key
      then fanout_actions mr.key mr.evidence
      else if str_eq mr.key cross_package_key
      then shared_actions mr.key (source_edges mr.evidence [])
      else if str_eq mr.key centrality_key
      then centrality_actions mr.key mr.evidence
      else []

  unfoldable pub all_actions : List (MetricResult W) → List (SuggestedAction W)
  unfolding actions_for
  all_actions [] = []
  all_actions (mr ∷ mrs) = actions_for mr ++ all_actions mrs

  unfoldable pub generate_suggestions : List (MetricResult W) → List (SuggestedAction W)
  unfolding all_actions
  generate_suggestions breakdown =
      let actions = all_actions breakdown in
      if ltb 5 (length actions) then take 5 actions else actions
