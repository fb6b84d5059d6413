-- ===== src/Scoring/Hotspots.antt =====
-- pkg/scoring/engine.go: computeHotspots and uniqueStrings.
pub mod Laws
use toposcope.Base.{
  ℕ, ltb, leb, Bool, ◌||◌, List, [], ◌∷◌, ◌++◌, Option, none, some, Str, Dict, codes, decimal,
  lookup, insert, contains, add, is_empty, length, take, if◌then◌else◌,
}
use toposcope.Base.Float.{Float}
use toposcope.Base.Sort.{SortSlice}
use toposcope.Scoring.{MetricResult, EvidenceItem, Hotspot}

-- uniqueStrings: the loop, with `seen` and `result` holding the same texts.
unfoldable pub unique_from : List Str → List Str → List Str
unfolding add
unique_from [] result = result
unique_from (s ∷ ss) result = unique_from ss (add s result)

unfoldable pub unique_strings : List Str → List Str
unfolding unique_from
unique_strings ss = unique_from ss []

pub record NodeInfo (W : Type 0) : Type 0 where
  pub total_contribution : W
  pub metric_keys : List Str
  pub reasons : List Str

-- Sprintf of a []string by %v, without its brackets.
unfoldable pub join_words : List Str → Str
join_words [] = []
join_words (w ∷ []) = w
join_words (w ∷ v ∷ ws) = w ++ (codes " " ++ join_words (v ∷ ws))

unfoldable pub flagged_reason : List Str → Str
unfolding decimal join_words
flagged_reason ks =
    codes "Flagged by "
    ++ (decimal (length ks) ++ (codes " metrics: [" ++ (join_words ks ++ codes "]")))

module _ {W : Type 0} ⦃fl : Float W⦄ where
  unfoldable pub blank_info : Option (NodeInfo W) → NodeInfo W
  blank_info none = record { total_contribution = fl.of_nat 0; metric_keys = []; reasons = [] }
  blank_info (some i) = i

  -- What a metric adds to a node that its evidence names.
  unfoldable pub flag : MetricResult W → Str → Dict (NodeInfo W) → Dict (NodeInfo W)
  unfolding insert lookup blank_info
  flag mr key nodes =
      let i = blank_info (lookup key nodes) in
      insert key
        (record {
          total_contribution =
              fl.plus i.total_contribution
                (fl.divide mr.contribution (fl.of_nat (length mr.evidence)));
          metric_keys = i.metric_keys ++ mr.key ∷ [];
          reasons = i.reasons ++ mr.name ∷ [];
        })
        nodes

  -- The loop over `ev.From` and `ev.To`: the map, and the keys that this metric has flagged.
  unfoldable pub flag_key :
      MetricResult W → Str → Dict (NodeInfo W) × List Str → Dict (NodeInfo W) × List Str
  unfolding flag add contains is_empty
  flag_key mr key (nodes, seen) =
      if is_empty key || contains key seen then (nodes, seen) else (flag mr key nodes, add key seen)

  unfoldable pub flag_evidence :
      MetricResult W
      → List (EvidenceItem W)
      → Dict (NodeInfo W) × List Str
      → Dict (NodeInfo W) × List Str
  unfolding flag_key
  flag_evidence mr [] st = st
  flag_evidence mr (ev ∷ evs) st = flag_evidence mr evs (flag_key mr ev.to (flag_key mr ev.from st))

  -- The loop over the breakdown; a metric that adds nothing to the score flags nothing.
  unfoldable pub node_map : List (MetricResult W) → Dict (NodeInfo W) → Dict (NodeInfo W)
  unfolding flag_evidence
  node_map [] nodes = nodes
  node_map (mr ∷ mrs) nodes = node_map mrs (
      if fl.le mr.contribution (fl.of_nat 0)
      then nodes
      else (flag_evidence mr mr.evidence (nodes, [])).0)

  unfoldable pub hotspot_of : Str → NodeInfo W → Hotspot W
  unfolding unique_strings flagged_reason
  hotspot_of key info = record {
    node_key = key;
    reason = flagged_reason (unique_strings info.metric_keys);
    score_contribution = info.total_contribution;
    metric_keys = unique_strings info.metric_keys;
  }

  -- The nodes that two metrics or more have flagged.
  unfoldable pub select : Dict (NodeInfo W) → List (Hotspot W)
  unfolding hotspot_of unique_strings
  select [] = []
  select ((key, info) ∷ nodes) =
      let rest = select nodes in
      if leb 2 (length (unique_strings info.metric_keys)) then hotspot_of key info ∷ rest else rest

  unfoldable pub higher_score : Hotspot W → Hotspot W → Bool
  higher_score x y = fl.lt y.score_contribution x.score_contribution

  unfoldable pub compute_hotspots : SortSlice → List (MetricResult W) → List (Hotspot W)
  unfolding node_map select higher_score
  compute_hotspots sort breakdown =
      let hotspots = sort (Hotspot W) higher_score (select (node_map breakdown [])) in
      if ltb 10 (length hotspots) then take 10 hotspots else hotspots
