-- ===== src/Api/Scores/History.antt =====
-- internal/api/repos.go: handleHistory, on the rows that the query gives.
pub mod Laws
pub mod Day
use toposcope.Base.{
  ℕ, ◌+◌, Str, Dict, lookup, insert, get_or, Option, none, some, Bool, true, false, List, [], ◌∷◌,
  ◌++◌, codes, if◌then◌else◌,
}
use mathlib.Core.Option
use toposcope.Base.Float.{Float}
use toposcope.Base.Sort.{SortSlice}
use toposcope.Scoring.{Grade}
use toposcope.Api.Scores.{ScoreRow}

-- metricKeyMap
unfoldable pub metric_key_map : Dict Str
metric_key_map =
    (codes "cross_package_deps", codes "m1_fan_in")
    ∷ (codes "fanout_increase", codes "m2_fan_out")
    ∷ (codes "centrality_penalty", codes "m3_dep_depth")
    ∷ (codes "blast_radius", codes "m4_visibility")
    ∷ (codes "cleanup_credits", codes "m5_cycle")
    ∷ []

pub record HistoryEntry (W : Type 0) : Type 0 where
  pub date : Str
  pub commit_sha : Str
  pub total_score : W
  pub grade : Grade
  pub count : ℕ
  pub metrics : Dict W

pub record DayAgg (W : Type 0) : Type 0 where
  pub date : Str
  pub commit_sha : Str
  pub max_score : W
  pub count : ℕ
  pub metrics : Dict W

-- What of the standard library handleHistory calls: CreatedAt.Format of the date, json.Unmarshal of a breakdown, as
-- far as it reads one, and sort.Strings.
pub record Formats (W : Type 0) : Type 0 where
  pub date_of : ℕ → Str
  pub unmarshal : Str → List (Str × W)
  pub sort_strings : List Str → List Str

module _ {W : Type 0} ⦃fl : Float W⦄ where
  unfoldable pub grade_for_score : W → Grade
  grade_for_score score =
      if fl.lt score (fl.of_nat 5)
      then Grade.a
      else if fl.lt score (fl.of_nat 15)
      then Grade.b
      else if fl.lt score (fl.of_nat 30)
      then Grade.c
      else if fl.lt score (fl.of_nat 50)
      then Grade.d
      else Grade.f

  -- abs
  unfoldable pub magnitude : W → W
  magnitude x = if fl.lt x (fl.of_nat 0) then fl.neg x else x

  -- The loop over a breakdown.
  unfoldable pub max_metrics : List (Str × W) → Dict W → Dict W
  unfolding metric_key_map lookup get_or insert magnitude
  max_metrics [] m = m
  max_metrics ((key, contribution) ∷ bs) m = elim (lookup key metric_key_map) [
    | none ↦ max_metrics bs m
    | some ui_key ↦ max_metrics bs (
        if fl.lt (get_or ui_key m (fl.of_nat 0)) (magnitude contribution)
        then insert ui_key (magnitude contribution) m
        else m)
  ]

  module _ (f : Formats W) where
    unfoldable pub new_day : Str → DayAgg W
    new_day date = record {
      date = date;
      commit_sha = [];
      max_score = fl.of_nat 0;
      count = 0;
      metrics = [];
    }

    unfoldable pub record_score : ScoreRow W → DayAgg W → DayAgg W
    unfolding max_metrics
    record_score sc agg =
        let metrics = max_metrics (f.unmarshal sc.breakdown) agg.metrics in
        if fl.lt agg.max_score sc.total_score
        then record {
          date = agg.date;
          commit_sha = sc.commit_sha;
          max_score = sc.total_score;
          count = agg.count + 1;
          metrics = metrics;
        }
        else record agg { count = agg.count + 1; metrics = metrics }

    -- The loop over the scores, on dayMap and dayOrder.
    unfoldable pub add_scores :
        List (ScoreRow W) → Dict (DayAgg W) × List Str → Dict (DayAgg W) × List Str
    unfolding lookup insert new_day record_score
    add_scores [] s = s
    add_scores (sc ∷ scores) (day_map, day_order) =
        let date = f.date_of sc.created_at in
        elim (lookup date day_map) [
          | none ↦
              add_scores scores
                (insert date (record_score sc (new_day date)) day_map, day_order ++ date ∷ [])
          | some agg ↦ add_scores scores (insert date (record_score sc agg) day_map, day_order)
        ]

    unfoldable pub entry_of : DayAgg W → HistoryEntry W
    unfolding grade_for_score
    entry_of agg = record {
      date = agg.date;
      commit_sha = agg.commit_sha;
      total_score = agg.max_score;
      grade = grade_for_score agg.max_score;
      count = agg.count;
      metrics = agg.metrics;
    }

    -- The last loop; a date with no entry of the map would be a nil pointer.
    unfoldable pub entries : Dict (DayAgg W) → List Str → Option (List (HistoryEntry W))
    unfolding lookup entry_of
    entries day_map [] = some []
    entries day_map (date ∷ dates) = elim (lookup date day_map) [
      | none ↦ none
      | some agg ↦ Option.map (λ rest. entry_of agg ∷ rest) (entries day_map dates)
    ]

    -- handleHistory; `none` in the result is a panic.
    unfoldable pub handle_history : Option (List (ScoreRow W)) → Option (List (HistoryEntry W))
    unfolding add_scores entries
    handle_history none = some []
    handle_history (some scores) =
        let (day_map, day_order) = add_scores scores ([], []) in
        entries day_map (f.sort_strings day_order)
