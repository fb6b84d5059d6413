-- ===== src/Api/Scores.antt =====
-- internal/api/repos.go: the lists of repositories and of scores, one score, and the score of a pull request. The
-- queries of the tenant service are arguments, and so are the formats of a time.
pub mod History
use toposcope.Base.{
  ℕ, ◌+◌, Str, Option, none, some, ◌⊎◌, inl, inr, Bool, true, false, List, [], ◌∷◌, map, codes,
  is_empty, has_substring, if◌then◌else◌,
}
use toposcope.Base.Int.{ℤ}
use toposcope.Tenant.{Repository}

-- tenant.ScoreRow; a time is a number, and the three JSON columns are as they were stored.
pub record ScoreRow (W : Type 0) : Type 0 where
  pub id : Str
  pub tenant_id : Str
  pub repo_id : Str
  pub pr_number : Option ℤ
  pub commit_sha : Str
  pub base_snapshot_id : Str
  pub head_snapshot_id : Str
  pub delta_id : Str
  pub total_score : W
  pub grade : Str
  pub breakdown : Str
  pub hotspots : Str
  pub suggested_actions : Str
  pub created_at : ℕ
  pub added_nodes : ℕ
  pub removed_nodes : ℕ
  pub added_edges : ℕ
  pub removed_edges : ℕ

pub record DeltaStatsResponse : Type 0 where
  pub impacted_targets : ℕ
  pub added_nodes : ℕ
  pub removed_nodes : ℕ
  pub added_edges : ℕ
  pub removed_edges : ℕ

pub record ScoreResponse (W : Type 0) : Type 0 where
  pub id : Str
  pub total_score : W
  pub grade : Str
  pub commit_sha : Str
  pub pr_number : Option ℤ
  pub base_snapshot_id : Str
  pub head_snapshot_id : Str
  pub delta_id : Str
  pub breakdown : Str
  pub hotspots : Str
  pub suggested_actions : Str
  pub delta_stats : Option DeltaStatsResponse
  pub created_at : Str

pub record RepoResponse : Type 0 where
  pub id : Str
  pub full_name : Str
  pub default_branch : Str

-- writeJSON with the status OK, or writeError.
pub data Response (A : Type 0) : Type 0 where
  ok : A → Response A
  error : ℕ → Str → Response A

module _ {W : Type 0} (format_time : ℕ → Str) where
  unfoldable pub score_row_to_response : ScoreRow W → ScoreResponse W
  unfolding is_empty
  score_row_to_response sc = record {
    id = sc.id;
    total_score = sc.total_score;
    grade = sc.grade;
    commit_sha = sc.commit_sha;
    pr_number = sc.pr_number;
    base_snapshot_id = sc.base_snapshot_id;
    head_snapshot_id = sc.head_snapshot_id;
    delta_id = sc.delta_id;
    breakdown = sc.breakdown;
    hotspots = sc.hotspots;
    suggested_actions = sc.suggested_actions;
    delta_stats =
        if is_empty sc.delta_id
        then none
        else some (record {
          impacted_targets = sc.added_nodes + sc.removed_nodes;
          added_nodes = sc.added_nodes;
          removed_nodes = sc.removed_nodes;
          added_edges = sc.added_edges;
          removed_edges = sc.removed_edges;
        });
    created_at = format_time sc.created_at;
  }

  unfoldable pub handle_list_scores : Option (List (ScoreRow W)) → Response (List (ScoreResponse W))
  unfolding score_row_to_response
  handle_list_scores none = ok []
  handle_list_scores (some scores) = ok (map score_row_to_response scores)

  unfoldable pub handle_get_score : Option (ScoreRow W) → Response (ScoreResponse W)
  unfolding score_row_to_response
  handle_get_score none = error 404 (codes "score not found")
  handle_get_score (some sc) = ok (score_row_to_response sc)

  -- The number of the path, once Atoi has read it; the query's error is its text.
  unfoldable pub handle_pr_impact :
      (Str → ℤ → Str ⊎ ScoreRow W) → Str → Option ℤ → Response (ScoreResponse W)
  unfolding score_row_to_response has_substring
  handle_pr_impact get_score_by_pr repo_id none = error 400 (codes "invalid pr number")
  handle_pr_impact get_score_by_pr repo_id (some pr_number) =
      elim (get_score_by_pr repo_id pr_number) [
        | inl err ↦
            if has_substring err (codes "no rows")
            then error 404 (codes "no score found for PR")
            else error 500 (codes "failed to query score")
        | inr sc ↦ ok (score_row_to_response sc)
      ]

unfoldable pub handle_list_repos : Option (List Repository) → Response (List RepoResponse)
handle_list_repos none = ok []
handle_list_repos (some repos) = ok (
    map (λ r. record { id = r.id; full_name = r.full_name; default_branch = r.default_branch })
      repos)
