-- ===== src/Tests/OfScores.antt =====
-- internal/api/repos.go on three scores of two days.
use toposcope.Base.{
  ◌≡◌, refl, sym, subst, inl, inr, Str, none, some, In, [], ◌∷◌, ◌++◌, contains, List, ℕ, codes,
  map, str_eq,
}
use toposcope.Base.Int.{ℤ, pos}
use toposcope.Base.Float.{◌≼◌}
use toposcope.Base.Tenths.{tenths_float, tenths-IsOrdered}
use toposcope.Scoring.{grade_from_score, Grade}
use toposcope.Api.Scores.{ScoreRow}
use toposcope.Api.Scores.History.{
  HistoryEntry, Formats, grade_for_score, handle_history, new_day, entry_of,
}
use toposcope.Api.Scores.History.Laws.{day_of, dates_of, handle_history_lem}
use toposcope.Api.Scores.History.Day.{IsEntryOf, handle_history-IsDay}

-- Times are days; every breakdown is one metric.
abbrev formats : Formats ℤ
formats = record {
  date_of = λ t. codes "d" ++ t ∷ [];
  unmarshal = λ s. (codes "blast_radius", pos 7) ∷ [];
  sort_strings = λ dates. dates;
}

abbrev score_row : Str → ℤ → ℕ → ScoreRow ℤ
score_row sha total t = record {
  id = sha;
  tenant_id = [];
  repo_id = [];
  pr_number = none;
  commit_sha = sha;
  base_snapshot_id = [];
  head_snapshot_id = [];
  delta_id = [];
  total_score = total;
  grade = [];
  breakdown = [];
  hotspots = [];
  suggested_actions = [];
  created_at = t;
  added_nodes = 0;
  removed_nodes = 0;
  added_edges = 0;
  removed_edges = 0;
}

abbrev three : List (ScoreRow ℤ)
three =
    score_row (codes "a") (pos 40) 2
    ∷ score_row (codes "b") (pos 90) 2
    ∷ score_row (codes "c") (pos 0) 1
    ∷ []

handle_history_example :
    handle_history formats (some three)
    ≡ some (
        map
          (λ date. entry_of formats (day_of formats date (new_day formats date) three))
          (dates_of formats three []))
handle_history_example = handle_history_lem formats three (λ strings s i. i)

abbrev first : Str
first = formats.date_of 1

abbrev second : Str
second = formats.date_of 2

numbers : (sc : ScoreRow ℤ) → In sc three → sc.total_score ≼ sc.total_score
numbers sc (inl e) = subst (λ x. x.total_score ≼ x.total_score) (sym e) refl
numbers sc (inr (inl e)) = subst (λ x. x.total_score ≼ x.total_score) (sym e) refl
numbers sc (inr (inr (inl e))) = subst (λ x. x.total_score ≼ x.total_score) (sym e) refl
numbers sc (inr (inr (inr no_one))) = elim no_one [ ]

abbrev day_two : HistoryEntry ℤ
day_two = entry_of formats (day_of formats second (new_day formats second) three)

-- The history, with the later day first, as sort_strings leaves it.
abbrev history : List (HistoryEntry ℤ)
history = day_two ∷ entry_of formats (day_of formats first (new_day formats first) three) ∷ []

handle_history-IsDay_example : IsEntryOf formats three day_two
unfolding handle_history str_eq dates_of contains
handle_history-IsDay_example =
    handle_history-IsDay tenths-IsOrdered formats three history day_two (λ strings s i. i) numbers
      (handle_history_lem formats three (λ strings s i. i)) (inl refl)

-- The day is the two scores, and the commit of the higher one.
second_day : (day_of formats second (new_day formats second) three).commit_sha ≡ codes "b"
unfolding day_of new_day
second_day = refl

-- The grade in the history is not that of the scoring.
four_grades :
    (grade_for_score {W = ℤ} (pos 40) ≡ Grade.a) × (grade_from_score {W = ℤ} (pos 40) ≡ Grade.b)
unfolding grade_for_score grade_from_score
four_grades = (refl, refl)
