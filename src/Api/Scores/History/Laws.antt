-- ===== src/Api/Scores/History/Laws.antt =====
-- internal/api/repos.go: what handleHistory aggregates.
use toposcope.Base.{
  ◌≡◌, refl, sym, ◌∙◌, ap, subst, ◌⊎◌, inl, inr, ◌↔◌, Str, Dict, lookup, insert, lookup-insert, add,
  contains, contains-append, contains_iff, str_eq, str_eq_iff, In, Option, none, some, true, false,
  ◌||◌, List, [], ◌∷◌, ◌++◌, map, arith, Bool-cases, Option-cases, if◌then◌else◌,
}
use toposcope.Base.Float.{Float}
use toposcope.Api.Scores.{ScoreRow}
use toposcope.Api.Scores.History.{
  DayAgg, Formats, new_day, record_score, add_scores, entry_of, entries, handle_history,
}

module _ {W : Type 0} ⦃fl : Float W⦄ (f : Formats W) where
  -- One day: the scores of a date, one after the other, onto what the day has.
  unfoldable pub day_of : Str → DayAgg W → List (ScoreRow W) → DayAgg W
  unfolding str_eq record_score
  day_of date agg [] = agg
  day_of date agg (sc ∷ scores) =
      if str_eq (f.date_of sc.created_at) date
      then day_of date (record_score f sc agg) scores
      else day_of date agg scores

  -- The dates of the scores, each once, as they first come.
  unfoldable pub dates_of : List (ScoreRow W) → List Str → List Str
  unfolding add
  dates_of [] dates = dates
  dates_of (sc ∷ scores) dates = dates_of scores (add (f.date_of sc.created_at) dates)

  -- The order that is kept is that of the map.
  abbrev Agrees : Dict (DayAgg W) × List Str → Type 0
  Agrees s = (date : Str) → (lookup date s.0 ≡ none) ↔ (contains date s.1 ≡ false)

  -- The day of a date, as far as there is one, with a score recorded.
  on_day : Str → ScoreRow W → Option (DayAgg W) → DayAgg W
  unfolding new_day record_score
  on_day date sc none = record_score f sc (new_day f date)
  on_day date sc (some agg) = record_score f sc agg

  agg_after : Str → Option (DayAgg W) → List (ScoreRow W) → Option (DayAgg W)
  unfolding str_eq on_day
  agg_after date o [] = o
  agg_after date o (sc ∷ scores) =
      agg_after date (if str_eq (f.date_of sc.created_at) date then some (on_day date sc o) else o)
        scores

  at_date :
      (d date : Str) (sc : ScoreRow W) (m : Dict (DayAgg W)) (o : Option (DayAgg W))
      → lookup d m ≡ o
      → lookup date (insert d (on_day d sc o) m)
        ≡ (if str_eq d date then some (on_day date sc (lookup date m)) else lookup date m)
  at_date d date sc m o e =
      lookup-insert d date (on_day d sc o) m ∙ elim (Bool-cases (str_eq d date)) [
        | inl same ↦
            let p = (str_eq_iff d date).0 same in
            rw same (
              ap some
                (ap (λ x. on_day x sc o) p ∙ ap (on_day date sc) (sym e ∙ ap (λ x. lookup x m) p)))
        | inr other ↦ rw other refl
      ]

  lookup-add_scores :
      (date : Str) (scores : List (ScoreRow W)) (s : Dict (DayAgg W) × List Str)
      → lookup date (add_scores f scores s).0 ≡ agg_after date (lookup date s.0) scores
  unfolding add_scores agg_after on_day
  lookup-add_scores date [] s = refl
  lookup-add_scores date (sc ∷ scores) (m, order) =
      let d = f.date_of sc.created_at in
      elim (Option-cases (lookup d m)) [
        | inl e ↦
            rw (add_scores, e)
              (lookup-add_scores date scores _
                ∙ ap (λ o. agg_after date o scores) (at_date d date sc m none e))
        | inr (agg, e) ↦
            rw (add_scores, e)
              (lookup-add_scores date scores _
                ∙ ap (λ o. agg_after date o scores) (at_date d date sc m (some agg) e))
      ]

  agg_after-some :
      (date : Str) (agg : DayAgg W) (scores : List (ScoreRow W))
      → agg_after date (some agg) scores ≡ some (day_of date agg scores)
  unfolding agg_after day_of on_day
  agg_after-some date agg [] = refl
  agg_after-some date agg (sc ∷ scores) =
      elim (Bool-cases (str_eq (f.date_of sc.created_at) date)) [
        | inl e ↦ rw (agg_after, day_of, e) (agg_after-some date (record_score f sc agg) scores)
        | inr e ↦ rw (agg_after, day_of, e) (agg_after-some date agg scores)
      ]

  -- A date with a score has its day.
  agg_after-none :
      (date : Str) (scores : List (ScoreRow W))
      → (agg_after date none scores ≡ none)
        ⊎ (agg_after date none scores ≡ some (day_of date (new_day f date) scores))
  unfolding agg_after day_of on_day
  agg_after-none date [] = inl refl
  agg_after-none date (sc ∷ scores) = elim (Bool-cases (str_eq (f.date_of sc.created_at) date)) [
    | inl e ↦
        rw (agg_after, day_of, e)
          (inr (agg_after-some date (record_score f sc (new_day f date)) scores))
    | inr e ↦ rw (agg_after, day_of, e) (agg_after-none date scores)
  ]

  Agrees-insert :
      (d : Str) (x : DayAgg W) (m : Dict (DayAgg W)) (order order' : List Str)
      → Agrees (m, order)
      → ((date : Str) → contains date order' ≡ (contains date order || str_eq d date))
      → Agrees (insert d x m, order')
  Agrees-insert d x m order order' a h date =
      ground (arith, a date, h date, lookup-insert d date x m)

  added :
      (d : Str) (order : List Str) (date : Str)
      → contains date (order ++ d ∷ []) ≡ (contains date order || str_eq d date)
  unfolding contains
  added d order date = ground (arith, contains-append date order (d ∷ []))

  already :
      (d : Str) (order : List Str)
      → contains d order ≡ true
      → (date : Str) → contains date order ≡ (contains date order || str_eq d date)
  already d order known date = elim (Bool-cases (str_eq d date)) [
    | inl e ↦
        let same = subst (λ x. contains x order ≡ true) ((str_eq_iff d date).0 e) known in
        rw same refl
    | inr e ↦ ground arith
  ]

  order-add_scores :
      (scores : List (ScoreRow W)) (s : Dict (DayAgg W) × List Str)
      → Agrees s
      → ((add_scores f scores s).1 ≡ dates_of scores s.1) × Agrees (add_scores f scores s)
  unfolding add_scores dates_of add
  order-add_scores [] s a = (refl, a)
  order-add_scores (sc ∷ scores) (m, order) a =
      let d = f.date_of sc.created_at in
      elim (Option-cases (lookup d m)) [
        | inl e ↦
            let fresh = (a d).0 e in
            rw (add_scores, dates_of, add, e, fresh)
              (order-add_scores scores _
                (Agrees-insert d _ m order (order ++ d ∷ []) a (added d order)))
        | inr (agg, e) ↦
            let known : contains d order ≡ true = ground (arith, a d) in
            rw (add_scores, dates_of, add, e, known)
              (order-add_scores scores _
                (Agrees-insert d _ m order order a (already d order known)))
      ]

  entries-map :
      (m : Dict (DayAgg W)) (day : Str → DayAgg W) (dates : List Str)
      → ((date : Str) → In date dates → lookup date m ≡ some (day date))
      → entries f m dates ≡ some (map (λ date. entry_of f (day date)) dates)
  unfolding entries
  entries-map m day [] h = refl
  entries-map m day (date ∷ dates) h =
      rw (entries, h date (inl refl), entries-map m day dates (λ x i. h x (inr i))) refl

  -- handleHistory, for which a missing day would be a panic, gives one entry for each date that a score has, in the
  -- order of sort.Strings: the entry of the scores of that date alone, in the order of the query; if sort.Strings adds
  -- no string.
  pub handle_history_lem :
      (scores : List (ScoreRow W))
      → ((strings : List Str) (s : Str) → In s (f.sort_strings strings) → In s strings)
      → handle_history f (some scores)
        ≡ some (
            map
              (λ date. entry_of f (day_of date (new_day f date) scores))
              (f.sort_strings (dates_of scores [])))
  unfolding handle_history contains
  handle_history_lem scores sorts =
      let (order, agrees) = order-add_scores scores ([], []) (λ date. (λ e. refl, λ e. refl)) in
      rw order (
        entries-map (add_scores f scores ([], [])).0 (λ date. day_of date (new_day f date) scores)
          (f.sort_strings (dates_of scores []))
          (λ date i.
            let there =
              (contains_iff date (dates_of scores [])).1 (sorts (dates_of scores []) date i) in
            elim (agg_after-none date scores) [
              | inl e ↦
                  absurd (
                    cc ((agrees date).0 (lookup-add_scores date scores ([], []) ∙ e), order, there))
              | inr e ↦ lookup-add_scores date scores ([], []) ∙ e
            ]))
