-- ===== src/Api/Scores/History/Day.antt =====
-- internal/api/repos.go: the entry of one day in handleHistory.
use toposcope.Base.{
  ℕ, ◌+◌, ◌≡◌, refl, sym, ◌∙◌, subst, ◌⊎◌, inl, inr, Str, str_eq, str_eq_iff, count, In, false,
  some, List, [], ◌∷◌, map, In-map, arith, Bool-cases, add, contains-add, contains_iff,
}
use toposcope.Base.Float.{Float, IsOrdered, ◌≼◌}
use toposcope.Api.Scores.{ScoreRow}
use toposcope.Api.Scores.History.{
  DayAgg, HistoryEntry, Formats, new_day, record_score, entry_of, handle_history,
}
use toposcope.Api.Scores.History.Laws.{day_of, dates_of, handle_history_lem}

module _ {W : Type 0} ⦃fl : Float W⦄ (ord : IsOrdered W) (f : Formats W) (date : Str) where
  abbrev IsOfDay : ScoreRow W → Type 0
  IsOfDay sc = f.date_of sc.created_at ≡ date

  -- What `scores` make of `old`.
  abbrev pub IsDay : List (ScoreRow W) → DayAgg W → DayAgg W → Type 0
  IsDay scores old new =
      (new.count ≡ old.count + count (λ sc. str_eq (f.date_of sc.created_at) date) scores)
      × (old.max_score ≼ new.max_score)
      × ((sc : ScoreRow W) → In sc scores → IsOfDay sc → sc.total_score ≼ new.max_score)
      × (((new.max_score ≡ old.max_score) × (new.commit_sha ≡ old.commit_sha))
          ⊎ ((sc : ScoreRow W) × In sc scores
              × IsOfDay sc
              × (new.max_score ≡ sc.total_score)
              × (new.commit_sha ≡ sc.commit_sha)))

  abbrev AreNumbers : List (ScoreRow W) → Type 0
  AreNumbers scores = (sc : ScoreRow W) → In sc scores → sc.total_score ≼ sc.total_score

  counted :
      (sc : ScoreRow W) (n : ℕ)
      → IsOfDay sc
      → n + 1 ≡ n + count (λ x. str_eq (f.date_of x.created_at) date) (sc ∷ [])
  counted sc n on = rw ((str_eq_iff (f.date_of sc.created_at) date).1 on) (omega arith)

  -- One score recorded.
  record_score-IsDay :
      (sc : ScoreRow W) (agg : DayAgg W)
      → IsOfDay sc
      → agg.max_score ≼ agg.max_score
      → sc.total_score ≼ sc.total_score
      → IsDay (sc ∷ []) agg (record_score f sc agg)
  unfolding record_score
  record_score-IsDay sc agg on a b = elim (Bool-cases (fl.lt agg.max_score sc.total_score)) [
    | inl e ↦
        let above : agg.max_score ≼ sc.total_score = ground (
          arith,
          ord.lt-eq-not-le agg.max_score sc.total_score a b,
          ord.le_total agg.max_score sc.total_score a b,
        ) in
        rw (record_score, e)
          (
            counted sc agg.count on,
            above,
            at_most sc sc.total_score b,
            inr (sc, inl refl, on, refl, refl),
          )
    | inr e ↦
        let below : sc.total_score ≼ agg.max_score =
          ground (arith, ord.lt-eq-not-le agg.max_score sc.total_score a b) in
        rw (record_score, e)
          (counted sc agg.count on, a, at_most sc agg.max_score below, inl (refl, refl))
  ]
    where
      at_most :
          (sc : ScoreRow W) (m : W)
          → sc.total_score ≼ m
          → (x : ScoreRow W) → In x (sc ∷ [])
          → IsOfDay x
          → x.total_score ≼ m
      at_most sc m h x (inl same) on = subst (λ y. y.total_score ≼ m) (sym same) h
      at_most sc m h x (inr no_one) on = elim no_one [ ]

  -- A score recorded, and then the others.
  cons-IsDay :
      (sc : ScoreRow W) (scores : List (ScoreRow W)) (old mid new : DayAgg W)
      → IsDay (sc ∷ []) old mid
      → IsDay scores mid new
      → IsDay (sc ∷ scores) old new
  cons-IsDay sc scores old mid new (n, up, all, best) (n', up', all', best') = (
    omega (arith, n, n'),
    ord.le_trans old.max_score mid.max_score new.max_score up up',
    λ x i on. elim i [
      | inl same ↦ ord.le_trans x.total_score mid.max_score new.max_score (all x (inl same) on) up'
      | inr later ↦ all' x later on
    ],
    elim best' [
      | inr (x, i, on, m, c) ↦ inr (x, inr i, on, m, c)
      | inl (m, c) ↦ elim best [
        | inl (m', c') ↦ inl (m ∙ m', c ∙ c')
        | inr (x, i, on, m', c') ↦ inr (x, first x i, on, m ∙ m', c ∙ c')
      ]
    ],
  )
    where
      first : (x : ScoreRow W) → In x (sc ∷ []) → In x (sc ∷ scores)
      first x (inl same) = inl same
      first x (inr no_one) = elim no_one [ ]

  skip-IsDay :
      (sc : ScoreRow W) (scores : List (ScoreRow W)) (old new : DayAgg W)
      → str_eq (f.date_of sc.created_at) date ≡ false
      → IsDay scores old new
      → IsDay (sc ∷ scores) old new
  skip-IsDay sc scores old new other (n, up, all, best) = (
    rw other (omega (arith, n)),
    up,
    λ x i on. elim i [
      | inl same ↦ absurd (
          cc
            (other, (str_eq_iff (f.date_of sc.created_at) date).1 (subst (λ y. IsOfDay y) same on)))
      | inr later ↦ all x later on
    ],
    elim best [ inl e ↦ inl e | inr (x, i, on, m, c) ↦ inr (x, inr i, on, m, c) ],
  )

  day_of-IsDay :
      (scores : List (ScoreRow W)) (agg : DayAgg W)
      → AreNumbers scores
      → agg.max_score ≼ agg.max_score
      → IsDay scores agg (day_of f date agg scores)
  unfolding day_of
  day_of-IsDay [] agg h a = (omega arith, a, λ sc i on. elim i [ ], inl (refl, refl))
  day_of-IsDay (sc ∷ scores) agg h a = elim (Bool-cases (str_eq (f.date_of sc.created_at) date)) [
    | inl e ↦
        let on = (str_eq_iff (f.date_of sc.created_at) date).0 e in
        let one = record_score-IsDay sc agg on a (h sc (inl refl)) in
        let mid = record_score f sc agg in
        let same : day_of f date agg (sc ∷ scores) ≡ day_of f date mid scores =
          rw (day_of, e) refl in
        subst (IsDay (sc ∷ scores) agg) (sym same) (
          cons-IsDay sc scores agg mid (day_of f date mid scores) one (
            day_of-IsDay scores mid (λ x i. h x (inr i))
              (ord.le_refl_right agg.max_score mid.max_score one.1)))
    | inr e ↦
        let same : day_of f date agg (sc ∷ scores) ≡ day_of f date agg scores =
          rw (day_of, e) refl in
        subst (IsDay (sc ∷ scores) agg) (sym same) (
          skip-IsDay sc scores agg (day_of f date agg scores) e
            (day_of-IsDay scores agg (λ x i. h x (inr i)) a))
  ]

-- A score recorded, or none, leaves the date of the day.
date-day_of :
    {W : Type 0} ⦃fl : Float W⦄ (f : Formats W) (date : Str) (agg : DayAgg W)
    (scores : List (ScoreRow W))
    → (day_of f date agg scores).date ≡ agg.date
unfolding day_of record_score
date-day_of f date agg [] = refl
date-day_of ⦃fl = fl⦄ f date agg (sc ∷ scores) =
    elim (Bool-cases (str_eq (f.date_of sc.created_at) date)) [
      | inl e ↦ rw (day_of, e) (date-day_of f date (record_score f sc agg) scores ∙ kept)
      | inr e ↦ rw (day_of, e) (date-day_of f date agg scores)
    ]
  where
    kept : (record_score f sc agg).date ≡ agg.date
    kept = elim (Bool-cases (fl.lt agg.max_score sc.total_score)) [
      | inl e ↦ rw (record_score, e) refl
      | inr e ↦ rw (record_score, e) refl
    ]

-- The date of a score, or one that is given.
In-dates_of :
    {W : Type 0} ⦃fl : Float W⦄ (f : Formats W) (date : Str) (scores : List (ScoreRow W))
    (dates : List Str)
    → In date (dates_of f scores dates)
    → In date dates ⊎ ((sc : ScoreRow W) × In sc scores × (f.date_of sc.created_at ≡ date))
unfolding dates_of
In-dates_of f date [] dates i = inl i
In-dates_of {W = W} f date (sc ∷ scores) dates i =
    let d = f.date_of sc.created_at in
    elim (In-dates_of f date scores (add d dates) i) [
      | inr (x, j, on) ↦ inr (x, inr j, on)
      | inl j ↦ ground (
        arith,
        contains-add date d dates,
        contains_iff date (add d dates),
        contains_iff date dates,
        str_eq_iff d date,
        earlier d,
      )
    ]
  where
    earlier :
        (d : Str)
        → f.date_of sc.created_at ≡ date
        → (x : ScoreRow W) × In x (sc ∷ scores) × (f.date_of x.created_at ≡ date)
    earlier d on = (sc, inl refl, on)

-- The entry of the scores of its date: their number, and the highest of them if it is above 0.
abbrev pub IsEntryOf :
    {W : Type 0} ⦃fl : Float W⦄ (f : Formats W) → List (ScoreRow W) → HistoryEntry W → Type 0
IsEntryOf {W} ⦃fl⦄ f scores e =
    ((sc : ScoreRow W) × In sc scores × (f.date_of sc.created_at ≡ e.date))
    × (e.count ≡ count (λ sc. str_eq (f.date_of sc.created_at) e.date) scores)
    × (fl.of_nat 0 ≼ e.total_score)
    × ((sc : ScoreRow W)
        → In sc scores
        → f.date_of sc.created_at ≡ e.date
        → sc.total_score ≼ e.total_score)
    × (((e.total_score ≡ fl.of_nat 0) × (e.commit_sha ≡ []))
        ⊎ ((sc : ScoreRow W) × In sc scores
            × (f.date_of sc.created_at ≡ e.date)
            × (e.total_score ≡ sc.total_score)
            × (e.commit_sha ≡ sc.commit_sha)))

entry-IsEntryOf :
    {W : Type 0} ⦃fl : Float W⦄ (ord : IsOrdered W) (f : Formats W) (scores : List (ScoreRow W))
    (date : Str)
    → ((sc : ScoreRow W) → In sc scores → sc.total_score ≼ sc.total_score)
    → ((sc : ScoreRow W) × In sc scores × (f.date_of sc.created_at ≡ date))
    → IsEntryOf f scores (entry_of f (day_of f date (new_day f date) scores))
unfolding entry_of new_day
entry-IsEntryOf ⦃fl⦄ ord f scores date numbers known =
    let agg = day_of f date (new_day f date) scores in
    let zero = ord.of_nat_mono 0 0 (omega arith) in
    let (n, up, all, best) = day_of-IsDay ord f date scores (new_day f date) numbers zero in
    let own : agg.date ≡ date = date-day_of f date (new_day f date) scores in
    subst
      (λ d. IsEntryOf f scores (record {
        date = d;
        commit_sha = agg.commit_sha;
        total_score = agg.max_score;
        grade = (entry_of f agg).grade;
        count = agg.count;
        metrics = agg.metrics;
      }))
      (sym own) (known, omega (arith, n), up, all, best)

-- What handleHistory gives for scores of which none is NaN: the date of each entry is that of a score, its count is the
-- number of scores of that date, and its total score is not below 0 or any of those; it is one of those, and then the
-- entry names its commit, or else it is 0, and then the entry names no commit. sort.Strings is taken to add no string.
pub handle_history-IsDay :
    {W : Type 0} ⦃fl : Float W⦄ (ord : IsOrdered W) (f : Formats W) (scores : List (ScoreRow W))
    (es : List (HistoryEntry W)) (e : HistoryEntry W)
    → ((strings : List Str) (s : Str) → In s (f.sort_strings strings) → In s strings)
    → ((sc : ScoreRow W) → In sc scores → sc.total_score ≼ sc.total_score)
    → handle_history f (some scores) ≡ some es
    → In e es
    → IsEntryOf f scores e
handle_history-IsDay ord f scores es e sorts numbers gives i =
    let all =
      map (λ date. entry_of f (day_of f date (new_day f date) scores))
        (f.sort_strings (dates_of f scores [])) in
    let same : some all ≡ some es = sym (handle_history_lem f scores sorts) ∙ gives in
    let it : es ≡ all = ground arith in
    let (date, j, is) =
      (In-map (λ date. entry_of f (day_of f date (new_day f date) scores)) e
          (f.sort_strings (dates_of f scores []))).0
        (subst (In e) it i) in
    elim (In-dates_of f date scores [] (sorts (dates_of f scores []) date j)) [
      | inl no_one ↦ elim no_one [ ]
      | inr known ↦
          subst (IsEntryOf f scores) (sym is) (entry-IsEntryOf ord f scores date numbers known)
    ]
