-- ===== src/Scoring/Engine/Laws.antt =====
-- pkg/scoring/engine.go: the result of Score, and the order of the grades.

use toposcope.Base.{
  ℕ, ◌≤◌, ◌≡◌, ◌≢◌, ◌⊎◌, inl, inr, ◌↔◌, true, false, subst, Bool-cases, refl, sym, ap, ◌∙◌, List,
  [], ◌∷◌, ◌++◌, Option, none, some, arith, map, append_assoc, append-nil,
}
use toposcope.Base.Float.{Float, IsOrdered, ◌≼◌}
use toposcope.Base.Sort.{SortSlice}
use toposcope.Graph.{Delta, Snapshot}
use toposcope.Scoring.{MetricResult, ScoreResult, Metric, Grade, grade_from_score}
use toposcope.Scoring.Engine.{
  ok, err, delta_is_nil, snapshots_required, run_metrics, clamp_score, score_all, score,
}

-- The place of a grade, from the best.
abbrev pub rank : Grade → ℕ
rank Grade.a = 0
rank Grade.b = 1
rank Grade.c = 2
rank Grade.d = 3
rank Grade.f = 4

module _ {W : Type 0} ⦃fl : Float W⦄ where
  -- A higher score never gets a better grade.
  pub grade_from_score_mono :
      IsOrdered W → (x y : W) → x ≼ y → rank (grade_from_score x) ≤ rank (grade_from_score y)
  unfolding grade_from_score
  grade_from_score_mono o x y h = ground (
    arith,
    o.le_trans x y (fl.of_nat 3) h,
    o.le_trans x y (fl.of_nat 7) h,
    o.le_trans x y (fl.of_nat 14) h,
    o.le_trans x y (fl.of_nat 24) h,
  )

  -- The sum of the contributions, in the order of the metrics.
  abbrev pub sum_from : W → List (MetricResult W) → W
  sum_from total [] = total
  sum_from total (mr ∷ mrs) = sum_from (fl.plus total mr.contribution) mrs

  run_metrics_lem :
      (ms : List (Metric W)) (delta : Delta) (base head : Snapshot)
      (breakdown : List (MetricResult W)) (total : W)
      → run_metrics ms delta base head (breakdown, total) ≡ (
        breakdown ++ map (λ m. m.evaluate delta base head) ms,
        sum_from total (map (λ m. m.evaluate delta base head) ms),
      )
  unfolding run_metrics
  run_metrics_lem [] delta base head breakdown total =
      ap (λ b. (b, total)) (sym (append-nil breakdown))
  run_metrics_lem (m ∷ ms) delta base head breakdown total =
      let mr = m.evaluate delta base head in
      run_metrics_lem ms delta base head (breakdown ++ mr ∷ []) (fl.plus total mr.contribution)
      ∙ ap
          (λ b. (
            b,
            sum_from (fl.plus total mr.contribution) (map (λ k. k.evaluate delta base head) ms),
          ))
          (append_assoc breakdown (mr ∷ []) (map (λ k. k.evaluate delta base head) ms))

  -- The sum, or 0 in place of one that is negative.
  abbrev pub IsClamped : W → W → Type 0
  IsClamped sum total =
      ((fl.lt sum (fl.of_nat 0) ≡ true) × (total ≡ fl.of_nat 0))
      ⊎ ((fl.lt sum (fl.of_nat 0) ≡ false) × (total ≡ sum))

  clamp_score-IsClamped : (sum : W) → IsClamped sum (clamp_score sum)
  unfolding clamp_score
  clamp_score-IsClamped sum = ground arith

  -- The scores above the one limit and not above the other.
  abbrev Above : ℕ → W → Type 0
  Above n x = fl.le x (fl.of_nat n) ≡ false

  -- The scores of each grade: up to 3, 7, 14 and 24, and the others.
  abbrev pub HasGrade : Grade → W → Type 0
  HasGrade Grade.a x = x ≼ fl.of_nat 3
  HasGrade Grade.b x = Above 3 x × (x ≼ fl.of_nat 7)
  HasGrade Grade.c x = Above 3 x × Above 7 x × (x ≼ fl.of_nat 14)
  HasGrade Grade.d x = Above 3 x × Above 7 x × Above 14 x × (x ≼ fl.of_nat 24)
  HasGrade Grade.f x = Above 3 x × Above 7 x × Above 14 x × Above 24 x

  grade_from_score-HasGrade : (x : W) → HasGrade (grade_from_score x) x
  unfolding grade_from_score
  grade_from_score-HasGrade x = elim (Bool-cases (fl.le x (fl.of_nat 3))) [
    | inl e ↦ rw (grade_from_score, e) e
    | inr e ↦ elim (Bool-cases (fl.le x (fl.of_nat 7))) [
      | inl f ↦ rw (grade_from_score, e, f) (e, f)
      | inr f ↦ elim (Bool-cases (fl.le x (fl.of_nat 14))) [
        | inl g ↦ rw (grade_from_score, e, f, g) (e, f, g)
        | inr g ↦ elim (Bool-cases (fl.le x (fl.of_nat 24))) [
          | inl h ↦ rw (grade_from_score, e, f, g, h) (e, f, g, h)
          | inr h ↦ rw (grade_from_score, e, f, g, h) (e, f, g, h)
        ]
      ]
    ]
  ]

  -- What Score gives for a delta and two snapshots.
  abbrev pub IsScore : List (Metric W) → Delta → Snapshot → Snapshot → ScoreResult W → Type 0
  IsScore ms delta base head r =
      (r.breakdown ≡ map (λ m. m.evaluate delta base head) ms)
      × IsClamped (sum_from (fl.of_nat 0) r.breakdown) r.total_score
      × HasGrade r.grade r.total_score
      × (r.base_commit ≡ base.commit_sha)
      × (r.head_commit ≡ head.commit_sha)

  score_all-IsScore :
      (sort : SortSlice) (ms : List (Metric W)) (delta : Delta) (base head : Snapshot)
      → IsScore ms delta base head (score_all sort ms delta base head)
  unfolding score_all
  score_all-IsScore sort ms delta base head =
      let run = run_metrics_lem ms delta base head [] (fl.of_nat 0) in
      let parts : (run_metrics ms delta base head ([], fl.of_nat 0)).0
          ≡ map (λ m. m.evaluate delta base head) ms =
        ap (λ st. st.0) run in
      let sums = ap (λ st. st.1) run ∙ ap (sum_from (fl.of_nat 0)) (sym parts) in
      let total = (run_metrics ms delta base head ([], fl.of_nat 0)).1 in
      (
        parts,
        subst (λ x. IsClamped x (clamp_score total)) sums (clamp_score-IsClamped total),
        grade_from_score-HasGrade (clamp_score total),
        refl,
        refl,
      )

  abbrev pub FailsOrScores :
      SortSlice → List (Metric W) → Option Delta → Option Snapshot → Option Snapshot → Type 0
  FailsOrScores sort ms od ob oh =
      ((score sort ms od ob oh ≡ err delta_is_nil) ↔ (od ≡ none))
      × ((score sort ms od ob oh ≡ err snapshots_required)
          ↔ ((od ≢ none) × ((ob ≡ none) ⊎ (oh ≡ none))))
      × (((od ≡ none) ⊎ ((ob ≡ none) ⊎ (oh ≡ none)))
          ⊎ ((delta : Delta) × (base : Snapshot) × (head : Snapshot) × (r : ScoreResult W) × (od
                ≡ some delta)
              × (ob ≡ some base)
              × (oh ≡ some head)
              × (score sort ms od ob oh ≡ ok r)
              × IsScore ms delta base head r))

  -- Score fails exactly if the delta or a snapshot is missing, the delta first. What it gives otherwise is of the delta
  -- and the two snapshots: the breakdown holds the result of every metric in order, and the total is the sum of their
  -- contributions, or 0 if that sum is negative; the grade is the one of that total, with the limits 3, 7, 14 and 24;
  -- the commits are those of the snapshots.
  pub score_lem :
      (sort : SortSlice) (ms : List (Metric W)) (od : Option Delta) (ob oh : Option Snapshot)
      → FailsOrScores sort ms od ob oh
  unfolding score
  score_lem sort ms none ob oh =
      ((λ e. refl, λ e. refl), (λ e. absurd (cc), λ h. absurd (h.0 refl)), inl (inl refl))
  score_lem sort ms (some delta) none oh = (
    (λ e. absurd (cc), λ e. absurd (cc)),
    (λ e. (λ f. absurd (cc), inl refl), λ h. refl),
    inl (inr (inl refl)),
  )
  score_lem sort ms (some delta) (some base) none = (
    (λ e. absurd (cc), λ e. absurd (cc)),
    (λ e. (λ f. absurd (cc), inr refl), λ h. refl),
    inl (inr (inr refl)),
  )
  score_lem sort ms (some delta) (some base) (some head) = (
    (λ e. absurd (cc), λ e. absurd (cc)),
    (λ e. absurd (cc), λ h. elim h.1 [ inl e ↦ absurd (cc) | inr e ↦ absurd (cc) ]),
    inr (
      delta,
      base,
      head,
      score_all sort ms delta base head,
      refl,
      refl,
      refl,
      refl,
      score_all-IsScore sort ms delta base head,
    ),
  )

  -- A total that is a number is never negative once it is clamped, and a sum that is not negative
  -- is left as it is.
  pub clamp_score_lem :
      (o : IsOrdered W) (total : W)
      → total ≼ total
      → (fl.of_nat 0 ≼ clamp_score total) × (fl.of_nat 0 ≼ total → clamp_score total ≡ total)
  unfolding clamp_score
  clamp_score_lem o total h =
      let zero = o.of_nat_mono 0 0 (omega arith) in
      let test = o.lt-eq-not-le total (fl.of_nat 0) h zero in
      (ground (arith, test), λ p. ground (arith, test))
