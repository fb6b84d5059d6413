-- ===== src/Scoring/Suggestions/Laws.antt =====
-- pkg/scoring/engine.go: where the suggestions come from.
use toposcope.Base.{
  ℕ, ◌+◌, ◌≤◌, ◌≡◌, refl, sym, ap, ◌∙◌, ◌⊎◌, inl, inr, not, ◌&&◌, List, [], ◌∷◌, arith, Str, Dict,
  In, In-append, In-take, In-insert, get_or, bump, is_empty, str_eq, str_eq_iff, length,
  length-take, leb, leb→le, ltb, Bool-cases,
}
use toposcope.Base.Float.{Float}
use toposcope.Scoring.{MetricResult, EvidenceItem, SuggestedAction}
use toposcope.Scoring.CrossPackage.{cross_package_key}
use toposcope.Scoring.Fanout.{fanout_key}
use toposcope.Scoring.Centrality.{centrality_key}
use toposcope.Scoring.Suggestions.{
  source_edges, split_action, shared_action, foundational_action, avoid_action, fanout_actions,
  shared_actions, centrality_actions, actions_for, all_actions, generate_suggestions,
}

-- The metrics that have suggestions.
abbrev pub IsSuggesting : Str → Type 0
IsSuggesting k = (k ≡ fanout_key) ⊎ ((k ≡ cross_package_key) ⊎ (k ≡ centrality_key))

module _ {W : Type 0} ⦃fl : Float W⦄ where
  -- The action addresses that metric alone, and its one target is an end that the evidence names.
  pub record IsFrom (metric_key : Str) (evs : List (EvidenceItem W)) (x : SuggestedAction W)
      : Type 0 where
    pub item : EvidenceItem W
    pub shown : In item evs
    pub target : (x.targets ≡ item.from ∷ []) ⊎ (x.targets ≡ item.to ∷ [])
    pub addresses : x.addresses ≡ metric_key ∷ []

  IsFrom-weaken :
      (k : Str) (ev : EvidenceItem W) (evs : List (EvidenceItem W)) (x : SuggestedAction W)
      → IsFrom k evs x
      → IsFrom k (ev ∷ evs) x
  IsFrom-weaken k ev evs x h = record {
    item = h.item;
    shown = inr h.shown;
    target = h.target;
    addresses = h.addresses;
  }

  fanout_actions-IsFrom :
      (k : Str) (evs : List (EvidenceItem W)) (x : SuggestedAction W)
      → In x (fanout_actions k evs)
      → IsFrom k evs x
  unfolding fanout_actions split_action
  fanout_actions-IsFrom k [] x i = elim i [ ]
  fanout_actions-IsFrom k (ev ∷ evs) x i =
      elim (Bool-cases (fl.le (fl.of_nat 20) ev.value && not (is_empty ev.from))) [
        | inl e ↦ elim (rw (e, fanout_actions) at i) [
          | inl p ↦ record {
            item = ev;
            shown = inl refl;
            target = inl (ap (λ y. y.targets) p);
            addresses = ap (λ y. y.addresses) p;
          }
          | inr j ↦ IsFrom-weaken k ev evs x (fanout_actions-IsFrom k evs x j)
        ]
        | inr e ↦
            IsFrom-weaken k ev evs x (fanout_actions-IsFrom k evs x (rw (e, fanout_actions) at i))
      ]

  centrality_actions-IsFrom :
      (k : Str) (evs : List (EvidenceItem W)) (x : SuggestedAction W)
      → In x (centrality_actions k evs)
      → IsFrom k evs x
  unfolding centrality_actions foundational_action avoid_action
  centrality_actions-IsFrom k [] x i = elim i [ ]
  centrality_actions-IsFrom k (ev ∷ evs) x i =
      let rest = centrality_actions-IsFrom k evs x in
      let later = λ (j : In x (centrality_actions k evs)). IsFrom-weaken k ev evs x (rest j) in
      elim (Bool-cases (is_empty ev.to)) [
        | inl e ↦ later (rw (e, centrality_actions) at i)
        | inr e ↦ elim (Bool-cases (fl.le (fl.of_nat 1000) ev.value)) [
          | inl big ↦ elim (rw (e, big, centrality_actions) at i) [
            | inl p ↦ first (ap (λ y. y.targets) p) (ap (λ y. y.addresses) p)
            | inr j ↦ later j
          ]
          | inr small ↦ elim (Bool-cases (fl.le (fl.of_nat 100) ev.value)) [
            | inl b ↦ elim (rw (e, small, b, centrality_actions) at i) [
              | inl p ↦ first (ap (λ y. y.targets) p) (ap (λ y. y.addresses) p)
              | inr j ↦ later j
            ]
            | inr b ↦ later (rw (e, small, b, centrality_actions) at i)
          ]
        ]
      ]
    where
      first : x.targets ≡ ev.to ∷ [] → x.addresses ≡ k ∷ [] → IsFrom k (ev ∷ evs) x
      first t a = record { item = ev; shown = inl refl; target = inr t; addresses = a }

  In-source_edges :
      (evs : List (EvidenceItem W)) (m : Dict ℕ) (k : Str) (n : ℕ)
      → In (k, n) (source_edges evs m)
      → ((i : ℕ) × In (k, i) m) ⊎ ((ev : EvidenceItem W) × In ev evs × (ev.from ≡ k))
  unfolding source_edges bump
  In-source_edges [] m k n h = inl (n, h)
  In-source_edges (ev ∷ evs) m k n h = elim (Bool-cases (is_empty ev.from)) [
    | inl e ↦ elim (In-source_edges evs m k n (rw (e, source_edges) at h)) [
      | inl p ↦ inl p
      | inr (d, i, q) ↦ inr (d, inr i, q)
    ]
    | inr e ↦ elim (In-source_edges evs (bump ev.from m) k n (rw (e, source_edges) at h)) [
      | inl (i, p) ↦ elim (In-insert k ev.from i (get_or ev.from m 0 + 1) m p) [
        | inl (same, _) ↦ inr (ev, inl refl, sym same)
        | inr old ↦ inl (i, old)
      ]
      | inr (d, i, q) ↦ inr (d, inr i, q)
    ]
  ]

  In-shared_actions :
      (k : Str) (m : Dict ℕ) (x : SuggestedAction W)
      → In x (shared_actions k m)
      → (source : Str) × (n : ℕ) × In (source, n) m × (3 ≤ n) × (x ≡ shared_action k source n)
  unfolding shared_actions
  In-shared_actions k [] x i = elim i [ ]
  In-shared_actions k ((source, n) ∷ m) x i = elim (Bool-cases (leb 3 n)) [
    | inl e ↦ elim (rw (e, shared_actions) at i) [
      | inl p ↦ (source, n, inl refl, leb→le 3 n e, p)
      | inr j ↦ let (s, c, h, l, q) = In-shared_actions k m x j in (s, c, inr h, l, q)
    ]
    | inr e ↦
        let (s, c, h, l, q) = In-shared_actions k m x (rw (e, shared_actions) at i) in
        (s, c, inr h, l, q)
  ]

  shared_actions-IsFrom :
      (k : Str) (evs : List (EvidenceItem W)) (x : SuggestedAction W)
      → In x (shared_actions k (source_edges evs []))
      → IsFrom k evs x
  unfolding shared_action
  shared_actions-IsFrom k evs x i =
      let (source, n, entry, three, same) = In-shared_actions k (source_edges evs []) x i in
      elim (In-source_edges evs [] source n entry) [
        | inl (j, z) ↦ elim z [ ]
        | inr (ev, shown, from) ↦ record {
          item = ev;
          shown = shown;
          target = inl (ap (λ y. y.targets) same ∙ ap (λ y. y ∷ []) (sym from));
          addresses = ap (λ y. y.addresses) same;
        }
      ]

  actions_for-IsFrom :
      (mr : MetricResult W) (x : SuggestedAction W)
      → In x (actions_for mr)
      → IsFrom mr.key mr.evidence x × IsSuggesting mr.key
  unfolding actions_for
  actions_for-IsFrom mr x i = elim (Bool-cases (str_eq mr.key fanout_key)) [
    | inl e ↦ (
      fanout_actions-IsFrom mr.key mr.evidence x (rw (e, actions_for) at i),
      inl ((str_eq_iff mr.key fanout_key).0 e),
    )
    | inr e ↦ elim (Bool-cases (str_eq mr.key cross_package_key)) [
      | inl d ↦ (
        shared_actions-IsFrom mr.key mr.evidence x (rw (e, d, actions_for) at i),
        inr (inl ((str_eq_iff mr.key cross_package_key).0 d)),
      )
      | inr d ↦ elim (Bool-cases (str_eq mr.key centrality_key)) [
        | inl c ↦ (
          centrality_actions-IsFrom mr.key mr.evidence x (rw (e, d, c, actions_for) at i),
          inr (inr ((str_eq_iff mr.key centrality_key).0 c)),
        )
        | inr c ↦ elim (rw (e, d, c, actions_for) at i) [ ]
      ]
    ]
  ]

  In-all_actions :
      (mrs : List (MetricResult W)) (x : SuggestedAction W)
      → In x (all_actions mrs)
      → (mr : MetricResult W) × In mr mrs × In x (actions_for mr)
  unfolding all_actions
  In-all_actions [] x i = elim i [ ]
  In-all_actions (mr ∷ mrs) x i = elim ((In-append x (actions_for mr) (all_actions mrs)).0 i) [
    | inl here ↦ (mr, inl refl, here)
    | inr later ↦ let (d, j, h) = In-all_actions mrs x later in (d, inr j, h)
  ]

  -- There are at most five suggestions. Each addresses one metric of the breakdown, which is the
  -- fanout, the cross-package or the centrality metric, and its target is an end that a piece of that
  -- metric's evidence names.
  pub generate_suggestions_lem :
      (breakdown : List (MetricResult W))
      → (length (generate_suggestions breakdown) ≤ 5)
        × ((x : SuggestedAction W)
            → In x (generate_suggestions breakdown)
            → (mr : MetricResult W) × In mr breakdown
              × IsFrom mr.key mr.evidence x
              × IsSuggesting mr.key)
  unfolding generate_suggestions
  generate_suggestions_lem breakdown = (
    ground (arith, length-take 5 (all_actions breakdown)),
    λ x i.
        let (mr, j, h) = In-all_actions breakdown x (kept x i) in
        let (from, suggesting) = actions_for-IsFrom mr x h in (mr, j, from, suggesting),
  )
    where
      kept :
          (x : SuggestedAction W)
          → In x (generate_suggestions breakdown)
          → In x (all_actions breakdown)
      kept x i = elim (Bool-cases (ltb 5 (length (all_actions breakdown)))) [
        | inl e ↦ In-take x 5 (all_actions breakdown) (rw (e, generate_suggestions) at i)
        | inr e ↦ rw (e, generate_suggestions) at i
      ]
