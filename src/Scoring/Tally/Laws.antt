-- ===== src/Scoring/Tally/Laws.antt =====
-- pkg/scoring: what the loops of the metrics collect, and the sign of what they add up.
use toposcope.Base.{
  ◌≡◌, refl, subst, ◌↔◌, ◌⊎◌, inl, inr, List, [], ◌∷◌, Option, none, some, In, In-append,
  Option-cases,
}
use toposcope.Base.Float.{Float}
use toposcope.Scoring.{EvidenceItem}
use toposcope.Scoring.Tally.{Finding, Tally, note, run}

module _ {W : Type 0} ⦃fl : Float W⦄ {X : Type 0} (round : X → Option (Finding W)) where
  -- The evidence is what was there before, and the items of the rounds that were not skipped.
  pub In-run :
      (i : EvidenceItem W) (xs : List X) (t : Tally W)
      → In i (run round xs t).evidence ↔ (
          In i t.evidence
          ⊎ ((x : X) × (g : Finding W) × In x xs × (round x ≡ some g) × (i ≡ g.item)))
  unfolding run
  In-run i [] t = (inl, λ h. elim h [ inl p ↦ p | inr (x, g, j, p, q) ↦ elim j [ ] ])
  In-run i (x ∷ xs) t = elim (Option-cases (round x)) [
    | inl e ↦
        let rest = In-run i xs t in
        rw (e, run)
          (
            λ h. elim (rest.0 h) [ inl p ↦ inl p | inr (y, g, j, p, q) ↦ inr (y, g, inr j, p, q) ],
            λ h. rest.1 (elim h [
              | inl p ↦ inl p
              | inr (y, g, j, p, q) ↦ elim j [
                | inl same ↦ absurd (let z = subst (λ w. round w ≡ some g) same p in cc)
                | inr k ↦ inr (y, g, k, p, q)
              ]
            ]),
          )
    | inr (g, e) ↦
        let rest = In-run i xs (note (some g) t) in
        let new = In-append i t.evidence (g.item ∷ []) in
        rw (e, run)
          (
            λ h. elim (rest.0 h) [
              | inl p ↦ elim (new.0 p) [
                | inl old ↦ inl old
                | inr q ↦ elim q [ inl r ↦ inr (x, g, inl refl, e, r) | inr r ↦ elim r [ ] ]
              ]
              | inr (y, d, j, p, q) ↦ inr (y, d, inr j, p, q)
            ],
            λ h. rest.1 (elim h [
              | inl p ↦ inl (new.1 (inl p))
              | inr (y, d, j, p, q) ↦ elim j [
                | inl same ↦
                    let z = subst (λ w. round w ≡ some d) same p in
                    let v : d ≡ g = cc in inl (new.1 (inr (inl (subst (λ w. i ≡ w.item) v q))))
                | inr k ↦ inr (y, d, k, p, q)
              ]
            ]),
          )
  ]

  -- A property of the contribution that every round keeps.
  pub run_keeps :
      (P : W → Type 0) (xs : List X) (t : Tally W)
      → P t.contribution
      → ((x : X) (g : Finding W) (w : W)
          → In x xs
          → round x ≡ some g
          → P w
          → P (fl.plus w g.amount))
      → P (run round xs t).contribution
  unfolding run
  run_keeps P [] t h keep = h
  run_keeps P (x ∷ xs) t h keep = elim (Option-cases (round x)) [
    | inl e ↦ rw (e, run) (run_keeps P xs t h (λ y g w i. keep y g w (inr i)))
    | inr (g, e) ↦
        rw (e, run)
          (run_keeps P xs (note (some g) t) (keep x g t.contribution (inl refl) e h)
            (λ y d w i. keep y d w (inr i)))
  ]

  -- Rounds that are all skipped change nothing.
  pub run_skips :
      (xs : List X) (t : Tally W) → ((x : X) → In x xs → round x ≡ none) → run round xs t ≡ t
  unfolding run
  run_skips [] t h = refl
  run_skips (x ∷ xs) t h = rw (h x (inl refl), run) (run_skips xs t (λ y i. h y (inr i)))
