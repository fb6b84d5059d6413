-- ===== src/Scoring/Tally.antt =====
-- pkg/scoring: the loops of the metrics. A round adds an amount to the contribution and appends a
-- piece of evidence, or it is skipped by `continue`.
pub mod Laws
use toposcope.Base.{Bool, List, [], ◌∷◌, ◌++◌, Option, none, some}
use toposcope.Base.Float.{Float}
use toposcope.Scoring.{EvidenceItem}

pub record Finding (W : Type 0) : Type 0 where
  pub amount : W
  pub item : EvidenceItem W

pub record Tally (W : Type 0) : Type 0 where
  pub contribution : W
  pub evidence : List (EvidenceItem W)

module _ {W : Type 0} ⦃fl : Float W⦄ where
  unfoldable pub note : Option (Finding W) → Tally W → Tally W
  note none t = t
  note (some x) t = record {
    contribution = fl.plus t.contribution x.amount;
    evidence = t.evidence ++ x.item ∷ [];
  }

  unfoldable pub run : {X : Type 0} → (X → Option (Finding W)) → List X → Tally W → Tally W
  unfolding note
  run round [] t = t
  run round (x ∷ xs) t = run round xs (note (round x) t)
