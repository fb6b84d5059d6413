-- ===== src/Scoring/Fanout/Laws.antt =====
-- pkg/scoring/m_fanout.go: which nodes FanoutMetric reports, and the sign of its contribution.
use toposcope.Base.{
  ℕ, ◌-◌, ◌<◌, ◌≡◌, refl, sym, ◌∙◌, subst, ◌↔◌, inl, inr, false, [], some, arith, Str, In, count,
  str_eq,
}
use toposcope.Base.Float.{Float, IsOrdered, ◌≼◌, ◌≺◌}
use toposcope.Graph.{Node, Snapshot, Delta}
use toposcope.Graph.Degrees.{compute_out_degrees}
use toposcope.Graph.Degrees.Laws.{compute_out_degrees_lem}
use toposcope.Scoring.{EvidenceItem, EvidenceType}
use toposcope.Scoring.Fanout.{FanoutMetric, fanout_node, fanout_summary, evaluate}
use toposcope.Scoring.Tally.{Finding}
use toposcope.Scoring.Tally.Laws.{In-run, run_keeps}

-- The number of edges of the snapshot that start at the key.
abbrev pub out_degree : Snapshot → Str → ℕ
out_degree s k = count (λ e. str_eq e.from k) s.edges

-- The node gained dependencies and now has more than the threshold.
pub record HasGrown (threshold : ℕ) (base head : Snapshot) (k : Str) (n : Node) : Type 0 where
  pub here : In (k, n) head.nodes
  pub plain : n.is_test ≡ false
  pub internal : n.is_external ≡ false
  pub above : threshold < out_degree head k
  pub grown : out_degree base k < out_degree head k

module _ {W : Type 0} ⦃fl : Float W⦄ where
  abbrev pub growth_item : Snapshot → Snapshot → Str → EvidenceItem W
  growth_item base head k = record {
    type = EvidenceType.fanout_change;
    summary = fanout_summary k (out_degree base k) (out_degree head k);
    from = k;
    to = [];
    value = fl.of_nat (out_degree head k);
  }

  abbrev growth_amount : FanoutMetric W → Snapshot → Snapshot → Str → W
  growth_amount m base head k =
      fl.times m.weight
        (fl.minimum (fl.of_nat (out_degree head k - out_degree base k)) m.cap_per_node)

  module _ (m : FanoutMetric W) (base head : Snapshot) (k : Str) (n : Node) where
    finding_sound :
        (g : Finding W)
        → fanout_node m (compute_out_degrees base) (compute_out_degrees head) (k, n) ≡ some g
        → (n.is_test ≡ false)
          × (n.is_external ≡ false)
          × (m.min_threshold < out_degree head k)
          × (out_degree base k < out_degree head k)
          × (g.item ≡ growth_item base head k)
          × (g.amount ≡ growth_amount m base head k)
    unfolding fanout_node
    finding_sound g =
        rw (compute_out_degrees_lem base k, compute_out_degrees_lem head k)
          (λ h.
            (ground arith, ground arith, ground arith, ground arith, ground arith, ground arith))

    finding_complete :
        HasGrown m.min_threshold base head k n
        → (g : Finding W) × (fanout_node m
              (compute_out_degrees base)
              (compute_out_degrees head)
              (k, n)
            ≡ some g)
          × (g.item ≡ growth_item base head k)
    unfolding fanout_node
    finding_complete c = (
      record { amount = growth_amount m base head k; item = growth_item base head k },
      rw (compute_out_degrees_lem base k, compute_out_degrees_lem head k) (ground arith),
      refl,
    )

  -- The evidence is one item for each node of the head that is neither a test nor external, has
  -- gained outgoing edges and has more of them than the threshold; it names the new number.
  pub fanout_evidence :
      (m : FanoutMetric W) (delta : Delta) (base head : Snapshot) (i : EvidenceItem W)
      → In i (evaluate m delta base head).evidence ↔ (
          (k : Str) × (n : Node) × HasGrown m.min_threshold base head k n
          × (i ≡ growth_item base head k))
  unfolding evaluate
  fanout_evidence m delta base head i =
      let round = fanout_node m (compute_out_degrees base) (compute_out_degrees head) in
      let both = In-run round i head.nodes (record { contribution = fl.of_nat 0; evidence = [] }) in
      (
        λ h. elim (both.0 h) [
          | inl p ↦ elim p [ ]
          | inr ((k, n), g, j, p, q) ↦
              let (plain, internal, above, grown, item, amount) =
                finding_sound m base head k n g p in
              (
                k,
                n,
                record {
                  here = j;
                  plain = plain;
                  internal = internal;
                  above = above;
                  grown = grown;
                },
                q ∙ item,
              )
        ],
        λ (k, n, c, q).
            let (g, p, item) = finding_complete m base head k n c in
            both.1 (inr ((k, n), g, c.here, p, q ∙ sym item)),
      )

  -- With a positive finite weight and a cap that is not negative, the contribution is not negative.
  pub fanout_nonneg :
      (o : IsOrdered W) (m : FanoutMetric W) (delta : Delta) (base head : Snapshot)
      → fl.of_nat 0 ≺ m.weight
      → o.IsFinite m.weight
      → fl.of_nat 0 ≼ m.cap_per_node
      → fl.of_nat 0 ≼ (evaluate m delta base head).contribution
  unfolding evaluate
  fanout_nonneg o m delta base head a b c =
      run_keeps (fanout_node m (compute_out_degrees base) (compute_out_degrees head))
        (λ w. fl.of_nat 0 ≼ w) head.nodes _ (o.of_nat_mono 0 0 (omega arith))
        (λ (k, n) g w j p h.
          let found = finding_sound m base head k n g p in
          o.plus_nonneg w g.amount h (
            subst (λ x. fl.of_nat 0 ≼ x) (sym found.5)
              (o.times_nonneg _ _ a b (o.minimum_nonneg _ _ (o.of_nat_mono 0 _ (omega arith)) c))))
