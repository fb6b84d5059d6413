-- ===== src/Scoring/Hotspots/Laws.antt =====
-- pkg/scoring/engine.go: what uniqueStrings keeps, and why a node is a hotspot.
use toposcope.Base.{
  ◌≤◌, ◌≡◌, refl, sym, subst, ◌↔◌, ◌⊎◌, inl, inr, false, List, [], ◌∷◌, ◌++◌, arith, Str, Dict, In,
  In-append, In-take, In-insert, In-of_lookup, lookup, add, contains, contains_iff, contains-add,
  str_eq_iff, NoDup, NoDup-add, is_empty, length, length-take, take, leb, leb→le, ltb,
  if◌then◌else◌, Option-cases, Bool-cases,
}
use toposcope.Base.Float.{Float}
use toposcope.Base.Sort.{SortSlice, Sorts}
use toposcope.Scoring.{MetricResult, EvidenceItem, Hotspot}
use toposcope.Scoring.Hotspots.{
  unique_from, unique_strings, NodeInfo, blank_info, flag, flag_key, flag_evidence, node_map,
  hotspot_of, select, higher_score, compute_hotspots,
}

In-unique_from :
    (k : Str) (ss result : List Str) → In k (unique_from ss result) ↔ (In k result ⊎ In k ss)
unfolding unique_from
In-unique_from k [] result = (inl, λ h. elim h [ inl p ↦ p | inr p ↦ elim p [ ] ])
In-unique_from k (s ∷ ss) result = ground (
  arith,
  In-unique_from k ss (add s result),
  contains_iff k (add s result),
  contains_iff k result,
  contains-add k s result,
  str_eq_iff s k,
)

NoDup-unique_from : (ss result : List Str) → NoDup result → NoDup (unique_from ss result)
unfolding unique_from
NoDup-unique_from [] result d = d
NoDup-unique_from (s ∷ ss) result d = NoDup-unique_from ss (add s result) (NoDup-add s result d)

-- The texts of a list, each once.
pub unique_strings_lem :
    (ss : List Str) → NoDup (unique_strings ss) × ((k : Str) → In k (unique_strings ss) ↔ In k ss)
unfolding unique_strings
unique_strings_lem ss = (
  NoDup-unique_from ss [] tt,
  λ k.
      let both = In-unique_from k ss [] in
      (λ h. elim (both.0 h) [ inl p ↦ elim p [ ] | inr p ↦ p ], λ h. both.1 (inr h)),
)

module _ {W : Type 0} ⦃fl : Float W⦄ where
  -- A metric of that key adds to the score, and its evidence names the node.
  pub record Blames (breakdown : List (MetricResult W)) (metric_key node_key : Str) : Type 0 where
    pub result : MetricResult W
    pub listed : In result breakdown
    pub same_key : result.key ≡ metric_key
    pub adds : fl.le result.contribution (fl.of_nat 0) ≡ false
    pub item : EvidenceItem W
    pub shown : In item result.evidence
    pub names : (item.from ≡ node_key) ⊎ (item.to ≡ node_key)
    pub not_empty : is_empty node_key ≡ false

  module _ (breakdown : List (MetricResult W)) where
    abbrev IsSound : Dict (NodeInfo W) → Type 0
    IsSound nodes =
        (k : Str) (info : NodeInfo W)
        → In (k, info) nodes
        → (mk : Str) → In mk info.metric_keys
        → Blames breakdown mk k

    flag-IsSound :
        (mr : MetricResult W) (key : Str) (nodes : Dict (NodeInfo W))
        → Blames breakdown mr.key key
        → IsSound nodes
        → IsSound (flag mr key nodes)
    unfolding flag blank_info
    flag-IsSound mr key nodes b s k info i mk j = elim (In-insert k key info _ nodes i) [
      | inr old ↦ s k info old mk j
      | inl (same, new) ↦
          let j' = subst (λ x. In mk x.metric_keys) new j in
          subst (Blames breakdown mk) (sym same) (written j')
    ]
      where
        before : NodeInfo W
        before = blank_info (lookup key nodes)

        earlier : In mk before.metric_keys → Blames breakdown mk key
        earlier h = elim (Option-cases (lookup key nodes)) [
          | inl e ↦ elim (subst (λ o. In mk (blank_info o).metric_keys) e h) [ ]
          | inr (old, e) ↦
              s key old (In-of_lookup key old nodes e) mk
                (subst (λ o. In mk (blank_info o).metric_keys) e h)
        ]

        written : In mk (before.metric_keys ++ mr.key ∷ []) → Blames breakdown mk key
        written h = elim ((In-append mk before.metric_keys (mr.key ∷ [])).0 h) [
          | inl old ↦ earlier old
          | inr new ↦ elim new [
            | inl e ↦ subst (λ x. Blames breakdown x key) (sym e) b
            | inr e ↦ elim e [ ]
          ]
        ]

    flag_key-IsSound :
        (mr : MetricResult W) (key : Str) (st : Dict (NodeInfo W) × List Str)
        → (is_empty key ≡ false → Blames breakdown mr.key key)
        → IsSound st.0
        → IsSound (flag_key mr key st).0
    unfolding flag_key
    flag_key-IsSound mr key (nodes, seen) b s = elim (Bool-cases (is_empty key)) [
      | inl e ↦ rw e s
      | inr e ↦ elim (Bool-cases (contains key seen)) [
        | inl c ↦ rw (e, c) s
        | inr c ↦ rw (e, c) (flag-IsSound mr key nodes (b e) s)
      ]
    ]

    flag_evidence-IsSound :
        (mr : MetricResult W) (evs : List (EvidenceItem W)) (st : Dict (NodeInfo W) × List Str)
        → In mr breakdown
        → fl.le mr.contribution (fl.of_nat 0) ≡ false
        → ((ev : EvidenceItem W) → In ev evs → In ev mr.evidence)
        → IsSound st.0
        → IsSound (flag_evidence mr evs st).0
    unfolding flag_evidence
    flag_evidence-IsSound mr [] st i a sub s = s
    flag_evidence-IsSound mr (ev ∷ evs) st i a sub s =
        flag_evidence-IsSound mr evs (flag_key mr ev.to (flag_key mr ev.from st)) i a
          (λ x j. sub x (inr j))
          (flag_key-IsSound mr ev.to (flag_key mr ev.from st) (blame ev.to (inr refl))
            (flag_key-IsSound mr ev.from st (blame ev.from (inl refl)) s))
      where
        blame :
            (k : Str) → (ev.from ≡ k) ⊎ (ev.to ≡ k) → is_empty k ≡ false → Blames breakdown mr.key k
        blame k n e = record {
          result = mr;
          listed = i;
          same_key = refl;
          adds = a;
          item = ev;
          shown = sub ev (inl refl);
          names = n;
          not_empty = e;
        }

    node_map-IsSound :
        (mrs : List (MetricResult W)) (nodes : Dict (NodeInfo W))
        → ((mr : MetricResult W) → In mr mrs → In mr breakdown)
        → IsSound nodes
        → IsSound (node_map mrs nodes)
    unfolding node_map
    node_map-IsSound [] nodes sub s = s
    node_map-IsSound (mr ∷ mrs) nodes sub s =
        elim (Bool-cases (fl.le mr.contribution (fl.of_nat 0))) [
          | inl e ↦ rw (e, node_map) (node_map-IsSound mrs nodes (λ x j. sub x (inr j)) s)
          | inr e ↦
              rw (e, node_map)
                (node_map-IsSound mrs (flag_evidence mr mr.evidence (nodes, [])).0
                  (λ x j. sub x (inr j))
                  (flag_evidence-IsSound mr mr.evidence (nodes, []) (sub mr (inl refl)) e (λ x j. j)
                    s))
        ]

  In-select :
      (nodes : Dict (NodeInfo W)) (h : Hotspot W)
      → In h (select nodes)
      → (k : Str) × (info : NodeInfo W) × In (k, info) nodes
        × (h ≡ hotspot_of k info)
        × (2 ≤ length (unique_strings info.metric_keys))
  unfolding select
  In-select [] h i = elim i [ ]
  In-select ((k, info) ∷ nodes) h i =
      elim (Bool-cases (leb 2 (length (unique_strings info.metric_keys)))) [
        | inl e ↦ elim (rw e at i) [
          | inl p ↦ (k, info, inl refl, p, leb→le 2 _ e)
          | inr j ↦ let (k', info', m, q, b) = In-select nodes h j in (k', info', inr m, q, b)
        ]
        | inr e ↦
            let (k', info', m, q, b) = In-select nodes h (rw e at i) in (k', info', inr m, q, b)
      ]

  module _ (sort : SortSlice) (laws : Sorts sort) where
    compute_hotspots-In :
        (breakdown : List (MetricResult W)) (h : Hotspot W)
        → In h (compute_hotspots sort breakdown)
        → In h (select (node_map breakdown []))
    unfolding compute_hotspots
    compute_hotspots-In breakdown h i =
        let found = select (node_map breakdown []) in
        let ranked = sort (Hotspot W) higher_score found in
        (laws.members (Hotspot W) higher_score found h).0
          (elim (Bool-cases (ltb 10 (length ranked))) [
            | inl e ↦ In-take h 10 ranked (rw e at i)
            | inr e ↦ rw e at i
          ])

    -- There are at most ten hotspots. Each lists at least two metrics, none twice, and each of those
    -- metrics adds to the score and has evidence that names the node.
    pub compute_hotspots_lem :
        (breakdown : List (MetricResult W))
        → (length (compute_hotspots sort breakdown) ≤ 10)
          × ((h : Hotspot W)
              → In h (compute_hotspots sort breakdown)
              → (2 ≤ length h.metric_keys)
                × NoDup h.metric_keys
                × ((mk : Str) → In mk h.metric_keys → Blames breakdown mk h.node_key))
    unfolding compute_hotspots hotspot_of
    compute_hotspots_lem breakdown = (
      bounded (sort (Hotspot W) higher_score (select (node_map breakdown []))),
      λ h i.
          let (k, info, entry, same, two) =
            In-select (node_map breakdown []) h (compute_hotspots-In breakdown h i) in
          let unique = unique_strings_lem info.metric_keys in
          subst
            (λ x.
              (2 ≤ length x.metric_keys)
              × NoDup x.metric_keys
              × ((mk : Str) → In mk x.metric_keys → Blames breakdown mk x.node_key))
            (sym same)
            (
              two,
              unique.0,
              λ mk j.
                  node_map-IsSound breakdown breakdown [] (λ x y. y) (λ y info' z. elim z [ ]) k
                    info entry mk ((unique.1 mk).0 j),
            ),
    )
      where
        bounded :
            (xs : List (Hotspot W)) → length (if ltb 10 (length xs) then take 10 xs else xs) ≤ 10
        bounded xs = ground (arith, length-take 10 xs)
