-- ===== src/Extract/Rules/Sources.antt =====
-- pkg/extract/subgraph/extractor.go: the nodes and edges that the rules of a snapshot lead to, and no others.
use toposcope.Base.{
  ◌≡◌, refl, sym, ◌∙◌, ap, subst, ◌⊎◌, inl, inr, true, List, [], ◌∷◌, arith, Str, In, In-insert,
  Dict, insert, has_key, map, has_key-insert, str_eq_iff, Bool-cases,
}
use toposcope.Graph.{Node, Edge, edge_key}
use toposcope.Extract.Rules.{
  XmlRule, Building, add_rule, add_rules, node_of, normalize_label, is_external_label,
}
use toposcope.Extract.Rules.Origin.{IsExternal, is_external_label-eq-false}
use toposcope.Extract.Rules.Listed.{IsListed, In-add_lists, KeyOf, seen-add_lists, nodes-add_lists}

module _ (trim_space : Str → Str) where
  -- The rule is one of this repository, and the node stands for it.
  abbrev pub IsRule : Str → Node → XmlRule → Type 0
  IsRule k n rule =
      (¬ IsExternal rule.name)
      × (k ≡ normalize_label trim_space rule.name)
      × (n.kind ≡ rule.class_name)

  -- The edge leads from a rule of this repository along one of its lists.
  abbrev pub IsDepOf : XmlRule → Edge → Type 0
  IsDepOf rule e =
      (¬ IsExternal rule.name)
      × IsListed trim_space (normalize_label trim_space rule.name) rule.lists e

  In-add_rule :
      (rule : XmlRule) (b : Building) (e : Edge)
      → In e (add_rule trim_space rule b).edges
      → In e b.edges ⊎ IsDepOf rule e
  unfolding add_rule
  In-add_rule rule b e i = elim (Bool-cases (is_external_label rule.name)) [
    | inl out ↦ inl (rw (add_rule, out) at i)
    | inr own ↦
        elim (In-add_lists trim_space (normalize_label trim_space rule.name) rule.lists _ e
          (rw (add_rule, own) at i)) [
            | inl j ↦ inl j
            | inr h ↦ inr ((is_external_label-eq-false rule.name).0 own, h)
          ]
  ]

  seen-add_rule :
      (rule : XmlRule) (b : Building) (k : Str)
      → In k b.seen ⊎ KeyOf trim_space (IsDepOf rule) k
      → In k (add_rule trim_space rule b).seen
  unfolding add_rule
  seen-add_rule rule b k h = elim (Bool-cases (is_external_label rule.name)) [
    | inl out ↦
        rw (add_rule, out)
          (elim h [
            | inl i ↦ i
            | inr (e, (ours, r), q) ↦
                absurd (cc ((is_external_label-eq-false rule.name).1 ours, out))
          ])
    | inr own ↦
        rw (add_rule, own)
          (seen-add_lists trim_space (normalize_label trim_space rule.name) rule.lists _ k
            (elim h [ inl i ↦ inl i | inr (e, (ours, r), q) ↦ inr (e, r, q) ]))
  ]

  In-nodes-add_rule :
      (rule : XmlRule) (b : Building) (k : Str) (n : Node)
      → In (k, n) (add_rule trim_space rule b).nodes
      → In (k, n) b.nodes ⊎ IsRule k n rule
  unfolding add_rule node_of
  In-nodes-add_rule rule b k n i = elim (Bool-cases (is_external_label rule.name)) [
    | inl out ↦ inl (rw (add_rule, out) at i)
    | inr own ↦
        let label = normalize_label trim_space rule.name in
        let made = insert label (node_of trim_space rule) b.nodes in
        elim (In-insert k label n (node_of trim_space rule) b.nodes (
          subst (In (k, n))
            (nodes-add_lists trim_space label rule.lists (record b { nodes = made }))
            (rw (add_rule, own) at i))) [
              | inl (p, q) ↦
                  inr ((is_external_label-eq-false rule.name).0 own, p, ap (λ x. x.kind) q)
              | inr j ↦ inl j
            ]
  ]

  has_key-add_rule :
      (rule : XmlRule) (b : Building) (k : Str)
      → (has_key k b.nodes ≡ true)
        ⊎ ((¬ IsExternal rule.name) × (k ≡ normalize_label trim_space rule.name))
      → has_key k (add_rule trim_space rule b).nodes ≡ true
  unfolding add_rule
  has_key-add_rule rule b k h = elim (Bool-cases (is_external_label rule.name)) [
    | inl out ↦
        rw (add_rule, out)
          (elim h [
            | inl i ↦ i
            | inr (ours, q) ↦ absurd (cc ((is_external_label-eq-false rule.name).1 ours, out))
          ])
    | inr own ↦
        let label = normalize_label trim_space rule.name in
        let n = node_of trim_space rule in
        let same =
          nodes-add_lists trim_space label rule.lists
            (record b { nodes = insert label n b.nodes }) in
        rw (add_rule, own)
          (subst (λ x. has_key k x ≡ true) (sym same)
            (grind (arith, has_key-insert label k n b.nodes, str_eq_iff label k, h)))
  ]

  In-add_rules :
      (rules : List XmlRule) (b : Building) (e : Edge)
      → In e (add_rules trim_space rules b).edges
      → In e b.edges ⊎ ((rule : XmlRule) × In rule rules × IsDepOf rule e)
  unfolding add_rules
  In-add_rules [] b e i = inl i
  In-add_rules (rule ∷ rules) b e i = elim (In-add_rules rules (add_rule trim_space rule b) e i) [
    | inr (r, j, d) ↦ inr (r, inr j, d)
    | inl j ↦ elim (In-add_rule rule b e j) [ inl k ↦ inl k | inr d ↦ inr (rule, inl refl, d) ]
  ]

  seen-add_rules :
      (rules : List XmlRule) (b : Building) (k : Str)
      → In k b.seen ⊎ ((rule : XmlRule) × In rule rules × KeyOf trim_space (IsDepOf rule) k)
      → In k (add_rules trim_space rules b).seen
  unfolding add_rules
  seen-add_rules [] b k h = elim h [ inl i ↦ i | inr (r, i, d) ↦ elim i [ ] ]
  seen-add_rules (rule ∷ rules) b k h =
      seen-add_rules rules (add_rule trim_space rule b) k (elim h [
        | inl i ↦ inl (seen-add_rule rule b k (inl i))
        | inr (r, i, d) ↦ elim i [
          | inl same ↦
              inl
                (seen-add_rule rule b k (inr (subst (λ x. KeyOf trim_space (IsDepOf x) k) same d)))
          | inr j ↦ inr (r, j, d)
        ]
      ])

  In-nodes-add_rules :
      (rules : List XmlRule) (b : Building) (k : Str) (n : Node)
      → In (k, n) (add_rules trim_space rules b).nodes
      → In (k, n) b.nodes ⊎ ((rule : XmlRule) × In rule rules × IsRule k n rule)
  unfolding add_rules
  In-nodes-add_rules [] b k n i = inl i
  In-nodes-add_rules (rule ∷ rules) b k n i =
      elim (In-nodes-add_rules rules (add_rule trim_space rule b) k n i) [
        | inr (r, j, d) ↦ inr (r, inr j, d)
        | inl j ↦ elim (In-nodes-add_rule rule b k n j) [
          | inl old ↦ inl old
          | inr d ↦ inr (rule, inl refl, d)
        ]
      ]

  has_key-add_rules :
      (rules : List XmlRule) (b : Building) (k : Str)
      → (has_key k b.nodes ≡ true)
        ⊎ ((rule : XmlRule) × In rule rules
            × (¬ IsExternal rule.name)
            × (k ≡ normalize_label trim_space rule.name))
      → has_key k (add_rules trim_space rules b).nodes ≡ true
  unfolding add_rules
  has_key-add_rules [] b k h = elim h [ inl i ↦ i | inr (r, i, d, q) ↦ elim i [ ] ]
  has_key-add_rules (rule ∷ rules) b k h =
      has_key-add_rules rules (add_rule trim_space rule b) k (elim h [
        | inl i ↦ inl (has_key-add_rule rule b k (inl i))
        | inr (r, i, d, q) ↦ elim i [
          | inl same ↦ inl (
              has_key-add_rule rule b k (
                inr (
                  subst (λ x. ¬ IsExternal x.name) same d,
                  q ∙ ap (λ x. normalize_label trim_space x.name) same,
                )))
          | inr j ↦ inr (r, j, d, q)
        ]
      ])

  -- The nodes are the rules of this repository, and the edges, by their keys, the dependencies of these.
  pub record ComesFrom (rules : List XmlRule) (nodes : Dict Node) (edges : List Edge) : Type 0 where
    pub node_from :
        (k : Str) (n : Node) → In (k, n) nodes → (rule : XmlRule) × In rule rules × IsRule k n rule
    pub rule_in :
        (rule : XmlRule)
        → In rule rules
        → (¬ IsExternal rule.name)
        → has_key (normalize_label trim_space rule.name) nodes ≡ true
    pub edge_from : (e : Edge) → In e edges → (rule : XmlRule) × In rule rules × IsDepOf rule e
    pub dep_in :
        (rule : XmlRule) (e : Edge)
        → In rule rules
        → IsDepOf rule e
        → In (edge_key e) (map edge_key edges)

  pub add_rules-ComesFrom :
      (rules : List XmlRule) (b : Building)
      → b ≡ record { nodes = []; edges = []; seen = [] }
      → (add_rules trim_space rules b).seen ≡ map edge_key (add_rules trim_space rules b).edges
      → ComesFrom rules (add_rules trim_space rules b).nodes (add_rules trim_space rules b).edges
  add_rules-ComesFrom rules b start all_seen = record {
    node_from = λ k n i. elim (In-nodes-add_rules rules b k n i) [
      | inr found ↦ found
      | inl old ↦ let none_yet = subst (λ x. In (k, n) x.nodes) start old in elim none_yet [ ]
    ];
    rule_in = λ rule i own.
        has_key-add_rules rules b (normalize_label trim_space rule.name) (inr (rule, i, own, refl));
    edge_from = λ e i. elim (In-add_rules rules b e i) [
      | inr found ↦ found
      | inl old ↦ let none_yet = subst (λ x. In e x.edges) start old in elim none_yet [ ]
    ];
    dep_in = λ rule e i d.
        subst (In (edge_key e)) all_seen
          (seen-add_rules rules b (edge_key e) (inr (rule, i, (e, d, refl))));
  }
