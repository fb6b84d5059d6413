-- ===== src/Extract/Rules/Laws.antt =====
-- pkg/extract/subgraph/extractor.go: what every snapshot that buildSnapshot makes satisfies.
use toposcope.Base.{
  ℕ, ◌≡◌, refl, sym, ap, subst, ◌∙◌, ◌⊎◌, inl, inr, true, false, List, [], ◌∷◌, ◌++◌, arith, Str,
  In, NoDup, NoDup-concat, In-append, Dict, keys, insert, has_key, has_key-insert,
  NoDup-keys-insert, In-insert, contains, contains_iff, codes, str_eq, str_eq_iff, is_empty, length,
  map, Bool-cases,
}
use toposcope.Graph.{Node, Edge, edge_key}
use toposcope.Extract.Rules.{
  XmlRule, XmlList, Building, add_edge, add_deps, add_lists, add_rule, add_rules, node_of,
  normalize_label, classify_dep, is_external_label, build_snapshot,
}
use toposcope.Extract.Rules.Origin.{nodes-add_edge}
use toposcope.Extract.Rules.Sources.{ComesFrom, add_rules-ComesFrom}

abbrev pub IsDepType : Str → Type 0
IsDepType t = (t ≡ codes "COMPILE") ⊎ (t ≡ codes "RUNTIME") ⊎ (t ≡ codes "DATA")

-- No two edges share a key, each edge starts at a node and has one of the three types, no key of a
-- node stands twice, and each node stands under its own key and is not external.
pub record IsBuilt (nodes : Dict Node) (edges : List Edge) : Type 0 where
  pub distinct : NoDup (map edge_key edges)
  pub from_node : (e : Edge) → In e edges → (has_key e.from nodes ≡ true) × IsDepType e.type
  pub once : NoDup (keys nodes)
  pub own_key : (k : Str) (n : Node) → In (k, n) nodes → (n.key ≡ k) × (n.is_external ≡ false)

-- The keys seen are those of the edges.
record IsOk (b : Building) : Type 0 where
  pub built : IsBuilt b.nodes b.edges
  pub all_seen : b.seen ≡ map edge_key b.edges

map-snoc :
    (es : List Edge) (e : Edge) → map edge_key (es ++ e ∷ []) ≡ map edge_key es ++ edge_key e ∷ []
map-snoc [] e = refl
map-snoc (d ∷ es) e = ap (λ x. edge_key d ∷ x) (map-snoc es e)

add_edge-IsOk :
    (e : Edge) (b : Building)
    → has_key e.from b.nodes ≡ true
    → IsDepType e.type
    → IsOk b
    → IsOk (add_edge e b)
unfolding add_edge
add_edge-IsOk e b h t ok = elim (Bool-cases (contains (edge_key e) b.seen)) [
  | inl old ↦ rw old ok
  | inr new ↦
      let fresh : ¬ In (edge_key e) (map edge_key b.edges) =
        subst (λ x. ¬ In (edge_key e) x) ok.all_seen
          (λ i. cc ((contains_iff (edge_key e) b.seen).1 i)) in
      rw new (record {
        built = record {
          distinct =
              subst NoDup (sym (map-snoc b.edges e))
                (NoDup-concat (edge_key e) (map edge_key b.edges) fresh ok.built.distinct);
          from_node = λ d i. elim ((In-append d b.edges (e ∷ [])).0 i) [
            | inl j ↦ ok.built.from_node d j
            | inr j ↦ elim j [
              | inl p ↦
                  subst (λ x. (has_key x.from b.nodes ≡ true) × IsDepType x.type) (sym p) (h, t)
              | inr r ↦ elim r [ ]
            ]
          ];
          once = ok.built.once;
          own_key = ok.built.own_key;
        };
        all_seen = ap (λ x. x ++ edge_key e ∷ []) ok.all_seen ∙ sym (map-snoc b.edges e);
      })
]

classify_dep_lem :
    (attr : Str) → is_empty (classify_dep attr) ≡ false → IsDepType (classify_dep attr)
unfolding classify_dep is_empty
classify_dep_lem attr h = elim (Bool-cases (str_eq attr (codes "deps"))) [
  | inl e ↦ inl (rw (classify_dep, e))
  | inr e ↦ elim (Bool-cases (str_eq attr (codes "runtime_deps"))) [
    | inl f ↦ inr (inl (rw (classify_dep, e, f)))
    | inr f ↦ elim (Bool-cases (str_eq attr (codes "data"))) [
      | inl g ↦ inr (inr (rw (classify_dep, e, f, g)))
      | inr g ↦ absurd (cc (rw (e, f, g) at h))
    ]
  ]
]

-- The label that is being read is a node.
record Reads (label : Str) (b : Building) : Type 0 where
  pub known : has_key label b.nodes ≡ true
  pub ok : IsOk b

add_edge-Reads :
    (label : Str) (e : Edge) (b : Building)
    → e.from ≡ label
    → IsDepType e.type
    → Reads label b
    → Reads label (add_edge e b)
add_edge-Reads label e b p t r = record {
  known = subst (λ ns. has_key label ns ≡ true) (sym (nodes-add_edge e b)) r.known;
  ok = add_edge-IsOk e b (subst (λ x. has_key x b.nodes ≡ true) (sym p) r.known) t r.ok;
}

module _ (trim_space : Str → Str) where
  add_deps-Reads :
      (label edge_type : Str) (deps : List Str) (b : Building)
      → IsDepType edge_type
      → Reads label b
      → Reads label (add_deps trim_space label edge_type deps b)
  unfolding add_deps
  add_deps-Reads label edge_type [] b t r = r
  add_deps-Reads label edge_type (dep ∷ deps) b t r = elim (Bool-cases (is_external_label dep)) [
    | inl out ↦ rw out (add_deps-Reads label edge_type deps b t r)
    | inr own ↦ rw own (
        add_deps-Reads label edge_type deps _ t (
          add_edge-Reads label
            (record { from = label; to = normalize_label trim_space dep; type = edge_type }) b refl
            t r))
  ]

  add_lists-Reads :
      (label : Str) (ls : List XmlList) (b : Building)
      → Reads label b
      → Reads label (add_lists trim_space label ls b)
  unfolding add_lists
  add_lists-Reads label [] b r = r
  add_lists-Reads label (l ∷ ls) b r = elim (Bool-cases (is_empty (classify_dep l.name))) [
    | inl skip ↦ rw skip (add_lists-Reads label ls b r)
    | inr use_it ↦ rw use_it (
        add_lists-Reads label ls _ (
          add_deps-Reads label (classify_dep l.name) l.labels b (classify_dep_lem l.name use_it) r))
  ]

  insert-IsOk :
      (rule : XmlRule) (b : Building)
      → IsOk b
      → Reads (normalize_label trim_space rule.name) (record b {
        nodes = insert (normalize_label trim_space rule.name) (node_of trim_space rule) b.nodes;
      })
  unfolding node_of
  insert-IsOk rule b ok =
      let label = normalize_label trim_space rule.name in
      let n = node_of trim_space rule in
      record {
        known = grind (arith, has_key-insert label label n b.nodes, str_eq_iff label label);
        ok = record {
          built = record {
            distinct = ok.built.distinct;
            from_node = λ e i. (
              grind (arith, has_key-insert label e.from n b.nodes, (ok.built.from_node e i).0),
              (ok.built.from_node e i).1,
            );
            once = NoDup-keys-insert label n b.nodes ok.built.once;
            own_key = λ k w i. elim (In-insert k label w n b.nodes i) [
              | inl (p, q) ↦ (ap (λ x. x.key) q ∙ sym p, ap (λ x. x.is_external) q)
              | inr old ↦ ok.built.own_key k w old
            ];
          };
          all_seen = ok.all_seen;
        };
      }

  add_rule-IsOk : (rule : XmlRule) (b : Building) → IsOk b → IsOk (add_rule trim_space rule b)
  unfolding add_rule
  add_rule-IsOk rule b ok = elim (Bool-cases (is_external_label rule.name)) [
    | inl out ↦ rw out ok
    | inr own ↦ rw own (
        (add_lists-Reads (normalize_label trim_space rule.name) rule.lists _
          (insert-IsOk rule b ok)).ok)
  ]

  add_rules-IsOk :
      (rules : List XmlRule) (b : Building) → IsOk b → IsOk (add_rules trim_space rules b)
  unfolding add_rules
  add_rules-IsOk [] b ok = ok
  add_rules-IsOk (rule ∷ rules) b ok =
      add_rules-IsOk rules (add_rule trim_space rule b) (add_rule-IsOk rule b ok)

  abbrev initial : Building
  initial = record { nodes = []; edges = []; seen = [] }

  initial-IsOk : IsOk initial
  initial-IsOk = record {
    built = record {
      distinct = tt;
      from_node = λ e i. elim i [ ];
      once = tt;
      own_key = λ k n i. elim i [ ];
    };
    all_seen = refl;
  }

  -- The snapshot of any rules has a node for each rule that is not external and no other, under its normalized name,
  -- each key once, of the kind of such a rule and not marked as external. Its edges lead from these rules to the
  -- labels in their deps (COMPILE), runtime_deps (RUNTIME) and data (DATA) that are not external, one for each key
  -- that such a dependency has. A name or label is external if it starts with "@" but not with "@//". The counts of
  -- nodes and edges are those of the snapshot.
  pub build_snapshot-IsBuilt :
      (id : Str) (now ms : ℕ) (rules : List XmlRule) (commit : Str) (scope : List Str)
      → let s = build_snapshot trim_space id now ms rules commit scope in
        IsBuilt s.nodes s.edges
        × ComesFrom trim_space rules s.nodes s.edges
        × (s.stats.node_count ≡ length s.nodes)
        × (s.stats.edge_count ≡ length s.edges)
  unfolding build_snapshot
  build_snapshot-IsBuilt id now ms rules commit scope =
      let ok = add_rules-IsOk rules initial initial-IsOk in
      (ok.built, add_rules-ComesFrom trim_space rules initial refl ok.all_seen, refl, refl)
