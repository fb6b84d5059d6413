-- ===== src/Graph/Diff/Changes.antt =====
-- pkg/graph/delta.go: what ComputeDelta returns.
use toposcope.Base.{
  ◌≡◌, refl, sym, ap, ◌∙◌, ◌↔◌, inl, inr, true, [], ◌∷◌, ◌++◌, none, some, Str, Dict, keys, In,
  lookup, has_key, NoDup, In-iff_lookup, lookup-eq-none, length, has_key_iff, append_assoc,
}
use toposcope.Graph.{Node, Edge, Snapshot, edge_key}
use toposcope.Graph.Diff.{compute_delta, absent, edge_map}
use toposcope.Graph.Diff.Edges.{
  In-absent, In-edges_absent, AllPlain, edges_absent_sound, edges_absent_complete, has_key-edge_map,
}

-- The added nodes are the nodes of the head whose key the base lacks, and the removed nodes those of
-- the base whose key the head lacks, where no key stands twice in a node map.
pub nodes-compute_delta :
    (i : Str) (base head : Snapshot) (n : Node)
    → NoDup (keys base.nodes)
    → NoDup (keys head.nodes)
    → (In n (compute_delta i base head).added_nodes
        ↔ ((k : Str) × (lookup k head.nodes ≡ some n) × (lookup k base.nodes ≡ none)))
      × (In n (compute_delta i base head).removed_nodes
          ↔ ((k : Str) × (lookup k base.nodes ≡ some n) × (lookup k head.nodes ≡ none)))
unfolding compute_delta
nodes-compute_delta i base head n db dh =
    (side head.nodes base.nodes dh, side base.nodes head.nodes db)
  where
    side :
        (m other : Dict Node)
        → NoDup (keys m)
        → In n (absent m other) ↔ ((k : Str) × (lookup k m ≡ some n) × (lookup k other ≡ none))
    side m other d = (
      λ h.
          let (k, p, q) = (In-absent m other n).0 h in
          (k, (In-iff_lookup k n m d).0 p, (lookup-eq-none k other).1 q),
      λ (k, p, q).
          (In-absent m other n).1 (k, (In-iff_lookup k n m d).1 p, (lookup-eq-none k other).0 q),
    )

-- Where no label holds a '|', the added edges are the edges of the head that the base lacks, and the
-- removed edges those of the base that the head lacks, by the triple of source, target and type.
pub edges-compute_delta :
    (i : Str) (base head : Snapshot) (e : Edge)
    → AllPlain base.edges
    → AllPlain head.edges
    → (In e (compute_delta i base head).added_edges ↔ (In e head.edges × (¬ In e base.edges)))
      × (In e (compute_delta i base head).removed_edges ↔ (In e base.edges × (¬ In e head.edges)))
unfolding compute_delta
edges-compute_delta i base head e pb ph =
    (In-edges_absent head.edges base.edges e ph pb, In-edges_absent base.edges head.edges e pb ph)

-- With any labels, the keys of the added edges are the edge keys of the head that the base lacks.
pub edge_keys-compute_delta :
    (i : Str) (base head : Snapshot) (k : Str)
    → ((e : Edge) × In e (compute_delta i base head).added_edges × (edge_key e ≡ k)) ↔ (
        ((e : Edge) × In e head.edges × (edge_key e ≡ k))
        × (¬ ((e : Edge) × In e base.edges × (edge_key e ≡ k))))
unfolding compute_delta
edge_keys-compute_delta i base head k = (
  λ (e, h, q).
      let (member, fresh) = edges_absent_sound head.edges base.edges e h in
      ((e, member, q), λ (d, j, r). fresh d j (r ∙ sym q)),
  λ ((e, member, q), fresh).
      let (d, h, r) =
        edges_absent_complete head.edges base.edges e member (λ x j same. fresh (x, j, same ∙ q)) in
      (d, h, r ∙ q),
)

absent_self {ℓ κ} :
    {V : Type ℓ} {U : Type κ} (m : Dict V) (other : Dict U)
    → ((k : Str) → In k (keys m) → has_key k other ≡ true)
    → absent m other ≡ []
unfolding absent
absent_self [] other h = refl
absent_self ((k, v) ∷ m) other h = rw (h k (inl refl)) (absent_self m other (λ j i. h j (inr i)))

-- The delta of a snapshot with itself is empty, and so are its counts.
pub compute_delta_self :
    (i : Str) (s : Snapshot)
    → ((compute_delta i s s).added_nodes ≡ [])
      × ((compute_delta i s s).removed_nodes ≡ [])
      × ((compute_delta i s s).added_edges ≡ [])
      × ((compute_delta i s s).removed_edges ≡ [])
      × ((compute_delta i s s).stats.added_node_count ≡ 0)
      × ((compute_delta i s s).stats.added_edge_count ≡ 0)
unfolding compute_delta
compute_delta_self i s =
    let ns = absent_self s.nodes s.nodes (λ k m. (has_key_iff k s.nodes).1 m) in
    let m = edge_map s.edges in
    let es = absent_self m m (λ k j. (has_key_iff k m).1 j) in
    (ns, ns, es, es, ap length ns, ap length es)

-- Where the '|' falls does not show in the key.
edge_key_shift :
    (a b c t : Str)
    → edge_key (record { from = a ++ b'|' ∷ b; to = c; type = t })
      ≡ edge_key (record { from = a; to = b ++ b'|' ∷ c; type = t })
unfolding edge_key
edge_key_shift a b c t = simp append_assoc

absent_same_key :
    (d e : Edge) → edge_key d ≡ edge_key e → absent (edge_map (d ∷ [])) (edge_map (e ∷ [])) ≡ []
absent_same_key d e q = absent_self (edge_map (d ∷ [])) (edge_map (e ∷ [])) (λ k i.
    let (x, j, r) = (has_key-edge_map k (d ∷ [])).0 ((has_key_iff k (edge_map (d ∷ []))).1 i) in
    let same : x ≡ d = elim j [ inl f ↦ f | inr f ↦ elim f [ ] ] in
    (has_key-edge_map k (e ∷ [])).1 (e, inl refl, sym q ∙ ap edge_key (sym same) ∙ r))

-- Two edges that differ only in where a '|' falls have one key, so that a change of one into the
-- other is no change to ComputeDelta: it does not compare the triples.
pub compute_delta_confuses :
    (i a b c t : Str) (base head : Snapshot)
    → base.edges ≡ record { from = a ++ b'|' ∷ b; to = c; type = t } ∷ []
    → head.edges ≡ record { from = a; to = b ++ b'|' ∷ c; type = t } ∷ []
    → ((compute_delta i base head).added_edges ≡ [])
      × ((compute_delta i base head).removed_edges ≡ [])
unfolding compute_delta
compute_delta_confuses i a b c t base head p q =
    let same = edge_key_shift a b c t in
    rw (p, q) (absent_same_key _ _ (sym same), absent_same_key _ _ same)
