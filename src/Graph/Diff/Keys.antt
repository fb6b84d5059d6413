-- ===== src/Graph/Diff/Keys.antt =====
-- pkg/graph/types.go: EdgeKey joins the parts of an edge by '|', and does not escape them.
use toposcope.Base.{
  ℕ, ◌≡◌, sym, ap, inl, inr, [], ◌∷◌, ◌++◌, some, arith, Str, In, before, after, before-append,
}
use toposcope.Graph.{Edge, edge_key}

-- Neither end holds the separator.
pub record IsPlain (e : Edge) : Type 0 where
  pub from_plain : ¬ In b'|' e.from
  pub to_plain : ¬ In b'|' e.to

after-append : (sep : ℕ) (s t : Str) → ¬ In sep s → after sep (s ++ sep ∷ t) ≡ some t
unfolding after
after-append sep [] t h = ground arith
after-append sep (c ∷ s) t h =
    let fresh : ¬ In sep s = λ m. h (inr m) in
    let other : ¬ (c ≡ sep) = λ e. h (inl (sym e)) in ground (arith, after-append sep s t fresh)

split_at :
    (sep : ℕ) (s s' t t' : Str)
    → ¬ In sep s
    → ¬ In sep s'
    → s ++ sep ∷ t ≡ s' ++ sep ∷ t'
    → (s ≡ s') × (t ≡ t')
split_at sep s s' t t' h h' e =
    let heads = ap (before sep) e in
    let tails = ap (after sep) e in
    (
      cc (before-append sep s t h, before-append sep s' t' h', heads),
      cc (after-append sep s t h, after-append sep s' t' h', tails),
    )

-- Two edges whose ends are free of '|' have the same key only if they are the same edge.
pub edge_key-injective : (d e : Edge) → IsPlain d → IsPlain e → edge_key d ≡ edge_key e → d ≡ e
unfolding edge_key
edge_key-injective d e p q h =
    let (froms, rests) = split_at b'|' d.from e.from _ _ p.from_plain q.from_plain h in
    let (tos, types) = split_at b'|' d.to e.to _ _ p.to_plain q.to_plain rests in
    λ i. record { from = froms i; to = tos i; type = types i }
