-- ===== src/Extract/Chunks/Laws.antt =====
-- pkg/extract/subgraph/extractor.go: chunkTargets loses no target, and keeps to the length.
use toposcope.Base.{
  ℕ, ◌+◌, ◌≤◌, ◌≡◌, refl, sym, ap, subst, ◌∙◌, ◌⊎◌, inl, inr, true, false, ◌&&◌, List, [], ◌∷◌,
  ◌++◌, arith, Str, In, In-append, append_assoc, append-nil, length, ltb, Bool-cases,
}
use toposcope.Extract.Chunks.{Chunking, close, is_filled, take_target, take_targets, chunk_targets}

-- The labels with a separator each.
abbrev pub total_len : List Str → ℕ
total_len [] = 0
total_len (t ∷ ts) = (length t + 1) + total_len ts

abbrev pub concat : List (List Str) → List Str
concat [] = []
concat (ts ∷ chunks) = ts ++ concat chunks

-- A chunk keeps to the length, unless it is a single target that is too long by itself.
abbrev pub Fits : ℕ → List Str → Type 0
Fits max_len ts = (total_len ts ≤ max_len) ⊎ ((t : Str) × (ts ≡ t ∷ []))

total_len-append : (ss ts : List Str) → total_len (ss ++ ts) ≡ total_len ss + total_len ts
total_len-append [] ts = omega arith
total_len-append (s ∷ ss) ts = omega (arith, total_len-append ss ts)

concat-append : (cs ds : List (List Str)) → concat (cs ++ ds) ≡ concat cs ++ concat ds
concat-append [] ds = refl
concat-append (ts ∷ cs) ds = rw (concat-append cs ds, append_assoc) refl

-- What holds after some targets have been taken.
record IsChunked (max_len : ℕ) (done : List Str) (c : Chunking) : Type 0 where
  pub all : concat c.chunks ++ c.current ≡ done
  pub counted : c.current_len ≡ total_len c.current
  pub closed_fit : (ts : List Str) → In ts c.chunks → Fits max_len ts × (is_filled ts ≡ true)
  pub current_fits : Fits max_len c.current ⊎ (c.current ≡ [])

concat-snoc : (cs : List (List Str)) (ts : List Str) → concat (cs ++ ts ∷ []) ≡ concat cs ++ ts
concat-snoc cs ts = concat-append cs (ts ∷ []) ∙ ap (λ x. concat cs ++ x) (append-nil ts)

filled : (ts : List Str) → is_filled ts ≡ false → ts ≡ []
unfolding is_filled
filled [] h = refl
filled (t ∷ ts) h = absurd (cc)

closing :
    (max_len : ℕ) (done : List Str) (t : Str) (c : Chunking)
    → IsChunked max_len done c
    → is_filled c.current ≡ true
    → IsChunked max_len (done ++ t ∷ []) (record {
      chunks = c.chunks ++ c.current ∷ [];
      current = t ∷ [];
      current_len = length t + 1;
    })
unfolding is_filled
closing max_len done t c i full = record {
  all = ap (λ x. x ++ t ∷ []) (concat-snoc c.chunks c.current ∙ i.all);
  counted = omega arith;
  closed_fit = λ ts h. elim ((In-append ts c.chunks (c.current ∷ [])).0 h) [
    | inl old ↦ i.closed_fit ts old
    | inr new ↦ elim new [
      | inl e ↦
          subst (λ x. Fits max_len x × (is_filled x ≡ true)) (sym e)
            (
              elim i.current_fits [
                | inl fits ↦ fits
                | inr empty ↦ absurd (cc (ap is_filled empty))
              ],
              full,
            )
      | inr r ↦ elim r [ ]
    ]
  ];
  current_fits = inl (inr (t, refl));
}

extending :
    (max_len : ℕ) (done : List Str) (t : Str) (c : Chunking)
    → IsChunked max_len done c
    → (c.current_len + (length t + 1) ≤ max_len) ⊎ (c.current ≡ [])
    → IsChunked max_len (done ++ t ∷ []) (record {
      chunks = c.chunks;
      current = c.current ++ t ∷ [];
      current_len = c.current_len + (length t + 1);
    })
extending max_len done t c i small = record {
  all = sym (append_assoc (concat c.chunks) c.current (t ∷ [])) ∙ ap (λ x. x ++ t ∷ []) i.all;
  counted = let n = i.counted in omega (arith, n, total_len-append c.current (t ∷ []));
  closed_fit = i.closed_fit;
  current_fits = inl (elim small [
    | inl fits ↦
        let n = i.counted in inl (omega (arith, n, fits, total_len-append c.current (t ∷ [])))
    | inr empty ↦ inr (t, ap (λ x. x ++ t ∷ []) empty)
  ]);
}

take_target-IsChunked :
    (max_len : ℕ) (done : List Str) (t : Str) (c : Chunking)
    → IsChunked max_len done c
    → IsChunked max_len (done ++ t ∷ []) (take_target max_len t c)
unfolding take_target
take_target-IsChunked max_len done t c i = elim (Bool-cases (is_filled c.current)) [
  | inr empty ↦
      let miss : (ltb max_len (c.current_len + (length t + 1)) && is_filled c.current) ≡ false =
        ground arith in
      rw miss (extending max_len done t c i (inr (filled c.current empty)))
  | inl full ↦ elim (Bool-cases (ltb max_len (c.current_len + (length t + 1)))) [
    | inl long ↦
        let hit : (ltb max_len (c.current_len + (length t + 1)) && is_filled c.current) ≡ true =
          ground arith in
        rw hit (closing max_len done t c i full)
    | inr short ↦
        let miss : (ltb max_len (c.current_len + (length t + 1)) && is_filled c.current) ≡ false =
          ground arith in
        rw miss (extending max_len done t c i (inl (ground arith)))
  ]
]

take_targets-IsChunked :
    (max_len : ℕ) (done ts : List Str) (c : Chunking)
    → IsChunked max_len done c
    → IsChunked max_len (done ++ ts) (take_targets max_len ts c)
unfolding take_targets
take_targets-IsChunked max_len done [] c i = rw (append-nil done) i
take_targets-IsChunked max_len done (t ∷ ts) c i =
    subst (λ x. IsChunked max_len x (take_targets max_len ts (take_target max_len t c)))
      (append_assoc done (t ∷ []) ts)
      (take_targets-IsChunked max_len (done ++ t ∷ []) ts (take_target max_len t c)
        (take_target-IsChunked max_len done t c i))

close_lem :
    (max_len : ℕ) (done : List Str) (chunks : List (List Str)) (current : List Str)
    → concat chunks ++ current ≡ done
    → ((ts : List Str) → In ts chunks → Fits max_len ts × (is_filled ts ≡ true))
    → Fits max_len current ⊎ (current ≡ [])
    → (concat (close chunks current) ≡ done)
      × ((ts : List Str) → In ts (close chunks current) → Fits max_len ts × (is_filled ts ≡ true))
unfolding close is_filled
close_lem max_len done chunks [] e f g = (sym (append-nil (concat chunks)) ∙ e, f)
close_lem max_len done chunks (t ∷ ts) e f g = (
  concat-snoc chunks (t ∷ ts) ∙ e,
  λ us h. elim ((In-append us chunks ((t ∷ ts) ∷ [])).0 h) [
    | inl old ↦ f us old
    | inr new ↦ elim new [
      | inl p ↦
          subst (λ x. Fits max_len x × (is_filled x ≡ true)) (sym p)
            (elim g [ inl fits ↦ fits | inr empty ↦ absurd (cc) ], refl)
      | inr r ↦ elim r [ ]
    ]
  ],
)

-- The chunks hold the targets in order, each once. Where there is a target no chunk is empty, and
-- each keeps to the length, with a separator for each label, or is a single target.
pub chunk_targets_lem :
    (targets : List Str) (max_len : ℕ)
    → (concat (chunk_targets targets max_len) ≡ targets)
      × (is_filled targets ≡ true
          → (ts : List Str) → In ts (chunk_targets targets max_len)
          → Fits max_len ts × (is_filled ts ≡ true))
unfolding chunk_targets is_filled
chunk_targets_lem [] max_len = (refl, λ h. absurd (cc))
chunk_targets_lem (t ∷ ts) max_len =
    let start : IsChunked max_len [] (record { chunks = []; current = []; current_len = 0 }) =
      record {
        all = refl;
        counted = refl;
        closed_fit = λ us h. elim h [ ];
        current_fits = inr refl;
      } in
    let i = take_targets-IsChunked max_len [] (t ∷ ts) _ start in
    let (e, f) = close_lem max_len (t ∷ ts) _ _ i.all i.closed_fit i.current_fits in (e, λ _. f)
