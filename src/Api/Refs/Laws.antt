-- ===== src/Api/Refs/Laws.antt =====
-- internal/ingestion/service.go writes the storage references, and internal/api reads them.
use toposcope.Base.{
  ℕ, ◌-◌, Str, true, false, [], ◌∷◌, ◌++◌, append_assoc, none, some, ◌≡◌, refl, sym, ap, ◌∙◌, inl,
  inr, arith, ◌==◌, ==_iff, In, In-append, codes, is_empty, has_suffix, has_prefix_iff, trim_suffix,
  take, length, length-append, Bool-cases,
}
use mathlib.Core.List.{reverse, reverse-append}
use toposcope.Extract.Rules.{split_last, strip_slashes, last_element}
use toposcope.Ingestion.Store.{snapshot_ref, delta_ref}
use toposcope.Api.Refs.{without_ext, storage_id_from_ref, blob_id}

split_last-absent : (sep : ℕ) (s : Str) → ¬ In sep s → split_last sep s ≡ none
unfolding split_last
split_last-absent sep [] h = refl
split_last-absent sep (c ∷ s) h =
    let e = split_last-absent sep s (λ i. h (inr i)) in
    let other : (c == sep) ≡ false = elim (Bool-cases (c == sep)) [
      | inl p ↦ absurd (h (inl (sym ((==_iff c sep).0 p))))
      | inr p ↦ p
    ] in
    rw (e, split_last, other) refl

split_last-append : (sep : ℕ) (p s : Str) → ¬ In sep s → split_last sep (p ++ sep ∷ s) ≡ some (p, s)
unfolding split_last
split_last-append sep [] s h =
    let e = split_last-absent sep s h in
    let same : (sep == sep) ≡ true = (==_iff sep sep).1 refl in rw (split_last, e, same) refl
split_last-append sep (c ∷ p) s h = rw (split_last, split_last-append sep p s h) refl

strip_slashes-append :
    (p : Str) (c : ℕ) (s : Str)
    → strip_slashes (c ∷ s) ≡ c ∷ s
    → strip_slashes (p ++ c ∷ s) ≡ p ++ c ∷ s
unfolding strip_slashes is_empty
strip_slashes-append [] c s h = h
strip_slashes-append (d ∷ []) c s h = rw (strip_slashes, h) refl
strip_slashes-append (d ∷ e ∷ p) c s h = rw (strip_slashes, strip_slashes-append (e ∷ p) c s h) refl

last_element_parts :
    (s p file : Str)
    → s ≡ p ++ b'/' ∷ file
    → strip_slashes s ≡ s
    → ¬ In b'/' file
    → last_element s ≡ file
unfolding last_element
last_element_parts [] [] file e h n = absurd (cc)
last_element_parts [] (c ∷ p) file e h n = absurd (cc)
last_element_parts (c ∷ s) p file e h n =
    let parts : split_last b'/' (c ∷ s) ≡ some (p, file) =
      ap (split_last b'/') e ∙ split_last-append b'/' p file n in
    rw (last_element, h, parts) refl

abbrev json : Str
json = codes ".json"

-- A reference "kind/tenant/id.json" ends in "id.json".
last_element-ref :
    (c : ℕ) (p id : Str) → ¬ In b'/' id → last_element (c ∷ (p ++ b'/' ∷ (id ++ json))) ≡ id ++ json
unfolding strip_slashes is_empty
last_element-ref c p id n =
    last_element_parts (c ∷ (p ++ b'/' ∷ (id ++ json))) (c ∷ p) (id ++ json) refl
      (ap strip_slashes (sym (append_assoc (c ∷ p) (b'/' ∷ id) json))
        ∙ strip_slashes-append ((c ∷ p) ++ b'/' ∷ id) b'.' (codes "json") refl
        ∙ append_assoc (c ∷ p) (b'/' ∷ id) json)
      (λ h. elim ((In-append b'/' id json).0 h) [ inl i ↦ n i | inr i ↦ ground arith ])

split_ext : (id : Str) → split_last b'.' (id ++ json) ≡ some (id, codes "json")
split_ext id = split_last-append b'.' id (codes "json") (λ h. ground arith)

take-append : (p q : Str) → take (length p) (p ++ q) ≡ p
take-append [] q = refl
take-append (c ∷ p) q = ap (λ x. c ∷ x) (take-append p q)

trim_suffix-append : (p q : Str) → trim_suffix (p ++ q) q ≡ p
unfolding trim_suffix has_suffix
trim_suffix-append p q =
    let hit : has_suffix (p ++ q) q ≡ true =
      (has_prefix_iff (reverse (p ++ q)) (reverse q)).1 (reverse p, reverse-append p q) in
    let n : length (p ++ q) - length q ≡ length p = omega (arith, length-append p q) in
    rw (hit, n) (take-append p q)

-- The identifier of a blob is read back from the reference to it, by both readers and from both
-- kinds of reference, where it holds no '/'.
pub storage_refs_lem :
    (tenant_id id row_id : Str)
    → ¬ In b'/' id
    → (storage_id_from_ref (snapshot_ref tenant_id id) ≡ id)
      × (storage_id_from_ref (delta_ref tenant_id id) ≡ id)
      × (blob_id row_id (snapshot_ref tenant_id id) ≡ id)
unfolding storage_id_from_ref blob_id snapshot_ref delta_ref
storage_refs_lem t id row_id n =
    let snapshots : last_element (snapshot_ref t id) ≡ id ++ json =
      last_element-ref b's' (codes "napshots/" ++ t) id n in
    let deltas : last_element (delta_ref t id) ≡ id ++ json =
      last_element-ref b'd' (codes "eltas/" ++ t) id n in
    (
      ap (λ x. without_ext x (split_last b'.' x)) snapshots
          ∙ ap (without_ext (id ++ json)) (split_ext id),
      ap (λ x. without_ext x (split_last b'.' x)) deltas
          ∙ ap (without_ext (id ++ json)) (split_ext id),
      ap (λ x. trim_suffix x json) snapshots ∙ trim_suffix-append id json,
    )
