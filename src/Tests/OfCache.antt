-- ===== src/Tests/OfCache.antt =====
-- internal/api/cache.go on a cache for two texts.
use toposcope.Base.{
  ℕ, ◌≤◌, ◌<◌, [], lookup, ◌≡◌, ◌≢◌, refl, ◌⊎◌, true, false, List, ◌∷◌, none, some, arith, Str,
  codes, length, has_key, str_eq, if◌then◌else◌,
}
use toposcope.Base.Int.{pos}
use toposcope.Cache.{SnapshotCache, size_or_default, new_snapshot_cache, get, put}
use toposcope.Cache.Laws.{IsValid, new_snapshot_cache-IsValid, put-IsValid, found, put_lem}
use toposcope.Cache.History.{fresh, after_put, reached_lem}
use toposcope.Cache.Recency.{get-put_keeps}

abbrev empty_cache : SnapshotCache ℕ
empty_cache = new_snapshot_cache (pos 2)

abbrev one_text : SnapshotCache ℕ
one_text = put (codes "a") 1 empty_cache

abbrev two_texts : SnapshotCache ℕ
two_texts = put (codes "b") 2 one_text

two_texts-IsValid : IsValid two_texts
two_texts-IsValid =
    put-IsValid (codes "b") 2 one_text
      (put-IsValid (codes "a") 1 empty_cache (new_snapshot_cache-IsValid (pos 2)))

found_a : found (codes "a") two_texts ≡ some 1
unfolding get put new_snapshot_cache
found_a = refl

reached_example :
    IsValid two_texts
    × (length two_texts.entries ≤ size_or_default (pos 2))
    × ((j : Str) (b : ℕ)
        → found j two_texts ≡ some b
        → lookup j ((codes "b", 2) ∷ (codes "a", 1) ∷ []) ≡ some b)
reached_example =
    reached_lem (pos 2) ((codes "b", 2) ∷ (codes "a", 1) ∷ []) two_texts
      (after_put (codes "b") 2 (after_put (codes "a") 1 fresh))

put_example :
    (found (codes "c") (put (codes "c") 3 two_texts) ≡ some 3)
    × ((j oldest : Str) (order : List Str)
        → has_key (codes "c") two_texts.entries ≡ false
        → length two_texts.entries ≡ two_texts.max_size
        → two_texts.order ≡ oldest ∷ order
        → codes "c" ≢ j
        → found j (put (codes "c") 3 two_texts)
          ≡ (if str_eq oldest j then none else found j two_texts))
    × ((j : Str)
        → (has_key (codes "c") two_texts.entries ≡ true)
          ⊎ (length two_texts.entries < two_texts.max_size)
        → codes "c" ≢ j
        → found j (put (codes "c") 3 two_texts) ≡ found j two_texts)
put_example = put_lem (codes "c") 3 two_texts two_texts-IsValid

get-put_keeps_example : found (codes "a") (put (codes "c") 3 (get (codes "a") two_texts).1) ≡ some 1
unfolding put new_snapshot_cache
get-put_keeps_example =
    get-put_keeps (codes "a") (codes "c") 1 3 two_texts two_texts-IsValid (ground arith) found_a
      (λ e. ground arith)
