-- ===== src/Query/Rank.antt =====
-- pkg/graphquery/query.go: the nodes with the highest degree, which CapGraph and AggregatePackages keep.
pub mod Laws
use toposcope.Base.{ℕ, ltb, Bool, List, Str, Dict, get_or, map, take}
use toposcope.Base.Sort.{SortSlice}

-- ranked{key, degree[key]}
unfoldable pub rank : Dict ℕ → List Str → List (Str × ℕ)
unfolding get_or
rank degree ks = map (λ k. (k, get_or k degree 0)) ks

unfoldable pub has_more : Str × ℕ → Str × ℕ → Bool
has_more x y = ltb y.1 x.1

-- The keys of `keep`, after the loop over the first `cap` of the sorted slice.
unfoldable pub keep : SortSlice → ℕ → Dict ℕ → List Str → List Str
unfolding rank
keep sort cap degree ks = map (λ x. x.0) (take cap (sort (Str × ℕ) has_more (rank degree ks)))
