-- ===== src/Extract/Chunks.antt =====
-- pkg/extract/subgraph/extractor.go: chunkTargets, which keeps a query below a length.
pub mod Laws
use toposcope.Base.{
  ℕ, ◌+◌, Str, List, [], ◌∷◌, ◌++◌, length, ltb, not, ◌&&◌, Bool, true, false, if◌then◌else◌,
}

-- `chunks`, `current` and `currentLen`.
pub record Chunking : Type 0 where
  pub chunks : List (List Str)
  pub current : List Str
  pub current_len : ℕ

-- if len(current) > 0 { chunks = append(chunks, current) }
unfoldable pub close : List (List Str) → List Str → List (List Str)
close chunks [] = chunks
close chunks (t ∷ ts) = chunks ++ (t ∷ ts) ∷ []

unfoldable pub is_filled : List Str → Bool
is_filled [] = false
is_filled (t ∷ ts) = true

-- The body of the loop.
unfoldable pub take_target : ℕ → Str → Chunking → Chunking
unfolding is_filled
take_target max_len t c =
    let t_len = length t + 1 in
    if ltb max_len (c.current_len + t_len) && is_filled c.current
    then record { chunks = c.chunks ++ c.current ∷ []; current = t ∷ []; current_len = t_len }
    else record {
      chunks = c.chunks;
      current = c.current ++ t ∷ [];
      current_len = c.current_len + t_len;
    }

unfoldable pub take_targets : ℕ → List Str → Chunking → Chunking
unfolding take_target
take_targets max_len [] c = c
take_targets max_len (t ∷ ts) c = take_targets max_len ts (take_target max_len t c)

unfoldable pub chunk_targets : List Str → ℕ → List (List Str)
unfolding close take_targets
chunk_targets [] max_len = [] ∷ []
chunk_targets (t ∷ ts) max_len =
    let c = take_targets max_len (t ∷ ts) (record { chunks = []; current = []; current_len = 0 }) in
    close c.chunks c.current
