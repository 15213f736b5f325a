-- ===== src/Converter.antt =====
-- `IndexConverter` of cpp/src/graphar/util.h, and the two functions of the same names: a place among
-- the edge chunks of one vertex chunk, and its place among all edge chunks.

pub mod RoundTrip
use graph_ar.Base.{ℕ, zero, suc, List, [], ◌∷◌, Result, ok, ◌>>=◌, if◌then◌else◌}
use graph_ar.Base.Int.{ℤ, pos, pos_part, ◌+ℤ◌, ◌-ℤ◌, ltb_ℤ}
use graph_ar.Base.Assoc.{vector_at}

-- The loop over the vertex chunks, for the rest of them, from vertex chunk `i`.
unfoldable pub sum_from : List ℤ → ℕ → ℕ → ℤ → Result ℤ
sum_from nums zero i total = ok total
sum_from nums (suc rest) i total = do
  num ← vector_at nums (pos i)
  sum_from nums rest (suc i) (total +ℤ num)

-- `IndexPairToGlobalChunkIndex`.
unfoldable pub index_pair_to_global_chunk_index : List ℤ → ℤ → ℤ → Result ℤ
index_pair_to_global_chunk_index nums vertex_chunk_index edge_chunk_index = do
  total ← sum_from nums (pos_part vertex_chunk_index) 0 (pos 0)
  ok (total +ℤ edge_chunk_index)

-- The loop of `GlobalChunkIndexToIndexPair`, from vertex chunk `i`; without a match the pair is as it
-- was set before the loop.
unfoldable pub find_pair : List ℤ → ℕ → ℤ → ℤ × ℤ
find_pair [] i global_index = (pos 0, pos 0)
find_pair (num ∷ nums) i global_index =
    let rest = find_pair nums (suc i) (global_index -ℤ num) in
    if ltb_ℤ global_index num then (pos i, global_index) else rest

-- `GlobalChunkIndexToIndexPair`.
unfoldable pub global_chunk_index_to_index_pair : List ℤ → ℤ → ℤ × ℤ
global_chunk_index_to_index_pair nums global_index = find_pair nums 0 global_index
