-- ===== src/ReaderUtil/Counts.antt =====
-- The chunk counts of reader_util.cc against the counts of vertices and edges.
use graph_ar.Base.{ℕ, suc, ◌≤◌, ◌*◌, ◌/◌, ◌+◌, ◌≡◌, ◌↔◌, ok, arith, ◌>>=◌, ◌∙◌}
use native.Mathlib.Nat.{le-div_iff_mul-le}
use graph_ar.Base.Text.{Text}
use graph_ar.Base.Int.{ℤ, pos}
use graph_ar.Types.{AdjListType}
use graph_ar.EdgeInfo.{EdgeInfo}
use graph_ar.VertexInfo.{VertexInfo}
use graph_ar.Storage.{Storage}
use graph_ar.ReaderUtil.{
  chunk_count, get_edge_num, get_edge_chunk_num, get_vertex_num, get_vertex_chunk_num,
}

chunk_count_pos : (n c : ℕ) → chunk_count (pos n) (pos (suc c)) ≡ ok (pos ((n + c) / suc c))
chunk_count_pos n c = ground arith

ceiling_iff : (n c j : ℕ) → (n ≤ j * suc c) ↔ ((n + c) / suc c ≤ j)
ceiling_iff n c j =
    let law : (suc j ≤ (n + c) / suc c) ↔ (suc j * suc c ≤ n + c) =
      le-div_iff_mul-le (omega arith) in
    (λ h. ground (arith, law.0), λ h. ground (arith, law.1))

-- The number of chunks that a count of items needs: so many chunks hold the items, and fewer do not.
abbrev pub IsNeeded : ℕ → ℕ → ℕ → Type 0
IsNeeded num chunk_size k = (j : ℕ) → (num ≤ j * chunk_size) ↔ (k ≤ j)

chunk_count_lem :
    (n c : ℕ) → (k : ℕ) × (chunk_count (pos n) (pos (suc c)) ≡ ok (pos k)) × IsNeeded n (suc c) k
chunk_count_lem n c = ((n + c) / suc c, chunk_count_pos n c, ceiling_iff n c)

module _ (storage : Storage) (prefix : Text) where
  get_edge_chunk_num-read :
      (e : EdgeInfo) (t : AdjListType) (i : ℤ)
      → get_edge_chunk_num storage prefix e t i
        ≡ (get_edge_num storage prefix e t i >>= λ num. chunk_count num e.chunk_size)
  unfolding get_edge_chunk_num get_edge_num
  get_edge_chunk_num-read e t i = ground arith

  get_vertex_chunk_num-read :
      (v : VertexInfo)
      → get_vertex_chunk_num storage prefix v
        ≡ (get_vertex_num storage prefix v >>= λ num. chunk_count num v.chunk_size)
  unfolding get_vertex_chunk_num get_vertex_num
  get_vertex_chunk_num-read v = ground arith

  -- Where `GetEdgeNum` reads a count of edges that is not negative, and the chunk size is positive,
  -- `GetEdgeChunkNum` gives the least number of chunks that hold so many edges.
  pub get_edge_chunk_num_lem :
      (e : EdgeInfo) (t : AdjListType) (vertex_chunk_index : ℤ) (num size : ℕ)
      → get_edge_num storage prefix e t vertex_chunk_index ≡ ok (pos num)
      → e.chunk_size ≡ pos (suc size)
      → (k : ℕ) × (get_edge_chunk_num storage prefix e t vertex_chunk_index ≡ ok (pos k))
        × IsNeeded num (suc size) k
  get_edge_chunk_num_lem e t i num size read sized =
      let (k, count, needed) = chunk_count_lem num size in
      (k, get_edge_chunk_num-read e t i ∙ rw (read, sized) count, needed)

  -- Where `GetVertexNum` reads a count of vertices that is not negative, and the chunk size is
  -- positive, `GetVertexChunkNum` gives the least number of chunks that hold so many vertices.
  pub get_vertex_chunk_num_lem :
      (v : VertexInfo) (num size : ℕ)
      → get_vertex_num storage prefix v ≡ ok (pos num)
      → v.chunk_size ≡ pos (suc size)
      → (k : ℕ) × (get_vertex_chunk_num storage prefix v ≡ ok (pos k)) × IsNeeded num (suc size) k
  get_vertex_chunk_num_lem v num size read sized =
      let (k, count, needed) = chunk_count_lem num size in
      (k, get_vertex_chunk_num-read v ∙ rw (read, sized) count, needed)
