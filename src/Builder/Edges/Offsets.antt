-- ===== src/Builder/Edges/Offsets.antt =====
-- `getOffsetTable` of high-level/edges_builder.cc, over the edges from the index on that it has reached.
use graph_ar.Base.{ℕ, zero, suc, List, [], ◌∷◌, if◌then◌else◌}
use graph_ar.Base.Int.{ℤ, pos, pos_part, ◌+ℤ◌, ◌*ℤ◌, leb_ℤ}
use graph_ar.Types.{AdjListType, ordered_by_source}
use graph_ar.Builder.Edges.Defs.{Edge, EdgesBuilder}

-- The vertex that the offsets go by.
abbrev pub offset_vertex : AdjListType → Edge → ℤ
offset_vertex ordered_by_source e = e.src_id
offset_vertex type e = e.dst_id

module _ (key : Edge → ℤ) where
  -- The `while` loop: the edges whose vertex is at most `i` are passed.
  unfoldable pub passed : ℤ → ℕ → List Edge → ℕ × List Edge
  passed i index [] = (index, [])
  passed i index (e ∷ es) =
      let rest = passed i (suc index) es in if leb_ℤ (key e) i then rest else (index, e ∷ es)

  -- The `for` loop over the vertices of the chunk.
  unfoldable pub offsets : ℕ → ℤ → ℕ → List Edge → List ℕ
  offsets zero i index es = []
  offsets (suc n) i index es =
      let (next, rest) = passed i index es in next ∷ offsets n (i +ℤ pos 1) next rest

-- `getOffsetTable`: its one column.
unfoldable pub get_offset_table : EdgesBuilder → ℤ → List Edge → List ℕ
get_offset_table b vertex_chunk_index edges =
    let begin_index = vertex_chunk_index *ℤ b.vertex_chunk_size in
    0 ∷ offsets (offset_vertex b.adj_list_type) (pos_part b.vertex_chunk_size) begin_index 0 edges
