-- ===== src/Reader/Vertex/Bounds.antt =====
-- Which vertices `VertexPropertyChunkInfoReader` finds (chunk_info_reader.cc).
use graph_ar.Base.{
  ℕ, suc, ◌*◌, ◌/◌, ◌≤◌, ◌≡◌, ◌↔◌, ok, err, status, index_error, ltb, if◌then◌else◌, arith,
}
use graph_ar.Base.Int.{pos, negsuc}
use graph_ar.Reader.Vertex.{VertexReader, seek}
use native.Mathlib.Nat.{le-div_iff_mul-le}

-- Where the chunk size is positive, a seek goes to the chunk of the vertex, and it succeeds exactly
-- for the ids below the number of chunks times the chunk size.
pub vertex_seek_lem :
    (r : VertexReader) (size chunks id : ℕ)
    → r.vertex_info.chunk_size ≡ pos (suc size)
    → r.chunk_num ≡ pos chunks
    → seek r (pos id) ≡ (
      record r { chunk_index = pos (id / suc size) },
      if ltb id (chunks * suc size) then ok tt else err (status index_error),
    )
unfolding seek
vertex_seek_lem r size chunks id sized counted =
    let law : (chunks ≤ id / suc size) ↔ (chunks * suc size ≤ id) =
      le-div_iff_mul-le (omega arith) in
    ground (arith, sized, counted, law.0, law.1)

-- Where the chunk size is positive and there is a chunk, a seek to any negative id succeeds, although
-- its error message says that the ids begin at 0.
pub vertex_seek_negative :
    (r : VertexReader) (size chunks k : ℕ)
    → r.vertex_info.chunk_size ≡ pos (suc size)
    → r.chunk_num ≡ pos (suc chunks)
    → (seek r (negsuc k)).1 ≡ ok tt
unfolding seek
vertex_seek_negative r size chunks k sized counted = ground (arith, sized, counted)
