-- ===== src/Builder/Vertices/Saved.antt =====
-- What `Dump` of high-level/vertices_builder.h leaves of a builder, and what may follow it.
use graph_ar.Base.{[], true, ◌≡◌, ok, err, status, invalid, refl, arith, subst, sym}
use graph_ar.Base.Int.{ℤ, ◌+ℤ◌}
use graph_ar.Reader.Steps.{with_value-ok}
use graph_ar.Writer.{ValidateLevel, effective, IsChecked}
use graph_ar.Builder.Vertices.{
  Vertex, VerticesBuilder, VertexSink, Table, add_vertex, validate, dump, dump_start, dump_with,
}

-- The builder that an OK `Dump` leaves: saved and without vertices, and else as it was.
abbrev pub saved : VerticesBuilder → VerticesBuilder
saved b = record b { is_saved = true; vertices = [] }

module _ (sink : VertexSink) (b : VerticesBuilder) where
  abbrev IsSaved : VerticesBuilder × sink.Files → Type 0
  IsSaved r = r.0 ≡ saved b

  dump_with-IsSaved :
      (writer : sink.Writer) (start_chunk_index : ℤ) (table : Table) (files : sink.Files)
      → (dump_with sink b writer start_chunk_index table files).1 ≡ ok tt
      → IsSaved (dump_with sink b writer start_chunk_index table files).0
  unfolding dump_with
  dump_with-IsSaved writer start_chunk_index table files h =
      let written = sink.write_table writer table start_chunk_index files in
      let counted =
        sink.write_vertices_num writer (b.num_vertices +ℤ b.start_vertex_index) written.0 in
      with_value-ok IsSaved (b, written.0) written.1 _
        (λ t _.
          with_value-ok IsSaved (b, counted.0) counted.1 (λ u. ((saved b, counted.0), ok tt))
            (λ u _ _. refl))
        h

  dump-IsSaved :
      (files : sink.Files) → (dump sink b files).1 ≡ ok tt → (dump sink b files).0.0 ≡ saved b
  unfolding dump
  dump-IsSaved files h =
      with_value-ok IsSaved (b, files) (dump_start sink b)
        (λ (writer, i, table). dump_with sink b writer i table files)
        (λ (writer, i, table) _. dump_with-IsSaved writer i table files) h

add_vertex-saved :
    (c : VerticesBuilder) (v : Vertex) (index : ℤ) (level : ValidateLevel)
    → c.is_saved ≡ true
    → IsChecked (effective c.validate_level level)
    → add_vertex c v index level ≡ (c, err (status invalid))
unfolding add_vertex validate
add_vertex-saved c v index level h k =
    let refused : validate c v index level ≡ err (status invalid) = ground (arith, h, k) in
    rw refused refl

-- After a `Dump` that is OK the builder has no vertex, and `AddVertex` at any level but without
-- validation refuses every vertex as invalid and changes nothing.
pub dump-add_vertex :
    (sink : VertexSink) (b : VerticesBuilder) (files : sink.Files) (v : Vertex) (index : ℤ)
    (level : ValidateLevel)
    → (dump sink b files).1 ≡ ok tt
    → IsChecked (effective b.validate_level level)
    → let c = (dump sink b files).0.0 in
      (c.vertices ≡ []) × (add_vertex c v index level ≡ (c, err (status invalid)))
dump-add_vertex sink b files v index level h k =
    let same = dump-IsSaved sink b files h in
    subst
      (λ (c : VerticesBuilder).
        (c.vertices ≡ []) × (add_vertex c v index level ≡ (c, err (status invalid))))
      (sym same) (refl, add_vertex-saved (saved b) v index level refl k)
