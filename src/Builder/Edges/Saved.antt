-- ===== src/Builder/Edges/Saved.antt =====
-- What `Dump` of edges_builder.cc leaves of a builder, and what may follow it.
use graph_ar.Writer.{ValidateLevel, IsChecked, effective}
use graph_ar.Base.{
  List, [], ◌∷◌, ◌≡◌, inl, inr, ok, err, refl, arith, All, Result-cases, sym, ap, ◌∙◌, subst, true,
  status, invalid,
}
use graph_ar.Base.Int.{ℤ, pos, pos_part}
use graph_ar.Base.Assoc.{find}
use graph_ar.Reader.Steps.{Step, with_value-ok}
use graph_ar.Builder.Edges.Defs.{
  Edge, EdgesBuilder, Chunks, chunk_Eq, chunk_edges, add_edge, validate,
}
use graph_ar.Builder.Edges.Dump.{
  EdgeSink, convert_to_table, dump_tables, dump_counts_and_tables, dump_chunks, dump,
  dump_edge_nums, with_empty_chunks, dump_ordered, dump_with, dump_start,
}

-- No chunk has an edge left.
abbrev pub IsEmptied : Chunks → Type 0
IsEmptied chunks = All (λ (c : ℤ × List Edge). c.1 ≡ []) chunks

chunk_edges-IsEmptied : (j : ℤ) (chunks : Chunks) → IsEmptied chunks → chunk_edges j chunks ≡ []
unfolding chunk_edges find
chunk_edges-IsEmptied j [] h = refl
chunk_edges-IsEmptied j ((i, es) ∷ chunks) h =
    ground (arith, chunk_edges-IsEmptied j chunks h.1, h.0)

module _ (sink : EdgeSink) (b : EdgesBuilder) (writer : sink.Writer) where
  dump_tables-IsEmptied :
      (chunks : Chunks) (files : sink.Files)
      → (dump_tables sink b writer chunks files).1 ≡ ok tt
      → IsEmptied (dump_tables sink b writer chunks files).0.0
  unfolding dump_tables
  dump_tables-IsEmptied [] files h = tt
  dump_tables-IsEmptied ((i, es) ∷ chunks) files h = elim (Result-cases (convert_to_table b es)) [
    | inr (f, k) ↦ absurd (ground (arith, h, k))
    | inl (t, k) ↦
        let written = sink.write_table writer t i (pos 0) files in
        elim (Result-cases written.1) [
          | inr (f, l) ↦ absurd (ground (arith, h, k, l))
          | inl (u, l) ↦
              let rest = dump_tables sink b writer chunks written.0 in
              let step : dump_tables sink b writer ((i, es) ∷ chunks) files
                  ≡ (((i, []) ∷ rest.0.0, rest.0.1), rest.1) =
                ground (arith, k, l) in
              let ih =
                dump_tables-IsEmptied chunks written.0
                  (sym (ap (λ (r : Step (Chunks × sink.Files)). r.1) step) ∙ h) in
              subst (λ (r : Step (Chunks × sink.Files)). IsEmptied r.0.0) (sym step) (refl, ih)
        ]
  ]

  dump_counts_and_tables-IsEmptied :
      (n : ℤ) (chunks : Chunks) (files : sink.Files)
      → (dump_counts_and_tables sink b writer n chunks files).1 ≡ ok tt
      → IsEmptied (dump_counts_and_tables sink b writer n chunks files).0.0
  unfolding dump_counts_and_tables
  dump_counts_and_tables-IsEmptied n chunks files h =
      let counted = sink.write_vertices_num writer b.num_vertices files in
      let numbered = dump_edge_nums sink writer chunks (pos_part n) (pos 0) counted.0 in
      let Emptied = λ (r : Chunks × sink.Files). IsEmptied r.0 in
      with_value-ok Emptied (chunks, counted.0) counted.1 _
        (λ u _.
          with_value-ok Emptied (chunks, numbered.0) numbered.1 _
            (λ v _. dump_tables-IsEmptied chunks numbered.0))
        h

  dump_chunks-IsEmptied :
      (n : ℤ) (files : sink.Files)
      → (dump_chunks sink b writer n files).1 ≡ ok tt
      → IsEmptied (dump_chunks sink b writer n files).0.0
  unfolding dump_chunks
  dump_chunks-IsEmptied n files h =
      let chunks = with_empty_chunks (pos_part n) (pos 0) b.edges in
      let sorted = dump_ordered sink b writer chunks files in
      with_value-ok (λ (r : Chunks × sink.Files). IsEmptied r.0) sorted.0 sorted.1 _
        (λ u _. dump_counts_and_tables-IsEmptied n sorted.0.0 sorted.0.1) h

-- The builder that an OK `Dump` leaves: saved, with no edge in any chunk, and else as it was.
abbrev pub Saved : EdgesBuilder → EdgesBuilder → Type 0
Saved b c = (c ≡ record b { edges = c.edges; is_saved = true }) × IsEmptied c.edges

dump_with-Saved :
    (sink : EdgeSink) (b : EdgesBuilder) (writer : sink.Writer) (n : ℤ) (files : sink.Files)
    → (dump_with sink b writer n files).1 ≡ ok tt
    → Saved b (dump_with sink b writer n files).0.0
unfolding dump_with
dump_with-Saved sink b writer n files h =
    let r = dump_chunks sink b writer n files in
    with_value-ok (λ (q : EdgesBuilder × sink.Files). Saved b q.0)
      (record b { edges = r.0.0 }, r.0.1) r.1
      (λ u. ((record b { edges = r.0.0; is_saved = true }, r.0.1), ok tt))
      (λ u k _. (refl, dump_chunks-IsEmptied sink b writer n files k)) h

dump-Saved :
    (sink : EdgeSink) (b : EdgesBuilder) (files : sink.Files)
    → (dump sink b files).1 ≡ ok tt
    → Saved b (dump sink b files).0.0
unfolding dump
dump-Saved sink b files h =
    with_value-ok (λ (q : EdgesBuilder × sink.Files). Saved b q.0) (b, files) (dump_start sink b)
      (λ (writer, n). dump_with sink b writer n files)
      (λ (writer, n) _. dump_with-Saved sink b writer n files) h

add_edge-saved :
    (c : EdgesBuilder) (e : Edge) (level : ValidateLevel)
    → c.is_saved ≡ true
    → IsChecked (effective c.validate_level level)
    → add_edge c e level ≡ (c, err (status invalid))
unfolding add_edge validate
add_edge-saved c e level h k =
    let refused : validate c e level ≡ err (status invalid) = ground (arith, h, k) in
    rw refused refl

-- After a `Dump` that is OK no chunk of the builder has an edge, and `AddEdge` at any level but
-- without validation refuses every edge as invalid and changes nothing.
pub dump-add_edge :
    (sink : EdgeSink) (b : EdgesBuilder) (files : sink.Files) (e : Edge) (level : ValidateLevel)
    → (dump sink b files).1 ≡ ok tt
    → IsChecked (effective b.validate_level level)
    → let c = (dump sink b files).0.0 in
      ((j : ℤ) → chunk_edges j c.edges ≡ []) × (add_edge c e level ≡ (c, err (status invalid)))
dump-add_edge sink b files e level h k =
    let c = (dump sink b files).0.0 in
    let (same, emptied) = dump-Saved sink b files h in
    (
      λ j. chunk_edges-IsEmptied j c.edges emptied,
      add_edge-saved c e level (ap (λ (d : EdgesBuilder). d.is_saved) same) (
          subst (λ (l : ValidateLevel). IsChecked (effective l level))
            (sym (ap (λ (d : EdgesBuilder). d.validate_level) same)) k),
    )
