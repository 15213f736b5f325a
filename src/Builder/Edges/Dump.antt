-- ===== src/Builder/Edges/Dump.antt =====
-- `Dump` of high-level/edges_builder.cc, and the tables that it hands to `EdgeChunkWriter`.
use graph_ar.Base.{
  ℕ, zero, suc, Bool, true, false, List, [], ◌∷◌, ◌++◌, Option, none, some, map, Result, ok, err,
  status, type_error, ◌>>=◌, ◌>>◌, if◌then◌else◌, length, deref,
}
use graph_ar.Base.Text.{Text}
use graph_ar.Base.Int.{ℤ, pos, pos_part, ◌+ℤ◌}
use graph_ar.Base.Assoc.{emplace}
use graph_ar.Types.{
  TypeId, id, AdjListType, unordered_by_source, unordered_by_dest, ordered_by_source,
  ordered_by_dest, other,
}
use graph_ar.Property.{Property, PropertyGroup}
use graph_ar.EdgeInfo.{EdgeInfo}
use graph_ar.ReaderUtil.{chunk_count}
use graph_ar.Reader.Steps.{Step, with_value}
use graph_ar.Writer.{ValidateLevel}
use graph_ar.Builder.{CppType, Column, cell, stored_as, arrow_type}
use graph_ar.Builder.Edges.Defs.{
  Edge, EdgesBuilder, Chunks, chunk_Eq, chunk_edges, cmp_src, cmp_dst,
}
use graph_ar.Builder.Edges.Offsets.{get_offset_table}

-- A table of edges: the two index columns, and the columns of the properties by their names.
pub record EdgeTable : Type 0 where
  pub src_index : List ℤ
  pub dst_index : List ℤ
  pub columns : List (Text × Column)

-- `tryToAppend` for a type of value.
unfoldable pub try_to_append : CppType → Text → List Edge → Result Column
try_to_append t name [] = ok []
try_to_append t name (e ∷ es) = do
  value ← cell t name e.empty e.properties
  rest ← try_to_append t name es
  ok (value ∷ rest)

-- `appendToArray`.
unfoldable pub append_to_array : TypeId → Text → List Edge → Result Column
append_to_array type name es = elim (stored_as type) [
  | none ↦ err (status type_error)
  | some t ↦ try_to_append t name es
]

-- `tryToAppend` for the sources or the destinations.
unfoldable pub append_indices : Bool → List Edge → List ℤ
append_indices src es = map (λ (e : Edge). if src then e.src_id else e.dst_id) es

-- The columns of the properties of one group.
unfoldable pub property_columns : List Edge → List Property → Result (List (Text × Column))
property_columns es [] = ok []
property_columns es (p ∷ ps) = do
  type ← deref p.type
  arrow_type type.target
  column ← append_to_array (id type.target) p.name es
  rest ← property_columns es ps
  ok ((p.name, column) ∷ rest)

unfoldable pub group_columns :
    List Edge → List (Option PropertyGroup) → Result (List (Text × Column))
group_columns es [] = ok []
group_columns es (pg ∷ pgs) = do
  group ← deref pg
  columns ← property_columns es group.properties
  rest ← group_columns es pgs
  ok (columns ++ rest)

-- `convertToTable`: what is handed to `arrow::Table::Make`.
unfoldable pub convert_to_table : EdgesBuilder → List Edge → Result EdgeTable
convert_to_table b es = do
  columns ← group_columns es b.edge_info.property_groups
  ok (record {
    src_index = append_indices true es;
    dst_index = append_indices false es;
    columns = columns;
  })

-- What `Dump` asks of `EdgeChunkWriter`, of the files that it writes, and of `std::sort`.
pub record EdgeSink : Type 1 where
  pub Files : Type 0
  pub Writer : Type 0
  pub sort : (Edge → Edge → Bool) → List Edge → List Edge
  pub new_writer : EdgeInfo → Text → AdjListType → ValidateLevel → Result Writer
  pub write_offset_chunk : Writer → List ℕ → ℤ → Files → Step Files
  pub write_vertices_num : Writer → ℤ → Files → Step Files
  pub write_edges_num : Writer → ℤ → ℤ → Files → Step Files
  pub write_table : Writer → EdgeTable → ℤ → ℤ → Files → Step Files

-- The first loop of `Dump`: a chunk without edges for each vertex chunk that has none.
unfoldable pub with_empty_chunks : ℕ → ℤ → Chunks → Chunks
with_empty_chunks zero i chunks = chunks
with_empty_chunks (suc n) i chunks = with_empty_chunks n (i +ℤ pos 1) (emplace i [] chunks)

module _ (sink : EdgeSink) where
  -- The edges of a chunk as the offsets and the table of an adjacent list want them.
  unfoldable pub sorted_for : AdjListType → List Edge → List Edge
  sorted_for ordered_by_source es = sink.sort cmp_src es
  sorted_for ordered_by_dest es = sink.sort cmp_dst es
  sorted_for unordered_by_source es = es
  sorted_for unordered_by_dest es = es
  sorted_for (other n) es = es

  -- The loop over the chunks of an ordered list, which sorts them and writes their offsets.
  unfoldable pub dump_offsets :
      EdgesBuilder → sink.Writer → Chunks → sink.Files → Step (Chunks × sink.Files)
  dump_offsets b writer [] files = (([], files), ok tt)
  dump_offsets b writer ((i, es) ∷ chunks) files =
      let sorted = sorted_for b.adj_list_type es in
      let (written, s) = sink.write_offset_chunk writer (get_offset_table b i sorted) i files in
      elim s [
        | ok u ↦
            let ((rest, last), t) = dump_offsets b writer chunks written in
            (((i, sorted) ∷ rest, last), t)
        | err e ↦ (((i, sorted) ∷ chunks, written), err e)
      ]

  -- An unordered list has no offsets.
  unfoldable pub dump_ordered :
      EdgesBuilder → sink.Writer → Chunks → sink.Files → Step (Chunks × sink.Files)
  dump_ordered b writer chunks files = elim b.adj_list_type [
    | ordered_by_source ↦ dump_offsets b writer chunks files
    | ordered_by_dest ↦ dump_offsets b writer chunks files
    | unordered_by_source ↦ ((chunks, files), ok tt)
    | unordered_by_dest ↦ ((chunks, files), ok tt)
    | other n ↦ ((chunks, files), ok tt)
  ]

  -- The loop over the vertex chunks, which writes their numbers of edges.
  unfoldable pub dump_edge_nums : sink.Writer → Chunks → ℕ → ℤ → sink.Files → Step sink.Files
  dump_edge_nums writer chunks zero i files = (files, ok tt)
  dump_edge_nums writer chunks (suc n) i files =
      let (written, s) =
        sink.write_edges_num writer i (pos (length (chunk_edges i chunks))) files in
      elim s [
        | ok u ↦ dump_edge_nums writer chunks n (i +ℤ pos 1) written
        | err e ↦ (written, err e)
      ]

  -- The loop over the chunks which writes their tables, and clears each that is written.
  unfoldable pub dump_tables :
      EdgesBuilder → sink.Writer → Chunks → sink.Files → Step (Chunks × sink.Files)
  dump_tables b writer [] files = (([], files), ok tt)
  dump_tables b writer ((i, es) ∷ chunks) files = elim (convert_to_table b es) [
    | err e ↦ (((i, es) ∷ chunks, files), err e)
    | ok table ↦
        let (written, s) = sink.write_table writer table i (pos 0) files in
        elim s [
          | ok u ↦
              let ((rest, last), t) = dump_tables b writer chunks written in
              (((i, []) ∷ rest, last), t)
          | err e ↦ (((i, es) ∷ chunks, written), err e)
        ]
  ]

  -- What follows the offsets: the numbers of vertices and edges, and the tables.
  unfoldable pub dump_counts_and_tables :
      EdgesBuilder → sink.Writer → ℤ → Chunks → sink.Files → Step (Chunks × sink.Files)
  dump_counts_and_tables b writer n chunks files =
      let (counted, s) = sink.write_vertices_num writer b.num_vertices files in
      with_value (chunks, counted) s
        λ u.
          let (numbered, t) = dump_edge_nums writer chunks (pos_part n) (pos 0) counted in
          with_value (chunks, numbered) t (λ v. dump_tables b writer chunks numbered)

  -- `Dump` behind the construction of the writer, with the number of vertex chunks.
  unfoldable pub dump_chunks :
      EdgesBuilder → sink.Writer → ℤ → sink.Files → Step (Chunks × sink.Files)
  dump_chunks b writer n files =
      let chunks = with_empty_chunks (pos_part n) (pos 0) b.edges in
      let ((sorted, offset), s) = dump_ordered b writer chunks files in
      with_value (sorted, offset) s (λ u. dump_counts_and_tables b writer n sorted offset)

  -- The writer of a `Dump`, and the number of vertex chunks.
  unfoldable pub dump_start : EdgesBuilder → Result (sink.Writer × ℤ)
  dump_start b = do
    writer ← sink.new_writer b.edge_info b.prefix b.adj_list_type b.validate_level
    n ← chunk_count b.num_vertices b.vertex_chunk_size
    ok (writer, n)

  -- `Dump` behind them.
  unfoldable pub dump_with :
      EdgesBuilder → sink.Writer → ℤ → sink.Files → Step (EdgesBuilder × sink.Files)
  dump_with b writer n files =
      let ((chunks, last), s) = dump_chunks b writer n files in
      with_value (record b { edges = chunks }, last) s
        λ u. ((record b { edges = chunks; is_saved = true }, last), ok tt)

  -- `Dump`: the builder and the files that it leaves, and the status.
  unfoldable pub dump : EdgesBuilder → sink.Files → Step (EdgesBuilder × sink.Files)
  dump b files = with_value (b, files) (dump_start b) (λ (writer, n). dump_with b writer n files)
