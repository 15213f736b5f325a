-- ===== src/ChunkWriter/Edge/Write.antt =====
-- The writes of `EdgeChunkWriter` (arrow/chunk_writer.cc).
use graph_ar.Base.{
  List, [], ◌∷◌, ◌++◌, Option, map, Result, ok, err, status, invalid, ◌>>=◌, ◌>>◌, if◌then◌else◌,
  deref, or_raise,
}
use graph_ar.Base.Text.{Text, codes}
use graph_ar.Base.Int.{ℤ, pos, negsuc, pos_part, ◌*ℤ◌, ◌==ℤ◌}
use graph_ar.Types.{
  FileType, unordered_by_source, unordered_by_dest, ordered_by_source, ordered_by_dest, other,
}
use graph_ar.Property.{Property, PropertyGroup}
use graph_ar.EdgeInfo
use graph_ar.Storage.{Storage}
use graph_ar.Reader.Steps.{and_then, Step, with_value}
use graph_ar.Writer.{ValidateLevel}
use graph_ar.ChunkWriter.{Tables, write_all_slices}
use graph_ar.ChunkWriter.Edge.{
  EdgeChunkWriter, validate_counts, validate_offset, validate_adj_list, validate_property,
}
use graph_ar.ChunkWriter.Edge.Column.{get_sort_column_name, chunked_offsets, first_chunk}

module _ (storage : Storage) (tables : Tables storage) where
  abbrev pub Writer : Type 0
  Writer = EdgeChunkWriter storage tables

  -- `getOffsetTable`.
  unfoldable pub get_offset_table : Writer → tables.Table → Text → ℤ → Result tables.Table
  get_offset_table w table column_name vertex_chunk_index = do
    (ids, chunks) ← first_chunk (tables.column_chunks table column_name)
    others ←
        chunked_offsets (pos_part w.vertex_chunk_size) (vertex_chunk_index *ℤ w.vertex_chunk_size) 0
          ids chunks
    ok (tables.one_column (codes "_graphArOffset") (pos 0 ∷ map pos others))

  -- The end of the writes of tables: the columns are selected and written to the path. `ValueOrDie`
  -- of a failed selection ends the program, here by an exception.
  unfoldable pub write_columns :
      Writer
      → tables.Table
      → Result FileType
      → Result (List ℤ)
      → Result Text
      → tables.Files
      → Step tables.Files
  write_columns w table file_type indices path files =
      with_value files
        (do
          type ← file_type
          columns ← indices
          in_table ← or_raise (tables.select_columns table columns)
          suffix ← path
          ok (type, in_table, suffix))
        λ (type, in_table, suffix).
          tables.write_table_to_file w.fs in_table type (w.prefix ++ suffix) files

  -- The place of a column that must be there.
  abbrev pub field_index : tables.Table → Text → Result ℤ
  field_index table name =
      let index = tables.get_field_index table name in
      if index ==ℤ negsuc 0 then err (status invalid) else ok index

  unfoldable pub field_indices : tables.Table → List Property → Result (List ℤ)
  field_indices table [] = ok []
  field_indices table (p ∷ ps) = do
    index ← field_index table p.name
    rest ← field_indices table ps
    ok (index ∷ rest)

  -- The file type of the list of the writer; no list is a null pointer that is dereferenced.
  abbrev pub list_file_type : Writer → Result FileType
  list_file_type w = do
    found ← EdgeInfo.get_adjacent_list w.edge_info w.adj_list_type
    list ← deref found
    ok (list.file_type)

  -- `WriteEdgesNum`.
  unfoldable pub write_edges_num : Writer → ℤ → ℤ → ValidateLevel → tables.Files → Step tables.Files
  write_edges_num w vertex_chunk_index count level files =
      with_value files
        (do
          validate_counts storage tables w vertex_chunk_index count level
          EdgeInfo.Files.get_edges_num_file_path w.edge_info vertex_chunk_index w.adj_list_type)
        λ suffix. tables.write_value_to_file w.fs count (w.prefix ++ suffix) files

  -- `WriteVerticesNum`.
  unfoldable pub write_vertices_num : Writer → ℤ → ValidateLevel → tables.Files → Step tables.Files
  write_vertices_num w count level files =
      with_value files
        (do
          validate_counts storage tables w (pos 0) count level
          EdgeInfo.Files.get_vertices_num_file_path w.edge_info w.adj_list_type)
        λ suffix. tables.write_value_to_file w.fs count (w.prefix ++ suffix) files

  -- `WriteOffsetChunk`.
  unfoldable pub write_offset_chunk :
      Writer → tables.Table → ℤ → ValidateLevel → tables.Files → Step tables.Files
  write_offset_chunk w table vertex_chunk_index level files =
      with_value files (validate_offset storage tables w table vertex_chunk_index level) λ valid.
        write_columns w table (list_file_type w)
          (do index ← field_index table (codes "_graphArOffset"); ok (index ∷ []))
          (EdgeInfo.Files.get_adj_list_offset_file_path w.edge_info vertex_chunk_index
            w.adj_list_type)
          files

  -- `WriteAdjListChunk`.
  unfoldable pub write_adj_list_chunk :
      Writer → tables.Table → ℤ → ℤ → ValidateLevel → tables.Files → Step tables.Files
  write_adj_list_chunk w table vertex_chunk_index chunk_index level files =
      with_value files
        (validate_adj_list storage tables w table vertex_chunk_index chunk_index level)
        λ valid.
          write_columns w table (list_file_type w)
            (do
              src ← field_index table (codes "_graphArSrcIndex")
              dst ← field_index table (codes "_graphArDstIndex")
              ok (src ∷ dst ∷ []))
            (EdgeInfo.Files.get_adj_list_file_path w.edge_info vertex_chunk_index chunk_index
              w.adj_list_type)
            files

  -- `WritePropertyChunk` of a group.
  unfoldable pub write_property_chunk :
      Writer
      → tables.Table
      → Option PropertyGroup
      → ℤ
      → ℤ
      → ValidateLevel
      → tables.Files
      → Step tables.Files
  write_property_chunk w table property_group vertex_chunk_index chunk_index level files =
      with_value files
        (validate_property storage tables w table property_group vertex_chunk_index chunk_index
          level)
        λ valid.
          write_columns w table (do group ← deref property_group; ok (group.file_type))
            (do group ← deref property_group; field_indices table group.properties)
            (EdgeInfo.Files.get_property_file_path w.edge_info property_group w.adj_list_type
              vertex_chunk_index chunk_index)
            files

  -- The loop over the groups, up to the first failure.
  unfoldable pub write_groups :
      Writer
      → tables.Table
      → List (Option PropertyGroup)
      → ℤ
      → ℤ
      → ValidateLevel
      → tables.Files
      → Step tables.Files
  write_groups w table [] vertex_chunk_index chunk_index level files = (files, ok tt)
  write_groups w table (pg ∷ pgs) vertex_chunk_index chunk_index level files =
      and_then (write_property_chunk w table pg vertex_chunk_index chunk_index level files)
        (λ written. write_groups w table pgs vertex_chunk_index chunk_index level written)

  -- `WriteChunk`: the list, and then the properties of all groups.
  unfoldable pub write_chunk :
      Writer → tables.Table → ℤ → ℤ → ValidateLevel → tables.Files → Step tables.Files
  write_chunk w table vertex_chunk_index chunk_index level files =
      let (written, s) = write_adj_list_chunk w table vertex_chunk_index chunk_index level files in
      with_value written s λ u.
        write_groups w table w.edge_info.property_groups vertex_chunk_index chunk_index level
          written

  -- `WriteAdjListTable`.
  unfoldable pub write_adj_list_table :
      Writer → tables.Table → ℤ → ℤ → ValidateLevel → tables.Files → Step tables.Files
  write_adj_list_table w table vertex_chunk_index start_chunk_index level files =
      write_all_slices storage tables (λ t i. write_adj_list_chunk w t vertex_chunk_index i level)
        w.chunk_size table start_chunk_index files

  -- `WritePropertyTable` of a group, and of all groups.
  unfoldable pub write_property_table :
      Writer
      → tables.Table
      → Option PropertyGroup
      → ℤ
      → ℤ
      → ValidateLevel
      → tables.Files
      → Step tables.Files
  write_property_table w table property_group vertex_chunk_index start_chunk_index level files =
      write_all_slices storage tables
        (λ t i. write_property_chunk w t property_group vertex_chunk_index i level) w.chunk_size
        table start_chunk_index files

  unfoldable pub write_all_property_tables :
      Writer → tables.Table → ℤ → ℤ → ValidateLevel → tables.Files → Step tables.Files
  write_all_property_tables w table vertex_chunk_index start_chunk_index level files =
      write_all_slices storage tables
        (λ t i. write_groups w t w.edge_info.property_groups vertex_chunk_index i level)
        w.chunk_size table start_chunk_index files

  -- `WriteTable`.
  unfoldable pub write_table :
      Writer → tables.Table → ℤ → ℤ → ValidateLevel → tables.Files → Step tables.Files
  write_table w table vertex_chunk_index start_chunk_index level files =
      write_all_slices storage tables (λ t i. write_chunk w t vertex_chunk_index i level)
        w.chunk_size table start_chunk_index files

  -- The offsets of a sorted table, for an ordered list.
  unfoldable pub write_sorted_offsets :
      Writer → tables.Table → ℤ → ValidateLevel → tables.Files → Step tables.Files
  write_sorted_offsets w sorted vertex_chunk_index level files =
      let write_offsets =
        with_value files
          (get_offset_table w sorted (get_sort_column_name w.adj_list_type) vertex_chunk_index)
          λ offset_table. write_offset_chunk w offset_table vertex_chunk_index level files in
      elim w.adj_list_type [
        | ordered_by_source ↦ write_offsets
        | ordered_by_dest ↦ write_offsets
        | unordered_by_source ↦ (files, ok tt)
        | unordered_by_dest ↦ (files, ok tt)
        | other n ↦ (files, ok tt)
      ]

  -- `SortAndWriteAdjListTable` and `SortAndWriteTable`.
  unfoldable pub sort_and_write_adj_list_table :
      Writer → tables.Table → ℤ → ℤ → ValidateLevel → tables.Files → Step tables.Files
  sort_and_write_adj_list_table w table vertex_chunk_index start_chunk_index level files =
      with_value files (tables.sort_table table (get_sort_column_name w.adj_list_type)) λ sorted.
        let (written, s) = write_sorted_offsets w sorted vertex_chunk_index level files in
        with_value written s
          λ u. write_adj_list_table w sorted vertex_chunk_index start_chunk_index level written

  unfoldable pub sort_and_write_table :
      Writer → tables.Table → ℤ → ℤ → ValidateLevel → tables.Files → Step tables.Files
  sort_and_write_table w table vertex_chunk_index start_chunk_index level files =
      with_value files (tables.sort_table table (get_sort_column_name w.adj_list_type)) λ sorted.
        let (written, s) = write_sorted_offsets w sorted vertex_chunk_index level files in
        with_value written s
          λ u. write_table w sorted vertex_chunk_index start_chunk_index level written

  -- `SortAndWritePropertyTable` of a group, and of all groups.
  unfoldable pub sort_and_write_property_table :
      Writer
      → tables.Table
      → Option PropertyGroup
      → ℤ
      → ℤ
      → ValidateLevel
      → tables.Files
      → Step tables.Files
  sort_and_write_property_table w table property_group vertex_chunk_index start_chunk_index level
        files =
      with_value files (tables.sort_table table (get_sort_column_name w.adj_list_type)) λ sorted.
        write_property_table w sorted property_group vertex_chunk_index start_chunk_index level
          files

  unfoldable pub sort_and_write_all_property_tables :
      Writer → tables.Table → ℤ → ℤ → ValidateLevel → tables.Files → Step tables.Files
  sort_and_write_all_property_tables w table vertex_chunk_index start_chunk_index level files =
      with_value files (tables.sort_table table (get_sort_column_name w.adj_list_type)) λ sorted.
        write_all_property_tables w sorted vertex_chunk_index start_chunk_index level files
