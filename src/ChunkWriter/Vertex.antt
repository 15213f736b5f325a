-- ===== src/ChunkWriter/Vertex.antt =====
-- `VertexPropertyWriter` (arrow/chunk_writer.cc) without the writes of label tables. The options of a
-- writer, which are only passed on, are left out.
use graph_ar.Base.{
  ℕ, zero, suc, not, List, [], ◌∷◌, ◌++◌, Option, none, some, Result, Status, ok, err, status,
  invalid, key_error, index_error, ◌>>=◌, ◌>>◌, reject_if, if◌then◌else◌, deref, or_raise,
}
use graph_ar.Base.Text.{Text, codes}
use graph_ar.Base.Int.{ℤ, pos, negsuc, pos_part, ◌+ℤ◌, ◌*ℤ◌, ◌==ℤ◌, ltb_ℤ}
use graph_ar.Property.{PropertyGroup}
use graph_ar.VertexInfo.{VertexInfo}
use graph_ar.VertexInfo
use graph_ar.GraphInfo.{GraphInfo, get_vertex_info}
use graph_ar.Storage.{Storage}
use graph_ar.Reader.Steps.{Step, with_value, and_then}
use graph_ar.Writer.{ValidateLevel, effective, writer_level, at_level}
use graph_ar.ChunkWriter.{Tables, write_all_slices}
use graph_ar.ChunkWriter.Edge.{check_columns, if_strong}
use graph_ar.ChunkWriter.Edge.Write.{field_index, field_indices}

module _ (storage : Storage) (tables : Tables storage) where
  pub record VertexPropertyWriter : Type 0 where
    pub vertex_info : VertexInfo
    pub prefix : Text
    pub fs : storage.FileSystem
    pub validate_level : ValidateLevel

  -- The constructor.
  unfoldable pub new_vertex_property_writer :
      VertexInfo → Text → ValidateLevel → Result VertexPropertyWriter
  new_vertex_property_writer vertex_info prefix validate_level = do
    level ← writer_level validate_level
    (fs, path) ← or_raise (storage.file_system_from_uri_or_path prefix)
    ok (record { vertex_info = vertex_info; prefix = path; fs = fs; validate_level = level })

  -- `Make` of a graph info and a type.
  unfoldable pub make_of_type : GraphInfo → Text → ValidateLevel → Result VertexPropertyWriter
  make_of_type graph_info type validate_level = do
    found ← get_vertex_info graph_info type
    vertex_info ← elim found [ none ↦ err (status key_error) | some v ↦ ok v ]
    new_vertex_property_writer vertex_info graph_info.prefix validate_level

  -- `validate` of a number of vertices.
  unfoldable pub validate_count : VertexPropertyWriter → ℤ → ValidateLevel → Status
  validate_count w count level =
      at_level (effective w.validate_level level) (reject_if (ltb_ℤ count (pos 0)) invalid)

  -- `validate` of a property group and a chunk index.
  unfoldable pub validate_group :
      VertexPropertyWriter → Option PropertyGroup → ℤ → ValidateLevel → Status
  validate_group w property_group chunk_index level =
      at_level (effective w.validate_level level) (do
        has ← VertexInfo.has_group w.vertex_info property_group
        reject_if (not has) key_error
        reject_if (ltb_ℤ chunk_index (pos 0)) index_error)

  -- `validate` of a table as a chunk.
  unfoldable pub validate_table :
      VertexPropertyWriter → tables.Table → Option PropertyGroup → ℤ → ValidateLevel → Status
  validate_table w table property_group chunk_index level =
      let effective_level = effective w.validate_level level in
      at_level effective_level (do
        validate_group w property_group chunk_index effective_level
        reject_if (ltb_ℤ w.vertex_info.chunk_size (tables.num_rows table)) invalid
        if_strong storage tables effective_level (do
          tables.validate_table table
          group ← deref property_group
          check_columns storage tables table group.properties))

  -- `WriteVerticesNum`.
  unfoldable pub write_vertices_num :
      VertexPropertyWriter → ℤ → ValidateLevel → tables.Files → Step tables.Files
  write_vertices_num w count level files =
      with_value files
        (do validate_count w count level; VertexInfo.get_vertices_num_file_path w.vertex_info)
        λ suffix. tables.write_value_to_file w.fs count (w.prefix ++ suffix) files

  -- `WriteChunk` of a group: the index column and the columns of the group.
  unfoldable pub write_chunk :
      VertexPropertyWriter
      → tables.Table
      → Option PropertyGroup
      → ℤ
      → ValidateLevel
      → tables.Files
      → Step tables.Files
  write_chunk w table property_group chunk_index level files =
      with_value files
        (do
          validate_table w table property_group chunk_index level
          group ← deref property_group
          index ← field_index storage tables table (codes "_graphArVertexIndex")
          indices ← field_indices storage tables table group.properties
          in_table ← tables.select_columns table (index ∷ indices)
          suffix ← VertexInfo.get_file_path w.vertex_info property_group chunk_index
          ok (group, in_table, suffix))
        λ (group, in_table, suffix).
          tables.write_table_to_file w.fs in_table group.file_type (w.prefix ++ suffix) files

  -- `WriteChunk` of all groups, up to the first failure.
  unfoldable pub write_groups :
      VertexPropertyWriter
      → tables.Table
      → List (Option PropertyGroup)
      → ℤ
      → ValidateLevel
      → tables.Files
      → Step tables.Files
  write_groups w table [] chunk_index level files = (files, ok tt)
  write_groups w table (pg ∷ pgs) chunk_index level files =
      and_then (write_chunk w table pg chunk_index level files)
        (λ written. write_groups w table pgs chunk_index level written)

  unfoldable pub write_chunk_of_all :
      VertexPropertyWriter → tables.Table → ℤ → ValidateLevel → tables.Files → Step tables.Files
  write_chunk_of_all w table chunk_index level files =
      write_groups w table w.vertex_info.property_groups chunk_index level files

  -- The values of the index column.
  unfoldable pub indices_from : ℤ → ℕ → List ℤ
  indices_from i zero = []
  indices_from i (suc n) = i ∷ indices_from (i +ℤ pos 1) n

  -- `AddIndexColumn`.
  unfoldable pub add_index_column : tables.Table → ℤ → ℤ → Result tables.Table
  add_index_column table chunk_index chunk_size =
      tables.add_first_column table (codes "_graphArVertexIndex")
        (indices_from (chunk_index *ℤ chunk_size) (pos_part (tables.num_rows table)))

  -- `WriteTable` of a group: a table without the index column gets one.
  unfoldable pub write_table_of_group :
      VertexPropertyWriter
      → tables.Table
      → Option PropertyGroup
      → ℤ
      → ValidateLevel
      → tables.Files
      → Step tables.Files
  write_table_of_group w table property_group start_chunk_index level files =
      let found = tables.get_field_index table (codes "_graphArVertexIndex") in
      with_value files
        (if found ==ℤ negsuc 0
          then add_index_column table start_chunk_index w.vertex_info.chunk_size
          else ok table)
        λ table_with_index.
          write_all_slices storage tables (λ t i. write_chunk w t property_group i level)
            w.vertex_info.chunk_size table_with_index start_chunk_index files

  -- The loop over the groups of `WriteTable`.
  unfoldable pub write_table_of_groups :
      VertexPropertyWriter
      → tables.Table
      → List (Option PropertyGroup)
      → ℤ
      → ValidateLevel
      → tables.Files
      → Step tables.Files
  write_table_of_groups w table [] start_chunk_index level files = (files, ok tt)
  write_table_of_groups w table (pg ∷ pgs) start_chunk_index level files =
      and_then (write_table_of_group w table pg start_chunk_index level files)
        (λ written. write_table_of_groups w table pgs start_chunk_index level written)

  -- `WriteTable` up to the labels, for a vertex info without labels all of it.
  unfoldable pub write_table :
      VertexPropertyWriter → tables.Table → ℤ → ValidateLevel → tables.Files → Step tables.Files
  write_table w table start_chunk_index level files =
      with_value files (add_index_column table start_chunk_index w.vertex_info.chunk_size)
        λ table_with_index.
          write_table_of_groups w table_with_index w.vertex_info.property_groups start_chunk_index
            level files
