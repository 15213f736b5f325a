-- ===== src/ChunkWriter/Edge.antt =====
-- `EdgeChunkWriter` (arrow/chunk_writer.cc): the checks and the writes of single files. The options of
-- a writer, which are only passed on, are left out.
pub mod Column
pub mod Write
pub mod Flat
pub mod Checked
use graph_ar.Base.{
  Bool, true, false, not, ◌&&◌, ◌||◌, List, [], ◌∷◌, ◌++◌, Option, none, some, Result, Status, ok,
  err, status, invalid, type_error, key_error, index_error, ◌>>=◌, ◌>>◌, reject_if, if◌then◌else◌,
  deref, or_raise,
}
use graph_ar.Base.Text.{Text, codes}
use graph_ar.Base.Int.{ℤ, pos, negsuc, ◌+ℤ◌, ◌==ℤ◌, ltb_ℤ}
use graph_ar.Types.{
  AdjListType, unordered_by_source, unordered_by_dest, ordered_by_source, ordered_by_dest, other,
  error_naming, to_type_name,
}
use graph_ar.Property.{Property, PropertyGroup, TypePointer, same_pointer}
use graph_ar.EdgeInfo.{EdgeInfo}
use graph_ar.EdgeInfo
use graph_ar.GraphInfo.{GraphInfo, get_edge_info}
use graph_ar.Storage.{Storage}
use graph_ar.Reader.AdjList.{edge_or_key_error}
use graph_ar.Writer.{ValidateLevel, effective, writer_level, at_level}
use graph_ar.Writer
use graph_ar.ChunkWriter.{Tables}

module _ (storage : Storage) (tables : Tables storage) where
  pub record EdgeChunkWriter : Type 0 where
    pub edge_info : EdgeInfo
    pub vertex_chunk_size : ℤ
    pub chunk_size : ℤ
    pub adj_list_type : AdjListType
    pub prefix : Text
    pub fs : storage.FileSystem
    pub validate_level : ValidateLevel

  -- The size of the vertex chunks, as the constructor chooses it.
  abbrev pub writer_chunk_size : EdgeInfo → AdjListType → ℤ
  writer_chunk_size e unordered_by_source = e.src_chunk_size
  writer_chunk_size e ordered_by_source = e.src_chunk_size
  writer_chunk_size e unordered_by_dest = e.dst_chunk_size
  writer_chunk_size e ordered_by_dest = e.dst_chunk_size
  writer_chunk_size e (other n) = e.src_chunk_size

  -- The constructor.
  unfoldable pub new_edge_chunk_writer :
      EdgeInfo → Text → AdjListType → ValidateLevel → Result EdgeChunkWriter
  new_edge_chunk_writer edge_info prefix adj_list_type validate_level = do
    level ← writer_level validate_level
    (fs, path) ← or_raise (storage.file_system_from_uri_or_path prefix)
    ok (record {
      edge_info = edge_info;
      vertex_chunk_size = writer_chunk_size edge_info adj_list_type;
      chunk_size = edge_info.chunk_size;
      adj_list_type = adj_list_type;
      prefix = path;
      fs = fs;
      validate_level = level;
    })

  -- `Make` of an edge info.
  unfoldable pub make : EdgeInfo → Text → AdjListType → ValidateLevel → Result EdgeChunkWriter
  make edge_info prefix adj_list_type validate_level =
      if not (EdgeInfo.has_adjacent_list_type edge_info adj_list_type)
      then error_naming adj_list_type key_error
      else new_edge_chunk_writer edge_info prefix adj_list_type validate_level

  -- `Make` of a graph info and the types of an edge.
  unfoldable pub make_of_types :
      GraphInfo → Text → Text → Text → AdjListType → ValidateLevel → Result EdgeChunkWriter
  make_of_types graph_info src_type edge_type dst_type adj_list_type validate_level = do
    found ← get_edge_info graph_info src_type edge_type dst_type
    edge_info ← elim found [ none ↦ err (status key_error) | some e ↦ ok e ]
    make edge_info graph_info.prefix adj_list_type validate_level

  -- The checks of the list type and of two counts or indices.
  abbrev pub count_checks : EdgeChunkWriter → ℤ → ℤ → Status
  count_checks w a b =
      if not (EdgeInfo.has_adjacent_list_type w.edge_info w.adj_list_type)
      then error_naming w.adj_list_type key_error
      else reject_if (ltb_ℤ a (pos 0) || ltb_ℤ b (pos 0)) index_error

  -- `validate` of two counts or indices.
  unfoldable pub validate_counts : EdgeChunkWriter → ℤ → ℤ → ValidateLevel → Status
  validate_counts w a b level = at_level (effective w.validate_level level) (count_checks w a b)

  -- `validate` of a property group and two indices.
  unfoldable pub validate_group :
      EdgeChunkWriter → Option PropertyGroup → ℤ → ℤ → ValidateLevel → Status
  validate_group w property_group vertex_chunk_index chunk_index level =
      let effective_level = effective w.validate_level level in
      at_level effective_level (do
        validate_counts w vertex_chunk_index chunk_index effective_level
        has ← EdgeInfo.has_group w.edge_info property_group
        reject_if (not has) key_error)

  -- The check of a column of integers.
  abbrev pub check_int64_column : tables.Table → Text → Status
  check_int64_column table name =
      let index = tables.get_field_index table name in
      if index ==ℤ negsuc 0
      then err (status invalid)
      else reject_if (not (tables.is_int64 table index)) type_error

  -- What a check adds at the strong level.
  abbrev pub if_strong : ValidateLevel → Status → Status
  if_strong ValidateLevel.strong_validate checks = checks
  if_strong ValidateLevel.weak_validate checks = ok tt
  if_strong ValidateLevel.no_validate checks = ok tt
  if_strong ValidateLevel.default_validate checks = ok tt

  -- The list type of offsets, and how many of them a vertex chunk has.
  abbrev pub check_offset_rows : EdgeChunkWriter → ℤ → Status
  check_offset_rows w rows = elim w.adj_list_type [
    | ordered_by_source ↦ reject_if (ltb_ℤ (w.edge_info.src_chunk_size +ℤ pos 1) rows) invalid
    | ordered_by_dest ↦ reject_if (ltb_ℤ (w.edge_info.dst_chunk_size +ℤ pos 1) rows) invalid
    | unordered_by_source ↦ error_naming unordered_by_source invalid
    | unordered_by_dest ↦ error_naming unordered_by_dest invalid
    | other n ↦ error_naming (other n) invalid
  ]

  -- `validate` of a table as an offset chunk.
  unfoldable pub validate_offset : EdgeChunkWriter → tables.Table → ℤ → ValidateLevel → Status
  validate_offset w table vertex_chunk_index level =
      let effective_level = effective w.validate_level level in
      at_level effective_level (do
        validate_counts w vertex_chunk_index (pos 0) effective_level
        check_offset_rows w (tables.num_rows table)
        if_strong effective_level
            (do tables.validate_table table; check_int64_column table (codes "_graphArOffset")))

  -- `validate` of a table as a chunk of an adjacent list.
  unfoldable pub validate_adj_list : EdgeChunkWriter → tables.Table → ℤ → ℤ → ValidateLevel → Status
  validate_adj_list w table vertex_chunk_index chunk_index level =
      let effective_level = effective w.validate_level level in
      at_level effective_level (do
        validate_counts w vertex_chunk_index chunk_index effective_level
        reject_if (ltb_ℤ w.edge_info.chunk_size (tables.num_rows table)) invalid
        if_strong effective_level (do
          check_int64_column table (codes "_graphArSrcIndex")
          check_int64_column table (codes "_graphArDstIndex")))

  -- The checks of the columns of some properties; the types are compared as pointers.
  unfoldable pub check_columns : tables.Table → List Property → Status
  check_columns table [] = ok tt
  check_columns table (p ∷ ps) =
      let index = tables.get_field_index table p.name in
      let rest = check_columns table ps in
      if index ==ℤ negsuc 0
      then err (status invalid)
      else tables.field_type table index >>= λ type.
          if same_pointer (some type) p.type then rest else (do
            declared ← deref p.type
            expected ← to_type_name declared.target
            got ← to_type_name type.target
            err (status type_error))

  -- `validate` of a table as a chunk of properties.
  unfoldable pub validate_property :
      EdgeChunkWriter → tables.Table → Option PropertyGroup → ℤ → ℤ → ValidateLevel → Status
  validate_property w table property_group vertex_chunk_index chunk_index level =
      let effective_level = effective w.validate_level level in
      at_level effective_level (do
        validate_group w property_group vertex_chunk_index chunk_index effective_level
        reject_if (ltb_ℤ w.edge_info.chunk_size (tables.num_rows table)) invalid
        if_strong effective_level (do
          tables.validate_table table
          group ← deref property_group
          check_columns table group.properties))
