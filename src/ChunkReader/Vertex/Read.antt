-- ===== src/ChunkReader/Vertex/Read.antt =====
-- The chunks of vertices and of labels that `VertexPropertyArrowChunkReader` reads
-- (arrow/chunk_reader.cc).
use graph_ar.ChunkReader.Vertex.{VertexChunkReader}
use graph_ar.Base.{
  Bool, true, false, List, [], ◌∷◌, Option, none, some, Result, Status, ok, err, status, invalid,
  ◌>>=◌, ◌>>◌, ◌++◌, if◌then◌else◌, deref,
}
use graph_ar.Base.Text.{Text, codes, text_eq, to_string}
use graph_ar.Base.Int.{ℤ, pos, negsuc, ◌+ℤ◌, ◌-ℤ◌, ◌*ℤ◌, ◌==ℤ◌}
use graph_ar.Types.{FileType}
use graph_ar.VertexInfo.{VertexInfo}
use graph_ar.VertexInfo
use graph_ar.Storage.{Storage}
use graph_ar.Expression.{
  ArrowCompute, FilterOptions, Expression, null, check_filter_options, property, literal, not_of,
  binary_of,
}
use graph_ar.ChunkReader.{Rows}
use graph_ar.ChunkReader.Casts.{ArrowTables, Schema, cast_table_with_schema}

-- `GetChunkVersion`.
pub data GetChunkVersion : Type 0 where
  v1 v2 auto : GetChunkVersion
  other_version : ℤ → GetChunkVersion

-- `schema->GetFieldIndex`: the place of a field, or -1. A name that two fields have has no place.
unfoldable pub is_field : Schema → Text → Bool
is_field [] name = false
is_field (f ∷ fs) name = let rest = is_field fs name in if text_eq f.0 name then true else rest

unfoldable pub field_place : ℤ → Schema → Text → ℤ
field_place i [] name = negsuc 0
field_place i (f ∷ fs) name =
    let rest = field_place (i +ℤ pos 1) fs name in
    if text_eq f.0 name then (if is_field fs name then negsuc 0 else i) else rest

-- Whether a name is in a list: `std::find`.
unfoldable pub contains : List Text → Text → Bool
contains [] name = false
contains (n ∷ ns) name = let rest = contains ns name in if text_eq n name then true else rest

-- The check of the columns of a filter against the names that the reader selects.
unfoldable pub check_selected : List Text → List Text → Status
check_selected names [] = ok tt
check_selected names (col ∷ cols) =
    let rest = check_selected names cols in
    if contains names col then rest else err (status invalid)

-- The indices of the columns of `GetChunkV2`.
unfoldable pub column_indices : Schema → List Text → Result (List ℤ)
column_indices schema [] = ok []
column_indices schema (col ∷ cols) =
    let index = field_place (pos 0) schema col in
    let rest = column_indices schema cols in
    if index ==ℤ negsuc 0 then err (status invalid) else (rest >>= λ indices. ok (index ∷ indices))

module _ (storage : Storage) (arrow : ArrowCompute) (tables : ArrowTables storage arrow) where
  abbrev pub Reader : Type 0
  Reader = VertexChunkReader storage arrow tables

  abbrev pub is_unfiltered : Expression arrow → Bool
  is_unfiltered null = true
  is_unfiltered (property n) = false
  is_unfiltered (literal v) = false
  is_unfiltered (not_of e) = false
  is_unfiltered (binary_of op a b) = false

  abbrev pub vertex_kept : Reader → storage.Table → Reader
  vertex_kept r table = record r { chunk_table = some table }

  abbrev pub vertex_after_cast : Reader → Result storage.Table → Reader × Result storage.Table
  vertex_after_cast r (ok table) = (vertex_kept r table, ok table)
  vertex_after_cast r (err e) = (r, err e)

  -- A table that was read is kept, and cast unless a filter is set.
  abbrev pub vertex_cast_read : Reader → Result storage.Table → Reader × Result storage.Table
  vertex_cast_read r (err e) = (r, err e)
  vertex_cast_read r (ok table) =
      if is_unfiltered r.filter_options.filter
      then vertex_after_cast (vertex_kept r table)
          (cast_table_with_schema storage arrow tables table r.schema)
      else (vertex_kept r table, ok table)

  -- The rows from the vertex sought on.
  abbrev pub vertex_rows :
      Rows storage → Reader → Reader × Result storage.Table → Reader × Result storage.Table
  vertex_rows rows r (next, table) = (
    next,
    table >>= λ t. ok (rows.slice_from t (r.seek_id -ℤ r.chunk_index *ℤ r.vertex_info.chunk_size)),
  )

  abbrev pub vertex_load :
      Reader → Option storage.Table → Result storage.Table → Reader × Result storage.Table
  vertex_load r (some table) read = (r, ok table)
  vertex_load r none read = vertex_cast_read r read

  -- The filter options with which `GetChunkV1` reads.
  unfoldable pub options_v1 : Reader → Result (FilterOptions arrow)
  options_v1 r = elim r.property_names [
    | [] ↦ ok r.filter_options
    | n ∷ ns ↦ elim r.filter_options.columns [
      | none ↦ ok (record { filter = r.filter_options.filter; columns = some r.property_names })
      | some cols ↦
          check_selected r.property_names cols
          >> ok (record { filter = r.filter_options.filter; columns = some cols })
    ]
  ]

  unfoldable pub read_v1 : Reader → Result storage.Table
  read_v1 r = do
    chunk_file_path ← VertexInfo.get_file_path r.vertex_info r.property_group r.chunk_index
    options ← options_v1 r
    pg ← deref r.property_group
    tables.read_filtered r.fs (r.prefix ++ chunk_file_path) pg.file_type options

  abbrev pub vertex_chunk_if :
      Status → Reader → Reader × Result storage.Table → Reader × Result storage.Table
  vertex_chunk_if (ok u) r chunk = chunk
  vertex_chunk_if (err e) r chunk = (r, err e)

  -- `GetChunkV1`.
  unfoldable pub get_chunk_v1 : Rows storage → Reader → Reader × Result storage.Table
  get_chunk_v1 rows r =
      vertex_chunk_if (check_filter_options arrow r.filter_options r.property_group) r
        (vertex_rows rows r (vertex_load r r.chunk_table (read_v1 r)))

  -- The names whose columns `GetChunkV2` reads.
  unfoldable pub names_v2 : Reader → Result (List Text)
  names_v2 r = elim r.property_names [
    | [] ↦ ok []
    | n ∷ ns ↦ elim r.filter_options.columns [
      | none ↦ ok r.property_names
      | some cols ↦ check_selected r.property_names cols >> ok cols
    ]
  ]

  unfoldable pub read_v2 : Reader → Result storage.Table
  read_v2 r = do
    chunk_file_path ← VertexInfo.get_file_path r.vertex_info r.property_group r.chunk_index
    names ← names_v2 r
    indices ← column_indices r.schema names
    pg ← deref r.property_group
    tables.read_columns r.fs (r.prefix ++ chunk_file_path) pg.file_type indices

  -- `GetChunkV2`.
  unfoldable pub get_chunk_v2 : Rows storage → Reader → Reader × Result storage.Table
  get_chunk_v2 rows r = vertex_rows rows r (vertex_load r r.chunk_table (read_v2 r))

  -- `GetChunk`.
  unfoldable pub vertex_get_chunk :
      Rows storage → GetChunkVersion → Reader → Reader × Result storage.Table
  vertex_get_chunk rows v1 r = get_chunk_v1 rows r
  vertex_get_chunk rows v2 r = get_chunk_v2 rows r
  vertex_get_chunk rows auto r =
      if is_unfiltered r.filter_options.filter then get_chunk_v2 rows r else get_chunk_v1 rows r
  vertex_get_chunk rows (other_version n) r = (r, err (status invalid))

  unfoldable pub read_labels : Reader → Result storage.Table
  read_labels r =
      tables.read_filtered r.fs
        (r.prefix ++ r.vertex_info.prefix ++ codes "labels/chunk" ++ to_string r.chunk_index)
        FileType.parquet r.filter_options

  abbrev pub labels_loaded :
      Reader → Option storage.Table → Result storage.Table → Reader × Result storage.Table
  labels_loaded r (some table) read = (r, ok table)
  labels_loaded r none (ok table) = (vertex_kept r table, ok table)
  labels_loaded r none (err e) = (r, err e)

  -- `GetLabelChunk`: the table of labels is not cast.
  unfoldable pub get_label_chunk : Rows storage → Reader → Reader × Result storage.Table
  get_label_chunk rows r = vertex_rows rows r (labels_loaded r r.chunk_table (read_labels r))
