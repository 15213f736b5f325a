-- ===== src/ChunkReader/Vertex.antt =====
-- `VertexPropertyArrowChunkReader` (arrow/chunk_reader.cc).
pub mod Make
pub mod Read
use graph_ar.Base.{
  Bool, true, false, List, [], ◌∷◌, Option, none, some, Result, Status, ok, err, status, invalid,
  index_error, ◌>>=◌, ◌>>◌, ◌++◌, if◌then◌else◌, or_raise, deref,
}
use graph_ar.Base.Text.{Text, codes, text_eq, to_string}
use graph_ar.Base.Int.{ℤ, pos, negsuc, ◌+ℤ◌, ◌-ℤ◌, ◌*ℤ◌, ◌==ℤ◌, leb_ℤ}
use graph_ar.Types.{FileType}
use graph_ar.Property.{PropertyGroup}
use graph_ar.VertexInfo.{VertexInfo}
use graph_ar.VertexInfo
use graph_ar.Storage.{Storage}
use graph_ar.ReaderUtil.{quotient, get_vertex_num, get_vertex_chunk_num}
use graph_ar.Reader.Steps.{Step, with_value}
use graph_ar.Expression.{
  ArrowCompute, FilterOptions, Expression, null, check_filter_options, property, literal, not_of,
  binary_of,
}
use graph_ar.ChunkReader.{Rows}
use graph_ar.ChunkReader.Casts.{
  ArrowTables, Schema, property_group_to_schema, label_to_schema, cast_table_with_schema,
}

module _ (storage : Storage) (arrow : ArrowCompute) (tables : ArrowTables storage arrow) where
  pub record VertexChunkReader : Type 0 where
    pub vertex_info : VertexInfo
    pub property_group : Option PropertyGroup
    pub property_names : List Text
    pub prefix : Text
    pub labels : List Text
    pub chunk_index : ℤ
    pub seek_id : ℤ
    pub chunk_num : ℤ
    pub vertex_num : ℤ
    pub schema : Schema
    pub chunk_table : Option storage.Table
    pub filter_options : FilterOptions arrow
    pub fs : storage.FileSystem

  -- The constructors for properties.
  unfoldable pub new_vertex_chunk_reader :
      VertexInfo
      → Option PropertyGroup
      → List Text
      → Text
      → FilterOptions arrow
      → Result VertexChunkReader
  new_vertex_chunk_reader vertex_info property_group property_names prefix options = do
    (fs, path) ← or_raise (storage.file_system_from_uri_or_path prefix)
    pg_path_prefix ← or_raise (VertexInfo.get_path_prefix vertex_info property_group)
    chunk_num ← or_raise (get_vertex_chunk_num storage path vertex_info)
    vertex_num ← or_raise (get_vertex_num storage path vertex_info)
    schema ← or_raise (property_group_to_schema property_group true)
    ok (record {
      vertex_info = vertex_info;
      property_group = property_group;
      property_names = property_names;
      prefix = path;
      labels = [];
      chunk_index = pos 0;
      seek_id = pos 0;
      chunk_num = chunk_num;
      vertex_num = vertex_num;
      schema = schema;
      chunk_table = none;
      filter_options = options;
      fs = fs;
    })

  -- The constructor for labels.
  unfoldable pub new_label_reader :
      VertexInfo → List Text → Text → FilterOptions arrow → Result VertexChunkReader
  new_label_reader vertex_info labels prefix options = do
    (fs, path) ← or_raise (storage.file_system_from_uri_or_path prefix)
    chunk_num ← or_raise (get_vertex_chunk_num storage path vertex_info)
    vertex_num ← or_raise (get_vertex_num storage path vertex_info)
    ok (record {
      vertex_info = vertex_info;
      property_group = none;
      property_names = [];
      prefix = path;
      labels = labels;
      chunk_index = pos 0;
      seek_id = pos 0;
      chunk_num = chunk_num;
      vertex_num = vertex_num;
      schema = label_to_schema labels false;
      chunk_table = none;
      filter_options = options;
      fs = fs;
    })

  abbrev pub vertex_at_chunk : VertexChunkReader → ℤ → VertexChunkReader
  vertex_at_chunk r i =
      if r.chunk_index ==ℤ i then r else record r { chunk_index = i; chunk_table = none }

  -- `seek`.
  unfoldable pub vertex_seek : VertexChunkReader → ℤ → Step VertexChunkReader
  vertex_seek r id =
      let sought = record r { seek_id = id } in
      with_value sought (quotient id r.vertex_info.chunk_size) λ i.
        (vertex_at_chunk sought i, if leb_ℤ r.chunk_num i then err (status index_error) else ok tt)

  -- `next_chunk`.
  unfoldable pub vertex_next_chunk : VertexChunkReader → Step VertexChunkReader
  vertex_next_chunk r =
      let i = r.chunk_index +ℤ pos 1 in
      if leb_ℤ r.chunk_num i then (record r { chunk_index = i }, err (status index_error)) else (
        record r { chunk_index = i; seek_id = i *ℤ r.vertex_info.chunk_size; chunk_table = none },
        ok tt,
      )

  -- `Filter` and `Select`; the table that was read before stays.
  unfoldable pub vertex_filter : VertexChunkReader → Expression arrow → VertexChunkReader
  vertex_filter r filter = record r { filter_options = record r.filter_options { filter = filter } }

  unfoldable pub vertex_select : VertexChunkReader → Option (List Text) → VertexChunkReader
  vertex_select r column_names = record r {
    filter_options = record r.filter_options { columns = column_names };
  }
