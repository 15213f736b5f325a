-- ===== src/Reader/Vertex.antt =====
-- `VertexPropertyChunkInfoReader` (chunk_info_reader.cc).
pub mod Bounds
use graph_ar.Base.{
  Option, none, some, Result, ok, err, status, ◌>>=◌, ◌++◌, index_error, key_error, if◌then◌else◌,
  or_raise,
}
use graph_ar.Base.Text.{Text}
use graph_ar.Base.Int.{ℤ, pos, ◌+ℤ◌, leb_ℤ}
use graph_ar.Property.{PropertyGroup}
use graph_ar.VertexInfo.{VertexInfo}
use graph_ar.VertexInfo
use graph_ar.GraphInfo.{GraphInfo, get_vertex_info}
use graph_ar.Storage.{Storage}
use graph_ar.ReaderUtil.{quotient, get_vertex_chunk_num}
use graph_ar.Reader.Steps.{Step, with_value}

pub record VertexReader : Type 0 where
  pub vertex_info : VertexInfo
  pub property_group : Option PropertyGroup
  pub prefix : Text
  pub chunk_index : ℤ
  pub chunk_num : ℤ

-- `seek`.
unfoldable pub seek : VertexReader → ℤ → Step VertexReader
seek r id = with_value r (quotient id r.vertex_info.chunk_size) (λ i.
    (record r { chunk_index = i }, if leb_ℤ r.chunk_num i then err (status index_error) else ok tt))

-- `GetChunk`.
unfoldable pub get_chunk : VertexReader → Result Text
get_chunk r = do
  chunk_file_path ← VertexInfo.get_file_path r.vertex_info r.property_group r.chunk_index
  ok (r.prefix ++ chunk_file_path)

-- `next_chunk`.
unfoldable pub next_chunk : VertexReader → Step VertexReader
next_chunk r =
    let i = r.chunk_index +ℤ pos 1 in
    (record r { chunk_index = i }, if leb_ℤ r.chunk_num i then err (status index_error) else ok tt)

module _ (storage : Storage) where
  -- The constructor.
  unfoldable pub new_vertex_reader : VertexInfo → Option PropertyGroup → Text → Result VertexReader
  new_vertex_reader vertex_info property_group prefix = do
    (fs, base_dir) ← or_raise (storage.file_system_from_uri_or_path prefix)
    pg_path_prefix ← or_raise (VertexInfo.get_path_prefix vertex_info property_group)
    chunk_num ← or_raise (get_vertex_chunk_num storage prefix vertex_info)
    ok (record {
      vertex_info = vertex_info;
      property_group = property_group;
      prefix = prefix;
      chunk_index = pos 0;
      chunk_num = chunk_num;
    })

  abbrev vertex_or_key_error : Option VertexInfo → Result VertexInfo
  vertex_or_key_error none = err (status key_error)
  vertex_or_key_error (some v) = ok v

  -- `Make` of a graph info, a type and a property group.
  unfoldable pub make_of_group : GraphInfo → Text → Option PropertyGroup → Result VertexReader
  make_of_group graph_info type property_group = do
    found ← get_vertex_info graph_info type
    vertex_info ← vertex_or_key_error found
    new_vertex_reader vertex_info property_group graph_info.prefix

  abbrev group_or_key_error : Option PropertyGroup → Result PropertyGroup
  group_or_key_error none = err (status key_error)
  group_or_key_error (some pg) = ok pg

  -- `Make` of a graph info, a type and the name of a property.
  unfoldable pub make_of_property : GraphInfo → Text → Text → Result VertexReader
  make_of_property graph_info type property_name = do
    found ← get_vertex_info graph_info type
    vertex_info ← vertex_or_key_error found
    group ← VertexInfo.get_property_group vertex_info property_name
    property_group ← group_or_key_error group
    new_vertex_reader vertex_info (some property_group) graph_info.prefix
