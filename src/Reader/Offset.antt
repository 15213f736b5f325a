-- ===== src/Reader/Offset.antt =====
-- `AdjListOffsetChunkInfoReader` (chunk_info_reader.cc).
use graph_ar.Base.{
  not, Result, ok, err, status, raised, index_error, key_error, ◌>>=◌, ◌++◌, if◌then◌else◌,
  or_raise,
}
use graph_ar.Base.Text.{Text}
use graph_ar.Base.Int.{ℤ, pos, ◌+ℤ◌, leb_ℤ}
use graph_ar.Types.{
  AdjListType, unordered_by_source, unordered_by_dest, ordered_by_source, ordered_by_dest, other,
  error_naming,
}
use graph_ar.EdgeInfo.{EdgeInfo}
use graph_ar.EdgeInfo
use graph_ar.GraphInfo.{GraphInfo, get_edge_info}
use graph_ar.Storage.{Storage}
use graph_ar.ReaderUtil.{quotient, get_edge_vertex_chunk_num}
use graph_ar.Reader.Steps.{Step, with_value}
use graph_ar.Reader.AdjList.{edge_or_key_error}

pub record OffsetReader : Type 0 where
  pub edge_info : EdgeInfo
  pub adj_list_type : AdjListType
  pub prefix : Text
  pub chunk_index : ℤ
  pub vertex_chunk_size : ℤ
  pub vertex_chunk_num : ℤ

-- `seek`.
unfoldable pub seek : OffsetReader → ℤ → Step OffsetReader
seek r id = with_value r (quotient id r.vertex_chunk_size) (λ i. (
  record r { chunk_index = i },
  if leb_ℤ r.vertex_chunk_num i then err (status index_error) else ok tt,
))

-- `GetChunk`.
unfoldable pub get_chunk : OffsetReader → Result Text
get_chunk r = do
  chunk_file_path ←
      EdgeInfo.Files.get_adj_list_offset_file_path r.edge_info r.chunk_index r.adj_list_type
  ok (r.prefix ++ chunk_file_path)

-- `next_chunk`.
unfoldable pub next_chunk : OffsetReader → Step OffsetReader
next_chunk r =
    let i = r.chunk_index +ℤ pos 1 in
    (
      record r { chunk_index = i },
      if leb_ℤ r.vertex_chunk_num i then err (status index_error) else ok tt,
    )

-- The size of the vertex chunks of an ordered list; for any other list the constructor throws.
abbrev pub offset_chunk_size : EdgeInfo → AdjListType → Result ℤ
offset_chunk_size e ordered_by_source = ok e.src_chunk_size
offset_chunk_size e ordered_by_dest = ok e.dst_chunk_size
offset_chunk_size e unordered_by_source = err raised
offset_chunk_size e unordered_by_dest = err raised
offset_chunk_size e (other n) = err raised

module _ (storage : Storage) where
  -- The constructor.
  unfoldable pub new_offset_reader : EdgeInfo → AdjListType → Text → Result OffsetReader
  new_offset_reader edge_info adj_list_type prefix = do
    (fs, base_dir) ← or_raise (storage.file_system_from_uri_or_path prefix)
    dir_path ← or_raise (EdgeInfo.Files.get_offset_path_prefix edge_info adj_list_type)
    vertex_chunk_size ← offset_chunk_size edge_info adj_list_type
    vertex_chunk_num ← or_raise (get_edge_vertex_chunk_num storage prefix edge_info adj_list_type)
    ok (record {
      edge_info = edge_info;
      adj_list_type = adj_list_type;
      prefix = prefix;
      chunk_index = pos 0;
      vertex_chunk_size = vertex_chunk_size;
      vertex_chunk_num = vertex_chunk_num;
    })

  -- `Make` of an edge info.
  unfoldable pub make : EdgeInfo → AdjListType → Text → Result OffsetReader
  make edge_info adj_list_type prefix =
      if not (EdgeInfo.has_adjacent_list_type edge_info adj_list_type)
      then error_naming adj_list_type key_error
      else new_offset_reader edge_info adj_list_type prefix

  -- `Make` of a graph info and the three types.
  unfoldable pub make_of_types : GraphInfo → Text → Text → Text → AdjListType → Result OffsetReader
  make_of_types graph_info src_type edge_type dst_type adj_list_type = do
    found ← get_edge_info graph_info src_type edge_type dst_type
    edge_info ← edge_or_key_error found
    make edge_info adj_list_type graph_info.prefix
