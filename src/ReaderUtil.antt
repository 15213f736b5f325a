-- ===== src/ReaderUtil.antt =====
-- cpp/src/graphar/reader_util.cc: the numbers of vertices, edges and chunks, and the offsets of an
-- adjacent list, as they are read from the files of a graph.
pub mod Counts
use graph_ar.Base.{
  List, [], ◌∷◌, ◌++◌, Option, none, some, Result, ok, err, undefined, status, invalid, ◌>>=◌,
  if◌then◌else◌, deref,
}
use graph_ar.Base.Text.{Text}
use graph_ar.Base.Int.{ℤ, pos, ◌+ℤ◌, ◌-ℤ◌, ◌/ℤ◌, ◌%ℤ◌, ◌==ℤ◌}
use graph_ar.Base.Assoc.{vector_at}
use graph_ar.Types.{
  AdjListType, unordered_by_source, unordered_by_dest, ordered_by_source, ordered_by_dest, other,
  error_naming,
}
use graph_ar.Property.{AdjacentList}
use graph_ar.VertexInfo.{VertexInfo}
use graph_ar.VertexInfo
use graph_ar.EdgeInfo.{EdgeInfo}
use graph_ar.EdgeInfo
use graph_ar.Storage.{Storage}

-- A quotient and a remainder; a division by zero is undefined behaviour.
abbrev pub quotient : ℤ → ℤ → Result ℤ
quotient a b = if b ==ℤ pos 0 then err undefined else ok (a /ℤ b)

abbrev pub remainder : ℤ → ℤ → Result ℤ
remainder a b = if b ==ℤ pos 0 then err undefined else ok (a %ℤ b)

-- The number of chunks of a size that hold a number of items, as the source computes it.
abbrev pub chunk_count : ℤ → ℤ → Result ℤ
chunk_count num chunk_size = quotient (num +ℤ chunk_size -ℤ pos 1) chunk_size

-- The size of the vertex chunks by which the edges of a type are partitioned, as
-- `GetAdjListOffsetOfVertex` chooses it: only an ordered list has offsets.
abbrev pub ordered_chunk_size : EdgeInfo → AdjListType → Result ℤ
ordered_chunk_size e ordered_by_source = ok e.src_chunk_size
ordered_chunk_size e ordered_by_dest = ok e.dst_chunk_size
ordered_chunk_size e unordered_by_source = error_naming unordered_by_source invalid
ordered_chunk_size e unordered_by_dest = error_naming unordered_by_dest invalid
ordered_chunk_size e (other n) = error_naming (other n) invalid

-- The same as `GetVertexChunkNum` chooses it.
abbrev partition_chunk_size : EdgeInfo → AdjListType → ℤ
partition_chunk_size e ordered_by_source = e.src_chunk_size
partition_chunk_size e unordered_by_source = e.src_chunk_size
partition_chunk_size e ordered_by_dest = e.dst_chunk_size
partition_chunk_size e unordered_by_dest = e.dst_chunk_size
partition_chunk_size e (other n) = e.dst_chunk_size

-- The check for the null pointer.
abbrev pub or_not_set : AdjListType → Option AdjacentList → Result AdjacentList
or_not_set type none = error_naming type invalid
or_not_set type (some list) = ok list

module _ (storage : Storage) where
  -- `GetAdjListOffsetOfVertex`.
  unfoldable pub get_adj_list_offset_of_vertex : EdgeInfo → Text → AdjListType → ℤ → Result (ℤ × ℤ)
  get_adj_list_offset_of_vertex edge_info prefix adj_list_type vid = do
    vertex_chunk_size ← ordered_chunk_size edge_info adj_list_type
    offset_chunk_index ← quotient vid vertex_chunk_size
    offset_in_file ← remainder vid vertex_chunk_size
    offset_file_path ←
        EdgeInfo.Files.get_adj_list_offset_file_path edge_info offset_chunk_index adj_list_type
    (fs, out_prefix) ← storage.file_system_from_uri_or_path prefix
    adjacent_list ← EdgeInfo.get_adjacent_list edge_info adj_list_type
    list ← or_not_set adj_list_type adjacent_list
    table ← storage.read_file_to_table fs (out_prefix ++ offset_file_path) list.file_type
    let array = storage.first_column_slice table offset_in_file (pos 2)
    begin ← vector_at array (pos 0)
    end ← vector_at array (pos 1)
    ok (begin, end)

  -- `GetVertexNum` of a vertex info.
  unfoldable pub get_vertex_num : Text → VertexInfo → Result ℤ
  get_vertex_num prefix vertex_info = do
    (fs, out_prefix) ← storage.file_system_from_uri_or_path prefix
    suffix ← VertexInfo.get_vertices_num_file_path vertex_info
    storage.read_file_to_value fs (out_prefix ++ suffix)

  -- `GetVertexChunkNum` of a vertex info.
  unfoldable pub get_vertex_chunk_num : Text → VertexInfo → Result ℤ
  get_vertex_chunk_num prefix vertex_info = do
    (fs, out_prefix) ← storage.file_system_from_uri_or_path prefix
    suffix ← VertexInfo.get_vertices_num_file_path vertex_info
    vertex_num ← storage.read_file_to_value fs (out_prefix ++ suffix)
    chunk_count vertex_num vertex_info.chunk_size

  -- `GetVertexNum` of an edge info.
  unfoldable pub get_edge_vertex_num : Text → EdgeInfo → AdjListType → Result ℤ
  get_edge_vertex_num prefix edge_info adj_list_type = do
    (fs, out_prefix) ← storage.file_system_from_uri_or_path prefix
    suffix ← EdgeInfo.Files.get_vertices_num_file_path edge_info adj_list_type
    storage.read_file_to_value fs (out_prefix ++ suffix)

  -- `GetVertexChunkNum` of an edge info.
  unfoldable pub get_edge_vertex_chunk_num : Text → EdgeInfo → AdjListType → Result ℤ
  get_edge_vertex_chunk_num prefix edge_info adj_list_type = do
    (fs, out_prefix) ← storage.file_system_from_uri_or_path prefix
    suffix ← EdgeInfo.Files.get_vertices_num_file_path edge_info adj_list_type
    vertex_num ← storage.read_file_to_value fs (out_prefix ++ suffix)
    chunk_count vertex_num (partition_chunk_size edge_info adj_list_type)

  -- `GetEdgeNum`.
  unfoldable pub get_edge_num : Text → EdgeInfo → AdjListType → ℤ → Result ℤ
  get_edge_num prefix edge_info adj_list_type vertex_chunk_index = do
    (fs, out_prefix) ← storage.file_system_from_uri_or_path prefix
    suffix ← EdgeInfo.Files.get_edges_num_file_path edge_info vertex_chunk_index adj_list_type
    storage.read_file_to_value fs (out_prefix ++ suffix)

  -- `GetEdgeChunkNum`.
  unfoldable pub get_edge_chunk_num : Text → EdgeInfo → AdjListType → ℤ → Result ℤ
  get_edge_chunk_num prefix edge_info adj_list_type vertex_chunk_index = do
    (fs, out_prefix) ← storage.file_system_from_uri_or_path prefix
    suffix ← EdgeInfo.Files.get_edges_num_file_path edge_info vertex_chunk_index adj_list_type
    edge_num ← storage.read_file_to_value fs (out_prefix ++ suffix)
    chunk_count edge_num edge_info.chunk_size
