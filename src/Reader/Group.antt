-- ===== src/Reader/Group.antt =====
-- `AdjListPropertyChunkInfoReader` (chunk_info_reader.cc). The class has the members of
-- `AdjListChunkInfoReader` and a property group besides, and its operations on those members are the
-- same statement by statement: a group reader is an adjacent list reader with a group.
pub mod Agrees
use graph_ar.Base.{
  not, Option, none, some, Result, ok, err, status, index_error, key_error, ◌>>=◌, ◌++◌,
  if◌then◌else◌, or_raise,
}
use graph_ar.Base.Text.{Text}
use graph_ar.Base.Int.{ℤ, pos, ◌+ℤ◌}
use graph_ar.Types.{AdjListType, error_naming}
use graph_ar.Property.{PropertyGroup}
use graph_ar.EdgeInfo.{EdgeInfo}
use graph_ar.EdgeInfo
use graph_ar.GraphInfo.{GraphInfo, get_edge_info}
use graph_ar.Storage.{Storage}
use graph_ar.ReaderUtil.{get_edge_chunk_num, get_edge_vertex_chunk_num}
use graph_ar.Reader.Steps.{Step}
use graph_ar.Reader.AdjList.{AdjListReader, edge_or_key_error, advance, rounds}
use graph_ar.Reader.AdjList

pub record GroupReader : Type 0 where
  pub edges : AdjListReader
  pub property_group : Option PropertyGroup

-- An operation on the members that both classes have.
abbrev pub on_edges : GroupReader → Step AdjListReader → Step GroupReader
on_edges r (edges, s) = (record r { edges = edges }, s)

-- `seek`.
unfoldable pub seek : GroupReader → ℤ → Step GroupReader
seek r offset = on_edges r (AdjList.seek r.edges offset)

-- `GetChunk`.
unfoldable pub get_chunk : GroupReader → Result Text
get_chunk r = do
  chunk_file_path ←
      EdgeInfo.Files.get_property_file_path r.edges.edge_info r.property_group r.edges.adj_list_type
        r.edges.vertex_chunk_index r.edges.chunk_index
  ok (r.edges.prefix ++ chunk_file_path)

module _ (storage : Storage) where
  -- `seek_src`.
  unfoldable pub seek_src : GroupReader → ℤ → Step GroupReader
  seek_src r id = on_edges r (AdjList.seek_src storage r.edges id)

  -- `seek_dst`.
  unfoldable pub seek_dst : GroupReader → ℤ → Step GroupReader
  seek_dst r id = on_edges r (AdjList.seek_dst storage r.edges id)

  abbrev pub on_edges? : GroupReader → Option (Step AdjListReader) → Option (Step GroupReader)
  on_edges? r none = none
  on_edges? r (some step) = some (on_edges r step)

  -- `next_chunk`: the message of its error names the type of the list.
  unfoldable pub next_chunk : GroupReader → Option (Step GroupReader)
  next_chunk r = on_edges? r (
      advance storage (error_naming r.edges.adj_list_type index_error) (rounds storage r.edges)
        (record r.edges { chunk_index = r.edges.chunk_index +ℤ pos 1 }))

  -- The constructor.
  unfoldable pub new_group_reader :
      EdgeInfo → Option PropertyGroup → AdjListType → Text → Result GroupReader
  new_group_reader edge_info property_group adj_list_type prefix = do
    (fs, base_dir) ← or_raise (storage.file_system_from_uri_or_path prefix)
    pg_path_prefix ←
        or_raise
          (EdgeInfo.Files.get_property_group_path_prefix edge_info property_group adj_list_type)
    vertex_chunk_num ← or_raise (get_edge_vertex_chunk_num storage prefix edge_info adj_list_type)
    chunk_num ← or_raise (get_edge_chunk_num storage prefix edge_info adj_list_type (pos 0))
    ok (record {
      edges = record {
        edge_info = edge_info;
        adj_list_type = adj_list_type;
        prefix = prefix;
        vertex_chunk_index = pos 0;
        chunk_index = pos 0;
        vertex_chunk_num = vertex_chunk_num;
        chunk_num = chunk_num;
      };
      property_group = property_group;
    })

  -- `Make` of an edge info.
  unfoldable pub make : EdgeInfo → Option PropertyGroup → AdjListType → Text → Result GroupReader
  make edge_info property_group adj_list_type prefix =
      if not (EdgeInfo.has_adjacent_list_type edge_info adj_list_type)
      then error_naming adj_list_type key_error
      else new_group_reader edge_info property_group adj_list_type prefix

  -- `Make` of a graph info, the three types and a property group.
  unfoldable pub make_of_group :
      GraphInfo → Text → Text → Text → Option PropertyGroup → AdjListType → Result GroupReader
  make_of_group graph_info src_type edge_type dst_type property_group adj_list_type = do
    found ← get_edge_info graph_info src_type edge_type dst_type
    edge_info ← edge_or_key_error found
    make edge_info property_group adj_list_type graph_info.prefix

  abbrev pub group_or_key_error : Option PropertyGroup → Result PropertyGroup
  group_or_key_error none = err (status key_error)
  group_or_key_error (some pg) = ok pg

  -- `Make` of a graph info, the three types and the name of a property.
  unfoldable pub make_of_property :
      GraphInfo → Text → Text → Text → Text → AdjListType → Result GroupReader
  make_of_property graph_info src_type edge_type dst_type property_name adj_list_type = do
    found ← get_edge_info graph_info src_type edge_type dst_type
    edge_info ← edge_or_key_error found
    group ← EdgeInfo.get_property_group edge_info property_name
    property_group ← group_or_key_error group
    make edge_info (some property_group) adj_list_type graph_info.prefix
