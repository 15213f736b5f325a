-- ===== src/EdgeInfo/Files.antt =====
-- The paths of the files and directories of an edge info (graph_info.cc).
use graph_ar.Base.{
  none, some, [], ◌∷◌, ◌++◌, Option, Result, ok, err, status, invalid, key_error, deref, ◌>>=◌,
}
use graph_ar.Base.Text.{Text, codes, to_string}
use graph_ar.Base.Int.{ℤ, pos}
use graph_ar.Base.Assoc.{find, vector_at}
use graph_ar.Types.{AdjListType, error_naming}
use graph_ar.Property.{PropertyGroup}
use graph_ar.Path.{build_path}
use graph_ar.EdgeInfo.{EdgeInfo, adj_list_Eq}

-- `CHECK_HAS_ADJ_LIST_TYPE` with what each use of it goes on with: the prefix of the list that the
-- map has for the type. A null list there would be dereferenced.
unfoldable pub list_prefix : EdgeInfo → AdjListType → Result Text
list_prefix e type = elim (find type e.adjacent_list_type_to_index) [
  | none ↦ error_naming type key_error
  | some i ↦ do al ← vector_at e.adjacent_lists (pos i); l ← deref al; ok l.prefix
]

-- The directory of an adjacent list.
unfoldable pub list_directory : EdgeInfo → AdjListType → Result Text
list_directory e type = do prefix ← list_prefix e type; build_path (e.prefix ∷ prefix ∷ [])

-- `GetVerticesNumFilePath`.
unfoldable pub get_vertices_num_file_path : EdgeInfo → AdjListType → Result Text
get_vertices_num_file_path e type = do dir ← list_directory e type; ok (dir ++ codes "vertex_count")

-- `GetEdgesNumFilePath`.
unfoldable pub get_edges_num_file_path : EdgeInfo → ℤ → AdjListType → Result Text
get_edges_num_file_path e vertex_chunk_index type = do
  dir ← list_directory e type
  ok (dir ++ codes "edge_count" ++ to_string vertex_chunk_index)

-- `GetAdjListFilePath`.
unfoldable pub get_adj_list_file_path : EdgeInfo → ℤ → ℤ → AdjListType → Result Text
get_adj_list_file_path e vertex_chunk_index edge_chunk_index type = do
  dir ← list_directory e type
  ok (
      dir
      ++ codes "adj_list/part"
      ++ to_string vertex_chunk_index
      ++ codes "/chunk"
      ++ to_string edge_chunk_index)

-- `GetAdjListPathPrefix`.
unfoldable pub get_adj_list_path_prefix : EdgeInfo → AdjListType → Result Text
get_adj_list_path_prefix e type = do dir ← list_directory e type; ok (dir ++ codes "adj_list/")

-- `GetAdjListOffsetFilePath`.
unfoldable pub get_adj_list_offset_file_path : EdgeInfo → ℤ → AdjListType → Result Text
get_adj_list_offset_file_path e vertex_chunk_index type = do
  dir ← list_directory e type
  ok (dir ++ codes "offset/chunk" ++ to_string vertex_chunk_index)

-- `GetOffsetPathPrefix`.
unfoldable pub get_offset_path_prefix : EdgeInfo → AdjListType → Result Text
get_offset_path_prefix e type = do dir ← list_directory e type; ok (dir ++ codes "offset/")

-- `GetPropertyGroupPathPrefix`.
unfoldable pub get_property_group_path_prefix :
    EdgeInfo → Option PropertyGroup → AdjListType → Result Text
get_property_group_path_prefix e none type = err (status invalid)
get_property_group_path_prefix e (some pg) type = do
  prefix ← list_prefix e type
  build_path (e.prefix ∷ prefix ∷ pg.prefix ∷ [])

-- `GetPropertyFilePath`.
unfoldable pub get_property_file_path :
    EdgeInfo → Option PropertyGroup → AdjListType → ℤ → ℤ → Result Text
get_property_file_path e none type vertex_chunk_index edge_chunk_index = err (status invalid)
get_property_file_path e (some pg) type vertex_chunk_index edge_chunk_index = do
  prefix ← list_prefix e type
  dir ← build_path (e.prefix ∷ prefix ∷ pg.prefix ∷ [])
  ok (
      dir
      ++ codes "part"
      ++ to_string vertex_chunk_index
      ++ codes "/chunk"
      ++ to_string edge_chunk_index)
