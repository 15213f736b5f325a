-- ===== src/Examples.antt =====
-- A small graph on which the theorems about the infos and the readers are used.

pub mod Infos
pub mod Reading
pub mod Writing
pub mod Sorting
pub mod Building
pub mod Placing
pub mod Cutting
pub mod Fetching
pub mod Walking
pub mod Filtering
use graph_ar.Base.{
  [], ◌∷◌, none, some, true, false, ok, Result, err, status, io_error, if◌then◌else◌,
}
use graph_ar.Base.Text.{Text, codes, text_eq}
use graph_ar.Base.Int.{ℤ, pos}
use graph_ar.Types.{type_of, TypeId, FileType, ordered_by_source, unordered_by_dest}
use graph_ar.Property.{Property, TypePointer, PropertyGroup, AdjacentList}
use graph_ar.VertexInfo.{VertexInfo, new_vertex_info}
use graph_ar.EdgeInfo.{EdgeInfo, new_edge_info}
use graph_ar.Storage.{Storage}
use graph_ar.Reader.AdjList.{AdjListReader}
use graph_ar.Reader.Vertex.{VertexReader}
use graph_ar.Reader.Group.{GroupReader}

abbrev pub int64_pointer : TypePointer
int64_pointer = record { address = 8; target = type_of TypeId.int64 }

abbrev pub id_property : Property
id_property = record {
  name = codes "id";
  type = some int64_pointer;
  is_primary = true;
  is_nullable = false;
}

abbrev pub age_property : Property
age_property = record {
  name = codes "age";
  type = some int64_pointer;
  is_primary = false;
  is_nullable = true;
}

abbrev pub id_group : PropertyGroup
id_group = record {
  properties = id_property ∷ [];
  file_type = FileType.parquet;
  prefix = codes "id/";
}

abbrev pub age_group : PropertyGroup
age_group = record {
  properties = age_property ∷ [];
  file_type = FileType.csv;
  prefix = codes "age/";
}

abbrev pub by_source_list : AdjacentList
by_source_list = record {
  type = ordered_by_source;
  file_type = FileType.csv;
  prefix = codes "by_src/";
}

abbrev pub by_dest_list : AdjacentList
by_dest_list = record {
  type = unordered_by_dest;
  file_type = FileType.csv;
  prefix = codes "by_dst/";
}

abbrev pub person : VertexInfo
person = new_vertex_info (codes "person") (pos 2) (some id_group ∷ []) [] (codes "person/") none

abbrev pub city : VertexInfo
city = new_vertex_info (codes "city") (pos 2) (some id_group ∷ []) [] (codes "city/") none

abbrev pub knows : EdgeInfo
knows =
    new_edge_info (codes "person") (codes "knows") (codes "person") (pos 2) (pos 2) (pos 2) true
      (some by_source_list ∷ []) (some id_group ∷ []) (codes "knows/") none

abbrev pub likes : EdgeInfo
likes =
    new_edge_info (codes "person") (codes "likes") (codes "person") (pos 2) (pos 2) (pos 2) true
      (some by_dest_list ∷ []) [] (codes "likes/") none

-- Three vertex chunks of persons: three edges leave the first, none the second and one the third.
abbrev pub count_in : Text → Result ℤ
count_in path =
    if text_eq path (codes "knows/by_src/edge_count0")
    then ok (pos 3)
    else if text_eq path (codes "knows/by_src/edge_count1")
    then ok (pos 0)
    else if text_eq path (codes "knows/by_src/edge_count2")
    then ok (pos 1)
    else if text_eq path (codes "likes/by_dst/edge_count0")
    then ok (pos 2)
    else if text_eq path (codes "likes/by_dst/edge_count1")
    then ok (pos 2)
    else if text_eq path (codes "person/vertex_count")
    then ok (pos 5)
    else err (status io_error)

abbrev pub disk : Storage
disk = record {
  FileSystem = Unit;
  Table = Unit;
  file_system_from_uri_or_path = λ uri. ok (tt, []);
  read_file_to_value = λ fs path. count_in path;
  read_file_to_table = λ fs path file_type. ok tt;
  first_column_slice = λ table offset length. pos 2 ∷ pos 3 ∷ [];
}

abbrev pub knows_reader : ℤ → ℤ → ℤ → AdjListReader
knows_reader vertex_chunk chunk num = record {
  edge_info = knows;
  adj_list_type = ordered_by_source;
  prefix = codes "/";
  vertex_chunk_index = vertex_chunk;
  chunk_index = chunk;
  vertex_chunk_num = pos 3;
  chunk_num = num;
}

abbrev pub likes_reader : ℤ → ℤ → ℤ → AdjListReader
likes_reader vertex_chunk chunk num = record {
  edge_info = likes;
  adj_list_type = unordered_by_dest;
  prefix = codes "/";
  vertex_chunk_index = vertex_chunk;
  chunk_index = chunk;
  vertex_chunk_num = pos 3;
  chunk_num = num;
}

abbrev pub person_reader : VertexReader
person_reader = record {
  vertex_info = person;
  property_group = some id_group;
  prefix = codes "/";
  chunk_index = pos 0;
  chunk_num = pos 3;
}

abbrev pub id_reader : GroupReader
id_reader = record { edges = knows_reader (pos 0) (pos 0) (pos 2); property_group = some id_group }
