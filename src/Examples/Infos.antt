-- ===== src/Examples/Infos.antt =====
-- The theorems about the infos, at the infos of the small graph.
use graph_ar.Property.{adjacent_list_is_validated}
use graph_ar.Base.Assoc.{text_Eq, is_none}
use graph_ar.EdgeInfo.{adj_list_Eq}
use graph_ar.Base.{not}
use graph_ar.Base.Assoc.{is_none}
use graph_ar.Base.{
  ◌≡◌, ◌↔◌, refl, ok, some, none, err, true, false, List, [], ◌∷◌, ◌++◌, Option, Bool, status,
  invalid, inl, inr, ◌⊎◌, if◌then◌else◌, not, arith,
}
use graph_ar.Base.Int.{pos}
use graph_ar.Base.Text.{Text, codes, text_eq}
use graph_ar.Base.Index.{last_of}
use graph_ar.Types.{
  DataType, type_of, list_of, TypeId, FileType, AdjListType, ordered_by_source, unordered_by_dest,
  type_name_to_data_type, to_type_name, string_to_file_type, file_type_to_string,
  ordered_aligned_to_adj_list_type, adj_list_type_to_ordered_aligned,
}
use graph_ar.Property.{PropertyGroup, group_is_validated}
use graph_ar.Property.Lookup.{first_property}
use graph_ar.Property.Groups.{IsGoodGroup, group_is_validated_iff}
use graph_ar.VertexInfo.{VertexInfo}
use graph_ar.VertexInfo
use graph_ar.VertexInfo.Validation.{vertex_is_validated_iff, add_property_group-is_validated}
use graph_ar.EdgeInfo.{EdgeInfo}
use graph_ar.EdgeInfo
use graph_ar.EdgeInfo.Validation.{edge_is_validated_iff}
use graph_ar.EdgeInfo.Extend.{add-is_validated}
use graph_ar.EdgeInfo.Lookup.{
  get_adjacent_list_lem, edge_get_property_group_lem, edge_property_queries,
}
use graph_ar.GraphInfo.{
  GraphInfo, new_graph_info, get_vertex_info, get_edge_info, add_vertex, add_edge,
}
use graph_ar.GraphInfo
use graph_ar.GraphInfo.Validation.{graph_is_validated_iff}
use graph_ar.GraphInfo.Lookup.{get_info_lem, get_edge_info-last_with_types}
use graph_ar.GraphInfo.Extend.{get_vertex_info-add_vertex, graph_add-is_validated}
use graph_ar.Examples.{
  id_group, age_group, person, city, knows, likes, by_source_list, by_dest_list,
}

abbrev town : GraphInfo
town =
    new_graph_info (codes "town") (some person ∷ []) (some knows ∷ []) [] (codes "/") none
      ((codes "k", codes "v") ∷ [])

abbrev with_city : GraphInfo
with_city =
    new_graph_info (codes "town") (some person ∷ some city ∷ []) (some knows ∷ []) [] (codes "/")
      none []

abbrev with_likes : GraphInfo
with_likes =
    new_graph_info (codes "town") (some person ∷ []) (some knows ∷ some likes ∷ []) [] (codes "/")
      none []

abbrev aged_person : VertexInfo
aged_person =
    VertexInfo.new_vertex_info (codes "person") (pos 2) (some id_group ∷ some age_group ∷ []) []
      (codes "person/") none

abbrev knows_both_ways : EdgeInfo
knows_both_ways =
    EdgeInfo.new_edge_info (codes "person") (codes "knows") (codes "person") (pos 2) (pos 2) (pos 2)
      true (some by_source_list ∷ some by_dest_list ∷ []) (some id_group ∷ []) (codes "knows/") none

graph_is_validated_iff_example :
    (GraphInfo.is_validated town ≡ true) ↔ GraphInfo.Validation.IsGood town
graph_is_validated_iff_example =
    graph_is_validated_iff (codes "town") (some person ∷ []) (some knows ∷ []) [] (codes "/") none
      ((codes "k", codes "v") ∷ [])

edge_is_validated_iff_example :
    (EdgeInfo.is_validated knows ≡ true) ↔ EdgeInfo.Validation.IsGood knows
edge_is_validated_iff_example =
    edge_is_validated_iff (codes "person") (codes "knows") (codes "person") (pos 2) (pos 2) (pos 2)
      true (some by_source_list ∷ []) (some id_group ∷ []) (codes "knows/") none

vertex_is_validated_iff_example :
    (VertexInfo.is_validated person ≡ true) ↔ VertexInfo.Validation.IsGood person
vertex_is_validated_iff_example = vertex_is_validated_iff person

group_is_validated_iff_example : (group_is_validated id_group ≡ true) ↔ IsGoodGroup id_group
group_is_validated_iff_example = group_is_validated_iff id_group

person_valid : VertexInfo.is_validated person ≡ true
unfolding VertexInfo.is_validated VertexInfo.new_vertex_info graph_ar.Property.valid_groups
    group_is_validated graph_ar.Property.contains graph_ar.Types.id graph_ar.Property.unique_names
person_valid = refl

city_valid : VertexInfo.is_validated city ≡ true
unfolding VertexInfo.is_validated VertexInfo.new_vertex_info graph_ar.Property.valid_groups
    group_is_validated graph_ar.Property.contains graph_ar.Types.id graph_ar.Property.unique_names
city_valid = refl

knows_valid : EdgeInfo.is_validated knows ≡ true
unfolding EdgeInfo.is_validated EdgeInfo.new_edge_info EdgeInfo.valid_lists
    graph_ar.Property.adjacent_list_is_validated graph_ar.Property.valid_groups group_is_validated
    graph_ar.Property.contains graph_ar.Types.id graph_ar.Property.unique_names
    graph_ar.Base.Index.index_by graph_ar.Base.Assoc.assign
knows_valid = refl

town_valid : GraphInfo.is_validated town ≡ true
unfolding GraphInfo.is_validated new_graph_info GraphInfo.all_validated VertexInfo.is_validated
    VertexInfo.new_vertex_info graph_ar.Property.valid_groups group_is_validated
    graph_ar.Property.contains graph_ar.Types.id graph_ar.Property.unique_names
    EdgeInfo.is_validated EdgeInfo.new_edge_info EdgeInfo.valid_lists
    graph_ar.Property.adjacent_list_is_validated graph_ar.Base.Index.index_by
    graph_ar.Base.Assoc.assign
town_valid = refl

age_group_valid : group_is_validated age_group ≡ true
unfolding group_is_validated graph_ar.Property.contains graph_ar.Types.id
age_group_valid = refl

age_added : VertexInfo.add_property_group person (some age_group) ≡ ok aged_person
unfolding VertexInfo.add_property_group graph_ar.Property.any_known graph_ar.Base.Assoc.find
    graph_ar.Property.index_properties text_eq
age_added = refl

list_added : EdgeInfo.add_adjacent_list knows (some by_dest_list) ≡ ok knows_both_ways
unfolding EdgeInfo.add_adjacent_list EdgeInfo.has_adjacent_list_type graph_ar.Base.Assoc.find
    EdgeInfo.new_edge_info graph_ar.Base.Index.index_by graph_ar.Base.Assoc.assign
list_added = refl

list_valid : adjacent_list_is_validated by_dest_list ≡ true
unfolding adjacent_list_is_validated
list_valid = refl

city_added : add_vertex town (some city) ≡ ok with_city
unfolding add_vertex graph_ar.Base.Assoc.find new_graph_info graph_ar.Base.Index.index_by
    graph_ar.Base.Assoc.assign text_eq VertexInfo.new_vertex_info
city_added = refl

likes_added : add_edge town (some likes) ≡ ok with_likes
unfolding add_edge graph_ar.Base.Assoc.find new_graph_info graph_ar.Base.Index.index_by
    graph_ar.Base.Assoc.assign text_eq EdgeInfo.concat_edge_triple EdgeInfo.new_edge_info
likes_added = refl

get_info_lem_example :
    ((type : Text)
      → get_vertex_info town type ≡ ok (last_of GraphInfo.vertex_key type (some person ∷ [])))
    × ((s t d : Text)
        → get_edge_info town s t d
          ≡ ok (last_of GraphInfo.edge_key (EdgeInfo.concat_edge_triple s t d) (some knows ∷ [])))
get_info_lem_example =
    get_info_lem (codes "town") (some person ∷ []) (some knows ∷ []) [] (codes "/") none
      ((codes "k", codes "v") ∷ [])

get_vertex_info-add_vertex_example : get_vertex_info with_city (codes "city") ≡ (
    if text_eq (codes "city") (codes "city")
    then ok (some city)
    else get_vertex_info town (codes "city"))
unfolding VertexInfo.new_vertex_info
get_vertex_info-add_vertex_example =
    get_vertex_info-add_vertex (codes "town") (some person ∷ []) (some knows ∷ []) [] (codes "/")
      none ((codes "k", codes "v") ∷ []) city with_city city_added (codes "city")

graph_add-is_validated_example : GraphInfo.is_validated with_city ≡ true
graph_add-is_validated_example =
    graph_add-is_validated (codes "town") (some person ∷ []) (some knows ∷ []) [] (codes "/") none
      ((codes "k", codes "v") ∷ []) (inl city) with_city town_valid city_valid city_added

get_edge_info-last_with_types_example :
    get_edge_info town (codes "person") (codes "knows") (codes "person") ≡ ok (some knows)
unfolding EdgeInfo.new_edge_info text_eq
get_edge_info-last_with_types_example =
    get_edge_info-last_with_types (codes "town") (some person ∷ []) (some knows ∷ []) [] (codes "/")
      none ((codes "k", codes "v") ∷ []) (omega arith) (codes "person") (codes "knows")
      (codes "person") (omega arith) (omega arith)

add-is_validated_example : EdgeInfo.is_validated knows_both_ways ≡ true
add-is_validated_example =
    add-is_validated (codes "person") (codes "knows") (codes "person") (pos 2) (pos 2) (pos 2) true
      (some by_source_list ∷ []) (some id_group ∷ []) (codes "knows/") none knows_both_ways
      knows_valid (inl (by_dest_list, list_valid, list_added))

add_property_group-is_validated_example : VertexInfo.is_validated aged_person ≡ true
add_property_group-is_validated_example =
    add_property_group-is_validated (codes "person") (pos 2) (some id_group ∷ []) []
      (codes "person/") none age_group aged_person person_valid age_group_valid age_added

edge_property_queries_example :
    EdgeInfo.Lookup.Answers knows (codes "id") (first_property (codes "id") 0 (some id_group ∷ []))
edge_property_queries_example =
    edge_property_queries (codes "person") (codes "knows") (codes "person") (pos 2) (pos 2) (pos 2)
      true (some by_source_list ∷ []) (some id_group ∷ []) (codes "knows/") none (codes "id")

person_file :
    VertexInfo.get_file_path person (some id_group) (pos 1) ≡ ok (codes "person/id/chunk1")
unfolding VertexInfo.get_file_path graph_ar.Path.build_path VertexInfo.new_vertex_info
    graph_ar.Base.Text.to_string
person_file = refl

list_file :
    EdgeInfo.Files.get_adj_list_file_path knows (pos 1) (pos 2) ordered_by_source
    ≡ ok (codes "knows/by_src/adj_list/part1/chunk2")
unfolding EdgeInfo.Files.get_adj_list_file_path EdgeInfo.Files.list_directory
    EdgeInfo.Files.list_prefix graph_ar.Base.Assoc.find EdgeInfo.new_edge_info
    graph_ar.Base.Index.index_by graph_ar.Base.Assoc.assign graph_ar.Base.Assoc.vector_at
    graph_ar.Path.build_path graph_ar.Base.Text.to_string
list_file = refl

property_file :
    EdgeInfo.Files.get_property_file_path knows (some id_group) ordered_by_source (pos 1) (pos 2)
    ≡ ok (codes "knows/by_src/id/part1/chunk2")
unfolding EdgeInfo.Files.get_property_file_path EdgeInfo.Files.list_prefix graph_ar.Base.Assoc.find
    EdgeInfo.new_edge_info graph_ar.Base.Index.index_by graph_ar.Base.Assoc.assign
    graph_ar.Base.Assoc.vector_at graph_ar.Path.build_path graph_ar.Base.Text.to_string
property_file = refl

offset_file :
    EdgeInfo.Files.get_adj_list_offset_file_path knows (pos 1) ordered_by_source
    ≡ ok (codes "knows/by_src/offset/chunk1")
unfolding EdgeInfo.Files.get_adj_list_offset_file_path EdgeInfo.Files.list_directory
    EdgeInfo.Files.list_prefix graph_ar.Base.Assoc.find EdgeInfo.new_edge_info
    graph_ar.Base.Index.index_by graph_ar.Base.Assoc.assign graph_ar.Base.Assoc.vector_at
    graph_ar.Path.build_path graph_ar.Base.Text.to_string
offset_file = refl

list_name : type_name_to_data_type (codes "list<int32>") ≡ ok (list_of (type_of TypeId.int32))
unfolding type_name_to_data_type text_eq
list_name = refl
