-- ===== src/VertexInfo.antt =====
-- `VertexInfo` of cpp/src/graphar/graph_info.h and graph_info.cc. An object is immutable: each is
-- made by the constructor, and `AddPropertyGroup` makes another.
pub mod Lookup
pub mod Validation
pub mod Paths
use graph_ar.Base.{
  ℕ, Bool, true, false, List, [], ◌∷◌, ◌++◌, Option, none, some, Result, Status, ok, err, status,
  invalid, ◌>>=◌, ◌>>◌, reject_if, if◌then◌else◌, length, ◌||◌,
}
use graph_ar.Base.Text.{Text, codes, is_empty, to_string}
use graph_ar.Base.Int.{ℤ, pos, leb_ℤ}
use graph_ar.Base.Assoc.{find, or_minus_one, text_Eq}
use graph_ar.Types.{DataType}
use graph_ar.Property.{
  Property, PropertyGroup, TypePointer, index_properties, valid_groups, has_property_group,
  group_at, group_by_index, any_known,
}
use graph_ar.Path.{build_path}
use graph_ar.Version.{InfoVersion}

pub record VertexInfo : Type 0 where
  pub type : Text
  pub chunk_size : ℤ
  pub property_groups : List (Option PropertyGroup)
  pub labels : List Text
  pub prefix : Text
  pub version : Option InfoVersion
  pub property_name_to_index : List (Text × ℕ)
  pub property_name_to_primary : List (Text × Bool)
  pub property_name_to_nullable : List (Text × Bool)
  pub property_name_to_type : List (Text × Option TypePointer)

-- The constructors of `VertexInfo` and `Impl`. An empty prefix becomes the type with '/' behind it.
unfoldable pub new_vertex_info :
    Text → ℤ → List (Option PropertyGroup) → List Text → Text → Option InfoVersion → VertexInfo
new_vertex_info type chunk_size property_groups labels prefix version = record {
  type = type;
  chunk_size = chunk_size;
  property_groups = property_groups;
  labels = labels;
  prefix = if is_empty prefix then type ++ codes "/" else prefix;
  version = version;
  property_name_to_index = index_properties (λ i p. i) 0 property_groups [];
  property_name_to_primary = index_properties (λ i p. p.is_primary) 0 property_groups [];
  property_name_to_nullable = index_properties (λ i p. p.is_nullable) 0 property_groups [];
  property_name_to_type = index_properties (λ i p. p.type) 0 property_groups [];
}

-- `is_validated` of `Impl`, and `IsValidated`.
unfoldable pub is_validated : VertexInfo → Bool
is_validated v =
    if is_empty v.type || leb_ℤ v.chunk_size (pos 0) || is_empty v.prefix
    then false
    else valid_groups v.property_groups []

-- `GetPathPrefix`.
unfoldable pub get_path_prefix : VertexInfo → Option PropertyGroup → Result Text
get_path_prefix v none = err (status invalid)
get_path_prefix v (some pg) = build_path (v.prefix ∷ pg.prefix ∷ [])

-- `GetFilePath`.
unfoldable pub get_file_path : VertexInfo → Option PropertyGroup → ℤ → Result Text
get_file_path v none chunk_index = err (status invalid)
get_file_path v (some pg) chunk_index = do
  dir ← build_path (v.prefix ∷ pg.prefix ∷ [])
  ok (dir ++ codes "chunk" ++ to_string chunk_index)

-- `GetVerticesNumFilePath`.
unfoldable pub get_vertices_num_file_path : VertexInfo → Result Text
get_vertices_num_file_path v = do dir ← build_path (v.prefix ∷ []); ok (dir ++ codes "vertex_count")

-- `PropertyGroupNum`.
unfoldable pub property_group_num : VertexInfo → ℕ
property_group_num v = length v.property_groups

-- `GetPropertyGroup`.
unfoldable pub get_property_group : VertexInfo → Text → Result (Option PropertyGroup)
get_property_group v name =
    group_at v.property_groups (or_minus_one (find name v.property_name_to_index))

-- `GetPropertyGroupByIndex`.
unfoldable pub get_property_group_by_index : VertexInfo → ℤ → Result (Option PropertyGroup)
unfolding group_by_index
get_property_group_by_index v index = group_by_index v.property_groups index

-- `IsPrimaryKey`.
unfoldable pub is_primary_key : VertexInfo → Text → Bool
is_primary_key v name = elim (find name v.property_name_to_primary) [ none ↦ false | some b ↦ b ]

-- `IsNullableKey`.
unfoldable pub is_nullable_key : VertexInfo → Text → Bool
is_nullable_key v name = elim (find name v.property_name_to_nullable) [ none ↦ false | some b ↦ b ]

-- `HasProperty`.
unfoldable pub has_property : VertexInfo → Text → Bool
has_property v name = elim (find name v.property_name_to_index) [ none ↦ false | some i ↦ true ]

-- `HasPropertyGroup`.
unfoldable pub has_group : VertexInfo → Option PropertyGroup → Result Bool
has_group v property_group = has_property_group v.property_groups property_group

-- `GetPropertyType`.
unfoldable pub get_property_type : VertexInfo → Text → Result (Option TypePointer)
get_property_type v name = elim (find name v.property_name_to_type) [
  | none ↦ err (status invalid)
  | some type ↦ ok type
]

-- `AddPropertyGroup`: the info with the group behind its groups.
unfoldable pub add_property_group : VertexInfo → Option PropertyGroup → Result VertexInfo
unfolding new_vertex_info
add_property_group v none = err (status invalid)
add_property_group v (some pg) = do
  reject_if (any_known pg.properties v.property_name_to_index) invalid
  ok (
      new_vertex_info v.type v.chunk_size (v.property_groups ++ some pg ∷ []) v.labels v.prefix
        v.version)

-- `CreateVertexInfo`.
unfoldable pub create_vertex_info :
    Text
    → ℤ
    → List (Option PropertyGroup)
    → List Text
    → Text
    → Option InfoVersion
    → Option VertexInfo
unfolding new_vertex_info
create_vertex_info type chunk_size property_groups labels prefix version =
    if is_empty type || leb_ℤ chunk_size (pos 0)
    then none
    else some (new_vertex_info type chunk_size property_groups labels prefix version)
