-- ===== src/EdgeInfo.antt =====
-- `EdgeInfo` of cpp/src/graphar/graph_info.h and graph_info.cc. As for a vertex info, objects are
-- immutable.
pub mod Lookup
pub mod Validation
pub mod Files
pub mod Paths
pub mod Extend
use graph_ar.Base.{
  ℕ, suc, Bool, true, false, not, ◌||◌, List, [], ◌∷◌, ◌++◌, Option, none, some, Result, ok, err,
  status, invalid, key_error, ◌>>=◌, ◌>>◌, reject_if, if◌then◌else◌, length, ◌==◌, ◌≡◌, deref, ◌↔◌,
  arith,
}
use graph_ar.Base.Text.{Text, codes, is_empty, to_string}
use graph_ar.Base.Int.{ℤ, pos, leb_ℤ}
use graph_ar.Base.Assoc.{Eq, find, assign, or_minus_one, text_Eq, vector_at}
use graph_ar.Base.Index.{index_by}
use graph_ar.Types.{AdjListType, adj_list_code, adj_list_code-injective, error_naming}
use graph_ar.Property.{
  Property, PropertyGroup, TypePointer, AdjacentList, adjacent_list_is_validated, index_properties,
  valid_groups, has_property_group, group_at, group_by_index, any_known,
}
use graph_ar.Path.{build_path}
use graph_ar.Version.{InfoVersion}

pub adj_list_eq_iff : (a b : AdjListType) → ((adj_list_code a == adj_list_code b) ≡ true) ↔ (a ≡ b)
adj_list_eq_iff a b = ground arith

instance abbrev pub adj_list_Eq : Eq AdjListType
adj_list_Eq = record { beq = λ a b. adj_list_code a == adj_list_code b; beq_iff = adj_list_eq_iff }

pub record EdgeInfo : Type 0 where
  pub src_type : Text
  pub edge_type : Text
  pub dst_type : Text
  pub chunk_size : ℤ
  pub src_chunk_size : ℤ
  pub dst_chunk_size : ℤ
  pub directed : Bool
  pub prefix : Text
  pub adjacent_lists : List (Option AdjacentList)
  pub property_groups : List (Option PropertyGroup)
  pub adjacent_list_type_to_index : List (AdjListType × ℕ)
  pub property_name_to_index : List (Text × ℕ)
  pub property_name_to_primary : List (Text × Bool)
  pub property_name_to_nullable : List (Text × Bool)
  pub property_name_to_type : List (Text × Option TypePointer)
  pub version : Option InfoVersion

abbrev pub list_type : AdjacentList → AdjListType
list_type al = al.type

-- `ConcatEdgeTriple`.
unfoldable pub concat_edge_triple : Text → Text → Text → Text
concat_edge_triple src_type edge_type dst_type =
    src_type ++ codes "_" ++ edge_type ++ codes "_" ++ dst_type

-- The constructors of `EdgeInfo` and `Impl`. An empty prefix becomes the three types joined by '_',
-- with '/' behind them.
unfoldable pub new_edge_info :
    Text
    → Text
    → Text
    → ℤ
    → ℤ
    → ℤ
    → Bool
    → List (Option AdjacentList)
    → List (Option PropertyGroup)
    → Text
    → Option InfoVersion
    → EdgeInfo
new_edge_info src_type edge_type dst_type chunk_size src_chunk_size dst_chunk_size directed
      adjacent_lists property_groups prefix version =
    record {
      src_type = src_type;
      edge_type = edge_type;
      dst_type = dst_type;
      chunk_size = chunk_size;
      src_chunk_size = src_chunk_size;
      dst_chunk_size = dst_chunk_size;
      directed = directed;
      prefix =
          if is_empty prefix
          then src_type ++ codes "_" ++ edge_type ++ codes "_" ++ dst_type ++ codes "/"
          else prefix;
      adjacent_lists = adjacent_lists;
      property_groups = property_groups;
      adjacent_list_type_to_index = index_by list_type 0 adjacent_lists [];
      property_name_to_index = index_properties (λ i p. i) 0 property_groups [];
      property_name_to_primary = index_properties (λ i p. p.is_primary) 0 property_groups [];
      property_name_to_nullable = index_properties (λ i p. p.is_nullable) 0 property_groups [];
      property_name_to_type = index_properties (λ i p. p.type) 0 property_groups [];
      version = version;
    }

unfoldable pub valid_lists : List (Option AdjacentList) → Bool
valid_lists [] = true
valid_lists (none ∷ als) = false
valid_lists (some al ∷ als) =
    let rest = valid_lists als in if adjacent_list_is_validated al then rest else false

-- `is_validated` of `Impl`, and `IsValidated`.
unfoldable pub is_validated : EdgeInfo → Bool
is_validated e =
    if is_empty e.src_type
      || is_empty e.edge_type
      || is_empty e.dst_type
      || leb_ℤ e.chunk_size (pos 0)
      || leb_ℤ e.src_chunk_size (pos 0)
      || leb_ℤ e.dst_chunk_size (pos 0)
      || is_empty e.prefix
      || (elim e.adjacent_lists [ [] ↦ true | al ∷ als ↦ false ])
    then false
    else if not (valid_lists e.adjacent_lists)
    then false
    else if not (valid_groups e.property_groups [])
    then false
    else if not (length e.adjacent_lists == length e.adjacent_list_type_to_index)
    then false
    else true

-- `HasAdjacentListType`.
unfoldable pub has_adjacent_list_type : EdgeInfo → AdjListType → Bool
has_adjacent_list_type e type = elim (find type e.adjacent_list_type_to_index) [
  | none ↦ false
  | some i ↦ true
]

-- `GetAdjacentList`.
unfoldable pub get_adjacent_list : EdgeInfo → AdjListType → Result (Option AdjacentList)
get_adjacent_list e type = elim (find type e.adjacent_list_type_to_index) [
  | none ↦ ok none
  | some i ↦ vector_at e.adjacent_lists (pos i)
]

-- `PropertyGroupNum`.
unfoldable pub property_group_num : EdgeInfo → ℕ
property_group_num e = length e.property_groups

-- `GetPropertyGroup`.
unfoldable pub get_property_group : EdgeInfo → Text → Result (Option PropertyGroup)
get_property_group e name =
    group_at e.property_groups (or_minus_one (find name e.property_name_to_index))

-- `GetPropertyGroupByIndex`.
unfoldable pub get_property_group_by_index : EdgeInfo → ℤ → Result (Option PropertyGroup)
get_property_group_by_index e index = group_by_index e.property_groups index

-- `IsPrimaryKey`.
unfoldable pub is_primary_key : EdgeInfo → Text → Bool
is_primary_key e name = elim (find name e.property_name_to_primary) [ none ↦ false | some b ↦ b ]

-- `IsNullableKey`.
unfoldable pub is_nullable_key : EdgeInfo → Text → Bool
is_nullable_key e name = elim (find name e.property_name_to_nullable) [ none ↦ false | some b ↦ b ]

-- `HasProperty`.
unfoldable pub has_property : EdgeInfo → Text → Bool
has_property e name = elim (find name e.property_name_to_index) [ none ↦ false | some i ↦ true ]

-- `HasPropertyGroup`.
unfoldable pub has_group : EdgeInfo → Option PropertyGroup → Result Bool
has_group e property_group = has_property_group e.property_groups property_group

-- `GetPropertyType`.
unfoldable pub get_property_type : EdgeInfo → Text → Result (Option TypePointer)
get_property_type e name = elim (find name e.property_name_to_type) [
  | none ↦ err (status invalid)
  | some type ↦ ok type
]

-- `AddAdjacentList`.
unfoldable pub add_adjacent_list : EdgeInfo → Option AdjacentList → Result EdgeInfo
add_adjacent_list e none = err (status invalid)
add_adjacent_list e (some al) =
    if has_adjacent_list_type e al.type
    then error_naming al.type invalid
    else ok (
        new_edge_info e.src_type e.edge_type e.dst_type e.chunk_size e.src_chunk_size
          e.dst_chunk_size e.directed (e.adjacent_lists ++ some al ∷ []) e.property_groups e.prefix
          e.version)

-- `AddPropertyGroup`.
unfoldable pub add_property_group : EdgeInfo → Option PropertyGroup → Result EdgeInfo
add_property_group e none = err (status invalid)
add_property_group e (some pg) = do
  reject_if (any_known pg.properties e.property_name_to_index) invalid
  ok (
      new_edge_info e.src_type e.edge_type e.dst_type e.chunk_size e.src_chunk_size e.dst_chunk_size
        e.directed e.adjacent_lists (e.property_groups ++ some pg ∷ []) e.prefix e.version)

-- `CreateEdgeInfo`.
unfoldable pub create_edge_info :
    Text
    → Text
    → Text
    → ℤ
    → ℤ
    → ℤ
    → Bool
    → List (Option AdjacentList)
    → List (Option PropertyGroup)
    → Text
    → Option InfoVersion
    → Option EdgeInfo
create_edge_info src_type edge_type dst_type chunk_size src_chunk_size dst_chunk_size directed
      adjacent_lists property_groups prefix version =
    if is_empty src_type
      || is_empty edge_type
      || is_empty dst_type
      || leb_ℤ chunk_size (pos 0)
      || leb_ℤ src_chunk_size (pos 0)
      || leb_ℤ dst_chunk_size (pos 0)
      || (elim adjacent_lists [ [] ↦ true | al ∷ als ↦ false ])
    then none
    else some (
        new_edge_info src_type edge_type dst_type chunk_size src_chunk_size dst_chunk_size directed
          adjacent_lists property_groups prefix version)
