-- ===== src/EdgeInfo/Lookup.antt =====
-- What the maps of an edge info answer (graph_info.cc).
use graph_ar.Base.Index.{last_of, item_at-last_of, has_item}
use graph_ar.Base.Assoc.{is_none}
use graph_ar.Base.{
  ℕ, ◌≡◌, Bool, true, false, List, [], Option, none, some, ok, err, status, invalid, arith, not,
}
use graph_ar.Base.Text.{Text}
use graph_ar.Base.Int.{ℤ}
use graph_ar.Types.{AdjListType}
use graph_ar.Property.{Property, PropertyGroup, AdjacentList}
use graph_ar.Property.Lookup.{
  first_property, find-index_properties, group_at-first_group, first_group,
}
use graph_ar.Base.Assoc.{find}
use graph_ar.Version.{InfoVersion}
use graph_ar.EdgeInfo.{
  adj_list_Eq, EdgeInfo, new_edge_info, get_property_group, has_property, is_primary_key,
  is_nullable_key, get_property_type, get_adjacent_list, has_adjacent_list_type, find, list_type,
}

-- What an info says of a name that none of its properties has, and of the name of a property.
abbrev pub Answers : EdgeInfo → Text → Option (ℕ × Property) → Type 0
Answers e name none =
    (has_property e name ≡ false)
    × (is_primary_key e name ≡ false)
    × (is_nullable_key e name ≡ false)
    × (get_property_type e name ≡ err (status invalid))
Answers e name (some (i, p)) =
    (has_property e name ≡ true)
    × (is_primary_key e name ≡ p.is_primary)
    × (is_nullable_key e name ≡ p.is_nullable)
    × (get_property_type e name ≡ ok p.type)

-- An info as the constructor makes it, by the arguments.
module _ (src_type edge_type dst_type : Text) (chunk_size src_chunk_size dst_chunk_size : ℤ)
    (directed : Bool) (als : List (Option AdjacentList)) (pgs : List (Option PropertyGroup))
    (prefix : Text) (version : Option InfoVersion) where
  abbrev pub info : EdgeInfo
  info =
      new_edge_info src_type edge_type dst_type chunk_size src_chunk_size dst_chunk_size directed
        als pgs prefix version

  -- `GetAdjacentList` gives the last list of the type, `HasAdjacentListType` says whether there is
  -- one, and without one the list is the null pointer.
  pub get_adjacent_list_lem :
      (t : AdjListType)
      → (get_adjacent_list info t ≡ ok (last_of list_type t als))
        × (has_adjacent_list_type info t ≡ not (is_none (last_of list_type t als)))
  unfolding new_edge_info get_adjacent_list has_adjacent_list_type
  get_adjacent_list_lem t = (item_at-last_of list_type t als, has_item list_type t als)

  -- `GetPropertyGroup` finds the first group, in the order of the info, that has a property of the
  -- name, and gives the null pointer if there is none: the place in the map is never out of range.
  pub edge_get_property_group_lem :
      (name : Text) → get_property_group info name ≡ ok (first_group name pgs)
  unfolding new_edge_info get_property_group find
  edge_get_property_group_lem name =
      rw (find-index_properties name (λ i p. i) 0 pgs []) (group_at-first_group name pgs)

  -- `HasProperty`, `IsPrimaryKey`, `IsNullableKey` and `GetPropertyType` all speak of the first
  -- property of the name in the order of the groups; without one, the answers are no, no, no and an
  -- error.
  pub edge_property_queries : (name : Text) → Answers info name (first_property name 0 pgs)
  unfolding new_edge_info has_property is_primary_key is_nullable_key get_property_type find
  edge_property_queries name = ground (
    arith,
    find-index_properties name (λ i p. i) 0 pgs [],
    find-index_properties name (λ i p. p.is_primary) 0 pgs [],
    find-index_properties name (λ i p. p.is_nullable) 0 pgs [],
    find-index_properties name (λ i p. p.type) 0 pgs [],
  )
