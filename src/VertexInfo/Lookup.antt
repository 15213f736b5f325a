-- ===== src/VertexInfo/Lookup.antt =====
-- What the maps of a vertex info answer (graph_info.cc).
use graph_ar.Base.{
  ℕ, ◌≡◌, true, false, List, [], Option, none, some, ok, err, status, invalid, arith,
}
use graph_ar.Base.Text.{Text}
use graph_ar.Base.Int.{ℤ}
use graph_ar.Property.{Property, PropertyGroup}
use graph_ar.Property.Lookup.{
  first_property, find-index_properties, group_at-first_group, first_group,
}
use graph_ar.Base.Assoc.{find}
use graph_ar.Version.{InfoVersion}
use graph_ar.VertexInfo.{
  VertexInfo, new_vertex_info, get_property_group, has_property, is_primary_key, is_nullable_key,
  get_property_type, find,
}

-- What an info says of a name that none of its properties has, and of the name of a property.
abbrev pub Answers : VertexInfo → Text → Option (ℕ × Property) → Type 0
Answers v name none =
    (has_property v name ≡ false)
    × (is_primary_key v name ≡ false)
    × (is_nullable_key v name ≡ false)
    × (get_property_type v name ≡ err (status invalid))
Answers v name (some (i, p)) =
    (has_property v name ≡ true)
    × (is_primary_key v name ≡ p.is_primary)
    × (is_nullable_key v name ≡ p.is_nullable)
    × (get_property_type v name ≡ ok p.type)

module _ (type : Text) (chunk_size : ℤ) (pgs : List (Option PropertyGroup)) (labels : List Text)
    (prefix : Text) (version : Option InfoVersion) where
  abbrev pub info : VertexInfo
  info = new_vertex_info type chunk_size pgs labels prefix version

  -- `GetPropertyGroup` finds the first group, in the order of the info, that has a property of the
  -- name, and gives the null pointer if there is none: the place in the map is never out of range.
  pub vertex_get_property_group_lem :
      (name : Text) → get_property_group info name ≡ ok (first_group name pgs)
  unfolding new_vertex_info get_property_group find
  vertex_get_property_group_lem name =
      rw (find-index_properties name (λ i p. i) 0 pgs []) (group_at-first_group name pgs)

  -- `HasProperty`, `IsPrimaryKey`, `IsNullableKey` and `GetPropertyType` all speak of the first
  -- property of the name in the order of the groups; without one, the answers are no, no, no and an
  -- error.
  pub vertex_property_queries : (name : Text) → Answers info name (first_property name 0 pgs)
  unfolding new_vertex_info has_property is_primary_key is_nullable_key get_property_type find
  vertex_property_queries name = ground (
    arith,
    find-index_properties name (λ i p. i) 0 pgs [],
    find-index_properties name (λ i p. p.is_primary) 0 pgs [],
    find-index_properties name (λ i p. p.is_nullable) 0 pgs [],
    find-index_properties name (λ i p. p.type) 0 pgs [],
  )
