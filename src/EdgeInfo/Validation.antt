-- ===== src/EdgeInfo/Validation.antt =====
-- `IsValidated` of an edge info (graph_info.cc).
use graph_ar.Base.Index.{DistinctKeys, IsThere, length-index_by_iff, keys_of}
use graph_ar.Base.{
  ◌≡◌, ◌≢◌, ◌↔◌, refl, Bool, true, List, [], ◌∷◌, Option, none, some, All, arith, length,
}
use graph_ar.Base.Text.{Text}
use graph_ar.Base.Int.{ℤ, pos, ◌<ℤ◌}
use graph_ar.Property.{PropertyGroup, AdjacentList, adjacent_list_is_validated, valid_groups}
use graph_ar.Property.Validation.{IsValidGroup, Distinct, group_names, valid_groups_iff}
use graph_ar.Version.{InfoVersion}
use graph_ar.EdgeInfo.{adj_list_Eq, EdgeInfo, new_edge_info, is_validated, valid_lists, list_type}

abbrev pub IsValidList : Option AdjacentList → Type 0
IsValidList none = ⊥
IsValidList (some al) = adjacent_list_is_validated al ≡ true

-- The rules for an edge info.
pub record IsGood (e : EdgeInfo) : Type 0 where
  pub src_typed : e.src_type ≢ []
  pub edge_typed : e.edge_type ≢ []
  pub dst_typed : e.dst_type ≢ []
  pub sized : pos 0 <ℤ e.chunk_size
  pub src_sized : pos 0 <ℤ e.src_chunk_size
  pub dst_sized : pos 0 <ℤ e.dst_chunk_size
  pub prefixed : e.prefix ≢ []
  pub listed : e.adjacent_lists ≢ []
  pub lists : All IsValidList e.adjacent_lists
  pub list_types_differ : DistinctKeys (keys_of list_type e.adjacent_lists)
  pub groups : All IsValidGroup e.property_groups
  pub distinct : Distinct (group_names e.property_groups)

valid_lists_iff :
    (als : List (Option AdjacentList)) → (valid_lists als ≡ true) ↔ All IsValidList als
unfolding valid_lists
valid_lists_iff [] = (λ _. tt, λ _. refl)
valid_lists_iff (none ∷ als) = (λ h. cc, λ h. absurd h.0)
valid_lists_iff (some al ∷ als) = ground (arith, valid_lists_iff als)

there : (als : List (Option AdjacentList)) → All IsValidList als → All IsThere als
there [] h = tt
there (none ∷ als) h = absurd h.0
there (some al ∷ als) h = (tt, there als h.1)

is_validated_checks :
    (e : EdgeInfo)
    → (is_validated e ≡ true) ↔ (
        (e.src_type ≢ [])
        × (e.edge_type ≢ [])
        × (e.dst_type ≢ [])
        × (pos 0 <ℤ e.chunk_size)
        × (pos 0 <ℤ e.src_chunk_size)
        × (pos 0 <ℤ e.dst_chunk_size)
        × (e.prefix ≢ [])
        × (e.adjacent_lists ≢ [])
        × (valid_lists e.adjacent_lists ≡ true)
        × (valid_groups e.property_groups [] ≡ true)
        × (length e.adjacent_lists ≡ length e.adjacent_list_type_to_index))
unfolding is_validated
is_validated_checks e = ground arith

-- An info as the constructor makes it, by the arguments.
module _ (src_type edge_type dst_type : Text) (chunk_size src_chunk_size dst_chunk_size : ℤ)
    (directed : Bool) (als : List (Option AdjacentList)) (pgs : List (Option PropertyGroup))
    (prefix : Text) (version : Option InfoVersion) where
  abbrev pub made : EdgeInfo
  made =
      new_edge_info src_type edge_type dst_type chunk_size src_chunk_size dst_chunk_size directed
        als pgs prefix version

  -- An edge info is validated exactly if none of its three types and its prefix is empty, its three
  -- chunk sizes are positive, it has an adjacent list, each of its lists and groups is there and
  -- validated, no two lists have the same type, and no two properties share a name.
  pub edge_is_validated_iff : (is_validated made ≡ true) ↔ IsGood made
  unfolding new_edge_info
  edge_is_validated_iff = (sound, complete)
    where
      sound : is_validated made ≡ true → IsGood made
      sound h =
          let c = (is_validated_checks made).0 h in
          let lists = (valid_lists_iff als).0 c.8 in
          let parts = (valid_groups_iff pgs).0 c.9 in
          record {
            src_typed = c.0;
            edge_typed = c.1;
            dst_typed = c.2;
            sized = c.3;
            src_sized = c.4;
            dst_sized = c.5;
            prefixed = c.6;
            listed = c.7;
            lists = lists;
            list_types_differ = (length-index_by_iff list_type als (there als lists)).0 c.10;
            groups = parts.0;
            distinct = parts.1;
          }

      complete : IsGood made → is_validated made ≡ true
      complete g = (is_validated_checks made).1 (
        g.src_typed,
        g.edge_typed,
        g.dst_typed,
        g.sized,
        g.src_sized,
        g.dst_sized,
        g.prefixed,
        g.listed,
        (valid_lists_iff als).1 g.lists,
        (valid_groups_iff pgs).1 (g.groups, g.distinct),
        (length-index_by_iff list_type als (there als g.lists)).1 g.list_types_differ,
      )
