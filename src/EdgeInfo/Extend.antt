-- ===== src/EdgeInfo/Extend.antt =====
-- `AddAdjacentList` and `AddPropertyGroup` of an edge info (graph_info.cc).
use graph_ar.Base.Index.{DistinctKeys-append, index_by-OtherThan}
use graph_ar.Base.{
  ◌≡◌, ◌≢◌, subst, Bool, true, false, List, [], ◌∷◌, ◌++◌, Option, some, All-append, ok, arith, inl,
  inr, ◌⊎◌, ◌⊎◌,
}
use graph_ar.Base.Text.{Text}
use graph_ar.Base.Int.{ℤ}
use graph_ar.Types.{adj_list_type_to_string}
use graph_ar.Property.{
  PropertyGroup, AdjacentList, adjacent_list_is_validated, any_known, group_is_validated,
}
use graph_ar.Property.Validation.{IsValidGroup}
use graph_ar.Property.Groups.{group_is_validated_iff}
use graph_ar.Property.Extend.{add-Distinct}
use graph_ar.Version.{InfoVersion}
use graph_ar.EdgeInfo.{
  adj_list_Eq, EdgeInfo, new_edge_info, is_validated, add_property_group, add_adjacent_list,
  has_adjacent_list_type, list_type,
}
use graph_ar.EdgeInfo.Validation.{IsGood, IsValidList, edge_is_validated_iff}

append-ne_nil {ℓ} : {A : Type ℓ} (xs : List A) (x : A) → xs ++ x ∷ [] ≢ []
append-ne_nil [] x e = cc
append-ne_nil (y ∷ xs) x e = cc

-- An info as the constructor makes it, by the arguments.
module _ (src_type edge_type dst_type : Text) (chunk_size src_chunk_size dst_chunk_size : ℤ)
    (directed : Bool) (als : List (Option AdjacentList)) (pgs : List (Option PropertyGroup))
    (prefix : Text) (version : Option InfoVersion) where
  abbrev pub made : EdgeInfo
  made =
      new_edge_info src_type edge_type dst_type chunk_size src_chunk_size dst_chunk_size directed
        als pgs prefix version

  -- The info with other lists and groups.
  abbrev remade : List (Option AdjacentList) → List (Option PropertyGroup) → EdgeInfo
  remade lists groups =
      new_edge_info src_type edge_type dst_type chunk_size src_chunk_size dst_chunk_size directed
        lists groups made.prefix version

  made-IsGood : is_validated made ≡ true → IsGood made
  made-IsGood h =
      (edge_is_validated_iff src_type edge_type dst_type chunk_size src_chunk_size dst_chunk_size
          directed als pgs prefix version).0
        h

  with_list-IsGood :
      (al : AdjacentList)
      → IsGood made
      → adjacent_list_is_validated al ≡ true
      → has_adjacent_list_type made al.type ≡ false
      → IsGood (remade (als ++ some al ∷ []) pgs)
  unfolding new_edge_info has_adjacent_list_type
  with_list-IsGood al g good new = record {
    src_typed = g.src_typed;
    edge_typed = g.edge_typed;
    dst_typed = g.dst_typed;
    sized = g.sized;
    src_sized = g.src_sized;
    dst_sized = g.dst_sized;
    prefixed = ground (arith, g.prefixed);
    listed = append-ne_nil als (some al);
    lists = All-append IsValidList als (some al ∷ []) g.lists (good, tt);
    list_types_differ =
        DistinctKeys-append list_type als al g.list_types_differ
          (index_by-OtherThan list_type al.type als (ground arith));
    groups = g.groups;
    distinct = g.distinct;
  }

  with_group-IsGood :
      (pg : PropertyGroup)
      → IsGood made
      → group_is_validated pg ≡ true
      → any_known pg.properties made.property_name_to_index ≡ false
      → IsGood (remade als (pgs ++ some pg ∷ []))
  unfolding new_edge_info
  with_group-IsGood pg g good apart = record {
    src_typed = g.src_typed;
    edge_typed = g.edge_typed;
    dst_typed = g.dst_typed;
    sized = g.sized;
    src_sized = g.src_sized;
    dst_sized = g.dst_sized;
    prefixed = ground (arith, g.prefixed);
    listed = g.listed;
    lists = g.lists;
    list_types_differ = g.list_types_differ;
    groups = All-append IsValidGroup pgs (some pg ∷ []) g.groups (good, tt);
    distinct = add-Distinct pgs pg apart g.distinct ((group_is_validated_iff pg).0 good).distinct;
  }

  remade-is_validated :
      (lists : List (Option AdjacentList)) (groups : List (Option PropertyGroup))
      → IsGood (remade lists groups)
      → is_validated (remade lists groups) ≡ true
  remade-is_validated lists groups g =
      (edge_is_validated_iff src_type edge_type dst_type chunk_size src_chunk_size dst_chunk_size
          directed lists groups made.prefix version).1
        g

  add_adjacent_list_ok :
      (al : AdjacentList) (w : EdgeInfo)
      → add_adjacent_list made (some al) ≡ ok w
      → (has_adjacent_list_type made al.type ≡ false) × (remade (als ++ some al ∷ []) pgs ≡ w)
  unfolding add_adjacent_list new_edge_info adj_list_type_to_string
  add_adjacent_list_ok al w h = ground arith

  add_property_group_ok :
      (pg : PropertyGroup) (w : EdgeInfo)
      → add_property_group made (some pg) ≡ ok w
      → (any_known pg.properties made.property_name_to_index ≡ false)
        × (remade als (pgs ++ some pg ∷ []) ≡ w)
  unfolding add_property_group new_edge_info
  add_property_group_ok pg w h = ground arith

  -- A validated edge info stays validated when `AddAdjacentList` adds a validated list, and when
  -- `AddPropertyGroup` adds a validated group.
  pub add-is_validated :
      (w : EdgeInfo)
      → is_validated made ≡ true
      → ((al : AdjacentList) × (adjacent_list_is_validated al ≡ true)
          × (add_adjacent_list made (some al) ≡ ok w))
        ⊎ ((pg : PropertyGroup) × (group_is_validated pg ≡ true)
            × (add_property_group made (some pg) ≡ ok w))
      → is_validated w ≡ true
  add-is_validated w valid (inl (al, good, added)) =
      let (new, e) = add_adjacent_list_ok al w added in
      subst (λ u. is_validated u ≡ true) e
        (remade-is_validated _ _ (with_list-IsGood al (made-IsGood valid) good new))
  add-is_validated w valid (inr (pg, good, added)) =
      let (apart, e) = add_property_group_ok pg w added in
      subst (λ u. is_validated u ≡ true) e
        (remade-is_validated _ _ (with_group-IsGood pg (made-IsGood valid) good apart))
