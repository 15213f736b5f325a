-- ===== src/VertexInfo/Validation.antt =====
-- `IsValidated` of a vertex info, and what `AddPropertyGroup` does to it (graph_info.cc).
use graph_ar.Property.Groups.{group_is_validated_iff}
use graph_ar.Property.Extend.{add-Distinct}
use graph_ar.Base.{
  ◌≡◌, ◌≢◌, ◌↔◌, true, [], All, arith, List, Option, some, ok, Bool-cases, false, inl, inr, sym,
  ◌∙◌, subst, ok-injective, ◌++◌, if◌then◌else◌, err, ◌∷◌, All-append, status, invalid,
}
use graph_ar.Base.Int.{pos, ◌<ℤ◌, ℤ}
use graph_ar.Property.{valid_groups, PropertyGroup, group_is_validated, any_known}
use graph_ar.Property.Validation.{IsValidGroup, Distinct, group_names, valid_groups_iff}
use graph_ar.VertexInfo.{
  VertexInfo, is_validated, add_property_group, new_vertex_info, Text, InfoVersion,
}

-- The rules for a vertex info.
pub record IsGood (v : VertexInfo) : Type 0 where
  pub typed : v.type ≢ []
  pub sized : pos 0 <ℤ v.chunk_size
  pub prefixed : v.prefix ≢ []
  pub groups : All IsValidGroup v.property_groups
  pub distinct : Distinct (group_names v.property_groups)

is_validated_checks :
    (v : VertexInfo)
    → (is_validated v ≡ true) ↔ (
        (v.type ≢ [])
        × (pos 0 <ℤ v.chunk_size)
        × (v.prefix ≢ [])
        × (valid_groups v.property_groups [] ≡ true))
unfolding is_validated
is_validated_checks v = ground arith

-- A vertex info is validated exactly if its type and prefix are not empty, its chunk size is
-- positive, each of its property groups is there and validated, and no two properties, of one group
-- or of two, share a name.
pub vertex_is_validated_iff : (v : VertexInfo) → (is_validated v ≡ true) ↔ IsGood v
vertex_is_validated_iff v = (sound, complete)
  where
    sound : is_validated v ≡ true → IsGood v
    sound h =
        let (typed, sized, prefixed, checked) = (is_validated_checks v).0 h in
        let parts = (valid_groups_iff v.property_groups).0 checked in
        record {
          typed = typed;
          sized = sized;
          prefixed = prefixed;
          groups = parts.0;
          distinct = parts.1;
        }

    complete : IsGood v → is_validated v ≡ true
    complete g = (is_validated_checks v).1 (
      g.typed,
      g.sized,
      g.prefixed,
      (valid_groups_iff v.property_groups).1 (g.groups, g.distinct),
    )

-- An info as the constructor makes it, by the arguments.
module _ (type : Text) (chunk_size : ℤ) (pgs : List (Option PropertyGroup)) (labels : List Text)
    (prefix : Text) (version : Option InfoVersion) where
  abbrev pub made : VertexInfo
  made = new_vertex_info type chunk_size pgs labels prefix version

  extended-IsGood :
      (pg : PropertyGroup)
      → IsGood made
      → group_is_validated pg ≡ true
      → any_known pg.properties made.property_name_to_index ≡ false
      → IsGood (
          new_vertex_info made.type made.chunk_size
            (pgs ++ some pg ∷ [])
            labels
            made.prefix
            version)
  unfolding new_vertex_info
  extended-IsGood pg g good apart = record {
    typed = g.typed;
    sized = g.sized;
    prefixed = ground (arith, g.prefixed);
    groups = All-append IsValidGroup pgs (some pg ∷ []) g.groups (good, tt);
    distinct = add-Distinct pgs pg apart g.distinct ((group_is_validated_iff pg).0 good).distinct;
  }

  add_property_group_cases :
      (pg : PropertyGroup)
      → add_property_group made (some pg) ≡ (
          if any_known pg.properties made.property_name_to_index
          then err (status invalid)
          else ok (
              new_vertex_info made.type made.chunk_size
                (pgs ++ some pg ∷ [])
                labels
                made.prefix
                version))
  unfolding add_property_group new_vertex_info
  add_property_group_cases pg = ground arith

  -- A validated info to which `AddPropertyGroup` adds a validated group stays validated.
  pub add_property_group-is_validated :
      (pg : PropertyGroup) (w : VertexInfo)
      → is_validated made ≡ true
      → group_is_validated pg ≡ true
      → add_property_group made (some pg) ≡ ok w
      → is_validated w ≡ true
  add_property_group-is_validated pg w valid good added =
      elim (Bool-cases (any_known pg.properties made.property_name_to_index)) [
        | inl known ↦ absurd (ground (arith, add_property_group_cases pg))
        | inr apart ↦
            let result : ok w ≡ ok _ = sym added ∙ add_property_group_cases pg ∙ rw apart in
            subst (λ u. is_validated u ≡ true) (sym (ok-injective result))
              ((vertex_is_validated_iff _).1
                (extended-IsGood pg ((vertex_is_validated_iff made).0 valid) good apart))
      ]
