-- ===== src/Property/Groups.antt =====
-- `PropertyGroup::IsValidated` (graph_info.cc) against the rules for a group, one by one.
use graph_ar.Base.{
  ◌&&◌, Bool, Option, ◌≡◌, ◌≢◌, ◌↔◌, refl, true, false, List, [], ◌∷◌, none, some, All, arith,
  Option-cases, inl, inr,
}
use graph_ar.Property.{
  Property, PropertyGroup, valid_properties, group_is_validated, contains, FileType,
  is_chunk_file_type, TypePointer, Text, is_list, is_csv,
}
use graph_ar.Property.Validation.{names, Distinct, Fresh, Fresh-nil}

abbrev pub is_list_type : Option TypePointer → Bool
is_list_type none = false
is_list_type (some t) = is_list t

-- A property that a group of the file type may have.
pub record IsValidProperty (file_type : FileType) (p : Property) : Type 0 where
  pub named : p.name ≢ []
  pub typed : p.type ≢ none
  pub no_list_in_csv : (is_list_type p.type && is_csv file_type) ≡ false

pub record IsGoodGroup (pg : PropertyGroup) : Type 0 where
  pub prefixed : pg.prefix ≢ []
  pub chunked : is_chunk_file_type pg.file_type ≡ true
  pub inhabited : pg.properties ≢ []
  pub each : All (IsValidProperty pg.file_type) pg.properties
  pub distinct : Distinct (names pg.properties)

IsValidProperty-sound :
    (ft : FileType) (p : Property) (ps : List Property) (seen : List Text)
    → valid_properties ft (p ∷ ps) seen ≡ true
    → IsValidProperty ft p
      × (contains p.name seen ≡ false)
      × (valid_properties ft ps (p.name ∷ seen) ≡ true)
unfolding valid_properties
IsValidProperty-sound ft p ps seen h = ground arith

valid_properties-cons :
    (ft : FileType) (p : Property) (ps : List Property) (seen : List Text)
    → IsValidProperty ft p
    → contains p.name seen ≡ false
    → valid_properties ft ps (p.name ∷ seen) ≡ true
    → valid_properties ft (p ∷ ps) seen ≡ true
unfolding valid_properties
valid_properties-cons ft p ps seen v fresh rest = elim (Option-cases p.type) [
  | inl e ↦ absurd (v.typed e)
  | inr (t, e) ↦ ground (arith, e, v.named, v.no_list_in_csv)
]

valid_properties_sound :
    (ft : FileType) (ps : List Property) (seen : List Text)
    → valid_properties ft ps seen ≡ true
    → All (IsValidProperty ft) ps × Fresh seen (names ps)
valid_properties_sound ft [] seen h = (tt, tt)
valid_properties_sound ft (p ∷ ps) seen h =
    let (v, fresh, rest) = IsValidProperty-sound ft p ps seen h in
    let ih = valid_properties_sound ft ps (p.name ∷ seen) rest in ((v, ih.0), (fresh, ih.1))

valid_properties_complete :
    (ft : FileType) (ps : List Property) (seen : List Text)
    → All (IsValidProperty ft) ps
    → Fresh seen (names ps)
    → valid_properties ft ps seen ≡ true
valid_properties_complete ft [] seen v h = unfold valid_properties in refl
valid_properties_complete ft (p ∷ ps) seen v h =
    valid_properties-cons ft p ps seen v.0 h.0
      (valid_properties_complete ft ps (p.name ∷ seen) v.1 h.1)

group_checks :
    (pg : PropertyGroup)
    → (group_is_validated pg ≡ true) ↔ (
        (pg.prefix ≢ [])
        × (is_chunk_file_type pg.file_type ≡ true)
        × (pg.properties ≢ [])
        × (valid_properties pg.file_type pg.properties [] ≡ true))
unfolding group_is_validated
group_checks pg = ground arith

-- A property group is validated exactly if it has a prefix, the type of a chunk file and at least
-- one property, no two properties share a name, and each has a name, a type and, in a CSV file, no
-- list type.
pub group_is_validated_iff : (pg : PropertyGroup) → (group_is_validated pg ≡ true) ↔ IsGoodGroup pg
group_is_validated_iff pg = (sound, complete)
  where
    sound : group_is_validated pg ≡ true → IsGoodGroup pg
    sound h =
        let (prefixed, chunked, inhabited, checked) = (group_checks pg).0 h in
        let parts = valid_properties_sound pg.file_type pg.properties [] checked in
        record {
          prefixed = prefixed;
          chunked = chunked;
          inhabited = inhabited;
          each = parts.0;
          distinct = (Fresh-nil (names pg.properties)).0 parts.1;
        }

    complete : IsGoodGroup pg → group_is_validated pg ≡ true
    complete g = (group_checks pg).1 (
      g.prefixed,
      g.chunked,
      g.inhabited,
      valid_properties_complete pg.file_type pg.properties [] g.each
          ((Fresh-nil (names pg.properties)).1 g.distinct),
    )
