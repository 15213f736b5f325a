-- ===== src/Property.antt =====
-- cpp/src/graphar/graph_info.h and graph_info.cc: `Property`, `PropertyGroup`, `AdjacentList`, the
-- maps from property names that vertex and edge infos build, and the checks that both make of them.
pub mod Lookup
pub mod Validation
pub mod Groups
pub mod Extend
use graph_ar.Base.{
  ℕ, suc, ◌+◌, Bool, true, false, not, ◌&&◌, ◌||◌, List, [], ◌∷◌, ◌++◌, map, Option, none, some,
  ◌==◌, Result, ok, err, undefined, ◌>>=◌, if◌then◌else◌, length,
}
use graph_ar.Base.Text.{Text, codes, text_eq, is_empty}
use graph_ar.Base.Assoc.{find, emplace, text_Eq, vector_at}
use graph_ar.Base.Int.{ℤ, pos, negsuc, ltb_ℤ, leb_ℤ, ◌==ℤ◌}
use graph_ar.Types.{
  DataType, TypeId, id, FileType, file_code, AdjListType, adj_list_code, adj_list_type_to_string,
}

-- A `shared_ptr<DataType>` that is not null: `==` compares the addresses.
pub record TypePointer : Type 0 where
  pub address : ℕ
  pub target : DataType

pub record Property : Type 0 where
  pub name : Text
  pub type : Option TypePointer
  pub is_primary : Bool
  pub is_nullable : Bool

-- The constructor: a primary key is not nullable.
abbrev pub new_property : Text → Option TypePointer → Bool → Bool → Property
new_property name type is_primary is_nullable = record {
  name = name;
  type = type;
  is_primary = is_primary;
  is_nullable = not is_primary && is_nullable;
}

unfoldable pub same_pointer : Option TypePointer → Option TypePointer → Bool
same_pointer none none = true
same_pointer none (some q) = false
same_pointer (some p) none = false
same_pointer (some p) (some q) = p.address == q.address

abbrev pub bool_eq : Bool → Bool → Bool
bool_eq true b = b
bool_eq false b = not b

-- `operator==` on properties.
unfoldable pub property_eq : Property → Property → Bool
unfolding same_pointer
property_eq lhs rhs =
    text_eq lhs.name rhs.name
    && same_pointer lhs.type rhs.type
    && bool_eq lhs.is_primary rhs.is_primary
    && bool_eq lhs.is_nullable rhs.is_nullable

unfoldable pub properties_eq : List Property → List Property → Bool
unfolding property_eq
properties_eq [] [] = true
properties_eq [] (q ∷ qs) = false
properties_eq (p ∷ ps) [] = false
properties_eq (p ∷ ps) (q ∷ qs) = property_eq p q && properties_eq ps qs

pub record PropertyGroup : Type 0 where
  pub properties : List Property
  pub file_type : FileType
  pub prefix : Text

-- `back() = '/'`.
abbrev pub set_back : Text → Text
set_back [] = []
set_back (c ∷ []) = b'/' ∷ []
set_back (c ∷ d ∷ s) = c ∷ set_back (d ∷ s)

abbrev pub concat_names : List Property → Text
concat_names [] = []
concat_names (p ∷ ps) = p.name ++ b'_' ∷ concat_names ps

-- The constructor: an empty prefix becomes the names joined by '_', with '/' behind them.
unfoldable pub new_property_group : List Property → FileType → Text → PropertyGroup
new_property_group properties file_type prefix = record {
  properties = properties;
  file_type = file_type;
  prefix = if is_empty prefix then set_back (concat_names properties) else prefix;
}

-- `CreatePropertyGroup`.
unfoldable pub create_property_group : List Property → FileType → Text → Option PropertyGroup
unfolding new_property_group
create_property_group [] file_type prefix = none
create_property_group (p ∷ ps) file_type prefix =
    some (new_property_group (p ∷ ps) file_type prefix)

-- `PropertyGroup::HasProperty`.
unfoldable pub group_has_property : List Property → Text → Bool
group_has_property [] name = false
group_has_property (p ∷ ps) name =
    let rest = group_has_property ps name in if text_eq p.name name then true else rest

-- `operator==` on property groups.
unfoldable pub group_eq : PropertyGroup → PropertyGroup → Bool
unfolding properties_eq
group_eq lhs rhs =
    text_eq lhs.prefix rhs.prefix
    && file_code lhs.file_type == file_code rhs.file_type
    && properties_eq lhs.properties rhs.properties

-- An `unordered_set` of names, the latest first.
unfoldable pub contains : Text → List Text → Bool
contains x [] = false
contains x (y ∷ ys) = text_eq y x || contains x ys

-- The file types that a chunk may have.
abbrev pub is_chunk_file_type : FileType → Bool
is_chunk_file_type FileType.csv = true
is_chunk_file_type FileType.parquet = true
is_chunk_file_type FileType.orc = true
is_chunk_file_type FileType.json = false

abbrev pub is_list : TypePointer → Bool
is_list p = elim (id p.target) [ TypeId.list ↦ true | _ ↦ false ]

abbrev pub is_csv : FileType → Bool
is_csv FileType.csv = true
is_csv _ = false

-- The loop of `PropertyGroup::IsValidated`.
unfoldable pub valid_properties : FileType → List Property → List Text → Bool
valid_properties file_type [] seen = true
valid_properties file_type (p ∷ ps) seen =
    let rest = valid_properties file_type ps (p.name ∷ seen) in
    if is_empty p.name then false else elim p.type [
      | none ↦ false
      | some type ↦
          if contains p.name seen
          then false
          else if is_list type && is_csv file_type
          then false
          else rest
    ]

-- `PropertyGroup::IsValidated`.
unfoldable pub group_is_validated : PropertyGroup → Bool
unfolding valid_properties
group_is_validated pg =
    if is_empty pg.prefix || not (is_chunk_file_type pg.file_type)
    then false
    else elim pg.properties [ [] ↦ false | p ∷ ps ↦ valid_properties pg.file_type (p ∷ ps) [] ]

-- The names that the infos collect; `none` is the early `return false` at a name seen before.
unfoldable pub unique_names : List Property → List Text → Option (List Text)
unique_names [] seen = some seen
unique_names (p ∷ ps) seen =
    let rest = unique_names ps (p.name ∷ seen) in if contains p.name seen then none else rest

-- The loop over the property groups in `is_validated` of a vertex or edge info.
unfoldable pub valid_groups : List (Option PropertyGroup) → List Text → Bool
valid_groups [] seen = true
valid_groups (none ∷ pgs) seen = false
valid_groups (some pg ∷ pgs) seen =
    if group_is_validated pg
    then (elim (unique_names pg.properties seen) [
      | none ↦ false
      | some seen' ↦ valid_groups pgs seen'
    ])
    else false

module _ {ℓ} {V : Type ℓ} where
  emplace_properties : (Property → V) → List Property → List (Text × V) → List (Text × V)
  emplace_properties f [] m = m
  emplace_properties f (p ∷ ps) m = emplace_properties f ps (emplace p.name (f p) m)

  -- The maps that the constructors of the infos fill: group by group, a null group left out, with
  -- `f i p` at the name of a property `p` of the group at place `i`.
  unfoldable pub index_properties :
      (ℕ → Property → V) → ℕ → List (Option PropertyGroup) → List (Text × V) → List (Text × V)
  unfolding emplace_properties emplace
  index_properties f i [] m = m
  index_properties f i (none ∷ pgs) m = index_properties f (suc i) pgs m
  index_properties f i (some pg ∷ pgs) m =
      index_properties f (suc i) pgs (emplace_properties (f i) pg.properties m)

-- `HasPropertyGroup` of both infos; a null group in the info is a null pointer dereferenced.
unfoldable pub has_property_group : List (Option PropertyGroup) → Option PropertyGroup → Result Bool
unfolding group_eq
has_property_group pgs none = ok false
has_property_group [] (some group) = ok false
has_property_group (none ∷ pgs) (some group) = err undefined
has_property_group (some pg ∷ pgs) (some group) =
    let rest = has_property_group pgs (some group) in if group_eq pg group then ok true else rest

-- `GetPropertyGroup` of both infos, from the place that is looked up: the null pointer if it is -1.
unfoldable pub group_at : List (Option PropertyGroup) → ℤ → Result (Option PropertyGroup)
unfolding vector_at
group_at pgs i = if i ==ℤ negsuc 0 then ok none else vector_at pgs i

-- `GetPropertyGroupByIndex` of both infos.
unfoldable pub group_by_index : List (Option PropertyGroup) → ℤ → Result (Option PropertyGroup)
unfolding vector_at
group_by_index pgs index =
    if ltb_ℤ index (pos 0) || leb_ℤ (pos (length pgs)) index then ok none else vector_at pgs index

-- Whether one of the properties has a name that is in a map already.
unfoldable pub any_known {ℓ} : {V : Type ℓ} → List Property → List (Text × V) → Bool
any_known [] m = false
any_known (p ∷ ps) m =
    let rest = any_known ps m in elim (find p.name m) [ none ↦ rest | some v ↦ true ]

pub record AdjacentList : Type 0 where
  pub type : AdjListType
  pub file_type : FileType
  pub prefix : Text

-- The constructor: an empty prefix becomes the name of the type with '/' behind it.
unfoldable pub new_adjacent_list : AdjListType → FileType → Text → Result AdjacentList
unfolding adj_list_type_to_string
new_adjacent_list type file_type [] = do
  name ← adj_list_type_to_string type
  ok (record { type = type; file_type = file_type; prefix = name ++ codes "/" })
new_adjacent_list type file_type (c ∷ s) =
    ok (record { type = type; file_type = file_type; prefix = c ∷ s })

abbrev pub is_known_type : AdjListType → Bool
is_known_type (AdjListType.other n) = false
is_known_type _ = true

-- `AdjacentList::IsValidated`.
unfoldable pub adjacent_list_is_validated : AdjacentList → Bool
adjacent_list_is_validated al =
    if is_known_type al.type
    then (if is_empty al.prefix || not (is_chunk_file_type al.file_type) then false else true)
    else false
