-- ===== src/Property/Lookup.antt =====
-- The maps from property names (graph_info.cc, the constructors of both `Impl` classes), seen as a
-- search for the first property of a name.
use mathlib.Core.Option
use mathlib.Core.List.{append_assoc}
use graph_ar.Base.{
  ℕ, suc, ◌≡◌, refl, List, [], ◌∷◌, ◌++◌, Option, none, some, if◌then◌else◌, arith, length, not, ok,
  length-append, get_elem?-append_length,
}
use graph_ar.Base.Text.{Text, text_eq, text_eq_iff}
use graph_ar.Base.Assoc.{find, emplace, find-emplace, or_else, or_minus_one, is_none, text_Eq}
use graph_ar.Property.{
  Property, PropertyGroup, emplace_properties, index_properties, group_at, group_has_property,
}

-- The first property of the name in a list, and in a list of groups with the place of its group.
abbrev pub first_in : Text → List Property → Option Property
first_in name [] = none
first_in name (p ∷ ps) = if text_eq p.name name then some p else first_in name ps

abbrev pub first_property : Text → ℕ → List (Option PropertyGroup) → Option (ℕ × Property)
first_property name i [] = none
first_property name i (none ∷ pgs) = first_property name (suc i) pgs
first_property name i (some pg ∷ pgs) =
    or_else (Option.map (λ p. (i, p)) (first_in name pg.properties))
      (first_property name (suc i) pgs)

module _ {ℓ} {V : Type ℓ} where
  find-emplace_properties :
      (name : Text) (f : Property → V) (ps : List Property) (m : List (Text × V))
      → find name (emplace_properties f ps m)
        ≡ or_else (find name m) (Option.map f (first_in name ps))
  unfolding emplace_properties
  find-emplace_properties name f [] m = ground arith
  find-emplace_properties name f (p ∷ ps) m = ground (
    arith,
    find-emplace_properties name f ps (emplace p.name (f p) m),
    find-emplace p.name name (f p) m,
    text_eq_iff p.name name,
  )

  abbrev pub apply_pair : (ℕ → Property → V) → ℕ × Property → V
  apply_pair f (i, p) = f i p

  pub find-index_properties :
      (name : Text) (f : ℕ → Property → V) (i : ℕ) (pgs : List (Option PropertyGroup))
      (m : List (Text × V))
      → find name (index_properties f i pgs m)
        ≡ or_else (find name m) (Option.map (apply_pair f) (first_property name i pgs))
  unfolding index_properties
  find-index_properties name f i [] m = ground arith
  find-index_properties name f i (none ∷ pgs) m = find-index_properties name f (suc i) pgs m
  find-index_properties name f i (some pg ∷ pgs) m = ground (
    arith,
    find-index_properties name f (suc i) pgs (emplace_properties (f i) pg.properties m),
    find-emplace_properties name (f i) pg.properties m,
  )

-- The first group that has a property of the name.
abbrev pub first_group : Text → List (Option PropertyGroup) → Option PropertyGroup
first_group name [] = none
first_group name (none ∷ pgs) = first_group name pgs
first_group name (some pg ∷ pgs) =
    if group_has_property pg.properties name then some pg else first_group name pgs

first_in-group_has_property :
    (name : Text) (ps : List Property)
    → group_has_property ps name ≡ not (is_none (first_in name ps))
unfolding group_has_property
first_in-group_has_property name [] = refl
first_in-group_has_property name (p ∷ ps) = ground (arith, first_in-group_has_property name ps)

abbrev pub place : Option (ℕ × Property) → Option ℕ
place = Option.map (λ ip. ip.0)

group_at-place :
    (name : Text) (front pgs : List (Option PropertyGroup)) (n : ℕ)
    → n ≡ length front
    → group_at (front ++ pgs) (or_minus_one (place (first_property name n pgs)))
      ≡ ok (first_group name pgs)
unfolding group_at
group_at-place name front [] n e = refl
group_at-place name front (none ∷ pgs) n e = rw (← append_assoc front (none ∷ []) pgs) (
    group_at-place name (front ++ none ∷ []) pgs (suc n)
      (omega (arith, length-append front (none ∷ []))))
group_at-place name front (some pg ∷ pgs) n e = ground (
  arith,
  append_assoc front (some pg ∷ []) pgs,
  group_at-place name (front ++ some pg ∷ []) pgs (suc n)
      (omega (arith, length-append front (some pg ∷ []))),
  first_in-group_has_property name pg.properties,
  get_elem?-append_length front (some pg) pgs,
)

-- The group that an info finds by its map is the first one that has a property of the name.
pub group_at-first_group :
    (name : Text) (pgs : List (Option PropertyGroup))
    → group_at pgs (or_minus_one (place (first_property name 0 pgs))) ≡ ok (first_group name pgs)
group_at-first_group name pgs = group_at-place name [] pgs 0 refl
