-- ===== src/Property/Extend.antt =====
-- A group put behind the groups of an info, whose names the map of the info does not have
-- (`AddPropertyGroup` of both infos in graph_info.cc).
use mathlib.Core.List.{append_assoc, append-nil}
use graph_ar.Base.{
  ℕ, suc, ◌≡◌, sym, false, List, [], ◌∷◌, ◌++◌, Option, none, some, All, All-append, arith,
}
use graph_ar.Base.Text.{Text, text_eq_iff}
use graph_ar.Base.Assoc.{find, text_Eq}
use graph_ar.Property.{Property, PropertyGroup, any_known, index_properties}
use graph_ar.Property.Lookup.{first_in, first_property, find-index_properties}
use graph_ar.Property.Validation.{names, group_names, NotIn, Distinct}

first_in-NotIn :
    (name : Text) (ps : List Property) → first_in name ps ≡ none → NotIn (names ps) name
first_in-NotIn name [] h = tt
first_in-NotIn name (p ∷ ps) h = ground (arith, text_eq_iff p.name name, first_in-NotIn name ps)

pub first_property-NotIn :
    (name : Text) (i : ℕ) (pgs : List (Option PropertyGroup))
    → first_property name i pgs ≡ none
    → NotIn (group_names pgs) name
first_property-NotIn name i [] h = tt
first_property-NotIn name i (none ∷ pgs) h = first_property-NotIn name (suc i) pgs h
first_property-NotIn name i (some pg ∷ pgs) h =
    All-append _ (names pg.properties) (group_names pgs)
      (first_in-NotIn name pg.properties (ground arith))
      (first_property-NotIn name (suc i) pgs (ground arith))

abbrev index : List (Option PropertyGroup) → List (Text × ℕ)
index pgs = index_properties (λ i p. i) 0 pgs []

index-NotIn :
    (name : Text) (pgs : List (Option PropertyGroup))
    → find name (index pgs) ≡ none
    → NotIn (group_names pgs) name
unfolding find
index-NotIn name pgs h =
    first_property-NotIn name 0 pgs (ground (arith, find-index_properties name (λ i p. i) 0 pgs []))

any_known-NotIn :
    (ps : List Property) (pgs : List (Option PropertyGroup))
    → any_known ps (index pgs) ≡ false
    → All (NotIn (group_names pgs)) (names ps)
unfolding any_known
any_known-NotIn [] pgs h = tt
any_known-NotIn (p ∷ ps) pgs h =
    (index-NotIn p.name pgs (ground arith), any_known-NotIn ps pgs (ground arith))

NotIn-cons :
    (x : Text) (xs ns : List Text) → All (NotIn (x ∷ xs)) ns → NotIn ns x × All (NotIn xs) ns
NotIn-cons x xs [] h = (tt, tt)
NotIn-cons x xs (n ∷ ns) h =
    let rest = NotIn-cons x xs ns h.1 in ((λ e. h.0.0 (sym e), rest.0), (h.0.1, rest.1))

pub Distinct-append :
    (xs ns : List Text) → Distinct xs → Distinct ns → All (NotIn xs) ns → Distinct (xs ++ ns)
Distinct-append [] ns hx hn apart = hn
Distinct-append (x ∷ xs) ns hx hn apart =
    let parts = NotIn-cons x xs ns apart in
    (All-append _ xs ns hx.0 parts.0, Distinct-append xs ns hx.1 hn parts.1)

group_names-append :
    (pgs : List (Option PropertyGroup)) (pg : PropertyGroup)
    → group_names (pgs ++ some pg ∷ []) ≡ group_names pgs ++ names pg.properties
group_names-append [] pg = append-nil (names pg.properties)
group_names-append (none ∷ pgs) pg = group_names-append pgs pg
group_names-append (some qg ∷ pgs) pg = simp (group_names-append pgs pg, append_assoc)

-- Where the check of `AddPropertyGroup` passes, all names stay distinct.
pub add-Distinct :
    (pgs : List (Option PropertyGroup)) (pg : PropertyGroup)
    → any_known pg.properties (index pgs) ≡ false
    → Distinct (group_names pgs)
    → Distinct (names pg.properties)
    → Distinct (group_names (pgs ++ some pg ∷ []))
add-Distinct pgs pg h d e = rw (group_names-append pgs pg) (
    Distinct-append (group_names pgs) (names pg.properties) d e
      (any_known-NotIn pg.properties pgs h))
