-- ===== src/Builder/Edges/Typed.antt =====
-- What the strong validation of edges_builder.cc is for: edges that pass it can be converted.
use graph_ar.Base.{
  Bool, true, List, [], ◌∷◌, Option, none, some, map, ◌≡◌, Result, ok, refl, arith, inl, inr,
  Option-cases, Bool-cases, All, bind-ok, ◌∙◌, All-split,
}
use graph_ar.Base.Text.{Text, text_eq, text_eq_iff}
use graph_ar.Base.Assoc.{find, text_Eq}
use graph_ar.Types.{TypeId, id}
use graph_ar.Types
use graph_ar.Property.{Property, PropertyGroup, TypePointer}
use graph_ar.EdgeInfo.{EdgeInfo}
use graph_ar.EdgeInfo
use graph_ar.Writer.{ValidateLevel}
use graph_ar.Builder.{
  CppType, AnyValue, cell, stored_as, arrow_type, same_cpp_type, check_property, check_properties,
}
use graph_ar.Builder.Edges.Defs.{Edge, EdgesBuilder, validate, weak_checks}
use graph_ar.Builder.Edges.Dump.{
  try_to_append, append_to_array, append_indices, property_columns, group_columns, convert_to_table,
}
use graph_ar.Builder.Edges.Tables.{value_of, column_of, all_properties, table_of, map-append}

-- A property whose type is set, can be stored, and is the one that the info gives its name.
pub record IsStored (info : EdgeInfo) (p : Property) : Type 0 where
  pub pointer : TypePointer
  pub cpp_type : CppType
  pub set : p.type ≡ some pointer
  pub stored : stored_as (id pointer.target) ≡ some cpp_type
  pub declared : EdgeInfo.get_property_type info p.name ≡ ok p.type

-- No group is the null pointer.
abbrev pub NoNull : List (Option PropertyGroup) → Type 0
NoNull [] = Unit
NoNull (none ∷ pgs) = ⊥
NoNull (some pg ∷ pgs) = NoNull pgs

stored_as-arrow_type :
    (type : Types.DataType) (t : CppType) → stored_as (id type) ≡ some t → arrow_type type ≡ ok tt
unfolding arrow_type id
stored_as-arrow_type (Types.plain type name) t h = ground (arith, h)
stored_as-arrow_type (Types.nested type child) t h = ground (arith, h)

check_properties-find :
    (has : Text → Bool) (declared : Text → Result (Option TypePointer)) (m : List (Text × AnyValue))
    (name : Text) (v : AnyValue)
    → check_properties has declared m ≡ ok tt
    → find name m ≡ some v
    → check_property (has name) (declared name) v ≡ ok tt
unfolding check_properties find
check_properties-find has declared [] name v h k = ground (arith, k)
check_properties-find has declared ((key, w) ∷ m) name v h k =
    let (u, one, rest) = bind-ok (check_property (has key) (declared key) w) _ tt h in
    elim (Bool-cases (text_eq key name)) [
      | inl same ↦
          let names : key ≡ name = (text_eq_iff key name).0 same in
          let values : w ≡ v = ground (arith, k, same) in cc (names, values, one)
      | inr other ↦ check_properties-find has declared m name v rest (ground (arith, k, other))
    ]

check_property-type :
    (has : Bool) (pointer : TypePointer) (t : CppType) (v : AnyValue)
    → stored_as (id pointer.target) ≡ some t
    → check_property has (ok (some pointer)) v ≡ ok tt
    → same_cpp_type v.cpp_type t ≡ true
unfolding check_property
check_property-type has pointer t v h k = ground (arith, h, k)

-- An edge has no value of another type under a name.
abbrev pub Typed : CppType → Text → Edge → Type 0
Typed t name e =
    (v : AnyValue) → find name e.properties ≡ some v → same_cpp_type v.cpp_type t ≡ true

module _ (b : EdgesBuilder) (p : Property) (k : IsStored b.edge_info p) where
  strong-Typed :
      (e : Edge) → validate b e ValidateLevel.strong_validate ≡ ok tt → Typed k.cpp_type p.name e
  unfolding validate
  strong-Typed e h v there =
      let (u, weak, checks) = bind-ok (weak_checks b) _ tt h in
      let declared : EdgeInfo.get_property_type b.edge_info p.name ≡ ok (some k.pointer) =
        k.declared ∙ cc (k.set) in
      let passed =
        check_properties-find (EdgeInfo.has_property b.edge_info)
          (EdgeInfo.get_property_type b.edge_info) e.properties p.name v checks there in
      check_property-type (EdgeInfo.has_property b.edge_info p.name) k.pointer k.cpp_type v k.stored
        (cc (passed, declared))

  strong-All :
      (es : List Edge)
      → All (λ e. validate b e ValidateLevel.strong_validate ≡ ok tt) es
      → All (Typed k.cpp_type p.name) es
  strong-All [] h = tt
  strong-All (e ∷ es) h = (strong-Typed e h.0, strong-All es h.1)

  cell-Typed :
      (e : Edge)
      → Typed k.cpp_type p.name e
      → cell k.cpp_type p.name e.empty e.properties ≡ ok (value_of p.name e)
  cell-Typed e h = elim (Bool-cases e.empty) [
    | inl empty ↦ ground (arith, empty)
    | inr full ↦ elim (Option-cases (find p.name e.properties)) [
      | inl absent ↦ ground (arith, full, absent)
      | inr (v, there) ↦ ground (arith, full, there, h v there)
    ]
  ]

  try_to_append-Typed :
      (es : List Edge)
      → All (Typed k.cpp_type p.name) es
      → try_to_append k.cpp_type p.name es ≡ ok (map (value_of p.name) es)
  unfolding try_to_append
  try_to_append-Typed [] h = refl
  try_to_append-Typed (e ∷ es) h = rw (cell-Typed e h.0) (rw (try_to_append-Typed es h.1) refl)

  append_to_array-Typed :
      (es : List Edge)
      → All (Typed k.cpp_type p.name) es
      → append_to_array (id k.pointer.target) p.name es ≡ ok (map (value_of p.name) es)
  unfolding append_to_array
  append_to_array-Typed es h = ground (arith, k.stored, try_to_append-Typed es h)

  property-Typed :
      (es : List Edge) (ps : List Property)
      → All (λ e. validate b e ValidateLevel.strong_validate ≡ ok tt) es
      → property_columns es ps ≡ ok (map (column_of es) ps)
      → property_columns es (p ∷ ps) ≡ ok (column_of es p ∷ map (column_of es) ps)
  unfolding property_columns
  property-Typed es ps h rest = rw (k.set) (
      rw (stored_as-arrow_type k.pointer.target k.cpp_type k.stored)
        (rw (append_to_array-Typed es (strong-All es h)) (rw rest refl)))

module _ (b : EdgesBuilder) (es : List Edge)
    (h : All (λ e. validate b e ValidateLevel.strong_validate ≡ ok tt) es) where
  property_columns-Typed :
      (ps : List Property)
      → All (IsStored b.edge_info) ps
      → property_columns es ps ≡ ok (map (column_of es) ps)
  unfolding property_columns
  property_columns-Typed [] k = refl
  property_columns-Typed (p ∷ ps) k = property-Typed b p k.0 es ps h (property_columns-Typed ps k.1)

  group_columns-Typed :
      (pgs : List (Option PropertyGroup))
      → NoNull pgs
      → All (IsStored b.edge_info) (all_properties pgs)
      → group_columns es pgs ≡ ok (map (column_of es) (all_properties pgs))
  unfolding group_columns all_properties
  group_columns-Typed [] n k = refl
  group_columns-Typed (none ∷ pgs) n k = absurd n
  group_columns-Typed (some pg ∷ pgs) n k =
      let (here, there) = All-split (IsStored b.edge_info) pg.properties (all_properties pgs) k in
      rw (property_columns-Typed pg.properties here) (
        rw (group_columns-Typed pgs n there)
          (rw (map-append (column_of es) pg.properties (all_properties pgs)) refl))

-- If no group of the edge info is the null pointer, and each property of the groups has a type that
-- can be stored and that the info gives its name, then edges that all pass a strong validation of the
-- builder are converted, without an error or an exception, into the table of their rows.
pub validate-convert_to_table :
    (b : EdgesBuilder) (es : List Edge)
    → NoNull b.edge_info.property_groups
    → All (IsStored b.edge_info) (all_properties b.edge_info.property_groups)
    → All (λ e. validate b e ValidateLevel.strong_validate ≡ ok tt) es
    → convert_to_table b es ≡ ok (table_of b es)
unfolding convert_to_table append_indices
validate-convert_to_table b es n k h =
    rw (group_columns-Typed b es h b.edge_info.property_groups n k) refl
