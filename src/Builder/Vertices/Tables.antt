-- ===== src/Builder/Vertices/Tables.antt =====
-- The tables that `convertToTable` of vertices_builder.cc makes, against a table by rows.
use graph_ar.Builder.Edges.Tables.{all_properties, map-append}
use graph_ar.Builder.Cells.{value_in, cell-value_in, cell-raised}
use graph_ar.Base.{
  List, [], ◌∷◌, Option, none, some, map, ◌≡◌, ok, deref, arith, inl, inr, Option-cases, bind-ok,
  Result-cases, Failure, deref-ok, err, ap, raised,
}
use graph_ar.Base.Text.{Text}
use graph_ar.Base.Assoc.{text_Eq}
use graph_ar.Types.{id}
use graph_ar.Property.{Property}
use graph_ar.Builder.{CppType, AnyValue, Column, cell, stored_as, arrow_type, TypeId, TypePointer}
use graph_ar.Builder.Vertices.{
  Vertex, Table, try_to_append, append_to_array, property_columns, group_columns, convert_to_table,
  or_no_array, VerticesBuilder, PropertyGroup,
}

-- What the table says of a vertex under the name of a property.
abbrev pub value_of : Text → Vertex → Option AnyValue
value_of name v = value_in name v.empty v.properties

-- The column of a type, null where values of the type cannot be appended.
abbrev pub column_for : Text → List Vertex → Option CppType → Option Column
column_for name vs none = none
column_for name vs (some t) = some (map (value_of name) vs)

abbrev pub pointer_column : Text → List Vertex → Option TypePointer → Option Column
pointer_column name vs none = none
pointer_column name vs (some pointer) = column_for name vs (stored_as (id pointer.target))

-- The column of a property.
abbrev pub column_of : List Vertex → Property → Text × Option Column
column_of vs p = (p.name, pointer_column p.name vs p.type)

try_to_append-map :
    (t : CppType) (name : Text) (vs : List Vertex) (c : Column)
    → try_to_append t name vs ≡ ok c
    → c ≡ map (value_of name) vs
unfolding try_to_append
try_to_append-map t name [] c h = cc
try_to_append-map t name (v ∷ vs) c h =
    let (a, k, rest) = bind-ok (cell t name v.empty v.properties) _ c h in
    let (d, l, last) = bind-ok (try_to_append t name vs) _ c rest in
    cc (cell-value_in t name v.empty v.properties a k, try_to_append-map t name vs d l, last)

-- What fails in a column is a cast, which throws.
try_to_append-raised :
    (t : CppType) (name : Text) (vs : List Vertex) (f : Failure)
    → try_to_append t name vs ≡ err f
    → f ≡ raised
unfolding try_to_append
try_to_append-raised t name [] f h = cc
try_to_append-raised t name (v ∷ vs) f h = elim (Result-cases (cell t name v.empty v.properties)) [
  | inr (g, k) ↦ cell-raised t name v.empty v.properties f (cc (h, k))
  | inl (a, k) ↦ elim (Result-cases (try_to_append t name vs)) [
    | inl (c, l) ↦ absurd (ground (arith, h, k, l))
    | inr (g, l) ↦ try_to_append-raised t name vs f (ground (arith, h, k, l))
  ]
]

append_to_array-map :
    (type : TypeId) (name : Text) (vs : List Vertex) (c : Option Column)
    → or_no_array (append_to_array type name vs) ≡ ok c
    → c ≡ column_for name vs (stored_as type)
unfolding append_to_array
append_to_array-map type name vs c h = elim (Option-cases (stored_as type)) [
  | inl k ↦ ground (arith, h, k)
  | inr (t, k) ↦ elim (Result-cases (try_to_append t name vs)) [
    | inl (d, l) ↦ ground (arith, h, k, l, try_to_append-map t name vs d l)
    | inr (f, l) ↦
        let thrown = try_to_append-raised t name vs f l in absurd (ground (arith, h, k, l, thrown))
  ]
]

property_columns-map :
    (vs : List Vertex) (ps : List Property) (t : Table)
    → property_columns vs ps ≡ ok t
    → t ≡ map (column_of vs) ps
unfolding property_columns
property_columns-map vs [] t h = cc
property_columns-map vs (p ∷ ps) t h =
    let (type, k, rest) = bind-ok (deref p.type) _ t h in
    let (u, l, more) = bind-ok (arrow_type type.target) _ t rest in
    let (c, m, others) =
      bind-ok (or_no_array (append_to_array (id type.target) p.name vs)) _ t more in
    let (d, n, last) = bind-ok (property_columns vs ps) _ t others in
    let set : p.type ≡ some type = deref-ok p.type type k in
    let column : pointer_column p.name vs p.type
        ≡ column_for p.name vs (stored_as (id type.target)) =
      ap (pointer_column p.name vs) set in
    cc (
      column,
      append_to_array-map (id type.target) p.name vs c m,
      property_columns-map vs ps d n,
      last,
    )

group_columns-map :
    (vs : List Vertex) (pgs : List (Option PropertyGroup)) (t : Table)
    → group_columns vs pgs ≡ ok t
    → t ≡ map (column_of vs) (all_properties pgs)
unfolding group_columns all_properties
group_columns-map vs [] t h = cc
group_columns-map vs (none ∷ pgs) t h = cc
group_columns-map vs (some pg ∷ pgs) t h =
    let (c, k, rest) = bind-ok (property_columns vs pg.properties) _ t h in
    let (d, l, last) = bind-ok (group_columns vs pgs) _ t rest in
    cc (
      property_columns-map vs pg.properties c k,
      group_columns-map vs pgs d l,
      last,
      map-append (column_of vs) pg.properties (all_properties pgs),
    )

-- A table that `convertToTable` makes has a column for each property of the groups, in order. It is
-- null if values of the type of the property cannot be appended, and otherwise has for each vertex, in
-- order, the value of the property, or null where the vertex has none.
pub convert_to_table-column_of :
    (b : VerticesBuilder) (t : Table)
    → convert_to_table b ≡ ok t
    → t ≡ map (column_of b.vertices) (all_properties b.vertex_info.property_groups)
unfolding convert_to_table
convert_to_table-column_of b t h = group_columns-map b.vertices b.vertex_info.property_groups t h
