-- ===== src/Builder/Edges/Tables.antt =====
-- The tables that `convertToTable` of edges_builder.cc makes, against a table by rows.
use graph_ar.Base.{
  List, [], ◌∷◌, ◌++◌, Option, none, some, map, ◌≡◌, ok, deref, refl, arith, inl, inr, Option-cases,
  bind-ok,
}
use graph_ar.Base.Text.{Text}
use graph_ar.Base.Assoc.{text_Eq}
use graph_ar.Types.{TypeId, id}
use graph_ar.Property.{Property, PropertyGroup}
use graph_ar.Builder.{CppType, AnyValue, Column, cell, stored_as, arrow_type}
use graph_ar.Builder.Cells.{value_in, cell-value_in}
use graph_ar.Builder.Edges.Defs.{Edge, EdgesBuilder}
use graph_ar.Builder.Edges.Dump.{
  EdgeTable, try_to_append, append_to_array, append_indices, property_columns, group_columns,
  convert_to_table,
}

-- What the table says of an edge under the name of a property.
abbrev pub value_of : Text → Edge → Option AnyValue
value_of name e = value_in name e.empty e.properties

abbrev pub column_of : List Edge → Property → Text × Column
column_of es p = (p.name, map (value_of p.name) es)

-- The properties of all groups, in their order.
unfoldable pub all_properties : List (Option PropertyGroup) → List Property
all_properties [] = []
all_properties (none ∷ pgs) = all_properties pgs
all_properties (some pg ∷ pgs) = pg.properties ++ all_properties pgs

-- The table by its rows: for each edge its source, its destination, and what it has of each property.
abbrev pub table_of : EdgesBuilder → List Edge → EdgeTable
table_of b es = record {
  src_index = map (λ (e : Edge). e.src_id) es;
  dst_index = map (λ (e : Edge). e.dst_id) es;
  columns = map (column_of es) (all_properties b.edge_info.property_groups);
}

try_to_append-map :
    (t : CppType) (name : Text) (es : List Edge) (c : Column)
    → try_to_append t name es ≡ ok c
    → c ≡ map (value_of name) es
unfolding try_to_append
try_to_append-map t name [] c h = cc
try_to_append-map t name (e ∷ es) c h =
    let (v, k, rest) = bind-ok (cell t name e.empty e.properties) _ c h in
    let (d, l, last) = bind-ok (try_to_append t name es) _ c rest in
    cc (cell-value_in t name e.empty e.properties v k, try_to_append-map t name es d l, last)

append_to_array-map :
    (type : TypeId) (name : Text) (es : List Edge) (c : Column)
    → append_to_array type name es ≡ ok c
    → c ≡ map (value_of name) es
unfolding append_to_array
append_to_array-map type name es c h = elim (Option-cases (stored_as type)) [
  | inl k ↦ ground (arith, h, k)
  | inr (t, k) ↦ try_to_append-map t name es c (ground (arith, h, k))
]

property_columns-map :
    (es : List Edge) (ps : List Property) (t : List (Text × Column))
    → property_columns es ps ≡ ok t
    → t ≡ map (column_of es) ps
unfolding property_columns
property_columns-map es [] t h = cc
property_columns-map es (p ∷ ps) t h =
    let (type, k, rest) = bind-ok (deref p.type) _ t h in
    let (u, l, more) = bind-ok (arrow_type type.target) _ t rest in
    let (c, m, others) = bind-ok (append_to_array (id type.target) p.name es) _ t more in
    let (d, n, last) = bind-ok (property_columns es ps) _ t others in
    cc (append_to_array-map (id type.target) p.name es c m, property_columns-map es ps d n, last)

pub map-append {ℓ κ} :
    {A : Type ℓ} {B : Type κ} (f : A → B) (xs ys : List A) → map f (xs ++ ys) ≡ map f xs ++ map f ys
map-append f [] ys = refl
map-append f (x ∷ xs) ys = cc (map-append f xs ys)

group_columns-map :
    (es : List Edge) (pgs : List (Option PropertyGroup)) (t : List (Text × Column))
    → group_columns es pgs ≡ ok t
    → t ≡ map (column_of es) (all_properties pgs)
unfolding group_columns all_properties
group_columns-map es [] t h = cc
group_columns-map es (none ∷ pgs) t h = cc
group_columns-map es (some pg ∷ pgs) t h =
    let (c, k, rest) = bind-ok (property_columns es pg.properties) _ t h in
    let (d, l, last) = bind-ok (group_columns es pgs) _ t rest in
    cc (
      property_columns-map es pg.properties c k,
      group_columns-map es pgs d l,
      last,
      map-append (column_of es) pg.properties (all_properties pgs),
    )

-- A table that `convertToTable` makes has a row for each edge, in order: its source, its destination,
-- and under each property of the groups the edge's value, or null where the edge has none.
pub convert_to_table-table_of :
    (b : EdgesBuilder) (es : List Edge) (t : EdgeTable)
    → convert_to_table b es ≡ ok t
    → t ≡ table_of b es
unfolding convert_to_table append_indices
convert_to_table-table_of b es t h =
    let (c, k, last) = bind-ok (group_columns es b.edge_info.property_groups) _ t h in
    cc (group_columns-map es b.edge_info.property_groups c k, last)
