-- ===== src/Builder/Vertices.antt =====
-- `Vertex` and `VerticesBuilder` (high-level/vertices_builder.h, vertices_builder.cc).
pub mod Slots
pub mod Tables
pub mod Saved
use graph_ar.Base.{
  ℕ, Bool, true, false, not, ◌&&◌, List, [], ◌∷◌, ◌++◌, Option, none, some, Result, Status, ok, err,
  status, invalid, index_error, key_error, undefined, raised, ◌>>=◌, ◌>>◌, reject_if, length, deref,
  suc, zero, type_error,
}
use graph_ar.Base.Text.{Text}
use graph_ar.Base.Int.{ℤ, pos, negsuc, ◌+ℤ◌, ◌==ℤ◌, ltb_ℤ}
use graph_ar.Base.Assoc.{assign, find, text_Eq}
use graph_ar.Types.{TypeId, id}
use graph_ar.Property.{Property, PropertyGroup}
use graph_ar.VertexInfo.{VertexInfo}
use graph_ar.VertexInfo
use graph_ar.GraphInfo.{GraphInfo, get_vertex_info}
use graph_ar.ReaderUtil.{quotient, remainder}
use graph_ar.Reader.Steps.{Step, with_value}
use graph_ar.Writer.{
  ValidateLevel, default_validate, no_validate, weak_validate, strong_validate, effective,
  writer_level,
}
use graph_ar.Builder.{AnyValue, CppType, Column, cell, stored_as, check_properties, arrow_type}

-- The id is not initialised until it is set.
pub record Vertex : Type 0 where
  pub id : Option ℤ
  pub empty : Bool
  pub properties : List (Text × AnyValue)

-- The default constructor.
abbrev pub no_vertex : Vertex
no_vertex = record { id = none; empty = true; properties = [] }

-- The constructor of an id.
unfoldable pub new_vertex : ℤ → Vertex
new_vertex id = record { id = some id; empty = false; properties = [] }

-- `ContainProperty`.
unfoldable pub contain_property : Vertex → Text → Bool
contain_property v name = elim (find name v.properties) [ none ↦ false | some a ↦ true ]

-- `AddProperty`.
unfoldable pub add_property : Vertex → Text → AnyValue → Vertex
add_property v name val = record v { empty = false; properties = assign name val v.properties }

pub record VerticesBuilder : Type 0 where
  pub vertex_info : VertexInfo
  pub prefix : Text
  pub vertices : List Vertex
  pub start_vertex_index : ℤ
  pub num_vertices : ℤ
  pub is_saved : Bool
  pub validate_level : ValidateLevel

-- The constructor. The writer options, which are only passed on, are left out.
unfoldable pub new_vertices_builder : VertexInfo → Text → ℤ → ValidateLevel → Result VerticesBuilder
new_vertices_builder vertex_info prefix start_vertex_index validate_level = do
  level ← writer_level validate_level
  ok (record {
    vertex_info = vertex_info;
    prefix = prefix;
    vertices = [];
    start_vertex_index = start_vertex_index;
    num_vertices = pos 0;
    is_saved = false;
    validate_level = level;
  })

-- `Clear`.
unfoldable pub clear : VerticesBuilder → VerticesBuilder
clear b = record b { vertices = []; num_vertices = pos 0; is_saved = false }

-- `SetValidateLevel`: the default level is passed over.
unfoldable pub set_validate_level : VerticesBuilder → ValidateLevel → VerticesBuilder
set_validate_level b level = record b { validate_level = effective b.validate_level level }

-- The checks of a weak validation.
abbrev weak_checks : VerticesBuilder → ℤ → Status
weak_checks b index = do
  reject_if b.is_saved invalid
  offset ← remainder b.start_vertex_index b.vertex_info.chunk_size
  reject_if (not (offset ==ℤ pos 0)) index_error
  reject_if (not (index ==ℤ negsuc 0) && ltb_ℤ index b.start_vertex_index) index_error

-- The checks of a strong validation.
abbrev strong_checks : VerticesBuilder → Vertex → ℤ → Status
strong_checks b v index = do
  weak_checks b index
  check_properties (VertexInfo.has_property b.vertex_info)
      (VertexInfo.get_property_type b.vertex_info) v.properties

-- `validate`.
unfoldable pub validate : VerticesBuilder → Vertex → ℤ → ValidateLevel → Status
validate b v index level = elim (effective b.validate_level level) [
  | no_validate ↦ ok tt
  | default_validate ↦ weak_checks b index
  | weak_validate ↦ weak_checks b index
  | strong_validate ↦ strong_checks b v index
]

-- `resize`, when it makes the vector longer.
abbrev pub extended : List Vertex → ℕ → List Vertex
extended [] zero = []
extended [] (suc n) = no_vertex ∷ extended [] n
extended (v ∷ vs) zero = v ∷ vs
extended (v ∷ vs) (suc n) = v ∷ extended vs n

-- `vertices_[index] = v` within bounds.
abbrev pub put_at : List Vertex → ℕ → Vertex → List Vertex
put_at [] i v = []
put_at (w ∷ vs) zero v = v ∷ vs
put_at (w ∷ vs) (suc i) v = w ∷ put_at vs i v

-- The part of `AddVertex` behind the validation; a negative index other than -1 is out of bounds.
unfoldable pub put_vertex : VerticesBuilder → Vertex → ℤ → Result VerticesBuilder
put_vertex b v (negsuc zero) = ok (record b {
  vertices = b.vertices ++ record v { id = some (pos (length b.vertices)) } ∷ [];
  num_vertices = b.num_vertices +ℤ pos 1;
})
put_vertex b v (negsuc (suc k)) = err undefined
put_vertex b v (pos i) = ok (record b {
  vertices = put_at (extended b.vertices (suc i)) i (record v { id = some (pos i) });
  num_vertices = b.num_vertices +ℤ pos 1;
})

-- `AddVertex`.
unfoldable pub add_vertex : VerticesBuilder → Vertex → ℤ → ValidateLevel → Step VerticesBuilder
add_vertex b v index level =
    with_value b (validate b v index level)
      (λ valid. with_value b (put_vertex b v index) (λ added. (added, ok tt)))

-- `GetNum`.
unfoldable pub get_num : VerticesBuilder → ℤ
get_num b = b.num_vertices

-- `tryToAppend` for a type of value.
unfoldable pub try_to_append : CppType → Text → List Vertex → Result Column
try_to_append t name [] = ok []
try_to_append t name (v ∷ vs) = do
  value ← cell t name v.empty v.properties
  rest ← try_to_append t name vs
  ok (value ∷ rest)

-- `appendToArray`.
unfoldable pub append_to_array : TypeId → Text → List Vertex → Result Column
append_to_array type name vs = elim (stored_as type) [
  | none ↦ err (status type_error)
  | some t ↦ try_to_append t name vs
]

-- An array that is not filled because a status is passed over.
abbrev pub or_no_array : Result Column → Result (Option Column)
or_no_array (ok column) = ok (some column)
or_no_array (err (status c)) = ok none
or_no_array (err raised) = err raised
or_no_array (err undefined) = err undefined

abbrev pub Table : Type 0
Table = List (Text × Option Column)

-- The columns of the properties of one group.
unfoldable pub property_columns : List Vertex → List Property → Result Table
property_columns vs [] = ok []
property_columns vs (p ∷ ps) = do
  type ← deref p.type
  arrow_type type.target
  column ← or_no_array (append_to_array (id type.target) p.name vs)
  rest ← property_columns vs ps
  ok ((p.name, column) ∷ rest)

-- `convertToTable`: the columns that are handed to `arrow::Table::Make`. The status of
-- `appendToArray` is passed over, and then the array is null.
unfoldable pub group_columns : List Vertex → List (Option PropertyGroup) → Result Table
group_columns vs [] = ok []
group_columns vs (pg ∷ pgs) = do
  group ← deref pg
  columns ← property_columns vs group.properties
  rest ← group_columns vs pgs
  ok (columns ++ rest)

unfoldable pub convert_to_table : VerticesBuilder → Result Table
convert_to_table b = group_columns b.vertices b.vertex_info.property_groups

-- What `Dump` asks of `VertexPropertyWriter`, and of the files that it writes.
pub record VertexSink : Type 1 where
  pub Files : Type 0
  pub Writer : Type 0
  pub new_writer : VertexInfo → Text → ValidateLevel → Result Writer
  pub write_table : Writer → Table → ℤ → Files → Step Files
  pub write_vertices_num : Writer → ℤ → Files → Step Files

module _ (sink : VertexSink) where
  -- The writer of a `Dump`, the chunk that it starts at, and the table.
  unfoldable pub dump_start : VerticesBuilder → Result (sink.Writer × ℤ × Table)
  dump_start b = do
    writer ← sink.new_writer b.vertex_info b.prefix b.validate_level
    start_chunk_index ← quotient b.start_vertex_index b.vertex_info.chunk_size
    table ← convert_to_table b
    ok (writer, start_chunk_index, table)

  -- `Dump` behind them.
  unfoldable pub dump_with :
      VerticesBuilder → sink.Writer → ℤ → Table → sink.Files → Step (VerticesBuilder × sink.Files)
  dump_with b writer start_chunk_index table files =
      let (written, s) = sink.write_table writer table start_chunk_index files in
      with_value (b, written) s
        λ t.
          let (counted, u) =
            sink.write_vertices_num writer (b.num_vertices +ℤ b.start_vertex_index) written in
          with_value (b, counted) u
            λ v. ((record b { is_saved = true; vertices = [] }, counted), ok tt)

  -- `Dump`: the builder and the files that it leaves, and the status.
  unfoldable pub dump : VerticesBuilder → sink.Files → Step (VerticesBuilder × sink.Files)
  dump b files =
      with_value (b, files) (dump_start b)
        (λ (writer, start_chunk_index, table). dump_with b writer start_chunk_index table files)

-- `Make` of a vertex info, and of a graph info and a type.
unfoldable pub make_of_type : GraphInfo → Text → ℤ → ValidateLevel → Result VerticesBuilder
make_of_type graph_info type start_vertex_index validate_level = do
  found ← get_vertex_info graph_info type
  vertex_info ← elim found [ none ↦ err (status key_error) | some v ↦ ok v ]
  new_vertices_builder vertex_info graph_info.prefix start_vertex_index validate_level
