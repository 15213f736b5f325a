-- ===== src/ChunkReader/Casts.antt =====
-- The schemas of the readers, and `CastTableWithSchema` (arrow/chunk_reader.cc), with
-- `DataTypeToArrowDataType` (types.cc).
pub mod Schema
use graph_ar.Base.{
  ℕ, Bool, true, false, List, [], ◌∷◌, ◌++◌, Option, none, some, Result, Status, ok, err, raised,
  undefined, ◌>>=◌, if◌then◌else◌, deref,
}
use graph_ar.Base.Text.{Text, codes, text_eq}
use graph_ar.Base.Assoc.{find, text_Eq, is_none}
use graph_ar.Base.Int.{ℤ}
use graph_ar.Types.{DataType, TypeId, plain, nested, FileType}
use graph_ar.Property.{TypePointer, Property, PropertyGroup}
use graph_ar.Storage.{Storage}
use graph_ar.Expression.{ArrowCompute, FilterOptions}

-- The types of Arrow that the library makes, and those of files that it does not.
pub data ArrowType : Type 0 where
  boolean int32 int64 float32 float64 utf8 large_utf8 date32 timestamp_milli : ArrowType
  list : ArrowType → ArrowType
  foreign : ℕ → ArrowType

-- The types without a child.
abbrev pub plain_type : TypeId → Result ArrowType
plain_type TypeId.bool = ok boolean
plain_type TypeId.int32 = ok int32
plain_type TypeId.int64 = ok int64
plain_type TypeId.float = ok float32
plain_type TypeId.double = ok float64
plain_type TypeId.string = ok large_utf8
plain_type TypeId.list = err undefined
plain_type TypeId.date = ok date32
plain_type TypeId.timestamp = ok timestamp_milli
plain_type TypeId.user_defined = err raised
plain_type TypeId.max_id = err raised

-- `DataTypeToArrowDataType`.
unfoldable pub data_type_to_arrow : DataType → Result ArrowType
data_type_to_arrow (plain t name) = plain_type t
data_type_to_arrow (nested TypeId.list child) = do item ← data_type_to_arrow child; ok (list item)
data_type_to_arrow (nested t child) = plain_type t

-- A schema: the names and the types of the fields.
abbrev pub Schema : Type 0
Schema = List (Text × ArrowType)

abbrev pub index_field : Bool → Schema
index_field true = (codes "_graphArVertexIndex", int64) ∷ []
index_field false = []

unfoldable pub property_fields : List Property → Result Schema
property_fields [] = ok []
property_fields (p ∷ ps) = do
  type ← deref p.type
  field ← data_type_to_arrow type.target
  rest ← property_fields ps
  ok ((p.name, field) ∷ rest)

-- `PropertyGroupToSchema`.
unfoldable pub property_group_to_schema : Option PropertyGroup → Bool → Result Schema
property_group_to_schema group contain_index_column = do
  pg ← deref group
  fields ← property_fields pg.properties
  ok (index_field contain_index_column ++ fields)

unfoldable pub label_fields : List Text → Schema
label_fields [] = []
label_fields (label ∷ labels) = (label, boolean) ∷ label_fields labels

-- `LabelToSchema`.
unfoldable pub label_to_schema : List Text → Bool → Schema
label_to_schema labels contain_index_column =
    index_field contain_index_column ++ label_fields labels

-- `GetFieldByName` of Arrow: the type of the only field of the name; a name that two fields have gives the
-- null pointer, as one that none has.
unfoldable pub get_field_by_name : Text → Schema → Option ArrowType
get_field_by_name name [] = none
get_field_by_name name ((j, type) ∷ fields) =
    let rest = get_field_by_name name fields in
    if text_eq j name then (if is_none (find name fields) then some type else none) else rest

-- A column of a table: a name, a type and chunks.
pub record Column {ℓ} (Array : Type ℓ) : Type ℓ where
  pub name : Text
  pub type : ArrowType
  pub chunks : List Array

-- What the readers ask of the tables of Arrow and of `FileSystem`.
pub record ArrowTables (storage : Storage) (arrow : ArrowCompute) : Type 1 where
  pub Array : Type 0
  -- The columns of a table, and a table of columns (`arrow::Table::Make`).
  pub columns_of : storage.Table → List (Column Array)
  pub table_of : List (Column Array) → storage.Table
  -- `arrow::compute::CanCast` and `Cast`.
  pub can_cast : ArrowType → ArrowType → Bool
  pub cast : Array → ArrowType → Result Array
  -- `CastStringToLargeString`, which widens the offsets in the buffers of an array.
  pub cast_string_to_large_string : Array → Result Array
  -- `Equals` of two types.
  pub same_type : ArrowType → ArrowType → Bool
  -- `ReadFileToTable` with filter options, and with the indices of columns.
  pub read_filtered :
      storage.FileSystem → Text → FileType → FilterOptions arrow → Result storage.Table
  pub read_columns : storage.FileSystem → Text → FileType → List ℤ → Result storage.Table

module _ (storage : Storage) (arrow : ArrowCompute) (tables : ArrowTables storage arrow) where
  -- Whether `CastStringToLargeString` is for these types.
  abbrev pub widens : ArrowType → ArrowType → Bool
  widens from to = if tables.same_type from utf8 then tables.same_type to large_utf8 else false

  -- The loop over the chunks of a column; a chunk that can not be cast is left out.
  unfoldable pub cast_chunks :
      ArrowType → ArrowType → List tables.Array → Result (List tables.Array)
  cast_chunks from to [] = ok []
  cast_chunks from to (chunk ∷ chunks) =
      let rest = cast_chunks from to chunks in
      if tables.can_cast from to
      then (do out ← tables.cast chunk to; others ← rest; ok (out ∷ others))
      else if widens from to
      then (do out ← tables.cast_string_to_large_string chunk; others ← rest; ok (out ∷ others))
      else rest

  abbrev pub cast_to : ArrowType → Column tables.Array → Result (Column tables.Array)
  cast_to to column =
      if tables.same_type column.type to
      then ok column
      else (cast_chunks column.type to column.chunks >>= λ chunks.
          ok (record { name = column.name; type = to; chunks = chunks }))

  -- One column; a column whose name is not that of one field of the schema is a null pointer
  -- dereferenced.
  unfoldable pub cast_column : Schema → Column tables.Array → Result (Column tables.Array)
  cast_column schema column = do
    to ← deref (get_field_by_name column.name schema)
    cast_to to column

  unfoldable pub cast_columns :
      Schema → List (Column tables.Array) → Result (List (Column tables.Array))
  cast_columns schema [] = ok []
  cast_columns schema (column ∷ columns) = do
    out ← cast_column schema column
    rest ← cast_columns schema columns
    ok (out ∷ rest)

  -- `CastTableWithSchema`. A table that has the schema already goes through the loop as well.
  unfoldable pub cast_table_with_schema : storage.Table → Schema → Result storage.Table
  cast_table_with_schema table schema = do
    columns ← cast_columns schema (tables.columns_of table)
    ok (tables.table_of columns)
