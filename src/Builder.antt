-- ===== src/Builder.antt =====
-- What the builders of cpp/src/graphar/high-level share: property values, the checks of a property
-- against its declared type, and the columns that are handed to Arrow.
pub mod Cells
pub mod Vertices
pub mod Edges
use graph_ar.Base.{
  ℕ, Bool, true, false, not, ◌==◌, List, [], ◌∷◌, Option, none, some, Result, Status, ok, err,
  status, raised, key_error, type_error, invalid, ◌>>=◌, ◌>>◌, reject_if, if◌then◌else◌, deref,
  or_raise, ◌+◌, undefined, ◌+◌,
}
use graph_ar.Base.Text.{Text}
use graph_ar.Base.Assoc.{find, text_Eq}
use graph_ar.Types.{TypeId, id, to_type_name}
use graph_ar.Types
use graph_ar.Property.{TypePointer}

-- The C++ type that a `std::any` holds: those that properties are stored as, and any other.
pub data CppType : Type 0 where
  c_bool c_int32 c_int64 c_float c_double c_string : CppType
  c_other : ℕ → CppType

-- A number for each type, by which two types are compared.
abbrev pub cpp_code : CppType → ℕ
cpp_code c_bool = 0
cpp_code c_int32 = 1
cpp_code c_int64 = 2
cpp_code c_float = 3
cpp_code c_double = 4
cpp_code c_string = 5
cpp_code (c_other n) = n + 6

-- A `std::any`: what it holds is opaque here, but for its type.
pub record AnyValue : Type 0 where
  pub cpp_type : CppType
  pub content : ℕ

-- The C++ type of a property type (`TypeToArrowType`, a date and a timestamp as their `c_type`).
abbrev pub stored_as : TypeId → Option CppType
stored_as TypeId.bool = some c_bool
stored_as TypeId.int32 = some c_int32
stored_as TypeId.int64 = some c_int64
stored_as TypeId.float = some c_float
stored_as TypeId.double = some c_double
stored_as TypeId.string = some c_string
stored_as TypeId.date = some c_int32
stored_as TypeId.timestamp = some c_int64
stored_as TypeId.list = none
stored_as TypeId.user_defined = none
stored_as TypeId.max_id = none

abbrev pub same_cpp_type : CppType → CppType → Bool
same_cpp_type s t = cpp_code s == cpp_code t

-- The check of one property in a strong validation: whether the info has it, and its type there.
unfoldable pub check_property : Bool → Result (Option TypePointer) → AnyValue → Status
check_property has declared value = do
  reject_if (not has) key_error
  pointer ← or_raise declared
  type ← deref pointer
  elim (stored_as (id type.target)) [
    | none ↦ err (status type_error)
    | some t ↦ if same_cpp_type value.cpp_type t then ok tt else err (status type_error)
  ]

-- Properties are an `unordered_map`; the first failure in its order is reported.
unfoldable pub check_properties :
    (Text → Bool) → (Text → Result (Option TypePointer)) → List (Text × AnyValue) → Status
check_properties has declared [] = ok tt
check_properties has declared ((name, value) ∷ rest) = do
  check_property (has name) (declared name) value
  check_properties has declared rest

-- `any_cast`, which throws at another type.
abbrev pub any_cast : CppType → AnyValue → Result AnyValue
any_cast t v = if same_cpp_type v.cpp_type t then ok v else err raised

-- The value that `tryToAppend` appends for an element: null if it is empty or has no such property.
abbrev pub cell : CppType → Text → Bool → List (Text × AnyValue) → Result (Option AnyValue)
cell t name true properties = ok none
cell t name false properties = elim (find name properties) [
  | none ↦ ok none
  | some v ↦ do w ← any_cast t v; ok (some w)
]

-- A column as it is appended, value by value.
abbrev pub Column : Type 0
Column = List (Option AnyValue)

-- `DataTypeToArrowDataType` throws at a type that Arrow has no counterpart of; a list with no child is
-- a null pointer dereferenced.
unfoldable pub arrow_type : Types.DataType → Status
arrow_type (Types.plain TypeId.list name) = err undefined
arrow_type (Types.plain TypeId.user_defined name) = err raised
arrow_type (Types.plain TypeId.max_id name) = err raised
arrow_type (Types.plain t name) = ok tt
arrow_type (Types.nested TypeId.list child) = arrow_type child
arrow_type (Types.nested TypeId.user_defined child) = err raised
arrow_type (Types.nested TypeId.max_id child) = err raised
arrow_type (Types.nested t child) = ok tt
