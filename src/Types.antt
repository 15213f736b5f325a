-- ===== src/Types.antt =====
-- cpp/src/graphar/types.h and types.cc, and the file types of fwd.h: the enumerations, their names,
-- and `DataType`.
pub mod Names
use graph_ar.Base.{
  ℕ, ◌+◌, ◌<◌, Bool, true, false, ◌&&◌, List, [], ◌∷◌, ◌++◌, ◌≡◌, ◌↔◌, ◌==◌, Result, ok, err,
  raised, undefined, ◌>>=◌, if◌then◌else◌, arith, refl, StatusCode, status,
}
use graph_ar.Base.Text.{Text, codes, text_eq}

-- `enum class Type`.
pub data TypeId : Type 0 where
  bool int32 int64 float double string list date timestamp user_defined max_id : TypeId

-- The value of an enumerator.
abbrev pub type_code : TypeId → ℕ
type_code bool = 0
type_code int32 = 1
type_code int64 = 2
type_code float = 3
type_code double = 4
type_code string = 5
type_code list = 6
type_code date = 7
type_code timestamp = 8
type_code user_defined = 9
type_code max_id = 10

-- `DataType`: an id with no child and a user-defined name, or an id with a child.
pub data DataType : Type 0 where
  plain : TypeId → Text → DataType
  nested : TypeId → DataType → DataType

unfoldable pub id : DataType → TypeId
id (plain t name) = t
id (nested t child) = t

unfoldable pub user_defined_type_name : DataType → Text
user_defined_type_name (plain t name) = name
user_defined_type_name (nested t child) = []

-- `Equals`, and so `==`: the child is not compared.
unfoldable pub equals : DataType → DataType → Bool
unfolding id user_defined_type_name
equals a b =
    (type_code (id a) == type_code (id b))
    && text_eq (user_defined_type_name a) (user_defined_type_name b)

-- The factories `boolean()`, `int32()` and so on, and `list`.
abbrev pub type_of : TypeId → DataType
type_of t = plain t []

abbrev pub list_of : DataType → DataType
list_of = nested list

-- `ToTypeName`; a list with no child is a null pointer that is dereferenced.
unfoldable pub to_type_name : DataType → Result Text
to_type_name (plain bool name) = ok (codes "bool")
to_type_name (plain int32 name) = ok (codes "int32")
to_type_name (plain int64 name) = ok (codes "int64")
to_type_name (plain float name) = ok (codes "float")
to_type_name (plain double name) = ok (codes "double")
to_type_name (plain string name) = ok (codes "string")
to_type_name (plain date name) = ok (codes "date")
to_type_name (plain timestamp name) = ok (codes "timestamp")
to_type_name (plain user_defined name) = ok name
to_type_name (plain list name) = err undefined
to_type_name (plain max_id name) = ok (codes "unknown")
to_type_name (nested bool child) = ok (codes "bool")
to_type_name (nested int32 child) = ok (codes "int32")
to_type_name (nested int64 child) = ok (codes "int64")
to_type_name (nested float child) = ok (codes "float")
to_type_name (nested double child) = ok (codes "double")
to_type_name (nested string child) = ok (codes "string")
to_type_name (nested date child) = ok (codes "date")
to_type_name (nested timestamp child) = ok (codes "timestamp")
to_type_name (nested user_defined child) = ok []
to_type_name (nested list child) = do
  name ← to_type_name child
  ok (codes "list<" ++ name ++ codes ">")
to_type_name (nested max_id child) = ok (codes "unknown")

unfoldable pub type_name_to_data_type : Text → Result DataType
type_name_to_data_type str =
    if text_eq str (codes "bool")
    then ok (type_of bool)
    else if text_eq str (codes "int32")
    then ok (type_of int32)
    else if text_eq str (codes "int64")
    then ok (type_of int64)
    else if text_eq str (codes "float")
    then ok (type_of float)
    else if text_eq str (codes "double")
    then ok (type_of double)
    else if text_eq str (codes "string")
    then ok (type_of string)
    else if text_eq str (codes "date")
    then ok (type_of date)
    else if text_eq str (codes "timestamp")
    then ok (type_of timestamp)
    else if text_eq str (codes "list<int32>")
    then ok (list_of (type_of int32))
    else if text_eq str (codes "list<int64>")
    then ok (list_of (type_of int64))
    else if text_eq str (codes "list<float>")
    then ok (list_of (type_of float))
    else if text_eq str (codes "list<double>")
    then ok (list_of (type_of double))
    else if text_eq str (codes "list<string>")
    then ok (list_of (type_of string))
    else err raised

-- `enum FileType`.
pub data FileType : Type 0 where
  csv parquet orc json : FileType

abbrev pub file_code : FileType → ℕ
file_code csv = 0
file_code parquet = 1
file_code orc = 2
file_code json = 3

-- `StringToFileType`; an unknown name throws.
unfoldable pub string_to_file_type : Text → Result FileType
unfolding text_eq
string_to_file_type str =
    if text_eq str (codes "csv")
    then ok csv
    else if text_eq str (codes "json")
    then ok json
    else if text_eq str (codes "parquet")
    then ok parquet
    else if text_eq str (codes "orc")
    then ok orc
    else err raised

unfoldable pub file_type_to_string : FileType → Text
file_type_to_string csv = codes "csv"
file_type_to_string json = codes "json"
file_type_to_string parquet = codes "parquet"
file_type_to_string orc = codes "orc"

-- `enum class AdjListType`: its four constants, and a value of the underlying byte that is none of
-- them, which `|` and `&` can make.
pub data AdjListType : Type 0 where
  unordered_by_source unordered_by_dest ordered_by_source ordered_by_dest : AdjListType
  other : ℕ → AdjListType

-- A number for each value, by which two values are compared.
abbrev pub adj_list_code : AdjListType → ℕ
adj_list_code unordered_by_source = 1
adj_list_code unordered_by_dest = 2
adj_list_code ordered_by_source = 4
adj_list_code ordered_by_dest = 8
adj_list_code (other n) = 9 + n

-- One of the four constants.
abbrev pub IsConstant : AdjListType → Type 0
IsConstant t = adj_list_code t < 9

-- `AdjListTypeToString`; a value that is no constant throws.
unfoldable pub adj_list_type_to_string : AdjListType → Result Text
adj_list_type_to_string unordered_by_source = ok (codes "unordered_by_source")
adj_list_type_to_string unordered_by_dest = ok (codes "unordered_by_dest")
adj_list_type_to_string ordered_by_source = ok (codes "ordered_by_source")
adj_list_type_to_string ordered_by_dest = ok (codes "ordered_by_dest")
adj_list_type_to_string (other n) = err raised

-- An error status whose message names the type: with a value that is no constant, making the
-- message throws.
abbrev pub error_naming {ℓ} : {A : Type ℓ} → AdjListType → StatusCode → Result A
error_naming type code = adj_list_type_to_string type >>= λ _. err (status code)

unfoldable pub ordered_aligned_to_adj_list_type : Bool → Text → AdjListType
unfolding text_eq
ordered_aligned_to_adj_list_type true aligned =
    if text_eq aligned (codes "src") then ordered_by_source else ordered_by_dest
ordered_aligned_to_adj_list_type false aligned =
    if text_eq aligned (codes "src") then unordered_by_source else unordered_by_dest

unfoldable pub adj_list_type_to_ordered_aligned : AdjListType → Bool × Text
adj_list_type_to_ordered_aligned unordered_by_source = (false, codes "src")
adj_list_type_to_ordered_aligned unordered_by_dest = (false, codes "dst")
adj_list_type_to_ordered_aligned ordered_by_source = (true, codes "src")
adj_list_type_to_ordered_aligned ordered_by_dest = (true, codes "dst")
adj_list_type_to_ordered_aligned (other n) = (false, codes "dst")

pub adj_list_code-injective : (a b : AdjListType) → adj_list_code a ≡ adj_list_code b → a ≡ b
adj_list_code-injective a b e = ground arith

pub file_code-injective : (a b : FileType) → file_code a ≡ file_code b → a ≡ b
file_code-injective a b e = ground arith
