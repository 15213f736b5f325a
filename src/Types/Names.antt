-- ===== src/Types/Names.antt =====
-- The names of types in a metadata file, and back (types.h and types.cc).
use graph_ar.Base.{◌≢◌, StatusCode, true, ◌≡◌, refl, ok, arith}
use graph_ar.Base.Text.{Text, codes, text_eq, text_eq_iff}
use graph_ar.Types.{
  error_naming, adj_list_type_to_string, DataType, equals, list_of, to_type_name,
  type_name_to_data_type, FileType, string_to_file_type, file_type_to_string, AdjListType,
  unordered_by_source, unordered_by_dest, ordered_by_source, ordered_by_dest, other,
  ordered_aligned_to_adj_list_type, adj_list_type_to_ordered_aligned, IsConstant,
}

-- Every name that is accepted is the name of the type that it is read as.
pub to_type_name-type_name_to_data_type :
    (name : Text) (t : DataType) → type_name_to_data_type name ≡ ok t → to_type_name t ≡ ok name
unfolding type_name_to_data_type to_type_name
to_type_name-type_name_to_data_type name t h = ground (
  arith,
  text_eq_iff name (codes "bool"),
  text_eq_iff name (codes "int32"),
  text_eq_iff name (codes "int64"),
  text_eq_iff name (codes "float"),
  text_eq_iff name (codes "double"),
  text_eq_iff name (codes "string"),
  text_eq_iff name (codes "date"),
  text_eq_iff name (codes "timestamp"),
  text_eq_iff name (codes "list<int32>"),
  text_eq_iff name (codes "list<int64>"),
  text_eq_iff name (codes "list<float>"),
  text_eq_iff name (codes "list<double>"),
  text_eq_iff name (codes "list<string>"),
)

-- A file type is read back from its name.
pub string_to_file_type-file_type_to_string :
    (t : FileType) → string_to_file_type (file_type_to_string t) ≡ ok t
unfolding string_to_file_type file_type_to_string
string_to_file_type-file_type_to_string FileType.csv = refl
string_to_file_type-file_type_to_string FileType.parquet = refl
string_to_file_type-file_type_to_string FileType.orc = refl
string_to_file_type-file_type_to_string FileType.json = refl

-- `ordered` and `aligned_by` in a metadata file determine the adjacency list type, for each of the
-- four types.
pub ordered_aligned_round_trip :
    (t : AdjListType)
    → IsConstant t
    → (let (ordered, aligned) = adj_list_type_to_ordered_aligned t in
        ordered_aligned_to_adj_list_type ordered aligned)
      ≡ t
unfolding ordered_aligned_to_adj_list_type adj_list_type_to_ordered_aligned
ordered_aligned_round_trip unordered_by_source h = refl
ordered_aligned_round_trip unordered_by_dest h = refl
ordered_aligned_round_trip ordered_by_source h = refl
ordered_aligned_round_trip ordered_by_dest h = refl
ordered_aligned_round_trip (other n) h = absurd (omega arith)

-- `Equals` does not look at the child: two list types are equal whatever they hold, even where
-- their names differ.
pub lists_are_equal : (a b : DataType) → equals (list_of a) (list_of b) ≡ true
unfolding equals text_eq
lists_are_equal a b = refl

-- An error that names a type of list is no success.
pub not_named : {A : Type 0} (t : AdjListType) (a : A) (c : StatusCode) → error_naming t c ≢ ok a
unfolding adj_list_type_to_string
not_named unordered_by_source a c h = ground arith
not_named unordered_by_dest a c h = ground arith
not_named ordered_by_source a c h = ground arith
not_named ordered_by_dest a c h = ground arith
not_named (other n) a c h = ground arith
