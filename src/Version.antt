-- ===== src/Version.antt =====
-- cpp/src/graphar/version_parser.h: `InfoVersion`, its printed form and the types that it allows.
pub mod Parse
use graph_ar.Base.{Bool, ◌||◌, List, [], ◌∷◌, ◌++◌, Result, ok, err, raised, if◌then◌else◌}
use graph_ar.Base.Int.{ℤ, pos, ◌==ℤ◌}
use graph_ar.Base.Text.{Text, codes, to_string}
use graph_ar.Property.{contains}

pub record InfoVersion : Type 0 where
  pub version : ℤ
  pub user_define_types : List Text

-- `version2types`: one version, with the types that it supports.
abbrev pub supported_types : List Text
supported_types =
    codes "bool"
    ∷ codes "int32"
    ∷ codes "int64"
    ∷ codes "float"
    ∷ codes "double"
    ∷ codes "string"
    ∷ []

abbrev pub is_supported_version : ℤ → Bool
is_supported_version version = version ==ℤ pos 1

-- The constructor throws at a version that the map does not have.
unfoldable pub new_info_version : ℤ → List Text → Result InfoVersion
new_info_version version types =
    if is_supported_version version
    then ok (record { version = version; user_define_types = types })
    else err raised

-- Each type with a comma behind it; the last comma is overwritten by ')'.
abbrev pub with_commas : List Text → Text
with_commas [] = []
with_commas (t ∷ ts) = t ++ b',' ∷ with_commas ts

abbrev pub set_last : Text → Text
set_last [] = []
set_last (c ∷ []) = b')' ∷ []
set_last (c ∷ d ∷ s) = c ∷ set_last (d ∷ s)

-- `ToString`.
unfoldable pub version_to_string : InfoVersion → Text
version_to_string v = codes "gar/v" ++ to_string v.version ++ (elim v.user_define_types [
  | [] ↦ []
  | t ∷ ts ↦ set_last (codes " (" ++ with_commas (t ∷ ts))
])

-- `CheckType`.
unfoldable pub check_type : InfoVersion → Text → Bool
check_type v type_str = contains type_str supported_types || contains type_str v.user_define_types
