-- ===== src/Writer.antt =====
-- The chunk info writers of cpp/src/graphar/chunk_info_writer.h and chunk_info_writer.cc, which copy a
-- file to the place of a chunk, and the validate levels of writer_util.h.
pub mod Vertex
pub mod Edge
use graph_ar.Base.{err, raised, Result, ◌≡◌, refl, ok, Status, Result}
use graph_ar.Base.Text.{Text}
use graph_ar.Storage.{Storage}

-- `enum class ValidateLevel`.
pub data ValidateLevel : Type 0 where
  default_validate no_validate weak_validate strong_validate : ValidateLevel

-- A level that a writer may have; the constructors throw at the other.
abbrev pub writer_level : ValidateLevel → Result ValidateLevel
writer_level default_validate = err raised
writer_level no_validate = ok no_validate
writer_level weak_validate = ok weak_validate
writer_level strong_validate = ok strong_validate

-- The level of a write: its own, or the one of the writer.
abbrev pub effective : ValidateLevel → ValidateLevel → ValidateLevel
effective writers default_validate = writers
effective writers no_validate = no_validate
effective writers weak_validate = weak_validate
effective writers strong_validate = strong_validate

pub effective-effective : (a b : ValidateLevel) → effective a (effective a b) ≡ effective a b
effective-effective default_validate default_validate = refl
effective-effective no_validate default_validate = refl
effective-effective weak_validate default_validate = refl
effective-effective strong_validate default_validate = refl
effective-effective a no_validate = refl
effective-effective a weak_validate = refl
effective-effective a strong_validate = refl

-- A level at which a write is checked.
abbrev pub IsChecked : ValidateLevel → Type 0
IsChecked default_validate = Unit
IsChecked no_validate = ⊥
IsChecked weak_validate = Unit
IsChecked strong_validate = Unit

-- The end of each `validate`: OK without validation, and otherwise what the checks say.
abbrev pub at_level : ValidateLevel → Status → Status
at_level no_validate checks = ok tt
at_level default_validate checks = checks
at_level weak_validate checks = checks
at_level strong_validate checks = checks

pub at_level-IsChecked :
    (l : ValidateLevel) (checks : Status) → IsChecked l → at_level l checks ≡ checks
at_level-IsChecked no_validate checks h = absurd h
at_level-IsChecked default_validate checks h = refl
at_level-IsChecked weak_validate checks h = refl
at_level-IsChecked strong_validate checks h = refl

-- The files of a file system, and `FileSystem::CopyFile`, a parameter of the writers.
pub record Copying (storage : Storage) : Type 1 where
  pub Files : Type 0
  pub copy_file : storage.FileSystem → Text → Text → Files → Files × Status
