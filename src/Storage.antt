-- ===== src/Storage.antt =====
-- What the readers ask of storage, which is a parameter of them: `FileSystem` of
-- cpp/src/graphar/filesystem.h, which wraps a file system of Arrow, and the tables that it reads.
use graph_ar.Base.{List, Result}
use graph_ar.Base.Text.{Text}
use graph_ar.Base.Int.{ℤ}
use graph_ar.Types.{FileType}

pub record Storage : Type 1 where
  -- A file system.
  pub FileSystem : Type 0
  -- A table of Arrow.
  pub Table : Type 0
  -- `FileSystemFromUriOrPath`: the file system and the path in it.
  pub file_system_from_uri_or_path : Text → Result (FileSystem × Text)
  -- `FileSystem::ReadFileToValue<IdType>`.
  pub read_file_to_value : FileSystem → Text → Result ℤ
  -- `FileSystem::ReadFileToTable`.
  pub read_file_to_table : FileSystem → Text → FileType → Result Table
  -- `table->column(0)->Slice(offset, length)->chunk(0)`: the integers of the first chunk of the slice.
  pub first_column_slice : Table → ℤ → ℤ → List ℤ
