-- ===== src/ChunkWriter.antt =====
-- The writers of cpp/src/graphar/arrow/chunk_writer.cc, which cut tables of Arrow into chunks and write
-- each to its file, and what they ask of Arrow and of the file system, a parameter.
pub mod Slices
pub mod Edge
pub mod Vertex
use graph_ar.Base.{
  ℕ, zero, suc, Bool, true, false, List, Option, Result, Status, ok, err, undefined,
}
use graph_ar.Base.Text.{Text}
use graph_ar.Base.Int.{ℤ, pos, pos_part, ◌+ℤ◌, ltb_ℤ}
use graph_ar.Types.{FileType}
use graph_ar.Property.{TypePointer}
use graph_ar.Storage.{Storage}
use graph_ar.Reader.Steps.{Step, and_then}

pub record Tables (storage : Storage) : Type 1 where
  -- A table of Arrow.
  pub Table : Type 0
  pub num_rows : Table → ℤ
  -- `schema()->GetFieldIndex`, -1 for a name that is not there.
  pub get_field_index : Table → Text → ℤ
  -- Whether the type of a field is INT64.
  pub is_int64 : Table → ℤ → Bool
  -- `ArrowDataTypeToDataType` of the type of a field.
  pub field_type : Table → ℤ → Result TypePointer
  -- `Validate` of a table.
  pub validate_table : Table → Status
  pub select_columns : Table → List ℤ → Result Table
  pub slice : Table → ℤ → ℤ → Table
  -- `GetColumnByName`: the chunks of an integer column, null values being none.
  pub column_chunks : Table → Text → List (List (Option ℤ))
  -- `sortTable`, a plan that Arrow executes.
  pub sort_table : Table → Text → Result Table
  -- `AddColumn` of integers in front of the others.
  pub add_first_column : Table → Text → List ℤ → Result Table
  -- `arrow::Table::Make` of one column of integers.
  pub one_column : Text → List ℤ → Table
  -- The files of a file system, and the writes of `FileSystem`.
  pub Files : Type 0
  pub write_value_to_file : storage.FileSystem → ℤ → Text → Files → Step Files
  pub write_table_to_file : storage.FileSystem → Table → FileType → Text → Files → Step Files

module _ (storage : Storage) (tables : Tables storage) where
  -- Ends a loop, or goes on with it.
  abbrev pub when_more : Bool → Step tables.Files → Step tables.Files → Step tables.Files
  when_more false end round = end
  when_more true end round = round

  -- A write of a chunk with its index.
  abbrev pub Write : Type 0
  Write = tables.Table → ℤ → tables.Files → Step tables.Files

  -- The loop of the table writes: the slices of a table from an offset on, and the index of the next
  -- chunk. Fuel that runs out stands for a loop that does not end.
  unfoldable pub write_slices :
      Write → ℤ → tables.Table → ℕ → ℤ → ℤ → tables.Files → Step tables.Files
  write_slices write size table zero offset i files =
      when_more (ltb_ℤ offset (tables.num_rows table)) (files, ok tt) (files, err undefined)
  write_slices write size table (suc n) offset i files =
      let round =
        and_then (write (tables.slice table offset size) i files)
          (λ written. write_slices write size table n (offset +ℤ size) (i +ℤ pos 1) written) in
      when_more (ltb_ℤ offset (tables.num_rows table)) (files, ok tt) round

  -- The loop from the first row on; a round passes at least one row.
  unfoldable pub write_all_slices : Write → ℤ → tables.Table → ℤ → tables.Files → Step tables.Files
  write_all_slices write size table start files =
      write_slices write size table (pos_part (tables.num_rows table)) (pos 0) start files
