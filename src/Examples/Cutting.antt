-- ===== src/Examples/Cutting.antt =====
-- The theorems about the chunk writers, at tables of one column of integers.
use graph_ar.Base.{
  ℕ, ◌≡◌, ◌≤◌, ◌↔◌, refl, ok, some, none, true, List, [], ◌∷◌, ◌++◌, arith, length, map, take, drop,
  Status,
}
use graph_ar.Base.Int.{ℤ, pos, pos_part, ◌≤ℤ◌}
use graph_ar.Types.{ordered_by_source}
use graph_ar.Writer.{ValidateLevel}
use graph_ar.EdgeInfo.{has_adjacent_list_type}
use graph_ar.ReaderUtil.Counts.{IsNeeded}
use graph_ar.ChunkWriter.{Tables, write_all_slices}
use graph_ar.ChunkWriter.Slices.{write_each, write_all_slices-write_each}
use graph_ar.ChunkWriter.Edge.{EdgeChunkWriter}
use graph_ar.ChunkWriter.Edge.Column.{chunked_offsets}
use graph_ar.ChunkWriter.Edge.Write.{write_adj_list_chunk}
use graph_ar.ChunkWriter.Edge.Flat.{chunked_offsets-offsets}
use graph_ar.ChunkWriter.Edge.Checked.{write_adj_list_chunk-ok}
use graph_ar.Builder.Edges.Defs.{Edge}
use graph_ar.Builder.Edges.Offsets.{offsets}
use graph_ar.Examples.{knows, disk, int64_pointer}

-- A table is its rows, and the files are the tables that were written, the last one first.
abbrev rows_only : Tables disk
rows_only = record {
  Table = List ℤ;
  num_rows = λ table. pos (length table);
  get_field_index = λ table name. pos 0;
  is_int64 = λ table i. true;
  field_type = λ table i. ok int64_pointer;
  validate_table = λ table. ok tt;
  select_columns = λ table columns. ok table;
  slice = λ table offset n. take (pos_part n) (drop (pos_part offset) table);
  column_chunks = λ table name. map some table ∷ [];
  sort_table = λ table name. ok table;
  add_first_column = λ table name values. ok values;
  one_column = λ name values. values;
  Files = List (List ℤ);
  write_value_to_file = λ fs value path files. (files, ok tt);
  write_table_to_file = λ fs table type path files. (table ∷ files, ok tt);
}

abbrev keep : List ℤ → ℤ → List (List ℤ) → List (List ℤ) × Status
keep table i files = ((i ∷ table) ∷ files, ok tt)

abbrev five_rows : List ℤ
five_rows = pos 10 ∷ pos 11 ∷ pos 12 ∷ pos 13 ∷ pos 14 ∷ []

five_by_two : IsNeeded 5 2 3
five_by_two = λ j. (λ h. omega (arith, h), λ h. omega (arith, h))

write_all_slices-write_each_example :
    write_all_slices disk rows_only keep (pos 2) five_rows (pos 7) []
    ≡ write_each disk rows_only keep 2 five_rows 3 0 (pos 7) []
write_all_slices-write_each_example =
    write_all_slices-write_each disk rows_only keep 2 five_rows 5 3 (pos 7) [] refl (omega arith)
      five_by_two

three_chunks : write_each disk rows_only keep 2 five_rows 3 0 (pos 7) [] ≡ (
  (pos 9 ∷ pos 14 ∷ []) ∷ (pos 8 ∷ pos 12 ∷ pos 13 ∷ []) ∷ (pos 7 ∷ pos 10 ∷ pos 11 ∷ []) ∷ [],
  ok tt,
)
unfolding write_each
three_chunks = refl

abbrev edge_from : ℤ → Edge
edge_from src = record { src_id = src; dst_id = pos 0; empty = true; properties = [] }

chunked_offsets-offsets_example :
    chunked_offsets 3 (pos 2) 0 (some (pos 2) ∷ []) ((some (pos 2) ∷ some (pos 4) ∷ []) ∷ [])
    ≡ ok (
        offsets
          (λ e. e.src_id)
          3
          (pos 2)
          0
          (edge_from (pos 2) ∷ edge_from (pos 2) ∷ edge_from (pos 4) ∷ []))
unfolding graph_ar.ChunkWriter.Edge.Flat.concat
chunked_offsets-offsets_example =
    chunked_offsets-offsets (λ e. e.src_id) 3 (pos 2) 0 (some (pos 2) ∷ [])
      ((some (pos 2) ∷ some (pos 4) ∷ []) ∷ [])
      (edge_from (pos 2) ∷ edge_from (pos 2) ∷ edge_from (pos 4) ∷ []) tt refl

abbrev knows_writer : EdgeChunkWriter disk rows_only
knows_writer = record {
  edge_info = knows;
  vertex_chunk_size = pos 2;
  chunk_size = pos 2;
  adj_list_type = ordered_by_source;
  prefix = [];
  fs = tt;
  validate_level = ValidateLevel.strong_validate;
}

written :
    (write_adj_list_chunk disk rows_only knows_writer
      (pos 3 ∷ [])
      (pos 1)
      (pos 0)
      ValidateLevel.default_validate
      []).1
    ≡ ok tt
unfolding write_adj_list_chunk graph_ar.ChunkWriter.Edge.validate_adj_list
    graph_ar.ChunkWriter.Edge.validate_counts has_adjacent_list_type graph_ar.Base.Assoc.find
    graph_ar.EdgeInfo.new_edge_info graph_ar.Base.Index.index_by graph_ar.Base.Assoc.assign
    graph_ar.ChunkWriter.Edge.Write.write_columns graph_ar.EdgeInfo.get_adjacent_list
    graph_ar.Base.Assoc.vector_at graph_ar.EdgeInfo.Files.get_adj_list_file_path
    graph_ar.EdgeInfo.Files.list_directory graph_ar.EdgeInfo.Files.list_prefix
    graph_ar.Path.build_path
written = refl

write_adj_list_chunk-ok_example :
    (has_adjacent_list_type knows ordered_by_source ≡ true)
    × (pos 0 ≤ℤ pos 1)
    × (pos 0 ≤ℤ pos 0)
    × (pos 1 ≤ℤ pos 2)
unfolding graph_ar.EdgeInfo.new_edge_info
write_adj_list_chunk-ok_example =
    write_adj_list_chunk-ok disk rows_only knows_writer (pos 3 ∷ []) (pos 1) (pos 0)
      ValidateLevel.default_validate [] tt written
