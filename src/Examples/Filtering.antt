-- ===== src/Examples/Filtering.antt =====
-- Witnesses of the theorems about filtered collections and offsets.
use graph_ar.Base.{take, drop}
use graph_ar.Base.Int.{ℤ, pos_part, ◌==ℤ◌}
use graph_ar.Types.{ordered_by_source}
use graph_ar.Storage.{Storage}
use graph_ar.ChunkReader.{Rows}
use graph_ar.ReaderUtil.{get_adj_list_offset_of_vertex}
use graph_ar.ChunkReader.Offset.{
  OffsetChunkReader, new_offset_chunk_reader, offset_seek, offset_get_chunk,
}
use graph_ar.ChunkReader.Offset.Range.{
  range_of, SlicesAgree, offset_get_chunk-get_adj_list_offset_of_vertex,
}
use graph_ar.Examples.{knows}
use graph_ar.Base.{
  ℕ, zero, suc, ◌+◌, ◌*◌, ◌<◌, Bool, true, false, List, [], ◌∷◌, none, some, Result, ok, err,
  raised, undefined, ◌>>=◌, refl, ◌≡◌, arith, if◌then◌else◌, ◌==◌, ◌++◌, ◌++◌,
}
use graph_ar.Base.Text.{Text, codes, text_eq, to_string}
use graph_ar.Base.Int.{pos}
use graph_ar.VertexInfo.{VertexInfo, new_vertex_info}
use graph_ar.HighLevel.Labels.{Parquet}
use graph_ar.HighLevel.Labels.Rows.{IsStored, HasBatches, HasRows, columns_of, holds}
use graph_ar.HighLevel.Vertices.{VerticesCollection, filter_labels}
use graph_ar.HighLevel.Vertices.Passing.{rows_in}
use graph_ar.HighLevel.Vertices.Filter.{label_path, filter_labels_lem}
use graph_ar.Examples.{id_group, disk}

abbrev tagged : VertexInfo
tagged =
    new_vertex_info (codes "person") (pos 2) (some id_group ∷ []) (codes "adult" ∷ [])
      (codes "person/") none

-- Four persons in two chunks.
abbrev persons : VerticesCollection
persons = record {
  vertex_info = tagged;
  prefix = codes "/";
  labels = codes "adult" ∷ [];
  is_filtered = false;
  filtered_ids = [];
  valid_chunk = [];
  vertex_num = pos 4;
}

-- The first and the last of them are adults.
abbrev adults : ℕ → ℕ → ℕ → List (List Bool)
adults i group column = if i == 0 then (true ∷ false ∷ []) ∷ [] else (false ∷ true ∷ []) ∷ []

abbrev is_adult : ℕ → Bool
is_adult v = if v == 0 then true else v == 3

-- The label files of the two chunks; another file, group or column throws.
abbrev label_file : Text → Result (List (List Bool))
label_file path =
    if text_eq path (codes "/person/labels/chunk0")
    then ok ((true ∷ false ∷ []) ∷ [])
    else if text_eq path (codes "/person/labels/chunk1")
    then ok ((false ∷ true ∷ []) ∷ [])
    else err raised

abbrev registry : Parquet
registry = record {
  row_groups = λ path. label_file path >>= λ values. ok 1;
  num_columns = λ path. label_file path >>= λ values. ok 1;
  batches = λ path group column.
      if group == 0 then (if column == 0 then label_file path else err raised) else err raised;
}

only_group :
    (path : Text) (values : ℕ → ℕ → List (List Bool))
    → label_file path ≡ ok (values 0 0)
    → HasBatches registry path values 1 0
only_group path values h zero below = h
only_group path values h (suc group) below = absurd (omega (arith, below))

registry_stored :
    (i : ℕ)
    → i * 2 < 4
    → IsStored registry (label_path persons ++ to_string (pos i)) (adults i) (rows_in 2 4 i) 1 1
unfolding text_eq new_vertex_info to_string
registry_stored zero h = record { row_groups = refl; columns = refl }
registry_stored (suc zero) h = record { row_groups = refl; columns = refl }
registry_stored (suc (suc i)) h = absurd (omega (arith, h))

registry_rows :
    (i : ℕ)
    → i * 2 < 4
    → HasRows registry
        (label_path persons ++ to_string (pos i))
        (adults i)
        (rows_in 2 4 i)
        1
        1
        (0 ∷ [])
unfolding text_eq new_vertex_info to_string
registry_rows zero h = ((only_group (codes "/person/labels/chunk0") (adults 0) refl, refl), tt)
registry_rows (suc zero) h =
    ((only_group (codes "/person/labels/chunk1") (adults 1) refl, refl), tt)
registry_rows (suc (suc i)) h = absurd (omega (arith, h))

registry_holding :
    (i r : ℕ)
    → r < rows_in 2 4 i
    → holds
        (columns_of registry
          (label_path persons ++ to_string (pos i))
          (adults i)
          (rows_in 2 4 i)
          1
          1
          (0 ∷ []))
        r
      ≡ is_adult (r + i * 2)
registry_holding zero zero h = refl
registry_holding zero (suc zero) h = refl
registry_holding zero (suc (suc r)) h = absurd (omega (arith, h))
registry_holding (suc zero) zero h = refl
registry_holding (suc zero) (suc zero) h = refl
registry_holding (suc zero) (suc (suc r)) h = absurd (omega (arith, h))
registry_holding (suc (suc i)) r h = absurd (ground (arith, h))

filter_labels_lem_example :
    filter_labels disk registry persons (codes "adult" ∷ []) ≡ ok (0 ∷ 3 ∷ [], 0 ∷ 1 ∷ [])
unfolding new_vertex_info graph_ar.HighLevel.Vertices.tested_label_ids
    graph_ar.HighLevel.Vertices.label_place text_eq graph_ar.HighLevel.Labels.are_distinct
    graph_ar.HighLevel.Labels.is_among
filter_labels_lem_example =
    filter_labels_lem disk registry persons (codes "adult" ∷ []) 2 4 1 is_adult (λ i. 1) adults refl
      refl refl (omega arith) (omega arith) refl
      (record {
        positive = omega arith;
        distinct = refl;
        known = omega arith;
        stored = registry_stored;
        rows = registry_rows;
        holding = registry_holding;
      })

-- Every number that is stored is five, and every table has the offsets 4, 6 and 9.
abbrev offset_shelf : Storage
offset_shelf = record {
  FileSystem = Unit;
  Table = List ℤ;
  file_system_from_uri_or_path = λ uri. ok (tt, []);
  read_file_to_value = λ fs path. ok (pos 5);
  read_file_to_table = λ fs path file_type. ok (pos 4 ∷ pos 6 ∷ pos 9 ∷ []);
  first_column_slice = λ table offset length. take 2 (drop (pos_part offset) table);
}

abbrev offset_rows : Rows offset_shelf
offset_rows = record {
  slice_from = λ table row. drop (pos_part row) table;
  num_rows = λ table. pos 3;
  int_column = λ table i. if i ==ℤ pos 0 then ok table else err undefined;
}

offset_slices : (table : List ℤ) (row : ℤ) → SlicesAgree offset_shelf offset_rows table row
offset_slices table row = record { values = drop (pos_part row) table; column = refl; slice = refl }

abbrev offset_reader : OffsetChunkReader offset_shelf
offset_reader = record {
  edge_info = knows;
  adj_list_type = ordered_by_source;
  prefix = [];
  fs = tt;
  chunk_index = pos 0;
  seek_id = pos 0;
  chunk_table = none;
  vertex_chunk_num = pos 3;
  vertex_chunk_size = pos 2;
}

offset_reader_made :
    new_offset_chunk_reader offset_shelf knows ordered_by_source [] ≡ ok offset_reader
unfolding new_offset_chunk_reader graph_ar.EdgeInfo.Files.get_offset_path_prefix
    graph_ar.EdgeInfo.Files.list_directory graph_ar.EdgeInfo.Files.list_prefix
    graph_ar.Base.Assoc.find graph_ar.EdgeInfo.new_edge_info graph_ar.Base.Index.index_by
    graph_ar.Base.Assoc.assign graph_ar.Base.Assoc.vector_at graph_ar.Path.build_path
    graph_ar.ReaderUtil.get_edge_vertex_chunk_num graph_ar.EdgeInfo.Files.get_vertices_num_file_path
offset_reader_made = refl

-- The vertex 3 is in the second of the three vertex chunks.
offset_get_chunk-get_adj_list_offset_of_vertex_example :
    ((offset_seek offset_shelf offset_reader (pos 3)).1 ≡ ok tt)
    × (range_of offset_shelf offset_rows
          (offset_get_chunk offset_shelf offset_rows
            (offset_seek offset_shelf offset_reader (pos 3)).0).1
        ≡ get_adj_list_offset_of_vertex offset_shelf knows [] ordered_by_source (pos 3))
unfolding graph_ar.EdgeInfo.new_edge_info
offset_get_chunk-get_adj_list_offset_of_vertex_example =
    offset_get_chunk-get_adj_list_offset_of_vertex offset_shelf offset_rows knows ordered_by_source
      [] 2 offset_reader 3 (omega arith) refl offset_reader_made
      (λ table read. offset_slices table (pos 1))
