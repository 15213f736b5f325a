-- ===== src/Examples/Walking.antt =====
-- Witnesses of the theorems about the collections, their iterators, labels and expressions.
use graph_ar.Base.{drop, none}
use graph_ar.Base.Int.{ℤ, pos_part}
use graph_ar.Types.{ordered_by_source}
use graph_ar.ChunkReader.{Rows}
use graph_ar.ChunkReader.Casts.{
  int32, Column, cast_columns, boolean, float32, float64, utf8, large_utf8, date32, timestamp_milli,
  list, foreign,
}
use graph_ar.ChunkReader.Casts.Schema.{AllCast, cast_columns-AllCast}
use graph_ar.HighLevel.EdgeIter.{EdgeIter, is_end}
use graph_ar.HighLevel.EdgeIter.Walk.{increments, increments-IsStuck}
use graph_ar.HighLevel.EdgeIter.Finish.{increments-is_end}
use graph_ar.Base.{
  ℕ, Bool, true, false, List, [], ◌∷◌, ◌++◌, none, some, Result, ok, refl, ◌≡◌, ◌↔◌, All, arith,
  if◌then◌else◌, ltb, ◌==◌, err, raised, ◌<◌, inr,
}
use graph_ar.Base.Text.{Text, codes}
use graph_ar.Base.Int.{pos}
use graph_ar.Types.{ordered_by_source}
use graph_ar.Expression.{
  ArrowCompute, BinaryOp, FilterOptions, property, literal, binary_of, check_filter_options,
}
use graph_ar.Expression.Fields.{
  ListsFields, IsKnown, names_of, columns_of, check_filter_options_iff,
}
use graph_ar.ChunkReader.Casts.{ArrowType, ArrowTables, int64}
use graph_ar.HighLevel.Edges.{tally, int64_max}
use graph_ar.HighLevel.Edges.Counts.{tally_lem}
use graph_ar.HighLevel.Labels.{Parquet, valid_indices}
use graph_ar.HighLevel.Labels.Rows.{valid_indices_lem}
use graph_ar.Examples.{knows, id_group}
use graph_ar.Examples.Fetching.{shelf}

-- An expression stands for the list of its fields.
abbrev names : ArrowCompute
names = record {
  ArrowExpression = List Text;
  Value = ℕ;
  field_ref = λ name. name ∷ [];
  literal = λ value. [];
  not_ = λ e. e;
  binary = λ op l r. l ++ r;
  fields_in_expression = λ e. e;
}

names_list_fields : ListsFields names
names_list_fields = record {
  of_field_ref = λ name. refl;
  of_literal = λ value. refl;
  of_not = λ e. refl;
  of_binary = λ op l r. refl;
}

abbrev wanted : FilterOptions names
wanted = record {
  filter = binary_of BinaryOp.equal (property (codes "id")) (literal 5);
  columns = some (codes "id" ∷ codes "age" ∷ []);
}

check_filter_options_iff_example : (check_filter_options names wanted (some id_group) ≡ ok tt) ↔ (
    All (IsKnown names id_group) (names_of names wanted.filter)
    × All (IsKnown names id_group) (columns_of names wanted.columns))
check_filter_options_iff_example =
    check_filter_options_iff names names_list_fields id_group wanted (tt, tt)

-- Two row groups with two rows each; the only label holds on the first row of each. Another group or
-- column throws.
abbrev labelled : Parquet
labelled = record {
  row_groups = λ path. ok 2;
  num_columns = λ path. ok 1;
  batches = λ path group column.
      if ltb group 2
      then (if column == 0 then ok ((true ∷ false ∷ []) ∷ []) else err raised)
      else err raised;
}

labelled_groups :
    (group : ℕ)
    → group < 2
    → labelled.batches (codes "chunk2") group 0 ≡ ok ((true ∷ false ∷ []) ∷ [])
labelled_groups group h = ground (arith, h)

valid_indices_lem_example :
    valid_indices labelled (codes "chunk") 4 1 (0 ∷ []) 2 4 ≡ ok (8 ∷ 10 ∷ [])
unfolding graph_ar.HighLevel.Labels.are_distinct graph_ar.HighLevel.Labels.is_among
valid_indices_lem_example =
    valid_indices_lem labelled (codes "chunk") (λ group column. (true ∷ false ∷ []) ∷ []) 4 2 1 2 4
      (0 ∷ []) (record { row_groups = refl; columns = refl }) refl (omega arith)
      ((labelled_groups, refl), tt)

-- Every vertex chunk of the shelf has three edge chunks with five edges. The end is the default.
tally_lem_example :
    tally shelf knows [] (pos 1) int64_max ordered_by_source
    ≡ ok (record {
      edge_chunk_nums = pos 3 ∷ pos 3 ∷ pos 3 ∷ [];
      chunk_begin = pos 3;
      chunk_end = pos 9;
      edge_num = pos 10;
    })
unfolding graph_ar.ReaderUtil.get_edge_vertex_chunk_num
    graph_ar.EdgeInfo.Files.get_vertices_num_file_path graph_ar.EdgeInfo.Files.list_directory
    graph_ar.EdgeInfo.Files.list_prefix graph_ar.Base.Assoc.find graph_ar.EdgeInfo.new_edge_info
    graph_ar.Base.Index.index_by graph_ar.Base.Assoc.assign graph_ar.Base.Assoc.vector_at
    graph_ar.Path.build_path graph_ar.ReaderUtil.get_edge_chunk_num
    graph_ar.EdgeInfo.Files.get_edges_num_file_path graph_ar.ReaderUtil.get_edge_num
tally_lem_example =
    tally_lem shelf knows [] ordered_by_source (λ i. 3) (λ i. 5) 3 1 3
      (record { vertex_chunks = refl; edge_chunks = λ i lt. refl; edge_nums = λ i lt. refl })
      (omega arith) int64_max (inr (refl, refl))

is_int64 : ArrowType → Bool
is_int64 int64 = true
is_int64 _ = false

abbrev arrays : ArrowTables shelf names
arrays = record {
  Array = List ℕ;
  columns_of = λ table. [];
  table_of = λ columns. [];
  can_cast = λ from to. true;
  cast = λ array to. ok array;
  cast_string_to_large_string = λ array. ok array;
  same_type = λ s t. if is_int64 s then is_int64 t else false;
  read_filtered = λ fs path file_type options. ok [];
  read_columns = λ fs path file_type columns. ok [];
}

is_int64-eq : (s : ArrowType) → is_int64 s ≡ true → s ≡ int64
unfolding is_int64
is_int64-eq int64 h = refl
is_int64-eq boolean h = absurd (ground (arith, h))
is_int64-eq int32 h = absurd (ground (arith, h))
is_int64-eq float32 h = absurd (ground (arith, h))
is_int64-eq float64 h = absurd (ground (arith, h))
is_int64-eq utf8 h = absurd (ground (arith, h))
is_int64-eq large_utf8 h = absurd (ground (arith, h))
is_int64-eq date32 h = absurd (ground (arith, h))
is_int64-eq timestamp_milli h = absurd (ground (arith, h))
is_int64-eq (list item) h = absurd (ground (arith, h))
is_int64-eq (foreign n) h = absurd (ground (arith, h))

arrays_sound : (s t : ArrowType) → (if is_int64 s then is_int64 t else false) ≡ true → s ≡ t
arrays_sound s t h = ground (arith, h, is_int64-eq s, is_int64-eq t)

abbrev stored_id : Column (List ℕ)
stored_id = record { name = codes "id"; type = int32; chunks = (7 ∷ []) ∷ [] }

abbrev cast_id : Column (List ℕ)
cast_id = record { name = codes "id"; type = int64; chunks = (7 ∷ []) ∷ [] }

cast_columns-AllCast_example :
    AllCast shelf names arrays arrays_sound
      ((codes "id", int64) ∷ [])
      (stored_id ∷ [])
      (cast_id ∷ [])
unfolding cast_columns graph_ar.ChunkReader.Casts.cast_column
    graph_ar.ChunkReader.Casts.get_field_by_name graph_ar.Base.Assoc.find graph_ar.Base.Text.text_eq
    is_int64 graph_ar.ChunkReader.Casts.cast_chunks
cast_columns-AllCast_example =
    cast_columns-AllCast shelf names arrays arrays_sound ((codes "id", int64) ∷ []) (stored_id ∷ [])
      (cast_id ∷ []) refl

-- Every chunk has one row.
abbrev single_rows : Rows shelf
single_rows = record {
  slice_from = λ table row. drop (pos_part row) table;
  num_rows = λ table. pos 1;
  int_column = λ table i. ok table;
}

-- An iterator in the last of three vertex chunks, which has one edge chunk.
abbrev last_chunk : ℤ → ℤ → EdgeIter shelf names arrays single_rows
last_chunk offset num = record {
  adj_list_reader = record {
    place = record {
      edge_info = knows;
      adj_list_type = ordered_by_source;
      prefix = [];
      vertex_chunk_index = pos 2;
      chunk_index = pos 0;
      vertex_chunk_num = pos 3;
      chunk_num = pos 1;
    };
    fs = tt;
    seek_offset = offset;
    chunk_table = none;
  };
  offset_reader = none;
  property_readers = [];
  global_chunk_index = pos 8;
  vertex_chunk_index = pos 2;
  cur_offset = offset;
  chunk_size = pos 2;
  src_chunk_size = pos 2;
  dst_chunk_size = pos 2;
  num_row_of_chunk = num;
  chunk_begin = pos 0;
  chunk_end = pos 9;
  adj_list_type = ordered_by_source;
  edge_chunk_nums = pos 4 ∷ pos 4 ∷ pos 1 ∷ [];
}

increments-is_end_example :
    (last : EdgeIter shelf names arrays single_rows) × (increments shelf names arrays single_rows 1
        (last_chunk (pos 0) (pos 1))
      ≡ ok last)
    × (is_end shelf names arrays single_rows last ≡ true)
unfolding graph_ar.EdgeInfo.new_edge_info
increments-is_end_example =
    increments-is_end shelf names arrays single_rows 0 (last_chunk (pos 0) (pos 1)) 2 0 0 1 1 2
      (record {
        positive = omega arith;
        size = refl;
        reader_size = refl;
        offset = refl;
        num = refl;
        chunks = refl;
        row = omega arith;
        bounded = omega arith;
        chunk = omega arith;
      })
      refl
      (record {
        not_full = omega arith;
        last_chunk = refl;
        vertex_chunk = refl;
        vertex_chunks = refl;
        ends = refl;
      })

increments-IsStuck_example :
    (last : EdgeIter shelf names arrays single_rows) × (increments shelf names arrays single_rows 5
        (last_chunk (pos 1) (pos 2))
      ≡ ok last)
    × (is_end shelf names arrays single_rows last ≡ false)
unfolding graph_ar.EdgeInfo.new_edge_info is_end
increments-IsStuck_example =
    increments-IsStuck shelf names arrays single_rows 5 (last_chunk (pos 1) (pos 2)) 2 1 2 1
      (record {
        positive = omega arith;
        reader_size = refl;
        offset = refl;
        counted = omega arith;
        num = refl;
        chunks = refl;
        last = omega arith;
      })
      refl
