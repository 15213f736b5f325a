-- ===== src/HighLevel/Labels.antt =====
-- `read_parquet_file_and_get_valid_indices` (label.cc): the rows of a label file on which all the
-- labels that are asked for hold. `IsValid` is the function of graph_reader.cc that it is called with.
-- `tot_label_num`, the size of the array of states, is taken to be no smaller than the number of labels
-- that are asked for, as it is for distinct labels of the type.
pub mod Rows
use graph_ar.Base.{
  ◌==◌, ◌*◌, ℕ, zero, suc, ◌+◌, Bool, true, false, List, [], ◌∷◌, ◌++◌, Option, none, some, Result,
  ok, err, raised, undefined, ◌>>=◌, if◌then◌else◌, length, take, drop, get_elem?, ltb,
}
use graph_ar.Base.Text.{Text, to_string}
use graph_ar.Base.Int.{ℤ, pos, ◌+ℤ◌, ◌*ℤ◌}
use graph_ar.Base.Assoc.{vector_at}

-- What is asked of Parquet: for each row group of a file, the values of a column, batch by batch, as
-- `ReadBatch` gives them. A file that can not be opened, or a column that it lacks, throws.
pub record Parquet : Type 0 where
  pub row_groups : Text → Result ℕ
  pub num_columns : Text → Result ℕ
  pub batches : Text → ℕ → ℕ → Result (List (List Bool))

-- The values of a column in memory: so many places, filled from the front. A write behind the end is
-- undefined.
unfoldable pub write_batch : ℕ → List Bool → List Bool → Result (List Bool)
write_batch row_num values batch =
    if ltb row_num (length values + length batch) then err undefined else ok (values ++ batch)

unfoldable pub write_batches : ℕ → List Bool → List (List Bool) → Result (List Bool)
write_batches row_num values [] = ok values
write_batches row_num values (batch ∷ batches) = do
  next ← write_batch row_num values batch
  write_batches row_num next batches

unfoldable pub is_among : ℕ → List ℕ → Bool
is_among x [] = false
is_among x (y ∷ ys) = let rest = is_among x ys in if x == y then true else rest

unfoldable pub are_distinct : List ℕ → Bool
are_distinct [] = true
are_distinct (x ∷ xs) = let rest = are_distinct xs in if is_among x xs then false else rest

module _ (parquet : Parquet) where
  -- The loop over the row groups, for one of the columns.
  unfoldable pub read_column : Text → ℕ → ℕ → ℕ → ℕ → List Bool → Result (List Bool)
  read_column path row_num column zero group values = ok values
  read_column path row_num column (suc rest) group values = do
    batches ← parquet.batches path group column
    next ← write_batches row_num values batches
    read_column path row_num column rest (suc group) next

  -- The columns of the first so many of the labels that are asked for; the ids of columns and the
  -- rows of memory are read unchecked.
  unfoldable pub read_columns : Text → ℕ → ℕ → ℕ → List ℕ → ℕ → ℕ → Result (List (List Bool))
  read_columns path row_num groups num_columns ids zero k = ok []
  read_columns path row_num groups num_columns ids (suc rest) k = do
    column ← vector_at ids (pos k)
    values ←
        (if ltb k num_columns then read_column path row_num column groups 0 [] else err undefined)
    others ← read_columns path row_num groups num_columns ids rest (suc k)
    ok (values ∷ others)

  -- The states of the labels on a row, and whether all hold: `IsValid`. A place that was not written
  -- is undefined.
  unfoldable pub is_valid : ℕ → List (List Bool) → Result Bool
  is_valid i [] = ok true
  is_valid i (values ∷ columns) = do
    state ← vector_at values (pos i)
    rest ← is_valid i columns
    ok (if state then rest else false)

  -- The loop over the rows of the chunk: the rows on which all labels hold, with their offset.
  unfoldable pub valid_rows : ℕ → ℕ → List (List Bool) → ℕ → Result (List ℕ)
  valid_rows zero i columns offset = ok []
  valid_rows (suc rest) i columns offset = do
    valid ← is_valid i columns
    others ← valid_rows rest (suc i) columns offset
    ok (if valid then (i + offset) ∷ others else others)

  -- The whole function, for the indices. A column that is asked for twice is written behind its place,
  -- and its first rows are read without having been written.
  unfoldable pub valid_indices : Text → ℕ → ℕ → List ℕ → ℕ → ℕ → Result (List ℕ)
  valid_indices filename row_num tested_label_num tested_label_ids chunk_idx chunk_size = do
    let path = filename ++ to_string (pos chunk_idx)
    groups ← parquet.row_groups path
    num_columns ← parquet.num_columns path
    columns ←
        (if are_distinct tested_label_ids
          then read_columns path row_num groups num_columns tested_label_ids tested_label_num 0
          else err undefined)
    valid_rows row_num 0 columns (chunk_idx * chunk_size)
