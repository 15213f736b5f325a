-- ===== src/HighLevel/Labels/Rows.antt =====
-- The rows that `read_parquet_file_and_get_valid_indices` finds (label.cc).
use graph_ar.Base.{
  undefined, ℕ, zero, suc, ◌+◌, ◌*◌, ◌<◌, ◌≤◌, Bool, true, false, List, [], ◌∷◌, ◌++◌, Result, ok,
  err, ◌>>=◌, ◌≡◌, refl, ◌∙◌, ap, sym, arith, if◌then◌else◌, length, All, append_assoc, append_nil,
  length-append, if_false, if_true, ltb, get_elem?-append_length,
}
use graph_ar.Base.Text.{Text, to_string}
use graph_ar.Base.Int.{pos}
use graph_ar.Base.Assoc.{vector_at}
use graph_ar.HighLevel.Labels.{
  Parquet, write_batch, write_batches, read_column, read_columns, is_valid, valid_rows,
  valid_indices, are_distinct,
}

-- A value at a place of a list, false behind its end.
abbrev pub value_at : List Bool → ℕ → Bool
value_at [] i = false
value_at (b ∷ bs) zero = b
value_at (b ∷ bs) (suc i) = value_at bs i

-- All columns are true on a row.
abbrev pub holds : List (List Bool) → ℕ → Bool
holds [] i = true
holds (column ∷ columns) i = if value_at column i then holds columns i else false

-- The numbers among so many from `i` on that pass a test, moved by an offset.
abbrev pub rows_where : (ℕ → Bool) → ℕ → ℕ → ℕ → List ℕ
rows_where test zero i offset = []
rows_where test (suc rest) i offset =
    if test i
    then (i + offset) ∷ rows_where test rest (suc i) offset
    else rows_where test rest (suc i) offset

vector_at_value :
    (column : List Bool) (i : ℕ)
    → i < length column
    → vector_at column (pos i) ≡ ok (value_at column i)
unfolding vector_at
vector_at_value [] i h = absurd (omega arith)
vector_at_value (b ∷ bs) zero h = refl
vector_at_value (b ∷ bs) (suc i) h = vector_at_value bs i (omega arith)

is_valid_lem :
    (parquet : Parquet) (columns : List (List Bool)) (i : ℕ)
    → All (λ c. i < length c) columns
    → is_valid parquet i columns ≡ ok (holds columns i)
unfolding is_valid
is_valid_lem parquet [] i h = refl
is_valid_lem parquet (c ∷ cs) i (h, hs) =
    ground (arith, vector_at_value c i h, is_valid_lem parquet cs i hs)

valid_rows_lem :
    (parquet : Parquet) (columns : List (List Bool)) (rest i offset : ℕ)
    → ((j : ℕ) → j < i + rest → All (λ c. j < length c) columns)
    → valid_rows parquet rest i columns offset ≡ ok (rows_where (holds columns) rest i offset)
unfolding valid_rows
valid_rows_lem parquet columns zero i offset h = refl
valid_rows_lem parquet columns (suc rest) i offset h = ground (
  arith,
  is_valid_lem parquet columns i (h i (omega arith)),
  valid_rows_lem parquet columns rest (suc i) offset (λ j k. h j (omega arith)),
)

-- The values of batches, one after the other.
abbrev pub joined : List (List Bool) → List Bool
joined [] = []
joined (b ∷ bs) = b ++ joined bs

write_batches_lem :
    (n : ℕ) (values : List Bool) (batches : List (List Bool))
    → length values + length (joined batches) ≤ n
    → write_batches n values batches ≡ ok (values ++ joined batches)
unfolding write_batches write_batch
write_batches_lem n values [] h = ap ok (sym (append_nil values))
write_batches_lem n values (b ∷ bs) h =
    ap (λ v. v >>= λ next. write_batches n next bs)
      (if_false _ _ (ltb n (length values + length b))
        (ground (arith, h, length-append b (joined bs))))
    ∙ write_batches_lem n (values ++ b) bs
        (omega (arith, h, length-append b (joined bs), length-append values b))
    ∙ ap ok (append_assoc values b (joined bs))

module _ (parquet : Parquet) (path : Text) (batches : ℕ → ℕ → List (List Bool)) where
  -- The values of a column in so many row groups, from one on.
  abbrev pub column_values : ℕ → ℕ → ℕ → List Bool
  column_values column zero group = []
  column_values column (suc rest) group =
      joined (batches group column) ++ column_values column rest (suc group)

  -- The file has the batches of a column in the first so many row groups.
  abbrev pub HasBatches : ℕ → ℕ → Type 0
  HasBatches groups column =
      (group : ℕ) → group < groups → parquet.batches path group column ≡ ok (batches group column)

  read_column_lem :
      (groups column : ℕ)
      → HasBatches groups column
      → (n rest group : ℕ) (values : List Bool) → group + rest ≡ groups
      → length values + length (column_values column rest group) ≤ n
      → read_column parquet path n column rest group values
        ≡ ok (values ++ column_values column rest group)
  unfolding read_column
  read_column_lem groups column has n zero group values total h = ap ok (sym (append_nil values))
  read_column_lem groups column has n (suc rest) group values total h =
      let here = joined (batches group column) in
      let later = column_values column rest (suc group) in
      ap
        (λ v. v >>= λ found. write_batches n values found >>= λ next.
          read_column parquet path n column rest (suc group) next)
        (has group (omega (arith, total)))
      ∙ ap (λ v. v >>= λ next. read_column parquet path n column rest (suc group) next)
          (write_batches_lem n values (batches group column)
            (omega (arith, h, length-append here later)))
      ∙ read_column_lem groups column has n rest (suc group) (values ++ here) (omega (arith, total))
          (omega (arith, h, length-append here later, length-append values here))
      ∙ ap ok (append_assoc values here later)

  module _ (n groups num_columns : ℕ) where
    -- The columns of ids.
    abbrev pub columns_of : List ℕ → List (List Bool)
    columns_of [] = []
    columns_of (id ∷ ids) = column_values id groups 0 ∷ columns_of ids

    -- The file has each of the columns in all row groups, with as many values as the chunk has rows.
    abbrev pub HasRows : List ℕ → Type 0
    HasRows = All (λ id. HasBatches groups id × (length (column_values id groups 0) ≡ n))

    vector_at-length :
        (front : List ℕ) (id : ℕ) (back : List ℕ)
        → vector_at (front ++ id ∷ back) (pos (length front)) ≡ ok id
    unfolding vector_at
    vector_at-length front id back = rw (get_elem?-append_length front id back, vector_at) refl

    abbrev read_one : ℕ → ℕ → Result (List Bool)
    read_one k column =
        if ltb k num_columns then read_column parquet path n column groups 0 [] else err undefined

    abbrev others : List ℕ → List ℕ → ℕ → Result (List (List Bool))
    others all ids k = read_columns parquet path n groups num_columns all (length ids) (suc k)

    read_columns_lem :
        (all front ids : List ℕ) (k : ℕ)
        → all ≡ front ++ ids
        → k ≡ length front
        → k + length ids ≤ num_columns
        → HasRows ids
        → read_columns parquet path n groups num_columns all (length ids) k ≡ ok (columns_of ids)
    unfolding read_columns
    read_columns_lem all front [] k e f le rows = refl
    read_columns_lem all front (id ∷ ids) k e f le ((has, row), rows) =
        ap
          (λ v. v >>= λ column.
            read_one k column >>= λ values. others all ids k >>= λ rest. ok (values ∷ rest))
          (ap (λ xs. vector_at xs (pos k)) e
            ∙ ap (λ j. vector_at (front ++ id ∷ ids) (pos j)) f
            ∙ vector_at-length front id ids)
        ∙ ap (λ v. v >>= λ values. others all ids k >>= λ rest. ok (values ∷ rest))
            (if_true _ _ (ltb k num_columns) (ground (arith, le))
              ∙ read_column_lem groups id has n groups 0 [] (omega arith) (omega (arith, row)))
        ∙ ap (λ v. v >>= λ rest. ok (column_values id groups 0 ∷ rest))
            (read_columns_lem all (front ++ id ∷ []) ids (suc k)
              (e ∙ sym (append_assoc front (id ∷ []) ids))
              (omega (arith, f, length-append front (id ∷ []))) (omega (arith, le)) rows)

    long_columns :
        (ids : List ℕ) → HasRows ids → (j : ℕ) → j < n → All (λ c. j < length c) (columns_of ids)
    long_columns [] rows j h = tt
    long_columns (id ∷ ids) ((has, row), rows) j h =
        (omega (arith, row, h), long_columns ids rows j h)

    -- How many row groups and columns a label file of a chunk has.
    pub record IsStored : Type 0 where
      pub row_groups : parquet.row_groups path ≡ ok groups
      pub columns : parquet.num_columns path ≡ ok num_columns

abbrev read_rows : Parquet → Text → ℕ → ℕ → ℕ → List ℕ → Result (List (List Bool))
read_rows parquet path n groups num_columns ids =
    if are_distinct ids
    then read_columns parquet path n groups num_columns ids (length ids) 0
    else err undefined

-- For a label file that has, in its row groups and in whatever batches, a value for every row of the
-- chunk in the column of each label that is asked for, where these labels are distinct and no more than
-- the file has columns, the function gives the vertices of the chunk for which all of these labels are
-- true, in order.
pub valid_indices_lem :
    (parquet : Parquet) (filename : Text) (batches : ℕ → ℕ → List (List Bool))
    (n groups num_columns chunk_idx chunk_size : ℕ) (ids : List ℕ)
    → IsStored parquet (filename ++ to_string (pos chunk_idx)) batches n groups num_columns
    → are_distinct ids ≡ true
    → length ids ≤ num_columns
    → HasRows parquet (filename ++ to_string (pos chunk_idx)) batches n groups num_columns ids
    → valid_indices parquet filename n (length ids) ids chunk_idx chunk_size
      ≡ ok (
          rows_where
            (holds (
              columns_of parquet
                (filename ++ to_string (pos chunk_idx))
                batches
                n
                groups
                num_columns
                ids))
            n
            0
            (chunk_idx * chunk_size))
unfolding valid_indices
valid_indices_lem parquet filename batches n groups num_columns i size ids stored distinct le rows =
    let path = filename ++ to_string (pos i) in
    ap
      (λ v. v >>= λ g. parquet.num_columns path >>= λ m.
        read_rows parquet path n g m ids >>= λ columns. valid_rows parquet n 0 columns (i * size))
      stored.row_groups
    ∙ ap
        (λ v. v >>= λ m. read_rows parquet path n groups m ids >>= λ columns.
          valid_rows parquet n 0 columns (i * size))
        stored.columns
    ∙ ap (λ v. v >>= λ columns. valid_rows parquet n 0 columns (i * size))
        (if_true _ _ (are_distinct ids) distinct
          ∙ read_columns_lem parquet path batches n groups num_columns ids [] ids 0 refl refl
              (omega (arith, le)) rows)
    ∙ valid_rows_lem parquet (columns_of parquet path batches n groups num_columns ids) n 0
        (i * size)
        (λ j h.
          long_columns parquet path batches n groups num_columns ids rows j (omega (arith, h)))
