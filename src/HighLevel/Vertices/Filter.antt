-- ===== src/HighLevel/Vertices/Filter.antt =====
-- `filter` of `VerticesCollection` for labels (high-level/graph_reader.cc).
use graph_ar.Base.{
  ℕ, zero, suc, ◌+◌, ◌-◌, ◌*◌, ◌<◌, ◌≤◌, Bool, true, false, List, [], ◌++◌, ok, ◌≡◌, ◌∙◌, ap, sym,
  arith, length, ltb, if_false, if_true, Bool-cases, inl, inr,
}
use graph_ar.Base.Text.{Text, codes, to_string}
use graph_ar.Base.Int.{pos, ◌/ℤ◌, ◌+ℤ◌, ltb_ℤ}
use graph_ar.Storage.{Storage}
use graph_ar.HighLevel.Labels.{Parquet, valid_indices, are_distinct}
use graph_ar.HighLevel.Labels.Rows.{holds, IsStored, HasRows, columns_of, valid_indices_lem}
use graph_ar.HighLevel.Vertices.{
  VerticesCollection, filter_chunk, filter_all, filter_rows, rows_of_chunk, to_int,
  tested_label_ids, filter_labels,
}
use graph_ar.HighLevel.Vertices.Passing.{
  chunks_passing, chunks_passing-behind, passing, zero_add, rows_where-passing, rows_where_cong,
  none_left, rows_in, to_int_small, bitmap_fits, start_small, left_small, zero_times, minus_zero,
  suc_times, chunk_passing,
}

module _ (parquet : Parquet) (path : Text) (size total : ℕ) (ids : List ℕ) (f : ℕ → Bool) where
  -- Every chunk of vertices has a label file, in which the labels that are asked for have a value for
  -- each row; all of them are true on the rows of the vertices that pass the test.
  pub record IsLabelled (groups : ℕ → ℕ) (num_columns : ℕ) (batches : ℕ → ℕ → ℕ → List (List Bool))
      : Type 0 where
    pub positive : 0 < size
    pub distinct : are_distinct ids ≡ true
    pub known : length ids ≤ num_columns
    pub stored :
        (i : ℕ)
        → i * size < total
        → IsStored parquet
            (path ++ to_string (pos i))
            (batches i)
            (rows_in size total i)
            (groups i)
            num_columns
    pub rows :
        (i : ℕ)
        → i * size < total
        → HasRows parquet
            (path ++ to_string (pos i))
            (batches i)
            (rows_in size total i)
            (groups i)
            num_columns
            ids
    pub holding :
        (i r : ℕ)
        → r < rows_in size total i
        → holds
            (columns_of parquet
              (path ++ to_string (pos i))
              (batches i)
              (rows_in size total i)
              (groups i)
              num_columns
              ids)
            r
          ≡ f (r + i * size)

  module _ (groups : ℕ → ℕ) (num_columns : ℕ) (batches : ℕ → ℕ → ℕ → List (List Bool)) where
    chunk_read :
        IsLabelled groups num_columns batches
        → (i : ℕ) → i * size < total
        → valid_indices parquet path (rows_in size total i) (length ids) ids i size
          ≡ ok (passing f (rows_in size total i) (i * size))
    chunk_read at i h =
        let n = rows_in size total i in
        valid_indices_lem parquet path (batches i) n (groups i) num_columns i size ids
          (at.stored i h) at.distinct at.known (at.rows i h)
        ∙ ap ok (
            rows_where_cong _ (λ r. f (r + i * size)) n 0 (i * size)
              (λ r low high. at.holding i r (omega (arith, high)))
            ∙ rows_where-passing f n 0 (i * size)
            ∙ ap (passing f n) (zero_add (i * size)))

    filter_chunk_lem :
        IsLabelled groups num_columns batches
        → size + total < 2_147_483_648
        → (i : ℕ) → i * size < total
        → filter_chunk parquet path (pos size) (pos total) (length ids) ids i
          ≡ ok (passing f (rows_in size total i) (i * size))
    unfolding filter_chunk rows_of_chunk
    filter_chunk_lem at small i h =
        rw
          (
            start_small i size (omega (arith, h, small)),
            left_small total (i * size) h (omega (arith, small)),
          )
          (chunk_read at i h)

    -- The loop over all chunks from one on.
    filter_from :
        IsLabelled groups num_columns batches
        → size + total < 2_147_483_648
        → (fuel i : ℕ) → total ≤ i * size + fuel
        → i * size < size + total
        → filter_all parquet path (pos size) (pos total) (length ids) ids fuel i
          ≡ ok (passing f (total - i * size) (i * size), chunks_passing f size total fuel i)
    unfolding filter_all
    filter_from at small zero i h near = rw (start_small i size (omega (arith, near, small))) (
        if_false _ _ (ltb (i * size + 0) (total + 0)) (ground (arith, h))
        ∙ ap (λ l. ok (l, [])) (sym (none_left f total (i * size) (ground (arith, h)))))
    filter_from at small (suc fuel) i h near = elim (Bool-cases (ltb (i * size) total)) [
      | inr done ↦ rw (start_small i size (omega (arith, near, small))) (
          if_false _ _ (ltb (i * size + 0) (total + 0)) (ground (arith, done))
          ∙ ap (λ l. ok (l, [])) (sym (none_left f total (i * size) done))
          ∙ ap (λ l. ok (passing f (total - i * size) (i * size), l))
              (sym (chunks_passing-behind f size total (suc fuel) i done)))
      | inl more ↦
          let before : i * size < total = ground (arith, more) in
          let here = passing f (rows_in size total i) (i * size) in
          let kept = chunks_passing f size total (suc fuel) i in
          rw
            (
              start_small i size (omega (arith, near, small)),
              filter_chunk_lem at small i before,
              filter_from at small fuel (suc i) (omega (arith, h, at.positive))
                  (omega (arith, before)),
            )
            (if_true _ _ (ltb (i * size + 0) (total + 0)) (ground (arith, more))
              ∙ ap (λ l. ok (l, kept))
                  (ap (λ n. here ++ passing f (total - n) n) (suc_times i size)
                    ∙ chunk_passing f size total (i * size)))
    ]

-- The path of the label files of a collection, up to the number of the chunk.
abbrev pub label_path : VerticesCollection → Text
label_path c = c.prefix ++ c.vertex_info.prefix ++ codes "labels/chunk"

-- For a collection that is not filtered, whose chunk size is positive and together with the number of
-- vertices below 2 ^ 31, with a label file for each chunk that has, in the columns of the labels that are
-- asked for, a value for every row, and for distinct names that are all labels of the type, at least one
-- and no more than a file has columns, the filter gives all vertices of the type for which each of these
-- labels is true, in order and once each, and the chunks that have such a vertex.
pub filter_labels_lem :
    (storage : Storage) (parquet : Parquet) (c : VerticesCollection) (names : List Text)
    (size total num_columns : ℕ) (f : ℕ → Bool) (groups : ℕ → ℕ)
    (batches : ℕ → ℕ → ℕ → List (List Bool))
    → c.is_filtered ≡ false
    → c.vertex_info.chunk_size ≡ pos size
    → c.vertex_num ≡ pos total
    → size + total < 2_147_483_648
    → 0 < length names
    → length (tested_label_ids c.labels names) ≡ length names
    → IsLabelled parquet
        (label_path c)
        size
        total
        (tested_label_ids c.labels names)
        f
        groups
        num_columns
        batches
    → filter_labels storage parquet c names
      ≡ ok (passing f total 0, chunks_passing f size total total 0)
unfolding filter_labels filter_rows
filter_labels_lem storage parquet c names size total num_columns f groups batches unfiltered
      chunk_size vertex_num small some_names all_known at =
    let ids = tested_label_ids c.labels names in
    let path = label_path c in
    let chunks = chunks_passing f size total total 0 in
    if_true _ _ (ltb 0 (length ids)) (ground (arith, some_names, all_known))
    ∙ ap (λ z. filter_rows storage parquet c z (to_int c.vertex_num) (length names) ids)
        (ap to_int chunk_size ∙ to_int_small size (omega (arith, small)))
    ∙ ap (λ z. filter_rows storage parquet c (pos size) z (length names) ids)
        (ap to_int vertex_num ∙ to_int_small total (omega (arith, small)))
    ∙ if_false _ _ (ltb_ℤ (pos total /ℤ pos 64 +ℤ pos 1) (pos 0)) (bitmap_fits total)
    ∙ if_false _ _ c.is_filtered unfiltered
    ∙ ap (λ n. filter_all parquet path (pos size) (pos total) n ids total 0) (sym all_known)
    ∙ filter_from parquet path size total ids f groups num_columns batches at small total 0
        (omega arith) (omega (arith, at.positive))
    ∙ ap (λ n. ok (passing f (total - n) n, chunks)) (zero_times size)
    ∙ ap (λ n. ok (passing f n 0, chunks)) (minus_zero total)
