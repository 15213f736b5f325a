-- ===== src/ChunkWriter/Edge/Column.antt =====
-- The routine of `EdgeChunkWriter::getOffsetTable` over the chunks of a column
-- (arrow/chunk_writer.cc).
use graph_ar.Base.{
  ℕ, zero, suc, List, [], ◌∷◌, Option, none, some, Result, ok, err, undefined, ◌>>=◌, if◌then◌else◌,
}
use graph_ar.Base.Text.{Text, codes}
use graph_ar.Base.Int.{ℤ, pos, ◌+ℤ◌, leb_ℤ}
use graph_ar.Types.{
  AdjListType, unordered_by_source, unordered_by_dest, ordered_by_source, ordered_by_dest, other,
}

-- `getSortColumnName`.
abbrev pub get_sort_column_name : AdjListType → Text
get_sort_column_name unordered_by_source = codes "_graphArSrcIndex"
get_sort_column_name ordered_by_source = codes "_graphArSrcIndex"
get_sort_column_name unordered_by_dest = codes "_graphArDstIndex"
get_sort_column_name ordered_by_dest = codes "_graphArDstIndex"
get_sort_column_name (other n) = codes "_graphArSrcIndex"

-- The inner loop of `getOffsetTable` within one chunk of the column: null values, and values of at
-- most `i`, are passed.
unfoldable pub passed_ids : ℤ → ℕ → List (Option ℤ) → ℕ × List (Option ℤ)
passed_ids i g [] = (g, [])
passed_ids i g (none ∷ xs) = passed_ids i (suc g) xs
passed_ids i g (some x ∷ xs) =
    let rest = passed_ids i (suc g) xs in if leb_ℤ x i then rest else (g, some x ∷ xs)

-- The same through the chunks that follow; the first value of the next chunk is read unchecked.
unfoldable pub passed_chunks :
    ℤ
    → ℕ
    → List (Option ℤ)
    → List (List (Option ℤ))
    → Result (ℕ × List (Option ℤ) × List (List (Option ℤ)))
passed_chunks i g ids [] = let (next, rest) = passed_ids i g ids in ok (next, rest, [])
passed_chunks i g ids (c ∷ cs) =
    let (next, rest) = passed_ids i g ids in
    elim rest [
      | x ∷ xs ↦ ok (next, x ∷ xs, c ∷ cs)
      | [] ↦ elim c [ [] ↦ err undefined | y ∷ ys ↦ passed_chunks i next (y ∷ ys) cs ]
    ]

-- The loop over the vertices of the chunk.
unfoldable pub chunked_offsets :
    ℕ → ℤ → ℕ → List (Option ℤ) → List (List (Option ℤ)) → Result (List ℕ)
chunked_offsets zero i g ids cs = ok []
chunked_offsets (suc n) i g ids cs = do
  (next, rest, more) ← passed_chunks i g ids cs
  others ← chunked_offsets n (i +ℤ pos 1) next rest more
  ok (next ∷ others)

-- A column without chunks has no first chunk to read.
abbrev pub first_chunk : List (List (Option ℤ)) → Result (List (Option ℤ) × List (List (Option ℤ)))
first_chunk [] = err undefined
first_chunk (c ∷ cs) = ok (c, cs)
