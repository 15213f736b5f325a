-- ===== src/HighLevel/EdgeIter/First.antt =====
-- `first_src`, `first_dst`, `next_src` and `next_dst` of `EdgeIter` (high-level/graph_reader.h,
-- graph_reader.cc). The functions for destinations are those for sources with the columns, the sizes
-- and the types of lists exchanged. A loop runs on fuel; `none` if that runs out, as it does if the
-- iterator never comes to its end.
use graph_ar.Base.{
  ℕ, zero, suc, Bool, true, false, ◌&&◌, ◌||◌, Option, none, some, Result, ok, err, status, ◌>>=◌,
  if◌then◌else◌, deref,
}
use graph_ar.Base.Int.{ℤ, pos, ◌==ℤ◌, leb_ℤ, ltb_ℤ}
use graph_ar.Base.Assoc.{vector_at}
use graph_ar.Types.{
  AdjListType, unordered_by_source, unordered_by_dest, ordered_by_source, ordered_by_dest, other,
}
use graph_ar.Storage.{Storage}
use graph_ar.Converter.{index_pair_to_global_chunk_index}
use graph_ar.ReaderUtil.{quotient}
use graph_ar.Expression.{ArrowCompute}
use graph_ar.ChunkReader.{Rows}
use graph_ar.ChunkReader.Casts.{ArrowTables}
use graph_ar.ChunkReader.Offset.{OffsetChunkReader, offset_seek, offset_get_chunk}
use graph_ar.HighLevel.{returned, is_ok}
use graph_ar.HighLevel.EdgeIter.{EdgeIter, end_point, increment, is_end, refresh, to_begin}

-- The end of an edge that is looked for.
pub data Side : Type 0 where
  by_src by_dst : Side

abbrev pub column_of : Side → ℤ
column_of by_src = pos 0
column_of by_dst = pos 1

-- How a list is searched for the edges of a vertex: edge by edge, within a vertex chunk, or by the
-- offsets.
pub data Search : Type 0 where
  every_edge vertex_chunk offsets : Search

abbrev pub search_of : Side → AdjListType → Search
search_of by_src ordered_by_dest = every_edge
search_of by_src unordered_by_dest = every_edge
search_of by_src unordered_by_source = vertex_chunk
search_of by_src ordered_by_source = offsets
search_of by_src (other n) = offsets
search_of by_dst ordered_by_source = every_edge
search_of by_dst unordered_by_source = every_edge
search_of by_dst unordered_by_dest = vertex_chunk
search_of by_dst ordered_by_dest = offsets
search_of by_dst (other n) = offsets

-- The lists in which the edges of a vertex stand one after the other.
abbrev pub is_sorted : Side → AdjListType → Bool
is_sorted by_src ordered_by_source = true
is_sorted by_src ordered_by_dest = false
is_sorted by_src unordered_by_source = false
is_sorted by_src unordered_by_dest = false
is_sorted by_src (other n) = false
is_sorted by_dst ordered_by_dest = true
is_sorted by_dst ordered_by_source = false
is_sorted by_dst unordered_by_source = false
is_sorted by_dst unordered_by_dest = false
is_sorted by_dst (other n) = false

module _ (storage : Storage) (arrow : ArrowCompute) (tables : ArrowTables storage arrow)
    (rows : Rows storage) where
  abbrev pub Iter : Type 0
  Iter = EdgeIter storage arrow tables rows

  -- The iterator that a search leaves, and whether it found an edge.
  abbrev pub Found : Type 0
  Found = Result (Iter × Bool)

  abbrev pub side_size : Side → Iter → ℤ
  side_size by_src it = it.src_chunk_size
  side_size by_dst it = it.dst_chunk_size

  -- The loops: to the next edge with an end `id`; `stop` ends a loop after an edge without it.
  unfoldable pub scan : Side → (Iter → Bool) → ℤ → ℕ → Iter → Option Found
  scan side stop id zero it = none
  scan side stop id (suc fuel) it = elim (is_end storage arrow tables rows it) [
    | true ↦ some (ok (it, false))
    | false ↦ elim (end_point storage arrow tables rows (column_of side) it) [
      | err e ↦ some (err e)
      | ok edge ↦ elim (edge.1 ==ℤ id) [
        | true ↦ some (ok (edge.0, true))
        | false ↦ elim (stop edge.0) [
          | true ↦ some (ok (edge.0, false))
          | false ↦ elim (increment storage arrow tables rows edge.0) [
            | err e ↦ some (err e)
            | ok next ↦ scan side stop id fuel next
          ]
        ]
      ]
    ]
  ]

  abbrev pub never : Iter → Bool
  never it = false

  -- The loop after a step that may fail.
  abbrev pub scan_from : Side → (Iter → Bool) → ℤ → ℕ → Result Iter → Option Found
  scan_from side stop id fuel (ok it) = scan side stop id fuel it
  scan_from side stop id fuel (err e) = some (err e)

  -- The place of another iterator.
  abbrev pub placed_as : Iter → Iter → Iter
  placed_as it from = record it {
    global_chunk_index = from.global_chunk_index;
    cur_offset = from.cur_offset;
    vertex_chunk_index = from.vertex_chunk_index;
  }

  -- The iterator at the place of `from`, and whether its readers have to follow.
  unfoldable pub start_at : Iter → Iter → Result (Iter × Bool)
  start_at it from =
      if from.global_chunk_index ==ℤ it.global_chunk_index
      then ok (record it { cur_offset = from.cur_offset }, false)
      else if ltb_ℤ from.global_chunk_index it.chunk_begin
      then (to_begin storage arrow tables rows it >>= λ begun. ok (begun, false))
      else ok (placed_as it from, true)

  abbrev pub refreshed : Iter × Bool → Result Iter
  refreshed (it, true) = refresh storage arrow tables rows it
  refreshed (it, false) = ok it

  -- In a list of the other end: edge by edge from the place of `from`.
  unfoldable pub first_of_every : Side → ℕ → Iter → Iter → ℤ → Option Found
  first_of_every side fuel it from id =
      if leb_ℤ it.chunk_end from.global_chunk_index
      then some (ok (it, false))
      else scan_from side never id fuel (start_at it from >>= refreshed)

  -- The jump to the first edge chunk of the vertex chunk, if the iterator is before it.
  unfoldable pub jump : ℤ → ℤ → Iter × Bool → Iter × Bool
  jump expected i (it, stale) =
      if ltb_ℤ it.global_chunk_index expected
      then (
        record it { global_chunk_index = expected; cur_offset = pos 0; vertex_chunk_index = i },
        true,
      )
      else (it, stale)

  -- In an unordered list of this end: edge by edge, up to the end of the vertex chunk.
  unfoldable pub first_in_chunk : Side → ℕ → Iter → Iter → ℤ → ℤ → ℤ → Option Found
  first_in_chunk side fuel it from id i expected =
      if ltb_ℤ it.chunk_end expected || leb_ℤ it.chunk_end from.global_chunk_index
      then some (ok (it, false))
      else scan_from side (λ k. ltb_ℤ i k.vertex_chunk_index) id fuel
          (start_at it from >>= λ started. refreshed (jump expected i started))

  -- The two offsets of the vertex, and the index of its chunk; without them the search fails.
  unfoldable pub offsets_of : OffsetChunkReader storage → ℤ → Result (Option (ℤ × ℤ × ℤ))
  offsets_of r id = do
    (sought, st) ← returned (offset_seek storage r id)
    elim (is_ok st) [
      | false ↦ ok none
      | true ↦ elim (offset_get_chunk storage rows sought).1 [
        | err (status c) ↦ ok none
        | err e ↦ err e
        | ok values ↦ (do
          begin ← vector_at values (pos 0)
          end ← vector_at values (pos 1)
          ok (some (begin, end, sought.chunk_index)))
      ]
    ]

  -- The iterator at a place, with its readers.
  abbrev pub found_at : Iter → Found
  found_at it = refresh storage arrow tables rows it >>= λ found. ok (found, true)

  abbrev pub found_begin : Iter → ℤ → ℤ → ℤ → Found
  found_begin it index begin i =
      found_at
        (record it { global_chunk_index = index; cur_offset = begin; vertex_chunk_index = i })

  -- The iterator at the first of the edges of the vertex that is not before `from`.
  unfoldable pub choose : Iter → Iter → ℤ → ℤ → ℤ → ℤ → ℤ → Found
  choose it from begin end i begin_index end_index =
      if leb_ℤ begin_index from.global_chunk_index && leb_ℤ from.global_chunk_index end_index
      then (if ltb_ℤ begin from.cur_offset && ltb_ℤ from.cur_offset end
          then found_at (placed_as it from)
          else if leb_ℤ from.cur_offset begin
          then found_begin it begin_index begin i
          else ok (it, false))
      else if ltb_ℤ from.global_chunk_index begin_index
      then found_begin it begin_index begin i
      else ok (it, false)

  unfoldable pub enter_range : Iter → Iter → ℤ → ℤ → ℤ → Found
  enter_range it from begin end i = do
    begin_chunk ← quotient begin it.chunk_size
    end_chunk ← quotient end it.chunk_size
    begin_index ← index_pair_to_global_chunk_index it.edge_chunk_nums i begin_chunk
    end_index ← index_pair_to_global_chunk_index it.edge_chunk_nums i end_chunk
    choose it from begin end i begin_index end_index

  -- In an ordered list of this end: by the offsets.
  unfoldable pub first_by_offsets : Iter → Iter → ℤ → Found
  first_by_offsets it from id = do
    reader ← deref it.offset_reader
    found ← offsets_of reader id
    elim found [
      | none ↦ ok (it, false)
      | some (begin, end, i) ↦
          if leb_ℤ end begin then ok (it, false) else enter_range it from begin end i
    ]

  -- The vertex chunk of a vertex, and the index of its first edge chunk.
  abbrev pub expected_chunk : Side → Iter → ℤ → Result (ℤ × ℤ)
  expected_chunk side it id = do
    i ← quotient id (side_size side it)
    expected ← index_pair_to_global_chunk_index it.edge_chunk_nums i (pos 0)
    ok (i, expected)

  abbrev pub in_chunk_from : Side → ℕ → Iter → Iter → ℤ → Result (ℤ × ℤ) → Option Found
  in_chunk_from side fuel it from id (err e) = some (err e)
  in_chunk_from side fuel it from id (ok (i, expected)) =
      first_in_chunk side fuel it from id i expected

  -- `first_src` and `first_dst`.
  unfoldable pub first : Side → ℕ → Iter → Iter → ℤ → Option Found
  first side fuel it from id = elim (is_end storage arrow tables rows from) [
    | true ↦ some (ok (it, false))
    | false ↦ elim (search_of side it.adj_list_type) [
      | every_edge ↦ first_of_every side fuel it from id
      | vertex_chunk ↦ in_chunk_from side fuel it from id (expected_chunk side it id)
      | offsets ↦ some (first_by_offsets it from id)
    ]
  ]

  -- The edge after the next, of the same end.
  unfoldable pub same_after : Side → ℤ → Result Iter → Found
  same_after side id (err e) = err e
  same_after side id (ok it) = elim (is_end storage arrow tables rows it) [
    | true ↦ ok (it, false)
    | false ↦ end_point storage arrow tables rows (column_of side) it >>= λ edge.
        ok (edge.0, edge.1 ==ℤ id)
  ]

  abbrev pub passes : ℤ → Search → Iter → Bool
  passes before every_edge it = false
  passes before vertex_chunk it = ltb_ℤ before it.vertex_chunk_index
  passes before offsets it = false

  abbrev pub next_of : Side → ℕ → ℤ → Result (Iter × ℤ) → Option Found
  next_of side fuel before (err e) = some (err e)
  next_of side fuel before (ok (it, id)) = elim (is_sorted side it.adj_list_type) [
    | true ↦ some (same_after side id (increment storage arrow tables rows it))
    | false ↦
        scan_from side (passes before (search_of side it.adj_list_type)) id fuel
          (increment storage arrow tables rows it)
  ]

  -- `next_src()` and `next_dst()`.
  unfoldable pub next : Side → ℕ → Iter → Option Found
  next side fuel it = elim (is_end storage arrow tables rows it) [
    | true ↦ some (ok (it, false))
    | false ↦
        next_of side fuel it.vertex_chunk_index
          (end_point storage arrow tables rows (column_of side) it)
  ]

  abbrev pub first_after : Side → ℕ → ℤ → Result Iter → Option Found
  first_after side fuel id (err e) = some (err e)
  first_after side fuel id (ok it) = first side fuel it it id

  -- `next_src` and `next_dst` of a vertex.
  unfoldable pub next_with : Side → ℕ → Iter → ℤ → Option Found
  next_with side fuel it id = elim (is_end storage arrow tables rows it) [
    | true ↦ some (ok (it, false))
    | false ↦ first_after side fuel id (increment storage arrow tables rows it)
  ]
