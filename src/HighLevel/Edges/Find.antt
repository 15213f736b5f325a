-- ===== src/HighLevel/Edges/Find.antt =====
-- `find_src` and `find_dst` of the four classes of edge collections (high-level/graph_reader.h).
use graph_ar.Base.{
  raised, undefined, ℕ, zero, suc, Bool, true, false, Option, none, some, Result, ok, err, status,
  ◌>>=◌, if◌then◌else◌,
}
use graph_ar.Base.Int.{ℤ, ◌==ℤ◌, leb_ℤ, ltb_ℤ}
use graph_ar.Types.{
  AdjListType, unordered_by_source, unordered_by_dest, ordered_by_source, ordered_by_dest, other,
}
use graph_ar.EdgeInfo.{EdgeInfo}
use graph_ar.Storage.{Storage}
use graph_ar.Converter.{index_pair_to_global_chunk_index}
use graph_ar.ReaderUtil.{quotient, get_adj_list_offset_of_vertex}
use graph_ar.Expression.{ArrowCompute}
use graph_ar.ChunkReader.{Rows}
use graph_ar.ChunkReader.Casts.{ArrowTables}
use graph_ar.HighLevel.EdgeIter.{EdgeIter, increment, same_place, copied_iter}
use graph_ar.HighLevel.EdgeIter.Deref.{Edge, dereference}
use graph_ar.HighLevel.EdgeIter.First.{Side, by_src, by_dst}
use graph_ar.HighLevel.Edges.{EdgesCollection, iter_at, end}

-- Whether a class finds the edges of an end by the offsets.
abbrev pub by_offsets : Side → AdjListType → Bool
by_offsets by_src ordered_by_source = true
by_offsets by_src ordered_by_dest = false
by_offsets by_src unordered_by_source = false
by_offsets by_src unordered_by_dest = false
by_offsets by_src (other n) = false
by_offsets by_dst ordered_by_dest = true
by_offsets by_dst ordered_by_source = false
by_offsets by_dst unordered_by_source = false
by_offsets by_dst unordered_by_dest = false
by_offsets by_dst (other n) = false

abbrev pub chunk_size_of : Side → EdgeInfo → ℤ
chunk_size_of by_src e = e.src_chunk_size
chunk_size_of by_dst e = e.dst_chunk_size

-- The test on the first offset, which the two ordered classes write differently.
abbrev pub begins_behind : Side → ℤ → ℤ → Bool
begins_behind by_src begin cur = ltb_ℤ cur begin
begins_behind by_dst begin cur = leb_ℤ cur begin

module _ (storage : Storage) (arrow : ArrowCompute) (tables : ArrowTables storage arrow)
    (rows : Rows storage) where
  abbrev pub Iter : Type 0
  Iter = EdgeIter storage arrow tables rows

  abbrev pub Edges : Type 0
  Edges = EdgesCollection storage arrow tables rows

  abbrev pub end_iter : Edges → Result Iter
  end_iter c = end storage arrow tables rows c >>= λ found. ok found.1

  -- The place that an ordered class chooses: an edge chunk and an offset, or the end.
  unfoldable pub choose_place : Side → ℤ → ℤ → ℤ → ℤ → ℤ → ℤ → Option (ℤ × ℤ)
  choose_place side begin end begin_index end_index from_index from_offset =
      if ltb_ℤ from_index begin_index
      then some (begin_index, begin)
      else if ltb_ℤ end_index from_index
      then none
      else if begins_behind side begin from_offset
      then some (begin_index, begin)
      else if leb_ℤ end from_offset
      then none
      else some (from_index, from_offset)

  abbrev pub iter_or_end : Edges → Option (ℤ × ℤ) → Result Iter
  iter_or_end c none = end_iter c
  iter_or_end c (some (index, offset)) = iter_at storage arrow tables rows c index offset

  unfoldable pub find_in_range : Side → Edges → ℤ → Iter → ℤ → ℤ → Result Iter
  find_in_range side c id from first last = do
    i ← quotient id (chunk_size_of side c.edge_info)
    begin_chunk ← quotient first c.edge_info.chunk_size
    end_chunk ← quotient last c.edge_info.chunk_size
    begin_index ← index_pair_to_global_chunk_index c.counts.edge_chunk_nums i begin_chunk
    end_index ← index_pair_to_global_chunk_index c.counts.edge_chunk_nums i end_chunk
    iter_or_end c
        (choose_place side first last begin_index end_index from.global_chunk_index from.cur_offset)

  abbrev pub find_from_offsets : Side → Edges → ℤ → Iter → Result (ℤ × ℤ) → Result Iter
  find_from_offsets side c id from (ok (first, last)) =
      if leb_ℤ last first then end_iter c else find_in_range side c id from first last
  find_from_offsets side c id from (err (status s)) = end_iter c
  find_from_offsets side c id from (err raised) = err raised
  find_from_offsets side c id from (err undefined) = err undefined

  -- By the offsets: `find_src` of `OBSEdgeCollection`, `find_dst` of `OBDEdgesCollection`.
  unfoldable pub find_by_offsets : Side → Edges → ℤ → Iter → Result Iter
  find_by_offsets side c id from =
      find_from_offsets side c id from
        (get_adj_list_offset_of_vertex storage c.edge_info c.prefix c.adj_list_type id)

  abbrev pub end_of : Side → Edge storage arrow tables rows → ℤ
  end_of by_src edge = edge.src_id
  end_of by_dst edge = edge.dst_id

  -- The loop of the other functions, up to an iterator; on fuel, `none` if that runs out.
  unfoldable pub search : Side → ℤ → Iter → ℕ → Iter → Option (Result Iter)
  search side id last zero it = none
  search side id last (suc fuel) it = elim (same_place storage arrow tables rows it last) [
    | true ↦ some (ok it)
    | false ↦ elim (dereference storage arrow tables rows it) [
      | err e ↦ some (err e)
      | ok edge ↦ elim (end_of side edge.1 ==ℤ id) [
        | true ↦ some (ok edge.0)
        | false ↦ elim (increment storage arrow tables rows edge.0) [
          | err e ↦ some (err e)
          | ok next ↦ search side id last fuel next
        ]
      ]
    ]
  ]

  abbrev pub search_to : Side → ℤ → ℕ → Iter → Result Iter → Option (Result Iter)
  search_to side id fuel it (err e) = some (err e)
  search_to side id fuel it (ok last) = search side id last fuel it

  -- `find_src` and `find_dst`.
  unfoldable pub find : Side → ℕ → Edges → ℤ → Iter → Option (Result Iter)
  find side fuel c id from = elim (by_offsets side c.adj_list_type) [
    | true ↦ some (find_by_offsets side c id from)
    | false ↦ search_to side id fuel (copied_iter storage arrow tables rows from) (end_iter c)
  ]
