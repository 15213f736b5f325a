-- ===== src/HighLevel/Edges.antt =====
-- `EdgesCollection` and its four classes (high-level/graph_reader.h, graph_reader.cc).
pub mod Counts
pub mod Find
use graph_ar.Base.{
  ℕ, zero, suc, Bool, true, false, not, ◌&&◌, List, [], ◌∷◌, ◌++◌, Option, none, some, Result, ok,
  err, status, raised, invalid, key_error, ◌>>=◌, if◌then◌else◌, or_raise,
}
use graph_ar.Base.Text.{Text}
use graph_ar.Base.Int.{ℤ, pos, pos_part, ◌+ℤ◌, ◌==ℤ◌, leb_ℤ, ltb_ℤ}
use graph_ar.Types.{
  AdjListType, unordered_by_source, unordered_by_dest, ordered_by_source, ordered_by_dest, other,
  error_naming,
}
use graph_ar.EdgeInfo.{EdgeInfo}
use graph_ar.EdgeInfo
use graph_ar.GraphInfo.{GraphInfo, get_edge_info}
use graph_ar.Storage.{Storage}
use graph_ar.ReaderUtil.{get_edge_num, get_edge_chunk_num, get_edge_vertex_chunk_num}
use graph_ar.Reader.AdjList.{edge_or_key_error}
use graph_ar.Expression.{ArrowCompute}
use graph_ar.ChunkReader.{Rows}
use graph_ar.ChunkReader.Casts.{ArrowTables}
use graph_ar.HighLevel.EdgeIter.{EdgeIter, new_edge_iter, copied_iter}

-- What the constructor counts: the edge chunks of each vertex chunk, the range of edge chunks, and the
-- edges in it.
pub record Tally : Type 0 where
  pub edge_chunk_nums : List ℤ
  pub chunk_begin : ℤ
  pub chunk_end : ℤ
  pub edge_num : ℤ

-- `std::numeric_limits<int64_t>::max()`.
abbrev pub int64_max : ℤ
int64_max = pos 9_223_372_036_854_775_807

-- The number of a vertex chunk before the range; the numbers are put into a vector of zeros in order.
unfoldable pub add_before : ℤ → ℤ → ℤ → Tally → Tally
add_before begin i num t =
    let nums = t.edge_chunk_nums ++ num ∷ [] in
    if ltb_ℤ i begin
    then record t {
      edge_chunk_nums = nums;
      chunk_begin = t.chunk_begin +ℤ num;
      chunk_end = t.chunk_end +ℤ num;
    }
    else record t { edge_chunk_nums = nums }

-- The numbers of a vertex chunk in the range, for which alone the number of edges is read.
unfoldable pub add_counts : ℤ → ℤ → ℤ → ℤ → Result ℤ → Tally → Result Tally
add_counts begin end i num edges t =
    let added = add_before begin i num t in
    if leb_ℤ begin i && ltb_ℤ i end
    then (edges >>= λ count.
        ok (record added { chunk_end = added.chunk_end +ℤ num; edge_num = t.edge_num +ℤ count }))
    else ok added

module _ (storage : Storage) where
  -- The counts of one more vertex chunk.
  unfoldable pub tally_chunk : Text → EdgeInfo → AdjListType → ℤ → ℤ → ℤ → Tally → Result Tally
  tally_chunk prefix edge_info adj_list_type begin end i t = do
    num ← or_raise (get_edge_chunk_num storage prefix edge_info adj_list_type i)
    add_counts begin end i num (or_raise (get_edge_num storage prefix edge_info adj_list_type i)) t

  -- The loop over the vertex chunks from one on.
  unfoldable pub tally_chunks : Text → EdgeInfo → AdjListType → ℤ → ℤ → ℕ → ℕ → Tally → Result Tally
  tally_chunks prefix edge_info adj_list_type begin end zero i t = ok t
  tally_chunks prefix edge_info adj_list_type begin end (suc rest) i t = do
    next ← tally_chunk prefix edge_info adj_list_type begin end (pos i) t
    tally_chunks prefix edge_info adj_list_type begin end rest (suc i) next

  abbrev pub nothing : Tally
  nothing = record {
    edge_chunk_nums = [];
    chunk_begin = pos 0;
    chunk_end = pos 0;
    edge_num = pos 0;
  }

  -- The end of the range of vertex chunks: all of them if none is given.
  abbrev pub range_end : ℤ → ℤ → ℤ
  range_end vertex_chunk_end vertex_chunk_num =
      if vertex_chunk_end ==ℤ int64_max then vertex_chunk_num else vertex_chunk_end

  -- The counts of the constructor; a vector of a negative size throws.
  unfoldable pub tally : EdgeInfo → Text → ℤ → ℤ → AdjListType → Result Tally
  tally edge_info prefix vertex_chunk_begin vertex_chunk_end adj_list_type = do
    vertex_chunk_num ← or_raise (get_edge_vertex_chunk_num storage prefix edge_info adj_list_type)
    if ltb_ℤ vertex_chunk_num (pos 0)
        then err raised
        else tally_chunks prefix edge_info adj_list_type vertex_chunk_begin
            (range_end vertex_chunk_end vertex_chunk_num) (pos_part vertex_chunk_num) 0 nothing

module _ (storage : Storage) (arrow : ArrowCompute) (tables : ArrowTables storage arrow)
    (rows : Rows storage) where
  pub record EdgesCollection : Type 0 where
    pub edge_info : EdgeInfo
    pub prefix : Text
    pub adj_list_type : AdjListType
    pub counts : Tally
    pub kept_begin : Option (EdgeIter storage arrow tables rows)
    pub kept_end : Option (EdgeIter storage arrow tables rows)

  -- The constructor, and those of the four classes, which give the type of the list.
  unfoldable pub new_edges_collection :
      EdgeInfo → Text → ℤ → ℤ → AdjListType → Result EdgesCollection
  new_edges_collection edge_info prefix vertex_chunk_begin vertex_chunk_end adj_list_type = do
    counts ← tally storage edge_info prefix vertex_chunk_begin vertex_chunk_end adj_list_type
    ok (record {
      edge_info = edge_info;
      prefix = prefix;
      adj_list_type = adj_list_type;
      counts = counts;
      kept_begin = none;
      kept_end = none;
    })

  -- An iterator of the collection at an edge chunk and an offset.
  abbrev pub iter_at : EdgesCollection → ℤ → ℤ → Result (EdgeIter storage arrow tables rows)
  iter_at c index offset =
      new_edge_iter storage arrow tables rows c.edge_info c.prefix c.adj_list_type index offset
        c.counts.chunk_begin c.counts.chunk_end c.counts.edge_chunk_nums

  abbrev pub first_kept :
      Option (EdgeIter storage arrow tables rows)
      → Result (EdgeIter storage arrow tables rows)
      → Result (EdgeIter storage arrow tables rows)
  first_kept (some it) made = ok it
  first_kept none made = made >>= λ it. ok (copied_iter storage arrow tables rows it)

  -- `begin` and `end`: the iterator is made once, and copied.
  unfoldable pub begin :
      EdgesCollection → Result (EdgesCollection × EdgeIter storage arrow tables rows)
  begin c = do
    it ← first_kept c.kept_begin (iter_at c c.counts.chunk_begin (pos 0))
    ok (record c { kept_begin = some it }, copied_iter storage arrow tables rows it)

  unfoldable pub end :
      EdgesCollection → Result (EdgesCollection × EdgeIter storage arrow tables rows)
  end c = do
    it ← first_kept c.kept_end (iter_at c c.counts.chunk_end (pos 0))
    ok (record c { kept_end = some it }, copied_iter storage arrow tables rows it)

  -- `size`.
  abbrev pub size : EdgesCollection → ℤ
  size c = c.counts.edge_num

  -- The choice of the class in `Make`.
  unfoldable pub make_of_list : EdgeInfo → Text → ℤ → ℤ → AdjListType → Result EdgesCollection
  make_of_list e prefix begin end ordered_by_source =
      new_edges_collection e prefix begin end ordered_by_source
  make_of_list e prefix begin end ordered_by_dest =
      new_edges_collection e prefix begin end ordered_by_dest
  make_of_list e prefix begin end unordered_by_source =
      new_edges_collection e prefix begin end unordered_by_source
  make_of_list e prefix begin end unordered_by_dest =
      new_edges_collection e prefix begin end unordered_by_dest
  make_of_list e prefix begin end (other n) = err (status invalid)

  -- `Make`.
  unfoldable pub make :
      GraphInfo → Text → Text → Text → AdjListType → ℤ → ℤ → Result EdgesCollection
  make graph_info src_type edge_type dst_type adj_list_type vertex_chunk_begin vertex_chunk_end = do
    found ← get_edge_info graph_info src_type edge_type dst_type
    edge_info ← edge_or_key_error found
    if not (EdgeInfo.has_adjacent_list_type edge_info adj_list_type)
        then error_naming adj_list_type invalid
        else make_of_list edge_info graph_info.prefix vertex_chunk_begin vertex_chunk_end
            adj_list_type
