-- ===== src/ChunkReader/Cached.antt =====
-- The table that `AdjListArrowChunkReader` keeps (arrow/chunk_reader.cc).
use graph_ar.Reader.Steps.{with_value-ok}
use graph_ar.Base.Int.{◌==ℤ◌}
use graph_ar.Base.{Bool, ◌≡◌, ok, ◌≡◌, true, err, false, arith, if◌then◌else◌, Option, Result}
use graph_ar.Base.{none, some, ok, err, refl, ◌≡◌, Bool, true, false, arith}
use graph_ar.Storage.{Storage}
use graph_ar.Base.Int.{ℤ, pos, leb_ℤ, ◌*ℤ◌}
use graph_ar.Base.{◌∙◌, ◌>>=◌, status, index_error, invalid, not}
use graph_ar.Types.{error_naming}
use graph_ar.Reader.AdjList.{AdjListReader, is_by_source, is_by_dest, is_unordered}
use graph_ar.ReaderUtil.{get_adj_list_offset_of_vertex}
use graph_ar.Reader.AdjList.{chunk_num_at}
use graph_ar.ReaderUtil.{quotient, get_edge_num}
use graph_ar.ChunkReader.{
  Rows, ChunkReader, seek, init_edge_chunk_num, at_chunk, init_or_update_edge_chunk_num, ℤ,
  read_table, ◌==ℤ◌, Step, is_counted, and_then, reset, enter_vertex_chunk, seek_edges, seek_vertex,
  seek_src, seek_dst, seek_chunk_index, load, is_at, loaded_chunk, get_chunk, kept, loaded,
  rows_from, chunk_unless_empty, chunk_of,
}

module _ (storage : Storage) where
  abbrev pub Reader : Type 0
  Reader = ChunkReader storage

  -- A table is, if there is one, that of the file of a place.
  abbrev pub IsRead : storage.FileSystem → AdjListReader → Option storage.Table → Type 0
  IsRead fs place none = Unit
  IsRead fs place (some table) = read_table storage fs place ≡ ok table

  -- The kept table is the one of the file of the reader's place.
  abbrev pub Cached : Reader → Type 0
  Cached r = IsRead r.fs r.place r.chunk_table

  -- A step that is OK leaves the table of the file.
  abbrev pub KeepsCached : Step Reader → Type 0
  KeepsCached s = s.1 ≡ ok tt → Cached s.0

  -- The cases of a test.
  pub if_either :
      {A : Type 0} (P : A → Type 0) (b : Bool) (x y : A)
      → (b ≡ true → P x)
      → (b ≡ false → P y)
      → P (if b then x else y)
  if_either P true x y f g = f refl
  if_either P false x y f g = g refl

  and_then-Cached :
      (s : Step Reader) (f : Reader → Step Reader)
      → KeepsCached s
      → ((r : Reader) → Cached r → KeepsCached (f r))
      → KeepsCached (and_then s f)
  and_then-Cached (r, ok u) f h k = k r (h refl)
  and_then-Cached (r, err e) f h k = λ e. absurd (ground (arith, e))

  -- A number of edge chunks does not take part in the path of the file.
  count-Cached : (r : Reader) → Cached r → KeepsCached (init_or_update_edge_chunk_num storage r)
  unfolding init_or_update_edge_chunk_num read_table
  count-Cached r h =
      with_value-ok Cached r (chunk_num_at storage r.place r.place.vertex_chunk_index) _
        (λ num read good. h)

  init-Cached : (r : Reader) → Cached r → KeepsCached (init_edge_chunk_num storage r)
  unfolding init_edge_chunk_num
  init-Cached r h =
      if_either KeepsCached (is_counted storage r) (r, ok tt) _ (λ e k. h) (λ e. count-Cached r h)

  at_chunk-Cached : (r : Reader) (i : ℤ) → Cached r → Cached (at_chunk storage r i)
  unfolding at_chunk
  at_chunk-Cached r i h = if_either Cached (r.place.chunk_index ==ℤ i) r _ (λ e. h) (λ e. tt)

  sought-Cached : (r : Reader) (offset : ℤ) → Cached r → Cached (record r { seek_offset = offset })
  sought-Cached r offset h = h

  pub seek-Cached : (r : Reader) (offset : ℤ) → Cached r → KeepsCached (seek storage r offset)
  unfolding seek
  seek-Cached r offset h =
      with_value-ok Cached _ (quotient offset r.place.edge_info.chunk_size) _ λ i e.
        and_then-Cached _ _ (init-Cached _ (at_chunk-Cached _ i (sought-Cached r offset h)))
          (λ counted cached good. cached)

  and_then-Cached_reset :
      (s : Step Reader) → KeepsCached (and_then s (λ entered. (reset storage entered, ok tt)))
  and_then-Cached_reset (r, ok u) good = tt
  and_then-Cached_reset (r, err e) good = absurd (ground (arith, good))

  enter-Cached : (r : Reader) (i : ℤ) → Cached r → KeepsCached (enter_vertex_chunk storage r i)
  unfolding enter_vertex_chunk
  enter-Cached r i h =
      if_either KeepsCached (is_at storage r i) (r, ok tt) _ (λ e k. h)
        λ e. and_then-Cached_reset (init_or_update_edge_chunk_num storage _)

  seek_edges-Cached : (r : Reader) (id : ℤ) → Cached r → KeepsCached (seek_edges storage r id)
  unfolding seek_edges
  seek_edges-Cached r id h =
      if_either KeepsCached (is_unordered r.place.adj_list_type) (seek storage r (pos 0)) _
        (λ e. seek-Cached r (pos 0) h)
        λ e.
          with_value-ok Cached r
            (get_adj_list_offset_of_vertex storage r.place.edge_info r.place.prefix
              r.place.adj_list_type id)
            _ (λ offsets read. seek-Cached r offsets.0 h)

  seek_vertex-Cached :
      (r : Reader) (size id : ℤ) → Cached r → KeepsCached (seek_vertex storage r size id)
  unfolding seek_vertex
  seek_vertex-Cached r size id h = with_value-ok Cached r (quotient id size) _ λ i e.
      if_either KeepsCached (leb_ℤ r.place.vertex_chunk_num i) (r, err (status index_error)) _
        (λ e k. h)
        λ e.
          and_then-Cached (enter_vertex_chunk storage r i) _ (enter-Cached r i h)
            (λ entered cached. seek_edges-Cached entered id cached)

  pub seek_src-Cached : (r : Reader) (id : ℤ) → Cached r → KeepsCached (seek_src storage r id)
  unfolding seek_src
  seek_src-Cached r id h =
      if_either KeepsCached (not (is_by_source r.place.adj_list_type))
        (r, error_naming r.place.adj_list_type invalid) _ (λ e k. h)
        (λ e. seek_vertex-Cached r r.place.edge_info.src_chunk_size id h)

  pub seek_dst-Cached : (r : Reader) (id : ℤ) → Cached r → KeepsCached (seek_dst storage r id)
  unfolding seek_dst
  seek_dst-Cached r id h =
      if_either KeepsCached (not (is_by_dest r.place.adj_list_type))
        (r, error_naming r.place.adj_list_type invalid) _ (λ e k. h)
        (λ e. seek_vertex-Cached r r.place.edge_info.dst_chunk_size id h)

  offset_set-Cached :
      (r : Reader) (offset : ℤ) → Cached r → Cached (record r { seek_offset = offset })
  offset_set-Cached r offset h = h

  pub seek_chunk_index-Cached :
      (r : Reader) (i j : ℤ) → Cached r → KeepsCached (seek_chunk_index storage r i j)
  unfolding seek_chunk_index
  seek_chunk_index-Cached r i j h =
      and_then-Cached (enter_vertex_chunk storage r i) _ (enter-Cached r i h) λ entered cached good.
        if_either Cached (entered.place.chunk_index ==ℤ j) entered _ (λ e. cached)
          λ e.
            offset_set-Cached (at_chunk storage entered j) (j *ℤ entered.place.edge_info.chunk_size)
              (at_chunk-Cached entered j cached)

  -- What is loaded is the table of the file, and stays.
  abbrev pub LoadsCached : Reader → (Reader × Result storage.Table) → Type 0
  LoadsCached r (next, table) =
      Cached next × ((t : storage.Table) → table ≡ ok t → read_table storage r.fs r.place ≡ ok t)

  kept-Cached :
      (r : Reader) (table : Result storage.Table)
      → Cached r
      → read_table storage r.fs r.place ≡ table
      → LoadsCached r (kept storage r table)
  kept-Cached r (ok t) h e = (e, λ u k. e ∙ k)
  kept-Cached r (err f) h e = (h, λ u k. e ∙ k)

  loaded-Cached :
      (r : Reader) (o : Option storage.Table)
      → Cached r
      → IsRead r.fs r.place o
      → LoadsCached r (loaded storage r o)
  loaded-Cached r (some t) h e = (h, λ u k. e ∙ k)
  loaded-Cached r none h e = kept-Cached r (read_table storage r.fs r.place) h refl

  pub load-Cached : (r : Reader) → Cached r → LoadsCached r (load storage r)
  load-Cached r h = loaded-Cached r r.chunk_table h h

  -- The rows of the table of the file, from the edge sought on.
  abbrev pub IsChunk : Rows storage → Reader → Reader × Result (Option storage.Table) → Type 0
  IsChunk rows r (next, result) =
      Cached next
      × ((t : storage.Table)
          → result ≡ ok (some t)
          → (whole : storage.Table) × (read_table storage r.fs r.place ≡ ok whole)
            × (t ≡ rows_from storage rows r whole))

  loaded_rows :
      (rows : Rows storage) (r next : Reader) (table : Result storage.Table)
      → LoadsCached r (next, table)
      → IsChunk rows r (next, table >>= λ t. ok (some (rows_from storage rows r t)))
  loaded_rows rows r next (ok whole) (cached, read) = (cached, λ t k. (whole, read whole refl, cc))
  loaded_rows rows r next (err e) (cached, read) = (cached, λ t k. absurd (ground (arith, k)))

  loaded_chunk-Cached :
      (rows : Rows storage) (r : Reader) → Cached r → IsChunk rows r (loaded_chunk storage rows r)
  loaded_chunk-Cached rows r h =
      loaded_rows rows r (load storage r).0 (load storage r).1 (load-Cached r h)

  unless_empty-Cached :
      (rows : Rows storage) (r : Reader) (num : Result ℤ)
      → Cached r
      → IsChunk rows r (chunk_unless_empty storage rows r num)
  unless_empty-Cached rows r (ok num) h =
      if_either (IsChunk rows r) (num ==ℤ pos 0) (r, ok none) _
        (λ e. (h, λ t k. absurd (ground (arith, k)))) (λ e. loaded_chunk-Cached rows r h)
  unless_empty-Cached rows r (err e) h = (h, λ t k. absurd (ground (arith, k)))

  chunk_of-Cached :
      (rows : Rows storage) (r : Reader) (o : Option storage.Table)
      → Cached r
      → IsChunk rows r (chunk_of storage rows r o)
  chunk_of-Cached rows r (some t) h = loaded_chunk-Cached rows r h
  chunk_of-Cached rows r none h =
      unless_empty-Cached rows r
        (get_edge_num storage r.place.prefix r.place.edge_info r.place.adj_list_type
          r.place.vertex_chunk_index)
        h

  pub get_chunk-Cached :
      (rows : Rows storage) (r : Reader) → Cached r → IsChunk rows r (get_chunk storage rows r)
  unfolding get_chunk
  get_chunk-Cached rows r h = chunk_of-Cached rows r r.chunk_table h
