-- ===== src/ChunkReader/Reached.antt =====
-- The readers that successful operations lead to (arrow/chunk_reader.cc).
use graph_ar.Base.{Option, none, some, Result, ok, err, refl, ◌≡◌, arith}
use graph_ar.Base.Text.{Text}
use graph_ar.Base.Int.{ℤ, pos}
use graph_ar.Storage.{Storage}
use graph_ar.EdgeInfo.{EdgeInfo}
use graph_ar.Types.{adj_list_type_to_string, AdjListType, error_naming}
use graph_ar.EdgeInfo
use graph_ar.Base.{◌>>=◌, or_raise, StatusCode, not, key_error}
use graph_ar.Reader.AdjList.{AdjListReader}
use graph_ar.ReaderUtil.{get_edge_vertex_chunk_num}
use graph_ar.Base.Int.{◌+ℤ◌}
use graph_ar.Reader.Steps.{Step}
use graph_ar.ChunkReader.{
  Rows, ChunkReader, make, copied, seek, seek_src, seek_dst, seek_chunk_index, next_chunk,
  get_chunk, arrived, get_row_num_of_chunk, new_chunk_reader, next_from, init_edge_chunk_num,
  read_table, rows_from,
}
use graph_ar.ChunkReader.Cached.{
  if_either, Cached, IsRead, load-Cached, get_chunk-Cached, seek-Cached, seek_src-Cached,
  seek_dst-Cached, seek_chunk_index-Cached,
}

module _ (storage : Storage) where
  -- The readers that a successful construction, copies, successful moves and reads of tables lead to.
  pub data Reached : ChunkReader storage → Type 0 where
    made :
        (e : EdgeInfo) (type : AdjListType) (prefix : Text) (r : ChunkReader storage)
        → make storage e type prefix ≡ ok r
        → Reached r
    copy : (r : ChunkReader storage) → Reached r → Reached (copied storage r)
    by_seek :
        (r : ChunkReader storage) (offset : ℤ)
        → Reached r
        → (seek storage r offset).1 ≡ ok tt
        → Reached (seek storage r offset).0
    by_seek_src :
        (r : ChunkReader storage) (id : ℤ)
        → Reached r
        → (seek_src storage r id).1 ≡ ok tt
        → Reached (seek_src storage r id).0
    by_seek_dst :
        (r : ChunkReader storage) (id : ℤ)
        → Reached r
        → (seek_dst storage r id).1 ≡ ok tt
        → Reached (seek_dst storage r id).0
    by_seek_chunk_index :
        (r : ChunkReader storage) (i j : ℤ)
        → Reached r
        → (seek_chunk_index storage r i j).1 ≡ ok tt
        → Reached (seek_chunk_index storage r i j).0
    by_next_chunk :
        (r next : ChunkReader storage)
        → Reached r
        → next_chunk storage r ≡ some (next, ok tt)
        → Reached next
    by_get_chunk :
        (rows : Rows storage) (r : ChunkReader storage)
        → Reached r
        → Reached (get_chunk storage rows r).0
    by_get_row_num :
        (rows : Rows storage) (r : ChunkReader storage)
        → Reached r
        → Reached (get_row_num_of_chunk storage rows r).0

  -- A construction that succeeds gives no table.
  abbrev HasNoTable : Result (ChunkReader storage) → Type 0
  HasNoTable (ok r) = r.chunk_table ≡ none
  HasNoTable (err e) = Unit

  bind-HasNoTable :
      {A : Type 0} (s : Result A) (f : A → Result (ChunkReader storage))
      → ((a : A) → HasNoTable (f a))
      → HasNoTable (s >>= f)
  bind-HasNoTable (ok a) f h = h a
  bind-HasNoTable (err e) f h = tt

  new-HasNoTable :
      (e : EdgeInfo) (type : AdjListType) (prefix : Text)
      → HasNoTable (new_chunk_reader storage e type prefix)
  unfolding new_chunk_reader
  new-HasNoTable e type prefix =
      bind-HasNoTable (or_raise (storage.file_system_from_uri_or_path prefix)) _ λ place.
        bind-HasNoTable (or_raise (EdgeInfo.Files.get_adj_list_path_prefix e type)) _ λ dir.
          bind-HasNoTable (or_raise (get_edge_vertex_chunk_num storage place.1 e type)) _
            (λ num. refl)

  error-HasNoTable : (type : AdjListType) (c : StatusCode) → HasNoTable (error_naming type c)
  error-HasNoTable type c = bind-HasNoTable (adj_list_type_to_string type) _ (λ x. tt)

  make-HasNoTable :
      (e : EdgeInfo) (type : AdjListType) (prefix : Text) → HasNoTable (make storage e type prefix)
  unfolding make
  make-HasNoTable e type prefix =
      if_either storage HasNoTable (not (EdgeInfo.has_adjacent_list_type e type))
        (error_naming type key_error) (new_chunk_reader storage e type prefix)
        (λ k. error-HasNoTable type key_error) (λ k. new-HasNoTable e type prefix)

  ok-HasNoTable :
      (s : Result (ChunkReader storage)) (r : ChunkReader storage)
      → HasNoTable s
      → s ≡ ok r
      → r.chunk_table ≡ none
  ok-HasNoTable (ok q) r h e = cc
  ok-HasNoTable (err f) r h e = absurd (ground (arith, e))

  made-Cached :
      (e : EdgeInfo) (type : AdjListType) (prefix : Text) (r : ChunkReader storage)
      → make storage e type prefix ≡ ok r
      → r.chunk_table ≡ none
  made-Cached e type prefix r h =
      ok-HasNoTable (make storage e type prefix) r (make-HasNoTable e type prefix) h

  none-IsRead :
      (o : Option storage.Table) (fs : storage.FileSystem) (place : AdjListReader)
      → o ≡ none
      → IsRead storage fs place o
  none-IsRead none fs place h = tt
  none-IsRead (some t) fs place h = absurd (ground (arith, h))

  none-Cached : (r : ChunkReader storage) → r.chunk_table ≡ none → Cached storage r
  none-Cached r h = none-IsRead r.chunk_table r.fs r.place h

  arrived-Cached :
      (o : Option (Step (ChunkReader storage))) (next : ChunkReader storage)
      → arrived storage o ≡ some (next, ok tt)
      → next.chunk_table ≡ none
  arrived-Cached none next h = absurd (ground (arith, h))
  arrived-Cached (some (r, ok u)) next h = cc
  arrived-Cached (some (r, err e)) next h = absurd (ground (arith, h))

  next_from-Cached :
      (s : Step (ChunkReader storage)) (next : ChunkReader storage)
      → next_from storage s ≡ some (next, ok tt)
      → next.chunk_table ≡ none
  next_from-Cached (counted, ok u) next h = arrived-Cached _ next h
  next_from-Cached (counted, err e) next h = absurd (ground (arith, h))

  pub Reached-Cached : (r : ChunkReader storage) → Reached r → Cached storage r
  unfolding get_row_num_of_chunk copied next_chunk
  Reached-Cached _ (made e type prefix q h) = none-Cached q (made-Cached e type prefix q h)
  Reached-Cached _ (copy q h) = tt
  Reached-Cached _ (by_seek q offset h good) =
      seek-Cached storage q offset (Reached-Cached q h) good
  Reached-Cached _ (by_seek_src q id h good) =
      seek_src-Cached storage q id (Reached-Cached q h) good
  Reached-Cached _ (by_seek_dst q id h good) =
      seek_dst-Cached storage q id (Reached-Cached q h) good
  Reached-Cached _ (by_seek_chunk_index q i j h good) =
      seek_chunk_index-Cached storage q i j (Reached-Cached q h) good
  Reached-Cached _ (by_next_chunk q next h good) = none-Cached next (
      next_from-Cached
        (init_edge_chunk_num storage
          (record q { place = record q.place { chunk_index = q.place.chunk_index +ℤ pos 1 } }))
        next good)
  Reached-Cached _ (by_get_chunk rows q h) =
      (get_chunk-Cached storage rows q (Reached-Cached q h)).0
  Reached-Cached _ (by_get_row_num rows q h) = (load-Cached storage q (Reached-Cached q h)).0

  -- After a construction and any copies, successful moves and reads of tables, a table that `GetChunk`
  -- gives is the rows, from the edge sought on, of the table in the file of the reader's edge chunk,
  -- whether it is read now or was kept.
  pub get_chunk-Reached :
      (rows : Rows storage) (r : ChunkReader storage) (table : storage.Table)
      → Reached r
      → (get_chunk storage rows r).1 ≡ ok (some table)
      → (whole : storage.Table) × (read_table storage r.fs r.place ≡ ok whole)
        × (table ≡ rows_from storage rows r whole)
  get_chunk-Reached rows r table h good =
      (get_chunk-Cached storage rows r (Reached-Cached r h)).1 table good
