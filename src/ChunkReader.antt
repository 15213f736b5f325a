-- ===== src/ChunkReader.antt =====
-- `AdjListArrowChunkReader` (arrow/chunk_reader.cc), which reads the edge chunks at the places that
-- `AdjListChunkInfoReader` names and keeps the table that it read last.
pub mod Cached
pub mod Casts
pub mod Offset
pub mod Group
pub mod Vertex
pub mod Reached
pub mod Ends
use graph_ar.ReaderUtil.{
  quotient, get_adj_list_offset_of_vertex, get_edge_num, get_edge_vertex_chunk_num,
}
use graph_ar.Types.{AdjListType, error_naming}
use graph_ar.GraphInfo.{GraphInfo, get_edge_info}
use graph_ar.Reader.Steps.{Step, with_value, and_then}
use graph_ar.Base.{
  List, ℕ, zero, suc, none, if◌then◌else◌, Result, Option, ok, not, err, some, ◌>>=◌, ◌>>=◌,
  or_raise, status, index_error, invalid, Bool, map, true, false, ℕ, deref, key_error, suc, ◌++◌,
  ◌++◌,
}
use graph_ar.EdgeInfo.{EdgeInfo}
use graph_ar.EdgeInfo
use graph_ar.Storage.{Storage}
use graph_ar.Base.Text.{Text}
use graph_ar.Base.Int.{ℤ, pos, negsuc, ◌+ℤ◌, ◌-ℤ◌, ◌*ℤ◌, ◌==ℤ◌, leb_ℤ, ltb_ℤ}
use graph_ar.Reader.AdjList.{
  AdjListReader, chunk_num_at, rounds, is_unordered, is_by_source, is_by_dest, edge_or_key_error,
}

-- The operations of tables that the readers call: `Slice` from a row on, `num_rows` and columns.
pub record Rows (storage : Storage) : Type 0 where
  pub slice_from : storage.Table → ℤ → storage.Table
  pub num_rows : storage.Table → ℤ
  -- The first chunk of a column of integers: `column(i)->chunk(0)`.
  pub int_column : storage.Table → ℤ → Result (List ℤ)

module _ (storage : Storage) where
  -- The place of the reader is kept as that of the other reader is; its number of edge chunks is -1
  -- until it is read.
  pub record ChunkReader : Type 0 where
    pub place : AdjListReader
    pub fs : storage.FileSystem
    pub seek_offset : ℤ
    pub chunk_table : Option storage.Table

  -- The constructor.
  unfoldable pub new_chunk_reader : EdgeInfo → AdjListType → Text → Result ChunkReader
  new_chunk_reader edge_info adj_list_type prefix = do
    (fs, path) ← or_raise (storage.file_system_from_uri_or_path prefix)
    path_prefix ← or_raise (EdgeInfo.Files.get_adj_list_path_prefix edge_info adj_list_type)
    vertex_chunk_num ← or_raise (get_edge_vertex_chunk_num storage path edge_info adj_list_type)
    ok (record {
      place = record {
        edge_info = edge_info;
        adj_list_type = adj_list_type;
        prefix = path;
        vertex_chunk_index = pos 0;
        chunk_index = pos 0;
        vertex_chunk_num = vertex_chunk_num;
        chunk_num = negsuc 0;
      };
      fs = fs;
      seek_offset = pos 0;
      chunk_table = none;
    })

  -- The copy constructor.
  unfoldable pub copied : ChunkReader → ChunkReader
  copied r = record r { chunk_table = none }

  -- `initOrUpdateEdgeChunkNum`.
  unfoldable pub init_or_update_edge_chunk_num : ChunkReader → Step ChunkReader
  init_or_update_edge_chunk_num r =
      with_value r (chunk_num_at storage r.place r.place.vertex_chunk_index)
        (λ num. (record r { place = record r.place { chunk_num = num } }, ok tt))

  abbrev pub is_counted : ChunkReader → Bool
  is_counted r = leb_ℤ (pos 0) r.place.chunk_num

  -- Whether the number of edge chunks is the one of a vertex chunk.
  abbrev pub is_at : ChunkReader → ℤ → Bool
  is_at r i = if is_counted r then r.place.vertex_chunk_index ==ℤ i else false

  -- The number is read if it has not been.
  unfoldable pub init_edge_chunk_num : ChunkReader → Step ChunkReader
  init_edge_chunk_num r = if is_counted r then (r, ok tt) else init_or_update_edge_chunk_num r

  -- A reader without its table.
  abbrev pub reset : ChunkReader → ChunkReader
  reset r = record r { chunk_table = none }

  -- The part of `seek_src`, `seek_dst` and `seek_chunk_index` that goes to another vertex chunk: the
  -- table is dropped after the number of edge chunks is read.
  unfoldable pub enter_vertex_chunk : ChunkReader → ℤ → Step ChunkReader
  enter_vertex_chunk r i =
      if is_at r i
      then (r, ok tt)
      else and_then
          (init_or_update_edge_chunk_num
            (record r { place = record r.place { vertex_chunk_index = i } }))
          (λ entered. (reset entered, ok tt))

  -- The reader at an edge chunk, without its table if that is another one.
  unfoldable pub at_chunk : ChunkReader → ℤ → ChunkReader
  at_chunk r i =
      if r.place.chunk_index ==ℤ i
      then r
      else record r { place = record r.place { chunk_index = i }; chunk_table = none }

  -- `seek`.
  unfoldable pub seek : ChunkReader → ℤ → Step ChunkReader
  seek r offset =
      let sought = record r { seek_offset = offset } in
      with_value sought (quotient offset r.place.edge_info.chunk_size) λ i.
        and_then (init_edge_chunk_num (at_chunk sought i)) λ counted. (
          counted,
          if leb_ℤ counted.place.chunk_num counted.place.chunk_index
              then err (status index_error)
              else ok tt,
        )

  -- The end of `seek_src` and `seek_dst`.
  unfoldable pub seek_edges : ChunkReader → ℤ → Step ChunkReader
  seek_edges r id =
      if is_unordered r.place.adj_list_type
      then seek r (pos 0)
      else with_value r
          (get_adj_list_offset_of_vertex storage r.place.edge_info r.place.prefix
            r.place.adj_list_type id)
          (λ offsets. seek r offsets.0)

  -- The seeks of a vertex, with its chunk size.
  unfoldable pub seek_vertex : ChunkReader → ℤ → ℤ → Step ChunkReader
  seek_vertex r size id = with_value r (quotient id size) λ i.
      if leb_ℤ r.place.vertex_chunk_num i
      then (r, err (status index_error))
      else and_then (enter_vertex_chunk r i) (λ entered. seek_edges entered id)

  -- `seek_src`.
  unfoldable pub seek_src : ChunkReader → ℤ → Step ChunkReader
  seek_src r id =
      if not (is_by_source r.place.adj_list_type)
      then (r, error_naming r.place.adj_list_type invalid)
      else seek_vertex r r.place.edge_info.src_chunk_size id

  -- `seek_dst`.
  unfoldable pub seek_dst : ChunkReader → ℤ → Step ChunkReader
  seek_dst r id =
      if not (is_by_dest r.place.adj_list_type)
      then (r, error_naming r.place.adj_list_type invalid)
      else seek_vertex r r.place.edge_info.dst_chunk_size id

  -- `seek_chunk_index`.
  unfoldable pub seek_chunk_index : ChunkReader → ℤ → ℤ → Step ChunkReader
  seek_chunk_index r vertex_chunk_index chunk_index =
      and_then (enter_vertex_chunk r vertex_chunk_index) λ entered. (
        if entered.place.chunk_index ==ℤ chunk_index
            then entered
            else record (at_chunk entered chunk_index) {
              seek_offset = chunk_index *ℤ entered.place.edge_info.chunk_size;
            },
        ok tt,
      )

  -- The end of `next_chunk`: only a loop that succeeds drops the table.
  abbrev pub arrived : Option (Step ChunkReader) → Option (Step ChunkReader)
  arrived none = none
  arrived (some step) = some (
      and_then step (λ r. (
        record r {
          seek_offset = r.place.chunk_index *ℤ r.place.edge_info.chunk_size;
          chunk_table = none;
        },
        ok tt,
      )))

  -- The reader at the first edge chunk of a vertex chunk.
  abbrev pub at_vertex_chunk : ChunkReader → ℤ → ChunkReader
  at_vertex_chunk r i = record r {
    place = record r.place { vertex_chunk_index = i; chunk_index = pos 0 };
  }

  -- The loop of `next_chunk` over the vertex chunks, on fuel; `none` if that runs out.
  unfoldable pub advance : ℕ → ChunkReader → Option (Step ChunkReader)
  advance zero r = none
  advance (suc fuel) r = elim (leb_ℤ r.place.chunk_num r.place.chunk_index) [
    | false ↦ some (r, ok tt)
    | true ↦
        let i = r.place.vertex_chunk_index +ℤ pos 1 in
        elim (leb_ℤ r.place.vertex_chunk_num i) [
          | true ↦ some (
            record r { place = record r.place { vertex_chunk_index = i } },
            err (status index_error),
          )
          | false ↦
              let entered = at_vertex_chunk r i in
              elim (chunk_num_at storage entered.place i) [
                | err e ↦ some (entered, err e)
                | ok num ↦
                    advance fuel
                      (record entered { place = record entered.place { chunk_num = num } })
              ]
        ]
  ]

  -- The loop, if the number of edge chunks is there.
  abbrev pub next_from : Step ChunkReader → Option (Step ChunkReader)
  next_from (counted, err e) = some (counted, err e)
  next_from (counted, ok u) = arrived (advance (rounds storage counted.place) counted)

  -- `next_chunk`.
  unfoldable pub next_chunk : ChunkReader → Option (Step ChunkReader)
  next_chunk r = next_from (
      init_edge_chunk_num
        (record r { place = record r.place { chunk_index = r.place.chunk_index +ℤ pos 1 } }))

  -- The table of a place, read from its file.
  unfoldable pub read_table : storage.FileSystem → AdjListReader → Result storage.Table
  read_table fs place = do
    chunk_file_path ←
        EdgeInfo.Files.get_adj_list_file_path place.edge_info place.vertex_chunk_index
          place.chunk_index place.adj_list_type
    found ← EdgeInfo.get_adjacent_list place.edge_info place.adj_list_type
    list ← deref found
    storage.read_file_to_table fs (place.prefix ++ chunk_file_path) list.file_type

  -- A table that was read is kept.
  abbrev pub kept : ChunkReader → Result storage.Table → ChunkReader × Result storage.Table
  kept r (ok table) = (record r { chunk_table = some table }, ok table)
  kept r (err e) = (r, err e)

  -- The table is read unless it is there.
  abbrev pub loaded : ChunkReader → Option storage.Table → ChunkReader × Result storage.Table
  loaded r (some table) = (r, ok table)
  loaded r none = kept r (read_table r.fs r.place)

  abbrev pub load : ChunkReader → ChunkReader × Result storage.Table
  load r = loaded r r.chunk_table

  -- `GetRowNumOfChunk`.
  unfoldable pub get_row_num_of_chunk : Rows storage → ChunkReader → ChunkReader × Result ℤ
  get_row_num_of_chunk rows r =
      let (loaded, table) = load r in (loaded, table >>= λ t. ok (rows.num_rows t))

  -- The rows of a table from the edge sought on.
  abbrev pub rows_from : Rows storage → ChunkReader → storage.Table → storage.Table
  rows_from rows r table =
      rows.slice_from table (r.seek_offset -ℤ r.place.chunk_index *ℤ r.place.edge_info.chunk_size)

  abbrev pub loaded_chunk : Rows storage → ChunkReader → ChunkReader × Result (Option storage.Table)
  loaded_chunk rows r =
      let (next, table) = load r in (next, table >>= λ t. ok (some (rows_from rows r t)))

  -- A reader without a table loads one if the vertex chunk has edges.
  abbrev pub chunk_unless_empty :
      Rows storage → ChunkReader → Result ℤ → ChunkReader × Result (Option storage.Table)
  chunk_unless_empty rows r (err e) = (r, err e)
  chunk_unless_empty rows r (ok num) = if num ==ℤ pos 0 then (r, ok none) else loaded_chunk rows r

  abbrev pub chunk_of :
      Rows storage
      → ChunkReader
      → Option storage.Table
      → ChunkReader × Result (Option storage.Table)
  chunk_of rows r (some table) = loaded_chunk rows r
  chunk_of rows r none = chunk_unless_empty rows r (
      get_edge_num storage r.place.prefix r.place.edge_info r.place.adj_list_type
        r.place.vertex_chunk_index)

  -- `GetChunk`: a vertex chunk without edges has no table.
  unfoldable pub get_chunk :
      Rows storage → ChunkReader → ChunkReader × Result (Option storage.Table)
  get_chunk rows r = chunk_of rows r r.chunk_table

  -- `Make` of an edge info, and of a graph info and the three types.
  unfoldable pub make : EdgeInfo → AdjListType → Text → Result ChunkReader
  make edge_info adj_list_type prefix =
      if not (EdgeInfo.has_adjacent_list_type edge_info adj_list_type)
      then error_naming adj_list_type key_error
      else new_chunk_reader edge_info adj_list_type prefix

  unfoldable pub make_of_types : GraphInfo → Text → Text → Text → AdjListType → Result ChunkReader
  make_of_types graph_info src_type edge_type dst_type adj_list_type = do
    found ← get_edge_info graph_info src_type edge_type dst_type
    edge_info ← edge_or_key_error found
    make edge_info adj_list_type graph_info.prefix
