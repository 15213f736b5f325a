-- ===== src/ChunkReader/Offset.antt =====
-- `AdjListOffsetArrowChunkReader` (arrow/chunk_reader.cc).
mod Parts
pub mod Range
use graph_ar.ChunkReader.{Rows}
use graph_ar.Base.{
  List, Option, none, some, Result, ok, err, status, key_error, index_error, ◌>>=◌, ◌++◌, not,
  if◌then◌else◌, or_raise, deref,
}
use graph_ar.Base.Text.{Text}
use graph_ar.Base.Int.{ℤ, pos, ◌+ℤ◌, ◌-ℤ◌, ◌*ℤ◌, ◌==ℤ◌, leb_ℤ}
use graph_ar.Types.{AdjListType, error_naming}
use graph_ar.EdgeInfo.{EdgeInfo}
use graph_ar.EdgeInfo
use graph_ar.GraphInfo.{GraphInfo, get_edge_info}
use graph_ar.Storage.{Storage}
use graph_ar.ReaderUtil.{quotient, get_edge_vertex_chunk_num}
use graph_ar.Reader.Steps.{Step, with_value}
use graph_ar.Reader.AdjList.{edge_or_key_error}
use graph_ar.Reader.Offset.{offset_chunk_size}

module _ (storage : Storage) where
  pub record OffsetChunkReader : Type 0 where
    pub edge_info : EdgeInfo
    pub adj_list_type : AdjListType
    pub prefix : Text
    pub fs : storage.FileSystem
    pub chunk_index : ℤ
    pub seek_id : ℤ
    pub chunk_table : Option storage.Table
    pub vertex_chunk_num : ℤ
    pub vertex_chunk_size : ℤ

  -- The constructor, which throws for a list that is not ordered.
  unfoldable pub new_offset_chunk_reader : EdgeInfo → AdjListType → Text → Result OffsetChunkReader
  new_offset_chunk_reader edge_info adj_list_type prefix = do
    (fs, path) ← or_raise (storage.file_system_from_uri_or_path prefix)
    dir_path ← or_raise (EdgeInfo.Files.get_offset_path_prefix edge_info adj_list_type)
    vertex_chunk_size ← offset_chunk_size edge_info adj_list_type
    vertex_chunk_num ← or_raise (get_edge_vertex_chunk_num storage path edge_info adj_list_type)
    ok (record {
      edge_info = edge_info;
      adj_list_type = adj_list_type;
      prefix = path;
      fs = fs;
      chunk_index = pos 0;
      seek_id = pos 0;
      chunk_table = none;
      vertex_chunk_num = vertex_chunk_num;
      vertex_chunk_size = vertex_chunk_size;
    })

  -- The reader at a chunk, without its table if that is another one.
  unfoldable pub offset_at_chunk : OffsetChunkReader → ℤ → OffsetChunkReader
  offset_at_chunk r i =
      if r.chunk_index ==ℤ i then r else record r { chunk_index = i; chunk_table = none }

  -- `seek`.
  unfoldable pub offset_seek : OffsetChunkReader → ℤ → Step OffsetChunkReader
  offset_seek r id =
      let sought = record r { seek_id = id } in
      with_value sought (quotient id r.vertex_chunk_size) λ i. (
        offset_at_chunk sought i,
        if leb_ℤ r.vertex_chunk_num i then err (status index_error) else ok tt,
      )

  -- The table of the offsets of the chunk, read from its file.
  unfoldable pub read_offsets : OffsetChunkReader → Result storage.Table
  read_offsets r = do
    chunk_file_path ←
        EdgeInfo.Files.get_adj_list_offset_file_path r.edge_info r.chunk_index r.adj_list_type
    found ← EdgeInfo.get_adjacent_list r.edge_info r.adj_list_type
    list ← deref found
    storage.read_file_to_table r.fs (r.prefix ++ chunk_file_path) list.file_type

  -- The rows of a table from the vertex sought on, as integers.
  abbrev pub offsets_from : Rows storage → OffsetChunkReader → storage.Table → Result (List ℤ)
  offsets_from rows r table =
      rows.int_column (rows.slice_from table (r.seek_id -ℤ r.chunk_index *ℤ r.vertex_chunk_size))
        (pos 0)

  abbrev pub offsets_read :
      Rows storage → OffsetChunkReader → Result storage.Table → OffsetChunkReader × Result (List ℤ)
  offsets_read rows r (ok table) =
      (record r { chunk_table = some table }, offsets_from rows r table)
  offsets_read rows r (err e) = (r, err e)

  abbrev pub offsets_kept :
      Rows storage → OffsetChunkReader → Option storage.Table → OffsetChunkReader × Result (List ℤ)
  offsets_kept rows r (some table) = (r, offsets_from rows r table)
  offsets_kept rows r none = offsets_read rows r (read_offsets r)

  -- `GetChunk`: the table is read unless it is there.
  unfoldable pub offset_get_chunk :
      Rows storage → OffsetChunkReader → OffsetChunkReader × Result (List ℤ)
  offset_get_chunk rows r = offsets_kept rows r r.chunk_table

  -- `next_chunk`.
  unfoldable pub offset_next_chunk : OffsetChunkReader → Step OffsetChunkReader
  offset_next_chunk r =
      let i = r.chunk_index +ℤ pos 1 in
      if leb_ℤ r.vertex_chunk_num i
      then (record r { chunk_index = i }, error_naming r.adj_list_type index_error)
      else (
        record r { chunk_index = i; seek_id = i *ℤ r.vertex_chunk_size; chunk_table = none },
        ok tt,
      )

  -- `Make` of an edge info, and of a graph info and the three types.
  unfoldable pub make_offset_reader : EdgeInfo → AdjListType → Text → Result OffsetChunkReader
  make_offset_reader edge_info adj_list_type prefix =
      if not (EdgeInfo.has_adjacent_list_type edge_info adj_list_type)
      then error_naming adj_list_type key_error
      else new_offset_chunk_reader edge_info adj_list_type prefix

  unfoldable pub make_offset_reader_of_types :
      GraphInfo → Text → Text → Text → AdjListType → Result OffsetChunkReader
  make_offset_reader_of_types graph_info src_type edge_type dst_type adj_list_type = do
    found ← get_edge_info graph_info src_type edge_type dst_type
    edge_info ← edge_or_key_error found
    make_offset_reader edge_info adj_list_type graph_info.prefix
