-- ===== src/HighLevel/EdgeIter.antt =====
-- `EdgeIter` (high-level/graph_reader.h, graph_reader.cc). Copies of an iterator share the offset
-- reader, which is always sought before it is read; here each has its own.
pub mod Deref
pub mod First
pub mod Increment
pub mod Walk
pub mod Finish
use graph_ar.Base.{
  Bool, true, false, List, [], ◌∷◌, Option, none, some, Result, Status, ok, err, status, undefined,
  key_error, ◌>>=◌, not, if◌then◌else◌, deref, or_raise, ◌||◌, ◌&&◌, ◌||◌, ◌&&◌,
}
use graph_ar.Base.Text.{Text}
use graph_ar.Base.Int.{ℤ, pos, ◌+ℤ◌, ◌-ℤ◌, ◌*ℤ◌, ◌==ℤ◌, leb_ℤ}
use graph_ar.Base.Assoc.{vector_at}
use graph_ar.Types.{
  AdjListType, unordered_by_source, unordered_by_dest, ordered_by_source, ordered_by_dest, other,
  adj_list_code,
}
use graph_ar.Property.{PropertyGroup}
use graph_ar.EdgeInfo.{EdgeInfo}
use graph_ar.Storage.{Storage}
use graph_ar.Converter.{global_chunk_index_to_index_pair}
use graph_ar.ReaderUtil.{quotient, remainder}
use graph_ar.Expression.{ArrowCompute, FilterOptions, null}
use graph_ar.ChunkReader.{
  Rows, ChunkReader, new_chunk_reader, copied, seek, seek_chunk_index, next_chunk, get_chunk,
  get_row_num_of_chunk,
}
use graph_ar.ChunkReader.Casts.{ArrowTables}
use graph_ar.ChunkReader.Group.{
  GroupChunkReader, new_group_chunk_reader, group_copied, group_seek_chunk_index, group_seek,
  group_get_chunk, group_next_chunk,
}
use graph_ar.ChunkReader.Offset.{OffsetChunkReader, new_offset_chunk_reader}
use graph_ar.HighLevel.{ignored, returned, thrown, ended, is_ok, is_key_error, is_index_error}

module _ (storage : Storage) (arrow : ArrowCompute) (tables : ArrowTables storage arrow)
    (rows : Rows storage) where
  pub record EdgeIter : Type 0 where
    pub adj_list_reader : ChunkReader storage
    pub offset_reader : Option (OffsetChunkReader storage)
    pub property_readers : List (GroupChunkReader storage arrow tables)
    pub global_chunk_index : ℤ
    pub vertex_chunk_index : ℤ
    pub cur_offset : ℤ
    pub chunk_size : ℤ
    pub src_chunk_size : ℤ
    pub dst_chunk_size : ℤ
    pub num_row_of_chunk : ℤ
    pub chunk_begin : ℤ
    pub chunk_end : ℤ
    pub adj_list_type : AdjListType
    pub edge_chunk_nums : List ℤ

  -- No filter and no choice of columns.
  abbrev pub no_options : FilterOptions arrow
  no_options = record { filter = null; columns = none }

  -- The readers of the property groups, at the first edge chunk of a vertex chunk.
  unfoldable pub new_property_readers :
      EdgeInfo
      → Text
      → AdjListType
      → ℤ
      → List (Option PropertyGroup)
      → Result (List (GroupChunkReader storage arrow tables))
  new_property_readers edge_info prefix adj_list_type i [] = ok []
  new_property_readers edge_info prefix adj_list_type i (pg ∷ pgs) = do
    made ← new_group_chunk_reader storage arrow tables edge_info pg adj_list_type prefix no_options
    reader ← ignored (group_seek_chunk_index storage arrow tables made i (pos 0))
    readers ← new_property_readers edge_info prefix adj_list_type i pgs
    ok (reader ∷ readers)

  -- The offset reader of an ordered list.
  abbrev pub new_offset_reader :
      EdgeInfo → Text → AdjListType → Result (Option (OffsetChunkReader storage))
  new_offset_reader edge_info prefix ordered_by_source =
      new_offset_chunk_reader storage edge_info ordered_by_source prefix >>= λ r. ok (some r)
  new_offset_reader edge_info prefix ordered_by_dest =
      new_offset_chunk_reader storage edge_info ordered_by_dest prefix >>= λ r. ok (some r)
  new_offset_reader edge_info prefix unordered_by_source = ok none
  new_offset_reader edge_info prefix unordered_by_dest = ok none
  new_offset_reader edge_info prefix (other n) = ok none

  -- The constructor.
  unfoldable pub new_edge_iter :
      EdgeInfo → Text → AdjListType → ℤ → ℤ → ℤ → ℤ → List ℤ → Result EdgeIter
  new_edge_iter edge_info prefix adj_list_type global_chunk_index offset chunk_begin chunk_end
        nums =
      do
        made ← new_chunk_reader storage edge_info adj_list_type prefix
        let i = (global_chunk_index_to_index_pair nums global_chunk_index).0
        reader ← ignored (seek_chunk_index storage made i (pos 0))
        property_readers ←
            new_property_readers edge_info prefix adj_list_type i edge_info.property_groups
        offset_reader ← new_offset_reader edge_info prefix adj_list_type
        ok (record {
          adj_list_reader = reader;
          offset_reader = offset_reader;
          property_readers = property_readers;
          global_chunk_index = global_chunk_index;
          vertex_chunk_index = i;
          cur_offset = offset;
          chunk_size = edge_info.chunk_size;
          src_chunk_size = edge_info.src_chunk_size;
          dst_chunk_size = edge_info.dst_chunk_size;
          num_row_of_chunk = pos 0;
          chunk_begin = chunk_begin;
          chunk_end = chunk_end;
          adj_list_type = adj_list_type;
          edge_chunk_nums = nums;
        })

  unfoldable pub all_copied :
      List (GroupChunkReader storage arrow tables) → List (GroupChunkReader storage arrow tables)
  all_copied [] = []
  all_copied (r ∷ rs) = group_copied storage arrow tables r ∷ all_copied rs

  -- The copy constructor: the readers lose their tables.
  unfoldable pub copied_iter : EdgeIter → EdgeIter
  copied_iter it = record it {
    adj_list_reader = copied storage it.adj_list_reader;
    property_readers = all_copied it.property_readers;
  }

  -- `operator==`.
  unfoldable pub same_place : EdgeIter → EdgeIter → Bool
  same_place it rhs =
      if it.global_chunk_index ==ℤ rhs.global_chunk_index
      then (if it.cur_offset ==ℤ rhs.cur_offset
          then pos (adj_list_code it.adj_list_type) ==ℤ pos (adj_list_code rhs.adj_list_type)
          else false)
      else false

  -- `is_end`.
  unfoldable pub is_end : EdgeIter → Bool
  is_end it = leb_ℤ it.chunk_end it.global_chunk_index

  -- `GetRowNumOfChunk` of the reader, whose error is thrown.
  unfoldable pub set_row_num : EdgeIter → Result EdgeIter
  set_row_num it = do
    (reader, num) ← thrown (get_row_num_of_chunk storage rows it.adj_list_reader)
    ok (record it { adj_list_reader = reader; num_row_of_chunk = num })

  -- The reader of the list at an offset; the status is not looked at.
  unfoldable pub seek_list : EdgeIter → ℤ → Result EdgeIter
  seek_list it offset = do
    reader ← ignored (seek storage it.adj_list_reader offset)
    ok (record it { adj_list_reader = reader })

  -- `source` and `destination`: the first value of a column of the chunk; without a chunk, a null
  -- pointer is dereferenced.
  unfoldable pub end_point : ℤ → EdgeIter → Result (EdgeIter × ℤ)
  end_point column it = do
    sought ← seek_list it it.cur_offset
    (reader, chunk) ← thrown (get_chunk storage rows sought.adj_list_reader)
    table ← deref chunk
    values ← rows.int_column table column
    id ← vector_at values (pos 0)
    ok (record sought { adj_list_reader = reader }, id)

  abbrev pub source : EdgeIter → Result (EdgeIter × ℤ)
  source = end_point (pos 0)

  abbrev pub destination : EdgeIter → Result (EdgeIter × ℤ)
  destination = end_point (pos 1)

  -- The rows of the chunk are counted if they have not been.
  unfoldable pub count_rows : EdgeIter → Result EdgeIter
  count_rows it =
      if it.num_row_of_chunk ==ℤ pos 0 then (seek_list it it.cur_offset >>= set_row_num) else ok it

  -- The reader is sent behind the chunk, and the status says so.
  unfoldable pub end_rows : EdgeIter → Result (EdgeIter × Status)
  end_rows it = do
    chunk ← quotient it.cur_offset it.chunk_size
    let offset = (chunk +ℤ pos 1) *ℤ it.chunk_size
    sought ← seek_list (record it { cur_offset = offset }) offset
    ok (sought, err (status key_error))

  -- The first test of `operator++`, in a chunk that is not full: the end of its rows is the end of the
  -- vertex chunk, which a status of its own tells.
  unfoldable pub pass_rows : EdgeIter → Status → Result (EdgeIter × Status)
  pass_rows it st =
      if not (is_ok st) || (it.num_row_of_chunk ==ℤ it.chunk_size)
      then ok (it, st)
      else (remainder it.cur_offset it.chunk_size >>= λ row_offset.
          if leb_ℤ it.num_row_of_chunk row_offset then end_rows it else ok (it, st))

  -- The second test: a full chunk is passed.
  unfoldable pub pass_chunk : EdgeIter → Status → Result EdgeIter
  pass_chunk it st =
      if is_ok st && (it.num_row_of_chunk ==ℤ it.chunk_size)
      then (remainder it.cur_offset it.chunk_size >>= λ row_offset.
          if row_offset ==ℤ pos 0
          then (set_row_num it >>= λ counted.
              ok (record counted { global_chunk_index = it.global_chunk_index +ℤ pos 1 }))
          else ok it)
      else ok it

  unfoldable pub next_of_groups :
      List (GroupChunkReader storage arrow tables)
      → Result (List (GroupChunkReader storage arrow tables))
  next_of_groups [] = ok []
  next_of_groups (r ∷ rs) = do
    (next, st) ← ended (group_next_chunk storage arrow tables r)
    rest ← next_of_groups rs
    ok (next ∷ rest)

  -- The readers that follow the one of the list, if it has moved.
  unfoldable pub follow : EdgeIter → Status → Result EdgeIter
  follow it st = if is_index_error st then ok it else (do
    counted ← set_row_num it
    readers ← next_of_groups it.property_readers
    ok (record counted { property_readers = readers }))

  -- The third: the next vertex chunk is entered.
  unfoldable pub enter_next : EdgeIter → Status → Result EdgeIter
  enter_next it st =
      if is_key_error st
      then (do
        (reader, moved) ← ended (next_chunk storage it.adj_list_reader)
        followed ←
            follow
              (record it {
                adj_list_reader = reader;
                global_chunk_index = it.global_chunk_index +ℤ pos 1;
                vertex_chunk_index = it.vertex_chunk_index +ℤ pos 1;
              })
              moved
        seek_list (record followed { cur_offset = pos 0 }) (pos 0))
      else ok it

  -- `operator++`.
  unfoldable pub increment : EdgeIter → Result EdgeIter
  increment it = do
    counted ← count_rows it
    let next = it.cur_offset +ℤ pos 1
    (reader, st) ← returned (seek storage counted.adj_list_reader next)
    (in_rows, passed) ←
        pass_rows (record counted { adj_list_reader = reader; cur_offset = next }) st
    turned ← pass_chunk in_rows passed
    enter_next turned passed

  unfoldable pub seek_groups :
      ℤ
      → List (GroupChunkReader storage arrow tables)
      → Result (List (GroupChunkReader storage arrow tables))
  seek_groups i [] = ok []
  seek_groups i (r ∷ rs) = do
    sought ← ignored (group_seek_chunk_index storage arrow tables r i (pos 0))
    rest ← seek_groups i rs
    ok (sought ∷ rest)

  -- `refresh`.
  unfoldable pub refresh : EdgeIter → Result EdgeIter
  refresh it = do
    entered ← ignored (seek_chunk_index storage it.adj_list_reader it.vertex_chunk_index (pos 0))
    sought ← seek_list (record it { adj_list_reader = entered }) it.cur_offset
    readers ← seek_groups it.vertex_chunk_index it.property_readers
    set_row_num (record sought { property_readers = readers })

  -- `to_begin`.
  unfoldable pub to_begin : EdgeIter → Result EdgeIter
  to_begin it = refresh (record it {
    global_chunk_index = it.chunk_begin;
    cur_offset = pos 0;
    vertex_chunk_index = (global_chunk_index_to_index_pair it.edge_chunk_nums it.chunk_begin).0;
  })
