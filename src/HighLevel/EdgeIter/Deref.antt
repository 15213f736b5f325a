-- ===== src/HighLevel/EdgeIter/Deref.antt =====
-- `operator*` of `EdgeIter`, and `Edge` (high-level/graph_reader.h, graph_reader.cc).
use graph_ar.HighLevel.EdgeIter.{EdgeIter, seek_list}
use graph_ar.Base.{List, [], ◌∷◌, Result, ok, ◌>>=◌, deref}
use graph_ar.Base.Int.{ℤ, pos}
use graph_ar.Base.Assoc.{vector_at}
use graph_ar.Storage.{Storage}
use graph_ar.Expression.{ArrowCompute}
use graph_ar.ChunkReader.{Rows, get_chunk}
use graph_ar.ChunkReader.Casts.{ArrowTables}
use graph_ar.ChunkReader.Group.{GroupChunkReader, group_seek, group_get_chunk}
use graph_ar.HighLevel.{ignored, thrown}

module _ (storage : Storage) (arrow : ArrowCompute) (tables : ArrowTables storage arrow)
    (rows : Rows storage) where
  -- `Edge`: its properties are the first rows of the tables that the property readers give.
  pub record Edge : Type 0 where
    pub src_id : ℤ
    pub dst_id : ℤ
    pub properties : List storage.Table

  unfoldable pub seek_all :
      ℤ
      → List (GroupChunkReader storage arrow tables)
      → Result (List (GroupChunkReader storage arrow tables))
  seek_all offset [] = ok []
  seek_all offset (r ∷ rs) = do
    sought ← ignored (group_seek storage arrow tables r offset)
    rest ← seek_all offset rs
    ok (sought ∷ rest)

  unfoldable pub read_all :
      List (GroupChunkReader storage arrow tables)
      → Result (List (GroupChunkReader storage arrow tables) × List storage.Table)
  read_all [] = ok ([], [])
  read_all (r ∷ rs) = do
    (next, chunk) ← thrown (group_get_chunk storage arrow tables rows r)
    table ← deref chunk
    (rest, others) ← read_all rs
    ok (next ∷ rest, table ∷ others)

  -- The first value of a column of integers.
  abbrev pub first_value : storage.Table → ℤ → Result ℤ
  first_value table column = rows.int_column table column >>= λ values. vector_at values (pos 0)

  -- `operator*` and the constructor of `Edge`, but for the conversion of the values of the properties.
  unfoldable pub dereference :
      (EdgeIter storage arrow tables rows) → Result ((EdgeIter storage arrow tables rows) × Edge)
  dereference it = do
    sought ← seek_list storage arrow tables rows it it.cur_offset
    readers ← seek_all it.cur_offset it.property_readers
    (reader, chunk) ← thrown (get_chunk storage rows sought.adj_list_reader)
    table ← deref chunk
    src_id ← first_value table (pos 0)
    dst_id ← first_value table (pos 1)
    (read, properties) ← read_all readers
    ok (
      record sought { adj_list_reader = reader; property_readers = read },
      record { src_id = src_id; dst_id = dst_id; properties = properties },
    )
