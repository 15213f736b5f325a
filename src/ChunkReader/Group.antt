-- ===== src/ChunkReader/Group.antt =====
-- `AdjListPropertyArrowChunkReader` (arrow/chunk_reader.cc). The class has the members of
-- `AdjListArrowChunkReader` and a property group, a schema and filter options besides. Its moves are
-- the same statement by statement: a group reader is a chunk reader with those.
use graph_ar.ChunkReader.{ChunkReader, Rows}
use graph_ar.Base.{
  Bool, true, false, Option, none, some, Result, Status, ok, err, key_error, ◌>>=◌, ◌++◌, not,
  if◌then◌else◌, or_raise, deref, List,
}
use graph_ar.Base.Text.{Text}
use graph_ar.Base.Int.{ℤ, pos, negsuc, ◌==ℤ◌}
use graph_ar.Types.{AdjListType, error_naming}
use graph_ar.Property.{PropertyGroup}
use graph_ar.EdgeInfo.{EdgeInfo}
use graph_ar.EdgeInfo
use graph_ar.GraphInfo.{GraphInfo, get_edge_info}
use graph_ar.Storage.{Storage}
use graph_ar.ReaderUtil.{get_edge_num, get_edge_vertex_chunk_num}
use graph_ar.Reader.Steps.{Step}
use graph_ar.Reader.AdjList.{edge_or_key_error}
use graph_ar.Reader.Group.{group_or_key_error}
use graph_ar.Expression.{
  ArrowCompute, FilterOptions, Expression, null, check_filter_options, property, literal, not_of,
  binary_of,
}
use graph_ar.ChunkReader.Casts.{
  ArrowTables, Schema, property_group_to_schema, cast_table_with_schema,
}
use graph_ar.ChunkReader

module _ (storage : Storage) (arrow : ArrowCompute) (tables : ArrowTables storage arrow) where
  pub record GroupChunkReader : Type 0 where
    pub edges : ChunkReader storage
    pub property_group : Option PropertyGroup
    pub schema : Schema
    pub filter_options : FilterOptions arrow

  -- The constructor.
  unfoldable pub new_group_chunk_reader :
      EdgeInfo
      → Option PropertyGroup
      → AdjListType
      → Text
      → FilterOptions arrow
      → Result GroupChunkReader
  new_group_chunk_reader edge_info property_group adj_list_type prefix options = do
    (fs, path) ← or_raise (storage.file_system_from_uri_or_path prefix)
    pg_path_prefix ←
        or_raise
          (EdgeInfo.Files.get_property_group_path_prefix edge_info property_group adj_list_type)
    vertex_chunk_num ← or_raise (get_edge_vertex_chunk_num storage path edge_info adj_list_type)
    schema ← or_raise (property_group_to_schema property_group false)
    ok (record {
      edges = record {
        place = record {
          edge_info = edge_info;
          adj_list_type = adj_list_type;
          prefix = path;
          vertex_chunk_index = pos 0;
          chunk_index = pos 0;
          vertex_chunk_num = vertex_chunk_num;
          chunk_num = negsuc 0;
        };
        fs = fs;
        seek_offset = pos 0;
        chunk_table = none;
      };
      property_group = property_group;
      schema = schema;
      filter_options = options;
    })

  -- The copy constructor.
  unfoldable pub group_copied : GroupChunkReader → GroupChunkReader
  group_copied r = record r { edges = ChunkReader.copied storage r.edges }

  -- An operation on the members that both classes have.
  abbrev pub on_edges : GroupChunkReader → Step (ChunkReader storage) → Step GroupChunkReader
  on_edges r (edges, s) = (record r { edges = edges }, s)

  abbrev pub on_edges? :
      GroupChunkReader → Option (Step (ChunkReader storage)) → Option (Step GroupChunkReader)
  on_edges? r none = none
  on_edges? r (some step) = some (on_edges r step)

  -- `seek_src`, `seek_dst`, `seek`, `seek_chunk_index` and `next_chunk`.
  unfoldable pub group_seek_src : GroupChunkReader → ℤ → Step GroupChunkReader
  group_seek_src r id = on_edges r (ChunkReader.seek_src storage r.edges id)

  unfoldable pub group_seek_dst : GroupChunkReader → ℤ → Step GroupChunkReader
  group_seek_dst r id = on_edges r (ChunkReader.seek_dst storage r.edges id)

  unfoldable pub group_seek : GroupChunkReader → ℤ → Step GroupChunkReader
  group_seek r offset = on_edges r (ChunkReader.seek storage r.edges offset)

  unfoldable pub group_seek_chunk_index : GroupChunkReader → ℤ → ℤ → Step GroupChunkReader
  group_seek_chunk_index r vertex_chunk_index chunk_index =
      on_edges r (ChunkReader.seek_chunk_index storage r.edges vertex_chunk_index chunk_index)

  unfoldable pub group_next_chunk : GroupChunkReader → Option (Step GroupChunkReader)
  group_next_chunk r = on_edges? r (ChunkReader.next_chunk storage r.edges)

  -- Whether the filter is the null pointer.
  abbrev pub is_null : Expression arrow → Bool
  is_null null = true
  is_null (property n) = false
  is_null (literal v) = false
  is_null (not_of e) = false
  is_null (binary_of op a b) = false

  abbrev pub kept : GroupChunkReader → storage.Table → GroupChunkReader
  kept r table = record r { edges = record r.edges { chunk_table = some table } }

  abbrev pub after_cast :
      GroupChunkReader → Result storage.Table → GroupChunkReader × Result storage.Table
  after_cast r (ok table) = (kept r table, ok table)
  after_cast r (err e) = (r, err e)

  -- The table of the group at the place of the reader, cast unless a filter is set. A table that is
  -- read stays if the cast of it fails.
  abbrev pub cast_read :
      GroupChunkReader → Result storage.Table → GroupChunkReader × Result storage.Table
  cast_read r (err e) = (r, err e)
  cast_read r (ok table) =
      if is_null r.filter_options.filter
      then after_cast (kept r table) (cast_table_with_schema storage arrow tables table r.schema)
      else (kept r table, ok table)

  unfoldable pub read_group : GroupChunkReader → Result storage.Table
  read_group r = do
    chunk_file_path ←
        EdgeInfo.Files.get_property_file_path r.edges.place.edge_info r.property_group
          r.edges.place.adj_list_type r.edges.place.vertex_chunk_index r.edges.place.chunk_index
    pg ← deref r.property_group
    tables.read_filtered r.edges.fs (r.edges.place.prefix ++ chunk_file_path) pg.file_type
        r.filter_options

  abbrev pub load_group :
      GroupChunkReader → Option storage.Table → GroupChunkReader × Result storage.Table
  load_group r (some table) = (r, ok table)
  load_group r none = cast_read r (read_group r)

  abbrev pub sliced_group :
      Rows storage → GroupChunkReader → GroupChunkReader × Result (Option storage.Table)
  sliced_group rows r =
      let (next, table) = load_group r r.edges.chunk_table in
      (next, table >>= λ t. ok (some (ChunkReader.rows_from storage rows r.edges t)))

  abbrev pub group_unless_empty :
      Rows storage → GroupChunkReader → Result ℤ → GroupChunkReader × Result (Option storage.Table)
  group_unless_empty rows r (err e) = (r, err e)
  group_unless_empty rows r (ok num) = if num ==ℤ pos 0 then (r, ok none) else sliced_group rows r

  abbrev pub group_chunk_of :
      Rows storage
      → GroupChunkReader
      → Option storage.Table
      → GroupChunkReader × Result (Option storage.Table)
  group_chunk_of rows r (some table) = sliced_group rows r
  group_chunk_of rows r none = group_unless_empty rows r (
      get_edge_num storage r.edges.place.prefix r.edges.place.edge_info r.edges.place.adj_list_type
        r.edges.place.vertex_chunk_index)

  abbrev pub group_chunk_if :
      Rows storage → GroupChunkReader → Status → GroupChunkReader × Result (Option storage.Table)
  group_chunk_if rows r (err e) = (r, err e)
  group_chunk_if rows r (ok u) = group_chunk_of rows r r.edges.chunk_table

  -- `GetChunk`.
  unfoldable pub group_get_chunk :
      Rows storage → GroupChunkReader → GroupChunkReader × Result (Option storage.Table)
  group_get_chunk rows r =
      group_chunk_if rows r (check_filter_options arrow r.filter_options r.property_group)

  -- `Filter` and `Select`; the table that was read before stays.
  unfoldable pub group_filter : GroupChunkReader → Expression arrow → GroupChunkReader
  group_filter r filter = record r { filter_options = record r.filter_options { filter = filter } }

  unfoldable pub group_select : GroupChunkReader → Option (List Text) → GroupChunkReader
  group_select r column_names = record r {
    filter_options = record r.filter_options { columns = column_names };
  }

  -- `Make` of an edge info, and the two of a graph info.
  unfoldable pub make_group_reader :
      EdgeInfo
      → Option PropertyGroup
      → AdjListType
      → Text
      → FilterOptions arrow
      → Result GroupChunkReader
  make_group_reader edge_info property_group adj_list_type prefix options =
      if not (EdgeInfo.has_adjacent_list_type edge_info adj_list_type)
      then error_naming adj_list_type key_error
      else new_group_chunk_reader edge_info property_group adj_list_type prefix options

  unfoldable pub make_group_reader_of_types :
      GraphInfo
      → Text
      → Text
      → Text
      → Option PropertyGroup
      → AdjListType
      → FilterOptions arrow
      → Result GroupChunkReader
  make_group_reader_of_types graph_info src_type edge_type dst_type property_group adj_list_type
        options =
      do
        found ← get_edge_info graph_info src_type edge_type dst_type
        edge_info ← edge_or_key_error found
        make_group_reader edge_info property_group adj_list_type graph_info.prefix options

  unfoldable pub make_group_reader_of_property :
      GraphInfo
      → Text
      → Text
      → Text
      → Text
      → AdjListType
      → FilterOptions arrow
      → Result GroupChunkReader
  make_group_reader_of_property graph_info src_type edge_type dst_type property_name adj_list_type
        options =
      do
        found ← get_edge_info graph_info src_type edge_type dst_type
        edge_info ← edge_or_key_error found
        group ← EdgeInfo.get_property_group edge_info property_name
        property_group ← group_or_key_error storage group
        make_group_reader edge_info (some property_group) adj_list_type graph_info.prefix options
