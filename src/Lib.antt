-- ===== src/Lib.antt =====
-- GraphAr, C++ library (cpp/src/graphar): the metadata of a graph and the way to its chunk files.
--
-- A graph is described by infos: a graph info holds vertex infos and edge infos, these hold property
-- groups, and an edge info holds adjacent lists. The infos say in which files the chunks of vertices,
-- edges, offsets and properties stand. The chunk info readers walk through these files: they keep a
-- position among the chunks, and find the numbers of chunks by the counts that are stored with them.
-- The chunk info writers copy a file to the place of a chunk, after checks that can be turned off. The
-- builders collect vertices and edges in memory and hand them, as tables, to the writers of chunks.
--
-- Parts, by file:
--   Base: shared helpers. Results is `Status` and `Result` of status.h and result.h (an exception and
--   undefined behaviour are failures of their own, and messages have no text); Int the values of
--   `IdType`; Text strings as lists of character codes; Assoc `std::unordered_map`; Index the maps from
--   keys to places that the constructors fill.
--   Types: the enumerations and `DataType` (types.h, types.cc), and in Names their names.
--   Version: `InfoVersion` (version_parser.h); Parse is `InfoVersion::Parse` (version_parser.cc), what
--   its regular expressions match being written out. Path: `BuildPath` (graph_info.cc).
--   Property: `Property`, `PropertyGroup` and `AdjacentList` (graph_info.h, graph_info.cc), and what
--   vertex and edge infos do with groups.
--   VertexInfo, EdgeInfo, GraphInfo: the classes of these names. An object is immutable: a record, made
--   by `new_...` (the constructors), with one function for each member function, `get_property_group`
--   for `GetPropertyGroup` and so on. Validation is about `IsValidated`, Lookup about the maps, Paths
--   (and Files, for an edge info) about the files, Extend about the `Add...` functions.
--   Converter: `IndexConverter` (util.h).
--   Storage: what the readers ask of the file system and of Arrow, a parameter of them.
--   ReaderUtil: reader_util.cc. Reader: the four classes of chunk_info_reader.cc, an operation giving
--   the reader that it leaves together with the status.
--   Writer: chunk_info_writer.cc, over a parameter for `CopyFile`, and `ValidateLevel` (writer_util.h).
--   Builder: what high-level/vertices_builder and high-level/edges_builder share, `std::any` as a value
--   of a known type. Vertices: `VerticesBuilder`, with Slots on the places of its vertices. Edges:
--   `EdgesBuilder`, in Defs (the data and `AddEdge`), Offsets (`getOffsetTable`) and Dump; History is
--   about what calls put into it, Csr, Order and Layout about the offsets, Tables and Typed about the
--   tables, Saved about `Dump`. The chunk writers and `std::sort` are parameters of `Dump`.
--   ChunkWriter: `VertexPropertyWriter` (Vertex) and `EdgeChunkWriter` (Edge) of arrow/chunk_writer.cc,
--   over a parameter for the tables of Arrow and the files. The loop that cuts a table into chunks, the
--   same in six functions there, is `write_slices`; Slices is about it, Edge.Flat about the offset table.
--   ChunkReader: `AdjListArrowChunkReader` of arrow/chunk_reader.cc; Cached and Reached are about the table
--   that it keeps, Ends about its loop. Its other readers are Offset (`AdjListOffsetArrowChunkReader`; Range compares
--   it with reader_util.cc), Group
--   (`AdjListPropertyArrowChunkReader`, around the state of the first) and Vertex
--   (`VertexPropertyArrowChunkReader`, with what it reads in Read and its `Make`
--   functions in Make); Casts has the schemas and
--   `CastTableWithSchema`. Arrays, casts and the reading of columns are a parameter.
--   Expression: the expressions of expression.h and expression.cc, over a parameter for `arrow::compute`,
--   and `CheckFilterOptions` (reader_util.cc).
--   HighLevel: high-level/graph_reader.h and graph_reader.cc. EdgeIter is the iterator over edges, with
--   `operator++` as `increment`, Deref `operator*`, First the functions that look for an edge of a vertex; Increment, Walk and
--   Finish are about runs of `operator++`. Edges is `EdgesCollection`, Find its four subclasses, Counts is
--   about its numbers. Labels is label.cc, over a parameter for Parquet files, Vertices is
--   `VerticesCollection` with `VertexIter`, Filter about its filter by labels (Passing has its lemmas on numbers).
--   Examples: a small graph, on which the theorems are used.
--
-- Pointers are optional values; a pointer to a `DataType` also has an address, since `==` of properties
-- compares addresses. A null pointer that is dereferenced, a division by zero and a vector read out of
-- range give `undefined`. Integers are exact, since the overflow of a signed integer is undefined; where
-- `filter` of `VerticesCollection` puts numbers into `int`, their other bits are dropped and an overflow of
-- the chunk's first row is `undefined`. Its loop runs on as many rounds as there are vertices, enough for a
-- positive chunk size; at size 0 the source does not end.
-- The loop of `next_chunk` runs on fuel, one round for each vertex chunk that is left and one more: each
-- round either ends the loop or goes to the next vertex chunk.
--
-- A map that the source iterates over is a list, in the order in which its keys were put in; the source
-- leaves that order open. A failure of an Arrow builder (no memory) is left out.
--
-- The loop of `write_slices` runs on as many rounds as the table has rows, enough for a positive chunk
-- size; at another size the source does not end.
--
-- The searches of First and Find take fuel, one round for each edge that is looked at, and give `none` if it
-- runs out; in the source they can fail to end (see `increment`). An exception that an iterator throws is a
-- failure of the whole call: the state that it leaves is not used. The ids that two filters share are in the
-- order of one of them; the source takes them from an unordered set.
--
-- Not modelled: reading and writing YAML, the tables of labels that the chunk writers write, the file system,
-- `SetFilterOptions`, and, of the collections, the values of properties of a vertex or an edge, the filter by
-- an expression on a property and the variants that use Acero; these mostly call other libraries.
pub mod Base
pub mod Types
pub mod Property
pub mod Version
pub mod Path
pub mod VertexInfo
pub mod EdgeInfo
pub mod GraphInfo
pub mod Converter
pub mod Storage
pub mod ReaderUtil
pub mod Reader
pub mod Writer
pub mod Builder
pub mod Expression
pub mod ChunkReader
pub mod HighLevel
pub mod ChunkWriter
pub mod Examples
