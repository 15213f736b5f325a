-- ===== src/Reader.antt =====
-- The chunk info readers of cpp/src/graphar/chunk_info_reader.h and chunk_info_reader.cc: positions
-- among the chunk files of a vertex or edge type. An operation gives the reader it leaves behind
-- together with its status, since it moves the reader even where it reports an error.
pub mod Steps
pub mod Vertex
pub mod AdjList
pub mod Offset
pub mod Group
