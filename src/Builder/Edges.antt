-- ===== src/Builder/Edges.antt =====
-- `Edge` and `EdgesBuilder` (high-level/edges_builder.h, edges_builder.cc): the data and `AddEdge`, the
-- offset table, and `Dump`.
pub mod Defs
pub mod Offsets
pub mod Csr
pub mod Dump
pub mod History
pub mod Order
pub mod Layout
pub mod Tables
pub mod Typed
pub mod Saved
