-- ===== src/Examples/Fetching.antt =====
-- Tests of the chunk reader, and witnesses of its theorems.
use graph_ar.Base.{List, [], ◌∷◌, none, some, ok, refl, ◌≡◌, drop}
use graph_ar.Base.Text.{Text, codes}
use graph_ar.Base.Int.{ℤ, pos, negsuc, pos_part}
use graph_ar.Types.{ordered_by_source}
use graph_ar.Storage.{Storage}
use graph_ar.Reader.Steps.{Step}
use graph_ar.ChunkReader.{
  Rows, ChunkReader, make, seek, get_chunk, read_table, rows_from, next_chunk,
}
use graph_ar.ChunkReader.Reached.{made, by_seek, get_chunk-Reached}
use graph_ar.ChunkReader.Ends.{next_chunk-Ends}
use graph_ar.Examples.{knows}

-- Every number that is stored is five, and every table has the edges 10 and 11.
abbrev pub shelf : Storage
shelf = record {
  FileSystem = Unit;
  Table = List ℤ;
  file_system_from_uri_or_path = λ uri. ok (tt, []);
  read_file_to_value = λ fs path. ok (pos 5);
  read_file_to_table = λ fs path file_type. ok (pos 10 ∷ pos 11 ∷ []);
  first_column_slice = λ table offset length. table;
}

abbrev shelf_rows : Rows shelf
shelf_rows = record {
  slice_from = λ table row. drop (pos_part row) table;
  num_rows = λ table. pos 2;
  int_column = λ table i. ok table;
}

abbrev fresh : ChunkReader shelf
fresh = record {
  place = record {
    edge_info = knows;
    adj_list_type = ordered_by_source;
    prefix = [];
    vertex_chunk_index = pos 0;
    chunk_index = pos 0;
    vertex_chunk_num = pos 3;
    chunk_num = negsuc 0;
  };
  fs = tt;
  seek_offset = pos 0;
  chunk_table = none;
}

fresh_made : make shelf knows ordered_by_source [] ≡ ok fresh
unfolding make graph_ar.EdgeInfo.has_adjacent_list_type graph_ar.Base.Assoc.find
    graph_ar.EdgeInfo.new_edge_info graph_ar.Base.Index.index_by graph_ar.Base.Assoc.assign
    graph_ar.ChunkReader.new_chunk_reader graph_ar.EdgeInfo.Files.get_adj_list_path_prefix
    graph_ar.EdgeInfo.Files.list_directory graph_ar.EdgeInfo.Files.list_prefix
    graph_ar.Base.Assoc.vector_at graph_ar.Path.build_path
    graph_ar.ReaderUtil.get_edge_vertex_chunk_num graph_ar.EdgeInfo.Files.get_vertices_num_file_path
fresh_made = refl

-- The reader at the second edge of the second chunk.
abbrev sought : ChunkReader shelf
sought = (seek shelf fresh (pos 3)).0

seek_ok : (seek shelf fresh (pos 3)).1 ≡ ok tt
unfolding seek graph_ar.EdgeInfo.new_edge_info graph_ar.ChunkReader.init_edge_chunk_num
    graph_ar.ChunkReader.at_chunk graph_ar.ChunkReader.init_or_update_edge_chunk_num
    graph_ar.ReaderUtil.get_edge_chunk_num graph_ar.EdgeInfo.Files.get_edges_num_file_path
    graph_ar.EdgeInfo.Files.list_directory graph_ar.EdgeInfo.Files.list_prefix
    graph_ar.Base.Assoc.find graph_ar.Base.Index.index_by graph_ar.Base.Assoc.assign
    graph_ar.Base.Assoc.vector_at graph_ar.Path.build_path
seek_ok = refl

chunk_gives : (get_chunk shelf shelf_rows sought).1 ≡ ok (some (pos 11 ∷ []))
unfolding seek get_chunk graph_ar.EdgeInfo.new_edge_info graph_ar.ChunkReader.init_edge_chunk_num
    graph_ar.ChunkReader.at_chunk graph_ar.ChunkReader.init_or_update_edge_chunk_num
    graph_ar.ReaderUtil.get_edge_chunk_num graph_ar.EdgeInfo.Files.get_edges_num_file_path
    graph_ar.EdgeInfo.Files.list_directory graph_ar.EdgeInfo.Files.list_prefix
    graph_ar.Base.Assoc.find graph_ar.Base.Index.index_by graph_ar.Base.Assoc.assign
    graph_ar.Base.Assoc.vector_at graph_ar.Path.build_path graph_ar.ReaderUtil.get_edge_num
    read_table graph_ar.EdgeInfo.Files.get_adj_list_file_path graph_ar.EdgeInfo.get_adjacent_list
    graph_ar.Base.Text.text_eq graph_ar.Base.Text.to_string
chunk_gives = refl

get_chunk-Reached_example :
    (whole : List ℤ) × (read_table shelf sought.fs sought.place ≡ ok whole)
    × ((pos 11 ∷ []) ≡ rows_from shelf shelf_rows sought whole)
get_chunk-Reached_example =
    get_chunk-Reached shelf shelf_rows sought (pos 11 ∷ [])
      (by_seek fresh (pos 3) (made knows ordered_by_source [] fresh fresh_made) seek_ok) chunk_gives

next_chunk-Ends_example : (s : Step (ChunkReader shelf)) × (next_chunk shelf fresh ≡ some s)
next_chunk-Ends_example = next_chunk-Ends shelf fresh
