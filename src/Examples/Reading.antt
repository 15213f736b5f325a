-- ===== src/Examples/Reading.antt =====
-- The theorems about the converter, the counts and the readers, at readers of the small graph.
use graph_ar.Base.{
  ℕ, suc, ◌≡◌, ◌≢◌, ◌+◌, ◌*◌, ◌/◌, ◌<◌, ◌>>=◌, refl, ok, some, none, err, status, index_error,
  io_error, List, [], ◌∷◌, map, true, false, arith, ltb, if◌then◌else◌,
}
use graph_ar.Base.Int.{pos}
use graph_ar.Base.Assoc.{is_none}
use graph_ar.Base.Text.{codes}
use graph_ar.Types.{ordered_by_source}
use graph_ar.Converter.{index_pair_to_global_chunk_index, global_chunk_index_to_index_pair}
use graph_ar.Converter.RoundTrip.{pair_round_trip}
use graph_ar.ReaderUtil.{
  get_edge_num, get_edge_chunk_num, get_vertex_num, get_vertex_chunk_num, quotient,
}
use graph_ar.Reader.AdjList.{AdjListReader, chunk_num_at, next_chunk, seek_src, seek_dst}
use graph_ar.Reader.AdjList.Next.{
  IsAt, moved_to, num_of, next_chunk_found, next_chunk_past, next_chunk_returns,
}
use graph_ar.Reader.AdjList.Seek.{
  IsCounted, IsPlaced, first_edge, seek_src-IsPlaced, seek_src-seek_src,
}
use graph_ar.Examples.{disk, knows_reader, likes_reader, knows, person}

counts_0 : chunk_num_at disk (knows_reader (pos 0) (pos 0) (pos 2)) (pos 0) ≡ ok (pos 2)
unfolding get_edge_chunk_num graph_ar.EdgeInfo.Files.get_edges_num_file_path
    graph_ar.EdgeInfo.Files.list_directory graph_ar.EdgeInfo.Files.list_prefix
    graph_ar.Base.Assoc.find graph_ar.EdgeInfo.new_edge_info graph_ar.Base.Index.index_by
    graph_ar.Base.Assoc.assign graph_ar.Base.Assoc.vector_at graph_ar.Path.build_path
    graph_ar.Base.Text.text_eq graph_ar.Base.Text.to_string
counts_0 = refl

counts_1 : chunk_num_at disk (knows_reader (pos 0) (pos 0) (pos 2)) (pos 1) ≡ ok (pos 0)
unfolding get_edge_chunk_num graph_ar.EdgeInfo.Files.get_edges_num_file_path
    graph_ar.EdgeInfo.Files.list_directory graph_ar.EdgeInfo.Files.list_prefix
    graph_ar.Base.Assoc.find graph_ar.EdgeInfo.new_edge_info graph_ar.Base.Index.index_by
    graph_ar.Base.Assoc.assign graph_ar.Base.Assoc.vector_at graph_ar.Path.build_path
    graph_ar.Base.Text.text_eq graph_ar.Base.Text.to_string
counts_1 = refl

counts_2 : chunk_num_at disk (knows_reader (pos 0) (pos 0) (pos 2)) (pos 2) ≡ ok (pos 1)
unfolding get_edge_chunk_num graph_ar.EdgeInfo.Files.get_edges_num_file_path
    graph_ar.EdgeInfo.Files.list_directory graph_ar.EdgeInfo.Files.list_prefix
    graph_ar.Base.Assoc.find graph_ar.EdgeInfo.new_edge_info graph_ar.Base.Index.index_by
    graph_ar.Base.Assoc.assign graph_ar.Base.Assoc.vector_at graph_ar.Path.build_path
    graph_ar.Base.Text.text_eq graph_ar.Base.Text.to_string
counts_2 = refl

-- The last edge chunk of the first vertex chunk; the next one is in the third.
abbrev at_last_of_first : AdjListReader
at_last_of_first = knows_reader (pos 0) (pos 1) (pos 2)

at_last_of_first-IsAt : IsAt disk at_last_of_first [] 2 (0 ∷ 1 ∷ []) 1
at_last_of_first-IsAt = record {
  vertex_chunk = refl;
  chunk = refl;
  total = refl;
  num = refl;
  counts = (counts_0, (counts_1, (counts_2, tt)));
  inside = omega arith;
}

next_chunk_found_example :
    (index_pair_to_global_chunk_index (pos 2 ∷ pos 0 ∷ pos 1 ∷ []) (pos 0) (pos 1)
      ≡ ok (pos (0 + 1)))
    × (next_chunk disk at_last_of_first
        ≡ some (
          moved_to disk at_last_of_first
              (global_chunk_index_to_index_pair (pos 2 ∷ pos 0 ∷ pos 1 ∷ []) (pos (suc (0 + 1))))
              (num_of (2 ∷ 0 ∷ 1 ∷ []) (suc (0 + 1))),
          ok tt,
        ))
next_chunk_found_example =
    next_chunk_found disk at_last_of_first [] 2 (0 ∷ 1 ∷ []) 1 at_last_of_first-IsAt (omega arith)

abbrev at_end : AdjListReader
at_end = knows_reader (pos 2) (pos 0) (pos 1)

at_end-IsAt : IsAt disk at_end (2 ∷ 0 ∷ []) 1 [] 0
at_end-IsAt = record {
  vertex_chunk = refl;
  chunk = refl;
  total = refl;
  num = refl;
  counts = (counts_0, (counts_1, (counts_2, tt)));
  inside = omega arith;
}

next_chunk_past_example :
    (w : AdjListReader) × (next_chunk disk at_end ≡ some (w, err (status index_error)))
next_chunk_past_example = next_chunk_past disk at_end (2 ∷ 0 ∷ []) 1 [] 0 at_end-IsAt (omega arith)

next_chunk_returns_example : is_none (next_chunk disk at_last_of_first) ≡ false
next_chunk_returns_example = next_chunk_returns disk at_last_of_first

-- The vertex 1 is in the first vertex chunk.
src_found :
    seek_src disk (knows_reader (pos 0) (pos 0) (pos 2)) (pos 1)
    ≡ (knows_reader (pos 0) (pos 1) (pos 2), ok tt)
unfolding seek_src graph_ar.EdgeInfo.new_edge_info graph_ar.Reader.AdjList.enter_vertex_chunk
    graph_ar.Reader.AdjList.seek_edges graph_ar.ReaderUtil.get_adj_list_offset_of_vertex
    graph_ar.EdgeInfo.Files.get_adj_list_offset_file_path graph_ar.EdgeInfo.Files.list_directory
    graph_ar.EdgeInfo.Files.list_prefix graph_ar.Base.Assoc.find graph_ar.Base.Index.index_by
    graph_ar.Base.Assoc.assign graph_ar.Base.Assoc.vector_at graph_ar.Path.build_path
    graph_ar.EdgeInfo.get_adjacent_list graph_ar.Reader.AdjList.seek
src_found = refl

seek_src-IsPlaced_example :
    IsPlaced disk
      (knows_reader (pos 0) (pos 0) (pos 2))
      (pos 2)
      (pos 1)
      (knows_reader (pos 0) (pos 1) (pos 2))
unfolding graph_ar.EdgeInfo.new_edge_info
seek_src-IsPlaced_example =
    seek_src-IsPlaced disk (knows_reader (pos 0) (pos 0) (pos 2))
      (knows_reader (pos 0) (pos 1) (pos 2)) (pos 1) counts_0 src_found

dst-IsCounted : IsCounted disk (likes_reader (pos 0) (pos 0) (pos 1))
unfolding get_edge_chunk_num graph_ar.EdgeInfo.Files.get_edges_num_file_path
    graph_ar.EdgeInfo.Files.list_directory graph_ar.EdgeInfo.Files.list_prefix
    graph_ar.Base.Assoc.find graph_ar.EdgeInfo.new_edge_info graph_ar.Base.Index.index_by
    graph_ar.Base.Assoc.assign graph_ar.Base.Assoc.vector_at graph_ar.Path.build_path
    graph_ar.Base.Text.text_eq graph_ar.Base.Text.to_string
dst-IsCounted = refl

dst_found :
    seek_dst disk (likes_reader (pos 0) (pos 0) (pos 1)) (pos 3)
    ≡ (likes_reader (pos 1) (pos 0) (pos 1), ok tt)
unfolding seek_dst graph_ar.EdgeInfo.new_edge_info graph_ar.Reader.AdjList.enter_vertex_chunk
    get_edge_chunk_num graph_ar.EdgeInfo.Files.get_edges_num_file_path
    graph_ar.EdgeInfo.Files.list_directory graph_ar.EdgeInfo.Files.list_prefix
    graph_ar.Base.Assoc.find graph_ar.Base.Index.index_by graph_ar.Base.Assoc.assign
    graph_ar.Base.Assoc.vector_at graph_ar.Path.build_path graph_ar.Base.Text.text_eq
    graph_ar.Base.Text.to_string graph_ar.Reader.AdjList.seek_edges graph_ar.Reader.AdjList.seek
dst_found = refl

-- A reader that takes the graph for larger than it is.
abbrev misled : AdjListReader
misled = record (knows_reader (pos 0) (pos 0) (pos 2)) { vertex_chunk_num = pos 9 }

count_missing : chunk_num_at disk misled (pos 7) ≡ err (status io_error)
unfolding get_edge_chunk_num graph_ar.EdgeInfo.Files.get_edges_num_file_path
    graph_ar.EdgeInfo.Files.list_directory graph_ar.EdgeInfo.Files.list_prefix
    graph_ar.Base.Assoc.find graph_ar.EdgeInfo.new_edge_info graph_ar.Base.Index.index_by
    graph_ar.Base.Assoc.assign graph_ar.Base.Assoc.vector_at graph_ar.Path.build_path
    graph_ar.Base.Text.text_eq graph_ar.Base.Text.to_string
count_missing = refl

-- The vertex 14 would be in vertex chunk 7.
offset_of_14 :
    (first_edge disk misled (pos 14) >>= λ first. quotient first misled.edge_info.chunk_size)
    ≡ ok (pos 1)
unfolding graph_ar.EdgeInfo.new_edge_info graph_ar.ReaderUtil.get_adj_list_offset_of_vertex
    graph_ar.EdgeInfo.Files.get_adj_list_offset_file_path graph_ar.EdgeInfo.Files.list_directory
    graph_ar.EdgeInfo.Files.list_prefix graph_ar.Base.Assoc.find graph_ar.Base.Index.index_by
    graph_ar.Base.Assoc.assign graph_ar.Base.Assoc.vector_at graph_ar.Path.build_path
    graph_ar.EdgeInfo.get_adjacent_list
offset_of_14 = refl

seek_src-seek_src_example :
    ((seek_src disk misled (pos 14)).1 ≡ err (status io_error))
    × (seek_src disk (seek_src disk misled (pos 14)).0 (pos 14)
        ≡ (record misled { vertex_chunk_index = pos 7; chunk_index = pos 1 }, ok tt))
unfolding graph_ar.EdgeInfo.new_edge_info
seek_src-seek_src_example =
    seek_src-seek_src disk misled (pos 14) (pos 7) (pos 1) (status io_error) refl refl (omega arith)
      (λ e. ground (arith, e)) count_missing offset_of_14 (omega arith)

pair_round_trip_example :
    (index_pair_to_global_chunk_index (pos 2 ∷ pos 0 ∷ pos 1 ∷ []) (pos 2) (pos 0) >>= λ g.
    ok (global_chunk_index_to_index_pair (pos 2 ∷ pos 0 ∷ pos 1 ∷ []) g))
    ≡ ok (pos 2, pos 0)
pair_round_trip_example = pair_round_trip (2 ∷ 0 ∷ 1 ∷ []) 2 0 1 refl (omega arith)

three_edges : get_edge_num disk (codes "/") knows ordered_by_source (pos 0) ≡ ok (pos 3)
unfolding get_edge_num graph_ar.EdgeInfo.Files.get_edges_num_file_path
    graph_ar.EdgeInfo.Files.list_directory graph_ar.EdgeInfo.Files.list_prefix
    graph_ar.Base.Assoc.find graph_ar.EdgeInfo.new_edge_info graph_ar.Base.Index.index_by
    graph_ar.Base.Assoc.assign graph_ar.Base.Assoc.vector_at graph_ar.Path.build_path
    graph_ar.Base.Text.text_eq graph_ar.Base.Text.to_string
three_edges = refl

five_vertices : get_vertex_num disk (codes "/") person ≡ ok (pos 5)
unfolding get_vertex_num graph_ar.VertexInfo.get_vertices_num_file_path graph_ar.Path.build_path
    graph_ar.VertexInfo.new_vertex_info graph_ar.Base.Text.text_eq
five_vertices = refl

knows_sized : knows.chunk_size ≡ pos 2
unfolding graph_ar.EdgeInfo.new_edge_info
knows_sized = refl

person_sized : person.chunk_size ≡ pos 2
unfolding graph_ar.VertexInfo.new_vertex_info
person_sized = refl
