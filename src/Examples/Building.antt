-- ===== src/Examples/Building.antt =====
-- The theorems about the builders, at builders of the small graph.
use graph_ar.Builder.Edges.Saved.{dump-add_edge}
use graph_ar.Builder.Edges.Typed.{validate-convert_to_table}
use graph_ar.Builder.Edges.Tables.{table_of, convert_to_table-table_of}
use graph_ar.Builder.Edges.Layout.{Encloses, dumped_chunk, get_offset_table-dumped_chunk}
use graph_ar.Base.{
  ◌≡◌, refl, ok, err, some, none, true, false, List, [], ◌∷◌, status, invalid, arith, length, map,
}
use graph_ar.Base.Text.{codes}
use graph_ar.Base.Int.{ℤ, pos}
use graph_ar.Types.{ordered_by_source}
use graph_ar.Writer.{ValidateLevel}
use graph_ar.Builder.{AnyValue, c_int64}
use graph_ar.Builder.Edges.Defs.{Edge, EdgesBuilder, chunk_edges, add_edge}
use graph_ar.Builder.Edges.Dump.{EdgeSink, convert_to_table, dump}
use graph_ar.Builder.Edges.Dump.{
  dump_start, dump_with, dump_chunks, dump_ordered, dump_offsets, with_empty_chunks,
  dump_counts_and_tables, dump_edge_nums, dump_tables, group_columns, property_columns,
  append_to_array, append_indices, sorted_for, try_to_append,
}
use graph_ar.Builder.Edges.Offsets.{get_offset_table, offsets, passed}
use graph_ar.Base.Assoc.{emplace, assign, find}
use graph_ar.Base.Index.{index_by}
use graph_ar.Base.Text.{text_eq}
use graph_ar.Types.{id}
use graph_ar.Property.{index_properties}
use graph_ar.EdgeInfo.{new_edge_info}
use graph_ar.Builder.{arrow_type}
use graph_ar.Builder.Edges.History.{Reached, Holds, Reached-Holds}
use graph_ar.Examples.{knows, int64_pointer}
use graph_ar.Examples.Sorting.{sort_by, sort_by-Sorts}

-- A writer that keeps nothing.
abbrev silent_edges : EdgeSink
silent_edges = record {
  Files = Unit;
  Writer = Unit;
  sort = sort_by;
  new_writer = λ edge_info prefix type level. ok tt;
  write_offset_chunk = λ writer table i files. (files, ok tt);
  write_vertices_num = λ writer n files. (files, ok tt);
  write_edges_num = λ writer i n files. (files, ok tt);
  write_table = λ writer table i j files. (files, ok tt);
}

abbrev edge : ℤ → ℤ → Edge
edge src dst = record {
  src_id = src;
  dst_id = dst;
  empty = false;
  properties = (codes "id", record { cpp_type = c_int64; content = 7 }) ∷ [];
}

abbrev no_edges : EdgesBuilder
no_edges = record {
  edge_info = knows;
  prefix = codes "/";
  adj_list_type = ordered_by_source;
  edges = [];
  vertex_chunk_size = pos 2;
  num_vertices = pos 5;
  num_edges = pos 0;
  is_saved = false;
  validate_level = ValidateLevel.weak_validate;
}

abbrev one_edge : EdgesBuilder
one_edge = record no_edges { edges = (pos 1, edge (pos 3) (pos 0) ∷ []) ∷ []; num_edges = pos 1 }

abbrev two_edges : EdgesBuilder
two_edges = record no_edges {
  edges = (pos 1, edge (pos 3) (pos 0) ∷ edge (pos 2) (pos 4) ∷ []) ∷ [];
  num_edges = pos 2;
}

abbrev history : List Edge
history = edge (pos 3) (pos 0) ∷ edge (pos 2) (pos 4) ∷ []

two_edges-Reached : Reached two_edges history
unfolding graph_ar.Builder.Edges.Defs.make graph_ar.EdgeInfo.has_adjacent_list_type
    graph_ar.Base.Assoc.find graph_ar.EdgeInfo.new_edge_info graph_ar.Base.Index.index_by
    graph_ar.Base.Assoc.assign graph_ar.Builder.Edges.Defs.new_edges_builder
    graph_ar.Builder.Edges.Defs.add_edge graph_ar.Builder.Edges.Defs.validate
    graph_ar.Builder.Edges.Defs.put_edge graph_ar.Builder.Edges.Defs.get_vertex_chunk_index
    chunk_edges
two_edges-Reached =
    Reached.added one_edge two_edges (edge (pos 3) (pos 0) ∷ []) history (edge (pos 2) (pos 4))
      ValidateLevel.default_validate
      (Reached.added no_edges one_edge [] (edge (pos 3) (pos 0) ∷ []) (edge (pos 3) (pos 0))
        ValidateLevel.default_validate
        (Reached.made knows (codes "/") ordered_by_source (pos 5) ValidateLevel.weak_validate
          no_edges refl)
        refl refl)
      refl refl

Reached-Holds_example : Holds two_edges history
Reached-Holds_example = Reached-Holds two_edges history two_edges-Reached

get_offset_table-dumped_chunk_example :
    Encloses two_edges 1 1 (pos 3) history (dumped_chunk silent_edges two_edges 1)
get_offset_table-dumped_chunk_example =
    get_offset_table-dumped_chunk silent_edges two_edges history 1 1 1 sort_by-Sorts
      two_edges-Reached tt refl (omega arith) (omega arith)

two_edges_table : convert_to_table two_edges history ≡ ok (table_of two_edges history)
unfolding convert_to_table graph_ar.Builder.Edges.Dump.group_columns graph_ar.EdgeInfo.new_edge_info
    graph_ar.Builder.Edges.Dump.property_columns graph_ar.Builder.arrow_type
    graph_ar.Builder.Edges.Dump.append_to_array graph_ar.Types.id
    graph_ar.Builder.Edges.Dump.try_to_append graph_ar.Base.Assoc.find graph_ar.Base.Text.text_eq
    graph_ar.Builder.Edges.Dump.append_indices graph_ar.Builder.Edges.Tables.all_properties
two_edges_table = refl

convert_to_table-table_of_example : table_of two_edges history ≡ table_of two_edges history
convert_to_table-table_of_example =
    convert_to_table-table_of two_edges history (table_of two_edges history) two_edges_table

validate-convert_to_table_example :
    convert_to_table two_edges history ≡ ok (table_of two_edges history)
unfolding graph_ar.EdgeInfo.new_edge_info graph_ar.Builder.Edges.Tables.all_properties
    graph_ar.Types.id graph_ar.EdgeInfo.get_property_type graph_ar.Base.Assoc.find
    graph_ar.Property.index_properties graph_ar.Base.Text.text_eq
    graph_ar.Builder.Edges.Defs.validate graph_ar.EdgeInfo.has_adjacent_list_type
    graph_ar.Base.Index.index_by graph_ar.Base.Assoc.assign graph_ar.Builder.check_properties
    graph_ar.Builder.check_property graph_ar.EdgeInfo.has_property
validate-convert_to_table_example =
    validate-convert_to_table two_edges history tt
      (
        record {
          pointer = int64_pointer;
          cpp_type = c_int64;
          set = refl;
          stored = refl;
          declared = refl;
        },
        tt,
      )
      (refl, (refl, tt))

two_edges_dumped : (dump silent_edges two_edges tt).1 ≡ ok tt
unfolding dump dump_start dump_with dump_chunks dump_ordered dump_offsets with_empty_chunks emplace
    dump_counts_and_tables dump_edge_nums dump_tables convert_to_table group_columns new_edge_info
    property_columns arrow_type append_to_array assign find index_by text_eq chunk_edges
    append_indices sorted_for try_to_append get_offset_table offsets passed index_properties id
    sort_by graph_ar.Examples.Sorting.insert_by
two_edges_dumped = refl

dump-add_edge_example :
    ((j : ℤ) → chunk_edges j (dump silent_edges two_edges tt).0.0.edges ≡ [])
    × (add_edge
          (dump silent_edges two_edges tt).0.0
          (edge (pos 0) (pos 1))
          ValidateLevel.default_validate
        ≡ ((dump silent_edges two_edges tt).0.0, err (status invalid)))
dump-add_edge_example =
    dump-add_edge silent_edges two_edges tt (edge (pos 0) (pos 1)) ValidateLevel.default_validate
      two_edges_dumped tt
