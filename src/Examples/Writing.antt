-- ===== src/Examples/Writing.antt =====
-- The theorems about the writers, at writers of the small graph.
use graph_ar.Base.{◌≡◌, refl, ok, some, true, List, [], ◌∷◌, ◌++◌, arith, ◌≤◌}
use graph_ar.Base.Int.{pos}
use graph_ar.Base.Text.{Text, codes}
use graph_ar.Types.{ordered_by_source}
use graph_ar.VertexInfo.{VertexInfo}
use graph_ar.VertexInfo
use graph_ar.EdgeInfo
use graph_ar.Writer.{ValidateLevel, Copying, weak_validate, default_validate}
use graph_ar.Writer.Vertex.{VertexWriter, write_chunk, vertex_write_chunk_ok}
use graph_ar.Writer.Edge.{EdgeWriter, write_property_chunk, edge_write_property_chunk_ok}
use graph_ar.Examples.{disk, person, knows, id_group}

-- The files are the paths that have been copied to.
abbrev log : Copying disk
log = record { Files = List Text; copy_file = λ fs from to files. (to ∷ files, ok tt) }

abbrev person_writer : VertexWriter disk log
person_writer = record {
  vertex_info = person;
  prefix = codes "/";
  fs = tt;
  validate_level = weak_validate;
}

abbrev knows_writer : EdgeWriter disk log
knows_writer = record {
  edge_info = knows;
  adj_list_type = ordered_by_source;
  chunk_size = pos 2;
  vertex_chunk_size = pos 2;
  prefix = codes "/";
  fs = tt;
  validate_level = weak_validate;
}

person_written :
    write_chunk disk log person_writer (codes "new") (some id_group) (pos 1) default_validate []
    ≡ (codes "/person/id/chunk1" ∷ [], ok tt)
unfolding write_chunk graph_ar.Writer.Vertex.validate VertexInfo.has_group
    graph_ar.Property.has_property_group VertexInfo.new_vertex_info graph_ar.Base.Text.text_eq
    VertexInfo.get_file_path graph_ar.Path.build_path graph_ar.Base.Text.to_string
person_written = refl

knows_written :
    write_property_chunk disk log knows_writer
      (codes "new")
      (some id_group)
      (pos 1)
      (pos 0)
      default_validate
      []
    ≡ (codes "/knows/by_src/id/part1/chunk0" ∷ [], ok tt)
unfolding write_property_chunk graph_ar.Writer.Edge.validate_group graph_ar.Writer.Edge.validate
    EdgeInfo.has_adjacent_list_type graph_ar.Base.Assoc.find EdgeInfo.new_edge_info
    graph_ar.Base.Index.index_by graph_ar.Base.Assoc.assign EdgeInfo.has_group
    graph_ar.Property.has_property_group graph_ar.Base.Text.text_eq
    EdgeInfo.Files.get_property_file_path EdgeInfo.Files.list_prefix graph_ar.Base.Assoc.vector_at
    graph_ar.Path.build_path graph_ar.Base.Text.to_string
knows_written = refl
