-- ===== src/Examples/Placing.antt =====
-- The theorems about the vertices builder and the versions, at a builder of persons and a version.
use graph_ar.Base.{
  ◌≡◌, ◌↔◌, ◌⊎◌, refl, ok, err, some, none, true, false, List, [], ◌∷◌, status, invalid, arith,
  length, map, suc, Result, All, ℕ,
}
use graph_ar.Base.Text.{Text, codes}
use graph_ar.Base.Int.{pos}
use graph_ar.Writer.{ValidateLevel}
use graph_ar.Builder.{AnyValue, c_int64}
use graph_ar.Builder.Vertices.{
  Vertex, VerticesBuilder, VertexSink, Table, add_vertex, convert_to_table, dump, no_vertex,
}
use graph_ar.Builder.Vertices.Slots.{add_vertex-PutAt, add_vertex-num_vertices, PutAt, place_of}
use graph_ar.Builder.Vertices.Tables.{convert_to_table-column_of, column_of}
use graph_ar.Builder.Edges.Tables.{all_properties}
use graph_ar.Version.{InfoVersion, version_to_string}
use graph_ar.Version.Parse.{parse}
use graph_ar.Version.Parse.RoundTrip.{IsReadable, parse-version_to_string, parse-IsReadable}
use graph_ar.Examples.{person}

-- A writer that keeps nothing.
abbrev silent_vertices : VertexSink
silent_vertices = record {
  Files = Unit;
  Writer = Unit;
  new_writer = λ vertex_info prefix level. ok tt;
  write_table = λ writer table i files. (files, ok tt);
  write_vertices_num = λ writer n files. (files, ok tt);
}

abbrev somebody : Vertex
somebody = record {
  id = none;
  empty = false;
  properties = (codes "id", record { cpp_type = c_int64; content = 7 }) ∷ [];
}

abbrev nobody : VerticesBuilder
nobody = record {
  vertex_info = person;
  prefix = codes "/";
  vertices = [];
  start_vertex_index = pos 0;
  num_vertices = pos 0;
  is_saved = false;
  validate_level = ValidateLevel.weak_validate;
}

-- A builder to which a vertex was added at index 2.
abbrev far_body : VerticesBuilder
far_body = record nobody {
  vertices = no_vertex ∷ no_vertex ∷ record somebody { id = some (pos 2) } ∷ [];
  num_vertices = pos 1;
}

far_body-added :
    add_vertex nobody somebody (pos 2) ValidateLevel.strong_validate ≡ (far_body, ok tt)
unfolding add_vertex graph_ar.Builder.Vertices.validate graph_ar.VertexInfo.new_vertex_info
    graph_ar.Builder.check_properties graph_ar.Builder.check_property
    graph_ar.VertexInfo.has_property graph_ar.Base.Assoc.find graph_ar.Property.index_properties
    graph_ar.Base.Text.text_eq graph_ar.VertexInfo.get_property_type graph_ar.Types.id
    graph_ar.Builder.Vertices.put_vertex
far_body-added = refl

add_vertex-PutAt_example :
    (i : ℕ) × (place_of nobody.vertices (pos 2) ≡ some i) × PutAt nobody far_body somebody i
add_vertex-PutAt_example =
    add_vertex-PutAt nobody far_body somebody (pos 2) ValidateLevel.strong_validate far_body-added

add_vertex-num_vertices_example :
    (far_body.num_vertices ≡ pos (length far_body.vertices)) ↔ (2 ≡ length nobody.vertices)
add_vertex-num_vertices_example =
    add_vertex-num_vertices nobody far_body somebody 2 ValidateLevel.strong_validate refl
      far_body-added

abbrev far_table : Table
far_table = map (column_of far_body.vertices) (all_properties far_body.vertex_info.property_groups)

far_body_table : convert_to_table far_body ≡ ok far_table
unfolding convert_to_table graph_ar.Builder.Vertices.group_columns
    graph_ar.VertexInfo.new_vertex_info graph_ar.Builder.Vertices.property_columns
    graph_ar.Builder.arrow_type graph_ar.Builder.Vertices.append_to_array graph_ar.Types.id
    graph_ar.Builder.Vertices.try_to_append graph_ar.Base.Assoc.find graph_ar.Base.Text.text_eq
    all_properties
far_body_table = refl

convert_to_table-column_of_example :
    far_table
    ≡ map (column_of far_body.vertices) (all_properties far_body.vertex_info.property_groups)
convert_to_table-column_of_example = convert_to_table-column_of far_body far_table far_body_table

abbrev typed_version : InfoVersion
typed_version = record { version = pos 1; user_define_types = codes "point" ∷ [] }

typed_version-reads : parse (codes "gar/v1 ( point,)") ≡ ok typed_version
unfolding parse graph_ar.Version.Parse.parser_version_impl graph_ar.Version.new_info_version
    graph_ar.Version.Parse.parse_user_define_types_impl
typed_version-reads = refl

typed_version-IsReadable : IsReadable typed_version
typed_version-IsReadable = record {
  supported = refl;
  names = (record { named = refl; trimmed = refl; one = omega arith; on_line = ground arith }, tt);
}

parse-version_to_string_example : parse (version_to_string typed_version) ≡ ok typed_version
parse-version_to_string_example = parse-version_to_string typed_version typed_version-IsReadable

parse-IsReadable_example :
    (parse (codes "gar/v2") ≡ err (status invalid))
    ⊎ ((v : InfoVersion) × (parse (codes "gar/v2") ≡ ok v) × IsReadable v)
parse-IsReadable_example = parse-IsReadable (codes "gar/v2")
