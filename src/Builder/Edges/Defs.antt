-- ===== src/Builder/Edges/Defs.antt =====
-- `Edge`, and `EdgesBuilder` up to `AddEdge` and the `Make`s (high-level/edges_builder.h,
-- edges_builder.cc).
use graph_ar.Base.{
  Bool, true, false, not, List, [], ◌∷◌, ◌++◌, none, some, Result, Status, ok, err, status, invalid,
  key_error, ◌>>=◌, ◌>>◌, if◌then◌else◌, ◌≡◌, ◌≡◌, ◌↔◌, ◌↔◌, arith,
}
use graph_ar.Base.Text.{Text}
use graph_ar.Base.Int.{ℤ, pos, ◌+ℤ◌, ltb_ℤ, ◌==ℤ◌, ◌==ℤ◌, negsuc}
use graph_ar.Base.Assoc.{Eq, find, assign, text_Eq}
use graph_ar.Types.{
  AdjListType, unordered_by_source, unordered_by_dest, ordered_by_source, ordered_by_dest, other,
  error_naming,
}
use graph_ar.EdgeInfo.{EdgeInfo}
use graph_ar.EdgeInfo
use graph_ar.GraphInfo.{GraphInfo, get_edge_info}
use graph_ar.ReaderUtil.{quotient}
use graph_ar.Reader.Steps.{Step, with_value}
use graph_ar.Writer.{ValidateLevel, effective, writer_level}
use graph_ar.Builder.{AnyValue, check_properties}

pub record Edge : Type 0 where
  pub src_id : ℤ
  pub dst_id : ℤ
  pub empty : Bool
  pub properties : List (Text × AnyValue)

-- The constructor.
unfoldable pub new_edge : ℤ → ℤ → Edge
new_edge src_id dst_id = record { src_id = src_id; dst_id = dst_id; empty = true; properties = [] }

-- `AddProperty`.
unfoldable pub add_property : Edge → Text → AnyValue → Edge
add_property e name val = record e { empty = false; properties = assign name val e.properties }

-- `ContainProperty`.
unfoldable pub contain_property : Edge → Text → Bool
contain_property e name = elim (find name e.properties) [ none ↦ false | some v ↦ true ]

abbrev pub cmp_src : Edge → Edge → Bool
cmp_src a b = ltb_ℤ a.src_id b.src_id

abbrev pub cmp_dst : Edge → Edge → Bool
cmp_dst a b = ltb_ℤ a.dst_id b.dst_id

-- The edges of each vertex chunk.
abbrev pub Chunks : Type 0
Chunks = List (ℤ × List Edge)

pub record EdgesBuilder : Type 0 where
  pub edge_info : EdgeInfo
  pub prefix : Text
  pub adj_list_type : AdjListType
  pub edges : Chunks
  pub vertex_chunk_size : ℤ
  pub num_vertices : ℤ
  pub num_edges : ℤ
  pub is_saved : Bool
  pub validate_level : ValidateLevel

-- The chunk size that the constructor chooses.
abbrev pub builder_chunk_size : EdgeInfo → AdjListType → ℤ
builder_chunk_size e unordered_by_source = e.src_chunk_size
builder_chunk_size e ordered_by_source = e.src_chunk_size
builder_chunk_size e unordered_by_dest = e.dst_chunk_size
builder_chunk_size e ordered_by_dest = e.dst_chunk_size
builder_chunk_size e (other n) = e.src_chunk_size

-- The constructor. The writer options, which are only passed on, are left out.
unfoldable pub new_edges_builder :
    EdgeInfo → Text → AdjListType → ℤ → ValidateLevel → Result EdgesBuilder
new_edges_builder edge_info prefix adj_list_type num_vertices validate_level = do
  level ← writer_level validate_level
  ok (record {
    edge_info = edge_info;
    prefix = prefix;
    adj_list_type = adj_list_type;
    edges = [];
    vertex_chunk_size = builder_chunk_size edge_info adj_list_type;
    num_vertices = num_vertices;
    num_edges = pos 0;
    is_saved = false;
    validate_level = level;
  })

-- `SetValidateLevel`: the default level is passed over.
unfoldable pub set_validate_level : EdgesBuilder → ValidateLevel → EdgesBuilder
set_validate_level b level = record b { validate_level = effective b.validate_level level }

-- `Clear`.
unfoldable pub clear : EdgesBuilder → EdgesBuilder
clear b = record b { edges = []; num_edges = pos 0; is_saved = false }

-- The vertex by which an adjacent list partitions an edge.
abbrev pub partition_vertex : AdjListType → Edge → ℤ
partition_vertex unordered_by_source e = e.src_id
partition_vertex ordered_by_source e = e.src_id
partition_vertex unordered_by_dest e = e.dst_id
partition_vertex ordered_by_dest e = e.dst_id
partition_vertex (other n) e = e.src_id

-- `getVertexChunkIndex`.
unfoldable pub get_vertex_chunk_index : EdgesBuilder → Edge → Result ℤ
get_vertex_chunk_index b e = quotient (partition_vertex b.adj_list_type e) b.vertex_chunk_size

-- The checks of a weak validation.
abbrev pub weak_checks : EdgesBuilder → Status
weak_checks b =
    if b.is_saved
    then err (status invalid)
    else if not (EdgeInfo.has_adjacent_list_type b.edge_info b.adj_list_type)
    then error_naming b.adj_list_type key_error
    else ok tt

-- The checks of a strong validation.
abbrev pub strong_checks : EdgesBuilder → Edge → Status
strong_checks b e = do
  weak_checks b
  check_properties (EdgeInfo.has_property b.edge_info) (EdgeInfo.get_property_type b.edge_info)
      e.properties

-- `validate`.
unfoldable pub validate : EdgesBuilder → Edge → ValidateLevel → Status
validate b e level = elim (effective b.validate_level level) [
  | ValidateLevel.no_validate ↦ ok tt
  | ValidateLevel.default_validate ↦ weak_checks b
  | ValidateLevel.weak_validate ↦ weak_checks b
  | ValidateLevel.strong_validate ↦ strong_checks b e
]

pub ℤ_eq_iff : (a b : ℤ) → ((a ==ℤ b) ≡ true) ↔ (a ≡ b)
ℤ_eq_iff (pos a) (pos b) = ground arith
ℤ_eq_iff (pos a) (negsuc b) = ground arith
ℤ_eq_iff (negsuc a) (pos b) = ground arith
ℤ_eq_iff (negsuc a) (negsuc b) = ground arith

instance abbrev pub chunk_Eq : Eq ℤ
chunk_Eq = record { beq = ◌==ℤ◌; beq_iff = ℤ_eq_iff }

-- The edges of a chunk; `edges_[i]` makes an empty vector where there is none.
unfoldable pub chunk_edges : ℤ → Chunks → List Edge
chunk_edges i chunks = elim (find i chunks) [ none ↦ [] | some es ↦ es ]

-- The part of `AddEdge` behind the validation.
unfoldable pub put_edge : EdgesBuilder → Edge → Result EdgesBuilder
put_edge b e = do
  i ← get_vertex_chunk_index b e
  ok (record b {
    edges = assign i (chunk_edges i b.edges ++ e ∷ []) b.edges;
    num_edges = b.num_edges +ℤ pos 1;
  })

-- `AddEdge`.
unfoldable pub add_edge : EdgesBuilder → Edge → ValidateLevel → Step EdgesBuilder
add_edge b e level =
    with_value b (validate b e level)
      (λ valid. with_value b (put_edge b e) (λ added. (added, ok tt)))

-- `GetNum`.
unfoldable pub get_num : EdgesBuilder → ℤ
get_num b = b.num_edges

-- `Make` of an edge info.
unfoldable pub make : EdgeInfo → Text → AdjListType → ℤ → ValidateLevel → Result EdgesBuilder
make edge_info prefix adj_list_type num_vertices validate_level =
    if not (EdgeInfo.has_adjacent_list_type edge_info adj_list_type)
    then error_naming adj_list_type key_error
    else new_edges_builder edge_info prefix adj_list_type num_vertices validate_level

-- `Make` of a graph info and the types of an edge.
unfoldable pub make_of_types :
    GraphInfo → Text → Text → Text → AdjListType → ℤ → ValidateLevel → Result EdgesBuilder
make_of_types graph_info src_type edge_type dst_type adj_list_type num_vertices validate_level = do
  found ← get_edge_info graph_info src_type edge_type dst_type
  edge_info ← elim found [ none ↦ err (status key_error) | some e ↦ ok e ]
  make edge_info graph_info.prefix adj_list_type num_vertices validate_level
