-- ===== src/GraphInfo.antt =====
-- `GraphInfo` of cpp/src/graphar/graph_info.h and graph_info.cc.
pub mod Lookup
pub mod Validation
pub mod Extend
use graph_ar.Base.{
  ℕ, suc, Bool, true, false, not, ◌||◌, ◌==◌, List, [], ◌∷◌, ◌++◌, Option, none, some, Result, ok,
  err, status, invalid, ◌>>=◌, ◌>>◌, reject_if, if◌then◌else◌, length,
}
use graph_ar.Base.Text.{Text, is_empty}
use graph_ar.Base.Int.{ℤ, pos, negsuc, ltb_ℤ, leb_ℤ, ◌==ℤ◌}
use graph_ar.Base.Assoc.{find, assign, or_minus_one, text_Eq, vector_at}
use graph_ar.Base.Index.{index_by}
use graph_ar.Version.{InfoVersion}
use graph_ar.VertexInfo.{VertexInfo}
use graph_ar.VertexInfo
use graph_ar.EdgeInfo.{EdgeInfo, concat_edge_triple}
use graph_ar.EdgeInfo

pub record GraphInfo : Type 0 where
  pub name : Text
  pub vertex_infos : List (Option VertexInfo)
  pub edge_infos : List (Option EdgeInfo)
  pub labels : List Text
  pub prefix : Text
  pub version : Option InfoVersion
  pub extra_info : List (Text × Text)
  pub vtype_to_index : List (Text × ℕ)
  pub etype_to_index : List (Text × ℕ)

-- The key of an edge info.
abbrev pub edge_key : EdgeInfo → Text
edge_key e = concat_edge_triple e.src_type e.edge_type e.dst_type

abbrev pub vertex_key : VertexInfo → Text
vertex_key v = v.type

-- The constructors of `GraphInfo` and `Impl`.
unfoldable pub new_graph_info :
    Text
    → List (Option VertexInfo)
    → List (Option EdgeInfo)
    → List Text
    → Text
    → Option InfoVersion
    → List (Text × Text)
    → GraphInfo
new_graph_info name vertex_infos edge_infos labels prefix version extra_info = record {
  name = name;
  vertex_infos = vertex_infos;
  edge_infos = edge_infos;
  labels = labels;
  prefix = prefix;
  version = version;
  extra_info = extra_info;
  vtype_to_index = index_by vertex_key 0 vertex_infos [];
  etype_to_index = index_by edge_key 0 edge_infos [];
}

unfoldable pub all_validated {ℓ} : {A : Type ℓ} → (A → Bool) → List (Option A) → Bool
all_validated check [] = true
all_validated check (none ∷ xs) = false
all_validated check (some x ∷ xs) =
    let rest = all_validated check xs in if check x then rest else false

-- `is_validated` of `Impl`, and `IsValidated`.
unfoldable pub is_validated : GraphInfo → Bool
is_validated g =
    if is_empty g.name || is_empty g.prefix
    then false
    else if not (all_validated VertexInfo.is_validated g.vertex_infos)
    then false
    else if not (all_validated EdgeInfo.is_validated g.edge_infos)
    then false
    else if not (length g.vertex_infos == length g.vtype_to_index)
        || not (length g.edge_infos == length g.etype_to_index)
    then false
    else true

-- `GetVertexInfoIndex`.
unfoldable pub get_vertex_info_index : GraphInfo → Text → ℤ
get_vertex_info_index g type = or_minus_one (find type g.vtype_to_index)

-- `GetVertexInfo`.
unfoldable pub get_vertex_info : GraphInfo → Text → Result (Option VertexInfo)
unfolding get_vertex_info_index
get_vertex_info g type =
    let i = get_vertex_info_index g type in
    if i ==ℤ negsuc 0 then ok none else vector_at g.vertex_infos i

-- `GetEdgeInfoIndex`.
unfoldable pub get_edge_info_index : GraphInfo → Text → Text → Text → ℤ
get_edge_info_index g src_type edge_type dst_type =
    or_minus_one (find (concat_edge_triple src_type edge_type dst_type) g.etype_to_index)

-- `GetEdgeInfo`.
unfoldable pub get_edge_info : GraphInfo → Text → Text → Text → Result (Option EdgeInfo)
unfolding get_edge_info_index
get_edge_info g src_type edge_type dst_type =
    let i = get_edge_info_index g src_type edge_type dst_type in
    if i ==ℤ negsuc 0 then ok none else vector_at g.edge_infos i

-- `VertexInfoNum` and `EdgeInfoNum`.
unfoldable pub vertex_info_num : GraphInfo → ℕ
vertex_info_num g = length g.vertex_infos

unfoldable pub edge_info_num : GraphInfo → ℕ
edge_info_num g = length g.edge_infos

-- `GetVertexInfoByIndex` and `GetEdgeInfoByIndex`.
unfoldable pub get_vertex_info_by_index : GraphInfo → ℤ → Result (Option VertexInfo)
get_vertex_info_by_index g index =
    if ltb_ℤ index (pos 0) || leb_ℤ (pos (length g.vertex_infos)) index
    then ok none
    else vector_at g.vertex_infos index

unfoldable pub get_edge_info_by_index : GraphInfo → ℤ → Result (Option EdgeInfo)
get_edge_info_by_index g index =
    if ltb_ℤ index (pos 0) || leb_ℤ (pos (length g.edge_infos)) index
    then ok none
    else vector_at g.edge_infos index

-- `AddVertex`: the constructor is called without extra information, which is empty by default.
unfoldable pub add_vertex : GraphInfo → Option VertexInfo → Result GraphInfo
unfolding get_vertex_info_index
add_vertex g none = err (status invalid)
add_vertex g (some v) = do
  reject_if (not (get_vertex_info_index g v.type ==ℤ negsuc 0)) invalid
  ok (
      new_graph_info g.name (g.vertex_infos ++ some v ∷ []) g.edge_infos g.labels g.prefix g.version
        [])

-- `AddEdge`.
unfoldable pub add_edge : GraphInfo → Option EdgeInfo → Result GraphInfo
unfolding get_edge_info_index
add_edge g none = err (status invalid)
add_edge g (some e) = do
  reject_if (not (get_edge_info_index g e.src_type e.edge_type e.dst_type ==ℤ negsuc 0)) invalid
  ok (
      new_graph_info g.name g.vertex_infos (g.edge_infos ++ some e ∷ []) g.labels g.prefix g.version
        [])

-- `CreateGraphInfo`.
unfoldable pub create_graph_info :
    Text
    → List (Option VertexInfo)
    → List (Option EdgeInfo)
    → List Text
    → Text
    → Option InfoVersion
    → List (Text × Text)
    → Option GraphInfo
create_graph_info name vertex_infos edge_infos labels prefix version extra_info =
    if is_empty name
    then none
    else some (new_graph_info name vertex_infos edge_infos labels prefix version extra_info)
