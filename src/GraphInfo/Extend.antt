-- ===== src/GraphInfo/Extend.antt =====
-- `AddVertex` and `AddEdge` of a graph info (graph_info.cc).
use graph_ar.Base.{
  All-append, ◌≡◌, subst, ◌∙◌, List, [], ◌∷◌, ◌++◌, Option, none, some, arith, ok, true, ◌⊎◌,
  if◌then◌else◌, ◌⊎◌, inl, inr,
}
use graph_ar.Base.Text.{Text, text_eq}
use graph_ar.Base.Assoc.{text_Eq, find}
use graph_ar.Base.Index.{DistinctKeys-append, index_by-OtherThan, index_by, last_of, last_of-append}
use graph_ar.Version.{InfoVersion}
use graph_ar.VertexInfo.{VertexInfo}
use graph_ar.VertexInfo
use graph_ar.EdgeInfo.{EdgeInfo, concat_edge_triple}
use graph_ar.EdgeInfo
use graph_ar.GraphInfo.{
  GraphInfo, is_validated, new_graph_info, vertex_key, edge_key, add_vertex, add_edge,
  get_vertex_info, get_vertex_info_index, get_edge_info_index, get_edge_info,
}
use graph_ar.GraphInfo.Validation.{IsGood, Passes, graph_is_validated_iff}
use graph_ar.GraphInfo.Lookup.{get_info_lem}

-- An info as the constructor makes it, by the arguments.
module _ (name : Text) (vs : List (Option VertexInfo)) (es : List (Option EdgeInfo))
    (labels : List Text) (prefix : Text) (version : Option InfoVersion)
    (extra_info : List (Text × Text)) where
  abbrev pub made : GraphInfo
  made = new_graph_info name vs es labels prefix version extra_info

  abbrev remade : List (Option VertexInfo) → List (Option EdgeInfo) → GraphInfo
  remade vertices edges = new_graph_info name vertices edges labels prefix version []

  add_vertex_ok :
      (v : VertexInfo) (w : GraphInfo)
      → add_vertex made (some v) ≡ ok w
      → (find v.type (index_by vertex_key 0 vs []) ≡ none) × (remade (vs ++ some v ∷ []) es ≡ w)
  unfolding add_vertex get_vertex_info_index new_graph_info
  add_vertex_ok v w h = ground arith

  add_edge_ok :
      (e : EdgeInfo) (w : GraphInfo)
      → add_edge made (some e) ≡ ok w
      → (find (edge_key e) (index_by edge_key 0 es []) ≡ none) × (remade vs (es ++ some e ∷ []) ≡ w)
  unfolding add_edge get_edge_info_index new_graph_info
  add_edge_ok e w h = ground arith

  get_vertex_info-remade :
      (vertices : List (Option VertexInfo)) (edges : List (Option EdgeInfo)) (type : Text)
      → get_vertex_info (remade vertices edges) type ≡ ok (last_of vertex_key type vertices)
  get_vertex_info-remade vertices edges type =
      (get_info_lem name vertices edges labels prefix version []).0 type

  -- After `AddVertex` succeeds, the type of the new vertex info finds it, and every other type finds
  -- what it found before.
  pub get_vertex_info-add_vertex :
      (v : VertexInfo) (w : GraphInfo)
      → add_vertex made (some v) ≡ ok w
      → (type : Text)
      → get_vertex_info w type
        ≡ (if text_eq v.type type then ok (some v) else get_vertex_info made type)
  get_vertex_info-add_vertex v w h type =
      subst
        (λ u.
          get_vertex_info u type
          ≡ (if text_eq v.type type then ok (some v) else get_vertex_info made type))
        (add_vertex_ok v w h).1
        (get_vertex_info-remade _ es type
          ∙ ground (
            arith,
            last_of-append vertex_key type vs v,
            (get_info_lem name vs es labels prefix version extra_info).0 type,
          ))

  -- After `AddEdge` succeeds, the three types of the new edge info find it, and so do all three types
  -- with the same key; three types with another key find what they found before.
  pub get_edge_info-add_edge :
      (e : EdgeInfo) (w : GraphInfo)
      → add_edge made (some e) ≡ ok w
      → (s t d : Text)
      → get_edge_info w s t d ≡ (
          if text_eq (edge_key e) (concat_edge_triple s t d)
          then ok (some e)
          else get_edge_info made s t d)
  get_edge_info-add_edge e w h s t d =
      subst
        (λ u. get_edge_info u s t d ≡ (
          if text_eq (edge_key e) (concat_edge_triple s t d)
          then ok (some e)
          else get_edge_info made s t d))
        (add_edge_ok e w h).1
        ((get_info_lem name vs (es ++ some e ∷ []) labels prefix version []).1 s t d
          ∙ ground (
            arith,
            last_of-append edge_key (concat_edge_triple s t d) es e,
            (get_info_lem name vs es labels prefix version extra_info).1 s t d,
          ))

  with_vertex-IsGood :
      (v : VertexInfo)
      → IsGood made
      → VertexInfo.is_validated v ≡ true
      → find v.type (index_by vertex_key 0 vs []) ≡ none
      → IsGood (remade (vs ++ some v ∷ []) es)
  unfolding new_graph_info
  with_vertex-IsGood v g good new = record {
    named = g.named;
    prefixed = g.prefixed;
    vertices = All-append (Passes VertexInfo.is_validated) vs (some v ∷ []) g.vertices (good, tt);
    edges = g.edges;
    vertex_types_differ =
        DistinctKeys-append vertex_key vs v g.vertex_types_differ
          (index_by-OtherThan vertex_key v.type vs new);
    edge_keys_differ = g.edge_keys_differ;
  }

  with_edge-IsGood :
      (e : EdgeInfo)
      → IsGood made
      → EdgeInfo.is_validated e ≡ true
      → find (edge_key e) (index_by edge_key 0 es []) ≡ none
      → IsGood (remade vs (es ++ some e ∷ []))
  unfolding new_graph_info
  with_edge-IsGood e g good new = record {
    named = g.named;
    prefixed = g.prefixed;
    vertices = g.vertices;
    edges = All-append (Passes EdgeInfo.is_validated) es (some e ∷ []) g.edges (good, tt);
    vertex_types_differ = g.vertex_types_differ;
    edge_keys_differ =
        DistinctKeys-append edge_key es e g.edge_keys_differ
          (index_by-OtherThan edge_key (edge_key e) es new);
  }

  -- A vertex info or an edge info that is added to the info, with the info that results.
  abbrev pub IsAdded : (VertexInfo ⊎ EdgeInfo) → GraphInfo → Type 0
  IsAdded (inl v) w = add_vertex made (some v) ≡ ok w
  IsAdded (inr e) w = add_edge made (some e) ≡ ok w

  -- A validated graph info stays validated when `AddVertex` succeeds with a validated vertex info,
  -- and when `AddEdge` succeeds with a validated edge info.
  pub graph_add-is_validated :
      (x : VertexInfo ⊎ EdgeInfo) (w : GraphInfo)
      → is_validated made ≡ true
      → (elim x [ inl v ↦ VertexInfo.is_validated v | inr e ↦ EdgeInfo.is_validated e ]) ≡ true
      → IsAdded x w
      → is_validated w ≡ true
  graph_add-is_validated (inl v) w valid passes h =
      let good = (graph_is_validated_iff name vs es labels prefix version extra_info).0 valid in
      let (new, same) = add_vertex_ok v w h in
      subst (λ u. is_validated u ≡ true) same
        ((graph_is_validated_iff name (vs ++ some v ∷ []) es labels prefix version []).1
          (with_vertex-IsGood v good passes new))
  graph_add-is_validated (inr e) w valid passes h =
      let good = (graph_is_validated_iff name vs es labels prefix version extra_info).0 valid in
      let (new, same) = add_edge_ok e w h in
      subst (λ u. is_validated u ≡ true) same
        ((graph_is_validated_iff name vs (es ++ some e ∷ []) labels prefix version []).1
          (with_edge-IsGood e good passes new))

  -- The graph info that `AddVertex` or `AddEdge` gives has no extra information, whatever the graph
  -- info had.
  pub add-extra_info : (x : VertexInfo ⊎ EdgeInfo) (w : GraphInfo) → IsAdded x w → w.extra_info ≡ []
  unfolding new_graph_info
  add-extra_info (inl v) w h = ground (arith, (add_vertex_ok v w h).1)
  add-extra_info (inr e) w h = ground (arith, (add_edge_ok e w h).1)
