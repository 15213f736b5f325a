-- ===== src/GraphInfo/Validation.antt =====
-- `IsValidated` of a graph info (graph_info.cc).
use graph_ar.Base.{
  ◌≡◌, ◌≢◌, ◌↔◌, refl, Bool, true, List, [], ◌∷◌, Option, none, some, All, arith, length,
}
use graph_ar.Base.Text.{Text}
use graph_ar.Base.Assoc.{text_Eq}
use graph_ar.Base.Index.{IsThere, DistinctKeys, keys_of, length-index_by_iff}
use graph_ar.Version.{InfoVersion}
use graph_ar.VertexInfo.{VertexInfo}
use graph_ar.VertexInfo
use graph_ar.EdgeInfo.{EdgeInfo}
use graph_ar.EdgeInfo
use graph_ar.GraphInfo.{
  GraphInfo, new_graph_info, all_validated, is_validated, vertex_key, edge_key,
}

-- The info is there and passes the check.
abbrev pub Passes {ℓ} : {A : Type ℓ} → (A → Bool) → Option A → Type 0
Passes check none = ⊥
Passes check (some x) = check x ≡ true

all_validated_iff {ℓ} :
    {A : Type ℓ} (check : A → Bool) (xs : List (Option A))
    → (all_validated check xs ≡ true) ↔ All (Passes check) xs
unfolding all_validated
all_validated_iff check [] = (λ _. tt, λ _. refl)
all_validated_iff check (none ∷ xs) = (λ h. cc, λ h. absurd h.0)
all_validated_iff check (some x ∷ xs) = ground (arith, all_validated_iff check xs)

there {ℓ} :
    {A : Type ℓ} (check : A → Bool) (xs : List (Option A)) → All (Passes check) xs → All IsThere xs
there check [] h = tt
there check (none ∷ xs) h = absurd h.0
there check (some x ∷ xs) h = (tt, there check xs h.1)

-- The rules for a graph info.
pub record IsGood (g : GraphInfo) : Type 0 where
  pub named : g.name ≢ []
  pub prefixed : g.prefix ≢ []
  pub vertices : All (Passes VertexInfo.is_validated) g.vertex_infos
  pub edges : All (Passes EdgeInfo.is_validated) g.edge_infos
  pub vertex_types_differ : DistinctKeys (keys_of vertex_key g.vertex_infos)
  pub edge_keys_differ : DistinctKeys (keys_of edge_key g.edge_infos)

is_validated_checks :
    (g : GraphInfo)
    → (is_validated g ≡ true) ↔ (
        (g.name ≢ [])
        × (g.prefix ≢ [])
        × (all_validated VertexInfo.is_validated g.vertex_infos ≡ true)
        × (all_validated EdgeInfo.is_validated g.edge_infos ≡ true)
        × (length g.vertex_infos ≡ length g.vtype_to_index)
        × (length g.edge_infos ≡ length g.etype_to_index))
unfolding is_validated
is_validated_checks g = ground arith

-- An info as the constructor makes it, by the arguments.
module _ (name : Text) (vs : List (Option VertexInfo)) (es : List (Option EdgeInfo))
    (labels : List Text) (prefix : Text) (version : Option InfoVersion)
    (extra_info : List (Text × Text)) where
  abbrev pub made : GraphInfo
  made = new_graph_info name vs es labels prefix version extra_info

  -- A graph info is validated exactly if its name and prefix are not empty, each of its vertex and
  -- edge infos is there and validated, no two vertex infos have one type, and no two edge infos have
  -- one key.
  pub graph_is_validated_iff : (is_validated made ≡ true) ↔ IsGood made
  unfolding new_graph_info
  graph_is_validated_iff = (sound, complete)
    where
      sound : is_validated made ≡ true → IsGood made
      sound h =
          let c = (is_validated_checks made).0 h in
          let vertices = (all_validated_iff VertexInfo.is_validated vs).0 c.2 in
          let edges = (all_validated_iff EdgeInfo.is_validated es).0 c.3 in
          record {
            named = c.0;
            prefixed = c.1;
            vertices = vertices;
            edges = edges;
            vertex_types_differ = (length-index_by_iff vertex_key vs (there _ vs vertices)).0 c.4;
            edge_keys_differ = (length-index_by_iff edge_key es (there _ es edges)).0 c.5;
          }

      complete : IsGood made → is_validated made ≡ true
      complete g = (is_validated_checks made).1 (
        g.named,
        g.prefixed,
        (all_validated_iff VertexInfo.is_validated vs).1 g.vertices,
        (all_validated_iff EdgeInfo.is_validated es).1 g.edges,
        (length-index_by_iff vertex_key vs (there _ vs g.vertices)).1 g.vertex_types_differ,
        (length-index_by_iff edge_key es (there _ es g.edges)).1 g.edge_keys_differ,
      )
