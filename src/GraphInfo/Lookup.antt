-- ===== src/GraphInfo/Lookup.antt =====
-- What the maps of a graph info find (graph_info.cc).
use mathlib.Core.List.{append_assoc}
use graph_ar.Base.Int.{ℤ, ◌==ℤ◌, negsuc}
use graph_ar.Base.{
  ℕ, All, Bool, Bool-cases, inl, inr, ◌&&◌, ◌≢◌, [], ◌∷◌, ap, sym, ◌≡◌, refl, ok, List, Option,
  ◌++◌, ◌∙◌, if◌then◌else◌, arith, some, Result, none,
}
use graph_ar.Base.Text.{Text, text_eq, text_eq_iff, text_eq_refl}
use graph_ar.Base.Assoc.{or_else, text_Eq, vector_at, or_minus_one}
use graph_ar.Base.Index.{last_of, item_at-last_of, item_at}
use graph_ar.Version.{InfoVersion}
use graph_ar.VertexInfo.{VertexInfo}
use graph_ar.EdgeInfo.{EdgeInfo, concat_edge_triple}
use graph_ar.GraphInfo.{
  GraphInfo, new_graph_info, get_vertex_info, get_edge_info, vertex_key, edge_key,
}

abbrev at_index {ℓ} : {A : Type ℓ} → List (Option A) → ℤ → Result (Option A)
at_index xs i = if i ==ℤ negsuc 0 then ok none else vector_at xs i

-- A lookup by -1 or a place, and one by an optional place.
at_index-item_at {ℓ} :
    {A : Type ℓ} (xs : List (Option A)) (o : Option ℕ) → at_index xs (or_minus_one o) ≡ item_at xs o
at_index-item_at xs none = refl
at_index-item_at xs (some i) = ground arith

module _ (name : Text) (vs : List (Option VertexInfo)) (es : List (Option EdgeInfo))
    (labels : List Text) (prefix : Text) (version : Option InfoVersion)
    (extra_info : List (Text × Text)) where
  abbrev pub info : GraphInfo
  info = new_graph_info name vs es labels prefix version extra_info

  -- `GetVertexInfo` gives the last vertex info of the type, and `GetEdgeInfo` the last edge info
  -- whose three types joined by '_' are those asked for; the null pointer if there is none.
  pub get_info_lem :
      ((type : Text) → get_vertex_info info type ≡ ok (last_of vertex_key type vs))
      × ((src_type edge_type dst_type : Text)
          → get_edge_info info src_type edge_type dst_type
            ≡ ok (last_of edge_key (concat_edge_triple src_type edge_type dst_type) es))
  unfolding new_graph_info get_vertex_info get_edge_info
  get_info_lem = (
    λ type. at_index-item_at vs _ ∙ item_at-last_of vertex_key type vs,
    λ src_type edge_type dst_type. at_index-item_at es _ ∙ item_at-last_of edge_key _ es,
  )

-- No character of a text is '_'.
abbrev pub LacksUnderscore : Text → Type 0
LacksUnderscore = All (λ c. c ≢ 95)

-- The first '_' splits a text in one way.
split_unique :
    (a b x y : Text)
    → LacksUnderscore a
    → LacksUnderscore b
    → a ++ 95 ∷ x ≡ b ++ 95 ∷ y
    → (a ≡ b) × (x ≡ y)
split_unique [] [] x y ha hb e = (refl, cc)
split_unique [] (d ∷ b) x y ha hb e = absurd (ground (arith, hb, e))
split_unique (c ∷ a) [] x y ha hb e = absurd (ground (arith, ha, e))
split_unique (c ∷ a) (d ∷ b) x y ha hb e =
    let (same, rest) = split_unique a b x y ha.1 hb.1 (cc) in (cc, rest)

concat_edge_triple-right : (s e d : Text) → concat_edge_triple s e d ≡ s ++ 95 ∷ (e ++ 95 ∷ d)
unfolding concat_edge_triple
concat_edge_triple-right s e d = simp append_assoc

-- The key of three types without '_' in the first two is that of no other such types.
concat_edge_triple-injective :
    (s e d s' e' d' : Text)
    → LacksUnderscore s
    → LacksUnderscore e
    → LacksUnderscore s'
    → LacksUnderscore e'
    → concat_edge_triple s e d ≡ concat_edge_triple s' e' d'
    → (s ≡ s') × (e ≡ e') × (d ≡ d')
concat_edge_triple-injective s e d s' e' d' hs he hs' he' same =
    let (src, rest) =
      split_unique s s' (e ++ 95 ∷ d) (e' ++ 95 ∷ d') hs hs'
        (sym (concat_edge_triple-right s e d) ∙ same ∙ concat_edge_triple-right s' e' d') in
    let (edge, dst) = split_unique e e' d d' he he' rest in (src, edge, dst)

-- The last edge info with three types, each compared by itself.
abbrev pub has_types : Text → Text → Text → EdgeInfo → Bool
has_types s e d i = text_eq i.src_type s && text_eq i.edge_type e && text_eq i.dst_type d

abbrev pub last_with_types : Text → Text → Text → List (Option EdgeInfo) → Option EdgeInfo
last_with_types s e d [] = none
last_with_types s e d (none ∷ es) = last_with_types s e d es
last_with_types s e d (some i ∷ es) =
    or_else (last_with_types s e d es) (if has_types s e d i then some i else none)

-- The source and edge types of the edge infos have no '_'.
abbrev pub PlainTypes : List (Option EdgeInfo) → Type 0
PlainTypes [] = Unit
PlainTypes (none ∷ es) = PlainTypes es
PlainTypes (some i ∷ es) = LacksUnderscore i.src_type × LacksUnderscore i.edge_type × PlainTypes es

same_key :
    (s e d : Text) (i : EdgeInfo)
    → LacksUnderscore s
    → LacksUnderscore e
    → LacksUnderscore i.src_type
    → LacksUnderscore i.edge_type
    → text_eq (edge_key i) (concat_edge_triple s e d) ≡ has_types s e d i
same_key s e d i hs he his hie =
    elim (Bool-cases (text_eq (edge_key i) (concat_edge_triple s e d))) [
      | inl same ↦
          let (a, b, c) =
            concat_edge_triple-injective i.src_type i.edge_type i.dst_type s e d his hie hs he
              ((text_eq_iff (edge_key i) (concat_edge_triple s e d)).0 same) in
          rw same (rw (a, b, c) (rw (text_eq_refl s, text_eq_refl e, text_eq_refl d)))
      | inr differs ↦ ground (
        arith,
        differs,
        text_eq_iff i.src_type s,
        text_eq_iff i.edge_type e,
        text_eq_iff i.dst_type d,
        text_eq_iff (edge_key i) (concat_edge_triple s e d),
      )
    ]

last_of-last_with_types :
    (s e d : Text) (es : List (Option EdgeInfo))
    → LacksUnderscore s
    → LacksUnderscore e
    → PlainTypes es
    → last_of edge_key (concat_edge_triple s e d) es ≡ last_with_types s e d es
last_of-last_with_types s e d [] hs he plain = refl
last_of-last_with_types s e d (none ∷ es) hs he plain = last_of-last_with_types s e d es hs he plain
last_of-last_with_types s e d (some i ∷ es) hs he (his, hie, plain) =
    rw (last_of-last_with_types s e d es hs he plain, same_key s e d i hs he his hie)

-- In a graph info whose edge infos have no '_' in their source and edge types, `GetEdgeInfo` gives, for
-- types of which the first two have no '_', the last edge info that has exactly these three types, or
-- the null pointer if there is none: joining the types by '_' confuses no two of them.
pub get_edge_info-last_with_types :
    (name : Text) (vs : List (Option VertexInfo)) (es : List (Option EdgeInfo)) (labels : List Text)
    (prefix : Text) (version : Option InfoVersion) (extra_info : List (Text × Text))
    → PlainTypes es
    → (src_type edge_type dst_type : Text) → LacksUnderscore src_type
    → LacksUnderscore edge_type
    → get_edge_info (info name vs es labels prefix version extra_info) src_type edge_type dst_type
      ≡ ok (last_with_types src_type edge_type dst_type es)
get_edge_info-last_with_types name vs es labels prefix version extra_info plain s e d hs he =
    (get_info_lem name vs es labels prefix version extra_info).1 s e d
    ∙ ap ok (last_of-last_with_types s e d es hs he plain)
