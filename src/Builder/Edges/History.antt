-- ===== src/Builder/Edges/History.antt =====
-- What an `EdgesBuilder` holds after a history of calls (edges_builder.h, `AddEdge` and `Clear`).
use graph_ar.Base.{
  Bool, false, List, [], ◌∷◌, ◌++◌, ◌≡◌, ok, err, arith, refl, if◌then◌else◌, length, inl, inr,
  Result-cases, ap, Result, Bool-cases, subst, key_error, sym, length-append, ◌∙◌, ◌∙◌, append_nil,
}
use graph_ar.Base.Text.{Text}
use graph_ar.Base.Int.{ℤ, pos, ◌+ℤ◌, ◌==ℤ◌, ==ℤ_sound}
use graph_ar.Base.Assoc.{assign, find-assign, find}
use graph_ar.Types.{AdjListType}
use graph_ar.EdgeInfo.{EdgeInfo, has_adjacent_list_type}
use graph_ar.ReaderUtil.{quotient}
use graph_ar.Writer.{ValidateLevel, writer_level}
use graph_ar.Types.Names.{not_named}
use graph_ar.Builder.Edges.Defs.{
  Edge, EdgesBuilder, Chunks, chunk_Eq, chunk_edges, make, add_edge, put_edge, validate, clear,
  set_validate_level, partition_vertex, get_vertex_chunk_index, new_edges_builder,
}

-- Whether an edge belongs to a vertex chunk.
abbrev pub belongs : AdjListType → ℤ → ℤ → Edge → Bool
belongs type size j e = elim (quotient (partition_vertex type e) size) [
  | err f ↦ false
  | ok i ↦ i ==ℤ j
]

-- The edges of a vertex chunk, in their order.
unfoldable pub in_chunk : AdjListType → ℤ → ℤ → List Edge → List Edge
in_chunk type size j [] = []
in_chunk type size j (e ∷ es) =
    let rest = in_chunk type size j es in if belongs type size j e then e ∷ rest else rest

-- The builders that calls lead to, with the edges that were added since the last `Clear`, in order.
pub data Reached : EdgesBuilder → List Edge → Type 0 where
  made :
      (edge_info : EdgeInfo) (prefix : Text) (type : AdjListType) (n : ℤ) (level : ValidateLevel)
      (b : EdgesBuilder)
      → make edge_info prefix type n level ≡ ok b
      → Reached b []
  added :
      (b c : EdgesBuilder) (es fs : List Edge) (e : Edge) (level : ValidateLevel)
      → Reached b es
      → add_edge b e level ≡ (c, ok tt)
      → fs ≡ es ++ e ∷ []
      → Reached c fs
  levelled :
      (b : EdgesBuilder) (es : List Edge) (level : ValidateLevel)
      → Reached b es
      → Reached (set_validate_level b level) es
  cleared : (b : EdgesBuilder) (es : List Edge) → Reached b es → Reached (clear b) []

in_chunk-append :
    (type : AdjListType) (size j : ℤ) (xs ys : List Edge)
    → in_chunk type size j (xs ++ ys) ≡ in_chunk type size j xs ++ in_chunk type size j ys
unfolding in_chunk
in_chunk-append type size j [] ys = refl
in_chunk-append type size j (x ∷ xs) ys = ground (arith, in_chunk-append type size j xs ys)

chunk_edges-assign :
    (i j : ℤ) (es : List Edge) (m : Chunks)
    → chunk_edges j (assign i es m) ≡ (if i ==ℤ j then es else chunk_edges j m)
unfolding chunk_edges
chunk_edges-assign i j es m = ground (arith, find-assign i j es m)

-- What an accepted edge does to a builder.
abbrev Added : EdgesBuilder → EdgesBuilder → Edge → Type 0
Added b c e =
    (i : ℤ) × (quotient (partition_vertex b.adj_list_type e) b.vertex_chunk_size ≡ ok i)
    × (c ≡ record b {
      edges = assign i (chunk_edges i b.edges ++ e ∷ []) b.edges;
      num_edges = b.num_edges +ℤ pos 1;
    })

add_edge-Added :
    (b c : EdgesBuilder) (e : Edge) (level : ValidateLevel)
    → add_edge b e level ≡ (c, ok tt)
    → Added b c e
unfolding add_edge put_edge get_vertex_chunk_index
add_edge-Added b c e level h = elim (Result-cases (validate b e level)) [
  | inr (f, k) ↦ ground (arith, h, k)
  | inl (u, k) ↦
      elim (Result-cases (quotient (partition_vertex b.adj_list_type e) b.vertex_chunk_size)) [
        | inr (f, l) ↦ ground (arith, h, k, l)
        | inl (i, l) ↦ (i, l, ground (arith, h, k, l))
      ]
]

-- A builder holds in each chunk the edges of its history that belong there, and counts them all.
abbrev pub Holds : EdgesBuilder → List Edge → Type 0
Holds b es =
    ((j : ℤ) → chunk_edges j b.edges ≡ in_chunk b.adj_list_type b.vertex_chunk_size j es)
    × (b.num_edges ≡ pos (length es))

in_chunk-one :
    (type : AdjListType) (size j : ℤ) (e : Edge) (answer : Bool)
    → belongs type size j e ≡ answer
    → in_chunk type size j (e ∷ []) ≡ (if answer then e ∷ [] else [])
unfolding in_chunk
in_chunk-one type size j e answer h = rw h refl

-- An edge of chunk `i` joins what chunk `j` has, if they are the same.
joined :
    (i j : ℤ) (at_i at_j es : List Edge) (e : Edge)
    → (i ≡ j → at_i ≡ at_j)
    → at_j ≡ es
    → (if i ==ℤ j then at_i ++ e ∷ [] else at_j) ≡ es ++ (if i ==ℤ j then e ∷ [] else [])
joined i j at_i at_j es e h k = elim (Bool-cases (i ==ℤ j)) [
  | inl same ↦ rw same (cc (h (==ℤ_sound i j same), k))
  | inr apart ↦ rw apart (k ∙ sym (append_nil es))
]

added-chunk :
    (b : EdgesBuilder) (es : List Edge) (e : Edge) (i j : ℤ)
    → quotient (partition_vertex b.adj_list_type e) b.vertex_chunk_size ≡ ok i
    → ((k : ℤ) → chunk_edges k b.edges ≡ in_chunk b.adj_list_type b.vertex_chunk_size k es)
    → chunk_edges j (assign i (chunk_edges i b.edges ++ e ∷ []) b.edges)
      ≡ in_chunk b.adj_list_type b.vertex_chunk_size j (es ++ e ∷ [])
added-chunk b es e i j q h =
    let type = b.adj_list_type in
    let size = b.vertex_chunk_size in
    let here : belongs type size j e ≡ (i ==ℤ j) =
      ap (λ (r : Result ℤ). elim r [ err f ↦ false | ok k ↦ k ==ℤ j ]) q in
    chunk_edges-assign i j (chunk_edges i b.edges ++ e ∷ []) b.edges
    ∙ joined i j (chunk_edges i b.edges) (chunk_edges j b.edges) (in_chunk type size j es) e
        (λ same. ap (λ k. chunk_edges k b.edges) same) (h j)
    ∙ sym (ap (λ xs. in_chunk type size j es ++ xs) (in_chunk-one type size j e (i ==ℤ j) here))
    ∙ sym (in_chunk-append type size j es (e ∷ []))

make-empty :
    (edge_info : EdgeInfo) (prefix : Text) (type : AdjListType) (n : ℤ) (level : ValidateLevel)
    (b : EdgesBuilder)
    → make edge_info prefix type n level ≡ ok b
    → (b.edges ≡ []) × (b.num_edges ≡ pos 0)
unfolding make new_edges_builder
make-empty edge_info prefix type n level b h =
    elim (Bool-cases (has_adjacent_list_type edge_info type)) [
      | inr absent ↦ absurd (not_named type b key_error (ground (arith, h, absent)))
      | inl there ↦ elim (Result-cases (writer_level level)) [
        | inl (l, k) ↦ ground (arith, h, there, k)
        | inr (f, k) ↦ ground (arith, h, there, k)
      ]
    ]

Holds-empty : (b : EdgesBuilder) → b.edges ≡ [] → b.num_edges ≡ pos 0 → Holds b []
unfolding in_chunk chunk_edges find
Holds-empty b h k = (λ j. rw h refl, k)

Holds-Added :
    (b c : EdgesBuilder) (es : List Edge) (e : Edge)
    → Holds b es
    → Added b c e
    → Holds c (es ++ e ∷ [])
Holds-Added b c es e (chunks, num) (i, q, h) =
    subst (λ d. Holds d (es ++ e ∷ [])) (sym h)
      (λ j. added-chunk b es e i j q chunks, ground (arith, num, length-append es (e ∷ [])))

-- After any history of `Make`, `AddEdge` at any level, `SetValidateLevel` and `Clear`, with the edges
-- that were accepted since the last `Clear` in order: each vertex chunk of the builder holds exactly
-- those of them that the chunk index sends there, in that order, and their number is counted.
pub Reached-Holds : (b : EdgesBuilder) (es : List Edge) → Reached b es → Holds b es
unfolding set_validate_level clear
Reached-Holds b es (made edge_info prefix type n level c h) =
    let (none, zero) = make-empty edge_info prefix type n level b h in Holds-empty b none zero
Reached-Holds b es (added c d fs gs e level r h k) =
    subst (λ hs. Holds b hs) (sym k)
      (Holds-Added c b fs e (Reached-Holds c fs r) (add_edge-Added c b e level h))
Reached-Holds b es (levelled c fs level r) = Reached-Holds c es r
Reached-Holds b es (cleared c fs r) = Holds-empty (clear c) refl refl
