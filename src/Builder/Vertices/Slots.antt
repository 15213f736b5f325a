-- ===== src/Builder/Vertices/Slots.antt =====
-- `AddVertex` of high-level/vertices_builder.h against a function from places to vertices.
use graph_ar.Base.{
  ℕ, zero, suc, ◌<◌, leb, ◌==◌, List, [], ◌∷◌, ◌++◌, Option, none, some, ◌≡◌, ok, length,
  length-append, arith, refl, if◌then◌else◌, Result-cases, inl, inr, subst, ok-injective, ◌∙◌, ◌∙◌,
  ap, ◌↔◌, ◌↔◌,
}
use graph_ar.Base.Int.{ℤ, pos, negsuc, ◌+ℤ◌}
use graph_ar.Writer.{ValidateLevel}
use graph_ar.Builder.Vertices.{
  Vertex, VerticesBuilder, no_vertex, extended, put_at, put_vertex, add_vertex, validate,
}

-- The vertex at a place, which is empty if none was put there.
abbrev pub row : List Vertex → ℕ → Vertex
row [] j = no_vertex
row (v ∷ vs) zero = v
row (v ∷ vs) (suc j) = row vs j

-- The place that an index names: the next one for -1.
abbrev pub place_of : List Vertex → ℤ → Option ℕ
place_of vs (pos i) = some i
place_of vs (negsuc zero) = some (length vs)
place_of vs (negsuc (suc k)) = none

abbrev pub larger : ℕ → ℕ → ℕ
larger m n = if leb m n then n else m

row-extended : (vs : List Vertex) (n j : ℕ) → row (extended vs n) j ≡ row vs j
row-extended [] zero j = refl
row-extended [] (suc n) zero = refl
row-extended [] (suc n) (suc j) = row-extended [] n j
row-extended (v ∷ vs) zero j = refl
row-extended (v ∷ vs) (suc n) zero = refl
row-extended (v ∷ vs) (suc n) (suc j) = row-extended vs n j

length-extended : (vs : List Vertex) (n : ℕ) → length (extended vs n) ≡ larger (length vs) n
length-extended [] zero = ground arith
length-extended [] (suc n) = ground (arith, length-extended [] n)
length-extended (v ∷ vs) zero = ground arith
length-extended (v ∷ vs) (suc n) = ground (arith, length-extended vs n)

row-put_at :
    (vs : List Vertex) (i : ℕ) (v : Vertex) (j : ℕ)
    → i < length vs
    → row (put_at vs i v) j ≡ (if i == j then v else row vs j)
row-put_at [] i v j h = absurd (ground (arith, h))
row-put_at (w ∷ vs) zero v zero h = ground arith
row-put_at (w ∷ vs) zero v (suc j) h = ground arith
row-put_at (w ∷ vs) (suc i) v zero h = ground arith
row-put_at (w ∷ vs) (suc i) v (suc j) h = ground (arith, row-put_at vs i v j (omega arith))

length-put_at : (vs : List Vertex) (i : ℕ) (v : Vertex) → length (put_at vs i v) ≡ length vs
length-put_at [] i v = refl
length-put_at (w ∷ vs) zero v = refl
length-put_at (w ∷ vs) (suc i) v = omega (arith, length-put_at vs i v)

row-append :
    (vs : List Vertex) (v : Vertex) (j : ℕ)
    → row (vs ++ v ∷ []) j ≡ (if length vs == j then v else row vs j)
row-append [] v zero = ground arith
row-append [] v (suc j) = ground arith
row-append (w ∷ vs) v zero = ground arith
row-append (w ∷ vs) v (suc j) = ground (arith, row-append vs v j)

-- A vertex with the id of its place.
abbrev pub placed : Vertex → ℕ → Vertex
placed v i = record v { id = some (pos i) }

-- What an accepted vertex does to a builder.
abbrev pub PutAt : VerticesBuilder → VerticesBuilder → Vertex → ℕ → Type 0
PutAt b c v i =
    ((j : ℕ) → row c.vertices j ≡ (if i == j then placed v i else row b.vertices j))
    × (length c.vertices ≡ larger (length b.vertices) (suc i))
    × (c.num_vertices ≡ b.num_vertices +ℤ pos 1)

put_vertex-PutAt :
    (b c : VerticesBuilder) (v : Vertex) (index : ℤ)
    → put_vertex b v index ≡ ok c
    → (i : ℕ) × (place_of b.vertices index ≡ some i) × PutAt b c v i
unfolding put_vertex
put_vertex-PutAt b c v (pos i) h =
    let vs = extended b.vertices (suc i) in
    let long = length-extended b.vertices (suc i) in
    let there : i < length vs = ground (arith, long) in
    (
      i,
      refl,
      subst (λ d. PutAt b d v i) (ok-injective h)
          (
            λ j.
                row-put_at vs i (placed v i) j there
                ∙ ap (λ w. if i == j then placed v i else w) (row-extended b.vertices (suc i) j),
            length-put_at vs i (placed v i) ∙ long,
            refl,
          ),
    )
put_vertex-PutAt b c v (negsuc zero) h =
    let i = length b.vertices in
    (
      i,
      refl,
      subst (λ d. PutAt b d v i) (ok-injective h)
          (
            row-append b.vertices (placed v i),
            ground (arith, length-append b.vertices (placed v i ∷ [])),
            refl,
          ),
    )
put_vertex-PutAt b c v (negsuc (suc k)) h = ground (arith, h)

-- An `AddVertex` that is OK puts the vertex, with its place as its id, at the index, or behind the
-- last place for -1; no other place changes, the places up to it are there, and one is counted.
pub add_vertex-PutAt :
    (b c : VerticesBuilder) (v : Vertex) (index : ℤ) (level : ValidateLevel)
    → add_vertex b v index level ≡ (c, ok tt)
    → (i : ℕ) × (place_of b.vertices index ≡ some i) × PutAt b c v i
unfolding add_vertex
add_vertex-PutAt b c v index level h = elim (Result-cases (validate b v index level)) [
  | inr (f, k) ↦ absurd (ground (arith, h, k))
  | inl (u, k) ↦ elim (Result-cases (put_vertex b v index)) [
    | inr (f, l) ↦ absurd (ground (arith, h, k, l))
    | inl (d, l) ↦ put_vertex-PutAt b c v index (ground (arith, h, k, l))
  ]
]

-- If a builder counts its places, then after an `AddVertex` at an index that is OK it does so exactly
-- when the index was the next place: `num_vertices_` counts the calls.
pub add_vertex-num_vertices :
    (b c : VerticesBuilder) (v : Vertex) (i : ℕ) (level : ValidateLevel)
    → b.num_vertices ≡ pos (length b.vertices)
    → add_vertex b v (pos i) level ≡ (c, ok tt)
    → (c.num_vertices ≡ pos (length c.vertices)) ↔ (i ≡ length b.vertices)
add_vertex-num_vertices b c v i level n h =
    let (j, place, (rows, size, count)) = add_vertex-PutAt b c v (pos i) level h in
    let same : j ≡ i = ground (arith, place) in
    let sum : b.num_vertices +ℤ pos 1 ≡ pos (suc (length b.vertices)) = rw n (ground arith) in
    (
      λ counted. ground (arith, counted, count, sum, size, same),
      λ next. ground (arith, next, count, sum, size, same),
    )
