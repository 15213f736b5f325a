-- ===== src/Builder/Edges/Layout.antt =====
-- Where the offsets that an `EdgesBuilder` writes lead to: `AddEdge`, the sort of `Dump` and
-- `getOffsetTable` together (edges_builder.h, edges_builder.cc).
use graph_ar.Base.{
  ℕ, suc, ◌+◌, ◌*◌, ◌/◌, ◌<◌, ◌≤◌, Bool, true, false, List, [], ◌∷◌, ◌≡◌, Result, ok, err, arith,
  refl, All, Bool-cases, inl, inr, sym, ap, subst, ◌∙◌,
}
use graph_ar.Base.Int.{ℤ, pos, negsuc, pos_part, ◌+ℤ◌, ◌*ℤ◌, ◌==ℤ◌, ◌≤ℤ◌, ltb_ℤ, ==ℤ_sound}
use graph_ar.Types.{
  AdjListType, unordered_by_source, unordered_by_dest, ordered_by_source, ordered_by_dest, other,
}
use graph_ar.ReaderUtil.{quotient}
use graph_ar.Builder.Edges.Defs.{Edge, EdgesBuilder, chunk_edges, partition_vertex}
use graph_ar.Builder.Edges.Offsets.{get_offset_table, offset_vertex, offsets}
use graph_ar.Builder.Edges.Csr.{AtLeast, Sorted, Slice, edges_of, offsets-Slice}
use graph_ar.Builder.Edges.Dump.{EdgeSink, sorted_for}
use graph_ar.Builder.Edges.History.{Reached, Reached-Holds, belongs, in_chunk}
use mathlib.Core.List.{Perm}
use mathlib.Core.List.Perm
use native.Mathlib.Nat.{div-eq_of_lt-le, div-mul-le_self}
use graph_ar.Builder.Edges.Order.{AtLeast-Perm, edges_of-Perm}

-- `std::sort` by the order of a vertex: the same edges, in that order.
abbrev pub Sorts : ((Edge → Edge → Bool) → List Edge → List Edge) → Type 0
Sorts sort =
    (key : Edge → ℤ) (es : List Edge)
    → Perm (sort (λ a b. ltb_ℤ (key a) (key b)) es) es
      × Sorted key (sort (λ a b. ltb_ℤ (key a) (key b)) es)

abbrev pub IsOrdered : AdjListType → Type 0
IsOrdered ordered_by_source = Unit
IsOrdered ordered_by_dest = Unit
IsOrdered unordered_by_source = ⊥
IsOrdered unordered_by_dest = ⊥
IsOrdered (other n) = ⊥

-- No edge has a negative vertex.
abbrev pub NonNegative : AdjListType → List Edge → Type 0
NonNegative type es = All (λ e. pos 0 ≤ℤ partition_vertex type e) es

chunk_of : (v s : ℕ) → quotient (pos v) (pos (suc s)) ≡ ok (pos (v / suc s))
chunk_of v s = ground arith

begin_of : (m s : ℕ) → pos m *ℤ pos (suc s) ≡ pos (m * suc s)
begin_of m s = ground arith

pos_sum : (a k : ℕ) → pos a +ℤ pos k ≡ pos (a + k)
pos_sum a k = ground arith

-- Whether a vertex is in a chunk, as `belongs` has it of an edge.
abbrev is_in : ℤ → ℤ → ℤ → Bool
is_in x size j = elim (quotient x size) [ err f ↦ false | ok i ↦ i ==ℤ j ]

is_in-begin :
    (x : ℤ) (s m : ℕ) → pos 0 ≤ℤ x → is_in x (pos (suc s)) (pos m) ≡ true → pos (m * suc s) ≤ℤ x
is_in-begin (pos v) s m h k =
    let at : pos (v / suc s) ≡ pos m = ==ℤ_sound (pos (v / suc s)) (pos m) (
      sym (ap (λ (r : Result ℤ). elim r [ err f ↦ false | ok i ↦ i ==ℤ pos m ]) (chunk_of v s))
      ∙ k) in
    let quotient_is : v / suc s ≡ m = ground (arith, at) in
    let below : v / suc s * suc s ≤ v = div-mul-le_self v (suc s) in
    subst (λ n. n * suc s + 0 ≤ v + 0) quotient_is (omega (arith, below))
is_in-begin (negsuc v) s m h k = absurd (ground (arith, h))

is_in-here : (s m k : ℕ) → k < suc s → is_in (pos (m * suc s + k)) (pos (suc s)) (pos m) ≡ true
is_in-here s m k h =
    let v = m * suc s + k in
    let at : v / suc s ≡ m = div-eq_of_lt-le (suc s) {m = v} (omega arith) (omega arith) in
    ap (λ (r : Result ℤ). elim r [ err f ↦ false | ok i ↦ i ==ℤ pos m ]) (chunk_of v s)
    ∙ ground (arith, at)

belongs-begin :
    (type : AdjListType) (s m : ℕ) (e : Edge)
    → pos 0 ≤ℤ partition_vertex type e
    → belongs type (pos (suc s)) (pos m) e ≡ true
    → pos (m * suc s) ≤ℤ partition_vertex type e
belongs-begin type s m e h k = is_in-begin (partition_vertex type e) s m h k

belongs-here :
    (type : AdjListType) (s m k : ℕ) (e : Edge)
    → k < suc s
    → partition_vertex type e ≡ pos (m * suc s + k)
    → belongs type (pos (suc s)) (pos m) e ≡ true
belongs-here type s m k e h v =
    subst (λ x. is_in x (pos (suc s)) (pos m) ≡ true) (sym v) (is_in-here s m k h)

in_chunk-AtLeast :
    (type : AdjListType) (s m : ℕ) (es : List Edge)
    → NonNegative type es
    → AtLeast (partition_vertex type) (pos (m * suc s)) (in_chunk type (pos (suc s)) (pos m) es)
unfolding in_chunk
in_chunk-AtLeast type s m [] h = tt
in_chunk-AtLeast type s m (e ∷ es) h = elim (Bool-cases (belongs type (pos (suc s)) (pos m) e)) [
  | inl b ↦ rw b (belongs-begin type s m e h.0 b, in_chunk-AtLeast type s m es h.1)
  | inr b ↦ rw b (in_chunk-AtLeast type s m es h.1)
]

-- The edges of a vertex are all in its chunk.
edges_of-in_chunk :
    (type : AdjListType) (s m k : ℕ) (es : List Edge)
    → k < suc s
    → edges_of
        (partition_vertex type)
        (pos (m * suc s + k))
        (in_chunk type (pos (suc s)) (pos m) es)
      ≡ edges_of (partition_vertex type) (pos (m * suc s + k)) es
unfolding in_chunk edges_of
edges_of-in_chunk type s m k [] h = refl
edges_of-in_chunk type s m k (e ∷ es) h =
    let key = partition_vertex type in
    let v = pos (m * suc s + k) in
    let ih = edges_of-in_chunk type s m k es h in
    elim (Bool-cases (key e ==ℤ v)) [
      | inl same ↦
          let b : belongs type (pos (suc s)) (pos m) e ≡ true =
            belongs-here type s m k e h (==ℤ_sound (key e) v same) in
          rw b (rw same (cc ih))
      | inr apart ↦ elim (Bool-cases (belongs type (pos (suc s)) (pos m) e)) [
        | inl b ↦ rw b (rw apart ih)
        | inr b ↦ rw b (rw apart ih)
      ]
    ]

module _ (sink : EdgeSink) (sorts : Sorts sink.sort) where
  -- What a sort by a vertex makes of the chunk of a vertex.
  sorted_chunk :
      (key : Edge → ℤ) (es : List Edge) (size m k : ℕ)
      → AtLeast key (pos (m * size)) es
      → k < size
      → let sorted = sink.sort (λ a b. ltb_ℤ (key a) (key b)) es in
        Slice
          (0 ∷ offsets key size (pos (m * size)) 0 sorted)
          k
          sorted
          (edges_of key (pos (m * size + k)) sorted)
        × Perm (edges_of key (pos (m * size + k)) sorted) (edges_of key (pos (m * size + k)) es)
  sorted_chunk key es size m k a h =
      let sorted = sink.sort (λ a b. ltb_ℤ (key a) (key b)) es in
      let (p, s) = sorts key es in
      (
        subst
            (λ v.
              Slice (0 ∷ offsets key size (pos (m * size)) 0 sorted) k sorted
                (edges_of key v sorted))
            (pos_sum (m * size) k)
            (offsets-Slice key size (pos (m * size)) [] sorted k
              (AtLeast-Perm key (pos (m * size)) es sorted (Perm.symm p) a) s h),
        edges_of-Perm key (pos (m * size + k)) sorted es p,
      )

  ordered_layout :
      (type : AdjListType) (es : List Edge) (size m k : ℕ)
      → IsOrdered type
      → AtLeast (partition_vertex type) (pos (m * size)) es
      → k < size
      → let sorted = sorted_for sink type es in
        Slice
          (0 ∷ offsets (offset_vertex type) size (pos (m * size)) 0 sorted)
          k
          sorted
          (edges_of (partition_vertex type) (pos (m * size + k)) sorted)
        × Perm
            (edges_of (partition_vertex type) (pos (m * size + k)) sorted)
            (edges_of (partition_vertex type) (pos (m * size + k)) es)
  unfolding sorted_for
  ordered_layout ordered_by_source es size m k o a h = sorted_chunk (λ e. e.src_id) es size m k a h
  ordered_layout ordered_by_dest es size m k o a h = sorted_chunk (λ e. e.dst_id) es size m k a h
  ordered_layout unordered_by_source es size m k o a h = absurd o
  ordered_layout unordered_by_dest es size m k o a h = absurd o
  ordered_layout (other n) es size m k o a h = absurd o

get_offset_table-chunk :
    (b : EdgesBuilder) (s m : ℕ) (es : List Edge)
    → b.vertex_chunk_size ≡ pos (suc s)
    → get_offset_table b (pos m) es
      ≡ 0 ∷ offsets (offset_vertex b.adj_list_type) (suc s) (pos (m * suc s)) 0 es
unfolding get_offset_table
get_offset_table-chunk b s m es h =
    ap (λ c. 0 ∷ offsets (offset_vertex b.adj_list_type) (pos_part c) (pos m *ℤ c) 0 es) h
    ∙ ap (λ i. 0 ∷ offsets (offset_vertex b.adj_list_type) (suc s) i 0 es) (begin_of m s)

-- The chunk of a vertex as `Dump` sorts it, and the edges of the vertex in a list of edges.
abbrev pub dumped_chunk : EdgeSink → EdgesBuilder → ℕ → List Edge
dumped_chunk sink b m = sorted_for sink b.adj_list_type (chunk_edges (pos m) b.edges)

abbrev pub edges_at : EdgesBuilder → ℤ → List Edge → List Edge
edges_at b v es = edges_of (partition_vertex b.adj_list_type) v es

-- The offsets `k` and `k + 1` of a chunk enclose the edges of a vertex, which are those of a list.
abbrev pub Encloses : EdgesBuilder → ℕ → ℕ → ℤ → List Edge → List Edge → Type 0
Encloses b m k v es chunk =
    Slice (get_offset_table b (pos m) chunk) k chunk (edges_at b v chunk)
    × Perm (edges_at b v chunk) (edges_at b v es)

-- For a builder of an ordered list with a positive vertex chunk size, into which a history of calls
-- put edges without negative vertices: in the table of `getOffsetTable` for vertex chunk m, sorted as
-- `Dump` sorts it, the offsets k and k + 1 enclose exactly the edges of vertex m * size + k, and these
-- are, up to their order, all edges of the history with that vertex.
pub get_offset_table-dumped_chunk :
    (sink : EdgeSink) (b : EdgesBuilder) (es : List Edge) (s m k : ℕ)
    → Sorts sink.sort
    → Reached b es
    → IsOrdered b.adj_list_type
    → b.vertex_chunk_size ≡ pos (suc s)
    → NonNegative b.adj_list_type es
    → k < suc s
    → Encloses b m k (pos (m * suc s + k)) es (dumped_chunk sink b m)
get_offset_table-dumped_chunk sink b es s m k sorts r o size n h =
    let type = b.adj_list_type in
    let inside = in_chunk type (pos (suc s)) (pos m) es in
    let held : chunk_edges (pos m) b.edges ≡ inside =
      (Reached-Holds b es r).0 (pos m) ∙ ap (λ c. in_chunk type c (pos m) es) size in
    let (slice, same) =
      ordered_layout sink sorts type inside (suc s) m k o (in_chunk-AtLeast type s m es n) h in
    let sorted = sorted_for sink type inside in
    let v = pos (m * suc s + k) in
    let ends : Slice (get_offset_table b (pos m) sorted) k sorted (edges_at b v sorted) =
      subst (λ t. Slice t k sorted (edges_at b v sorted))
        (sym (get_offset_table-chunk b s m sorted size)) slice in
    let all : Perm (edges_at b v sorted) (edges_at b v es) =
      subst (λ fs. Perm (edges_at b v sorted) fs) (edges_of-in_chunk type s m k es h) same in
    subst (λ xs. Encloses b m k v es (sorted_for sink type xs)) (sym held) (ends, all)
