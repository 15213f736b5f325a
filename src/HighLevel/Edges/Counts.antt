-- ===== src/HighLevel/Edges/Counts.antt =====
-- The counts of an edge collection (high-level/graph_reader.h).
use graph_ar.Base.{
  if_false, err, raised, ℕ, zero, suc, ◌+◌, ◌<◌, ◌≤◌, ltb, List, [], ◌∷◌, ◌++◌, Result, ok, ◌>>=◌,
  ◌≡◌, ◌⊎◌, inl, inr, ◌∙◌, ap, arith, if◌then◌else◌, ◌-◌, ◌-◌, or_raise,
}
use graph_ar.Base.Text.{Text}
use graph_ar.Base.Int.{◌==ℤ◌, pos_part, ℤ, pos, ltb_ℤ, pos_part}
use graph_ar.Types.{AdjListType}
use graph_ar.EdgeInfo.{EdgeInfo}
use graph_ar.Storage.{Storage}
use graph_ar.ReaderUtil.{get_edge_num, get_edge_chunk_num, get_edge_vertex_chunk_num}
use graph_ar.HighLevel.Edges.{
  Tally, tally, tally_chunk, tally_chunks, nothing, add_counts, add_before, int64_max, range_end,
}

-- The sum of the first so many numbers, and the list of them.
abbrev pub sum_of : (ℕ → ℕ) → ℕ → ℕ
sum_of f zero = 0
sum_of f (suc n) = sum_of f n + f n

abbrev pub first_of : (ℕ → ℕ) → ℕ → List ℤ
first_of f zero = []
first_of f (suc n) = first_of f n ++ pos (f n) ∷ []

-- The sum over the vertex chunks before one, among the first so many.
abbrev pub sum_before : (ℕ → ℕ) → ℕ → ℕ → ℕ
sum_before f b zero = 0
sum_before f b (suc i) = if ltb i b then sum_before f b i + f i else sum_before f b i

no_rest : (i n : ℕ) → i + 0 ≡ n → i ≡ n
no_rest i n h = omega (arith, h)

sum_before-le : (f : ℕ → ℕ) (a b i : ℕ) → a ≤ b → sum_before f a i ≤ sum_before f b i
sum_before-le f a b zero h = omega arith
sum_before-le f a b (suc i) h = ground (arith, sum_before-le f a b i h)

module _ (storage : Storage) (e : EdgeInfo) (prefix : Text) (type : AdjListType)
    (chunks edges : ℕ → ℕ) (n : ℕ) where
  -- Storage has numbers of edge chunks and of edges for each vertex chunk.
  pub record HasCounts : Type 0 where
    pub vertex_chunks : get_edge_vertex_chunk_num storage prefix e type ≡ ok (pos n)
    pub edge_chunks :
        (i : ℕ) → i < n → get_edge_chunk_num storage prefix e type (pos i) ≡ ok (pos (chunks i))
    pub edge_nums :
        (i : ℕ) → i < n → get_edge_num storage prefix e type (pos i) ≡ ok (pos (edges i))

  module _ (begin end : ℕ) where
    -- The counts for the vertex chunks from `begin` up to `end`, among the first so many.
    abbrev pub counts_of : ℕ → Tally
    counts_of i = record {
      edge_chunk_nums = first_of chunks i;
      chunk_begin = pos (sum_before chunks begin i);
      chunk_end = pos (sum_before chunks end i);
      edge_num = pos (sum_before edges end i - sum_before edges begin i);
    }

    add_counts_lem :
        (i : ℕ)
        → begin ≤ end
        → add_counts
            (pos begin)
            (pos end)
            (pos i)
            (pos (chunks i))
            (ok (pos (edges i)))
            (counts_of i)
          ≡ ok (counts_of (suc i))
    unfolding add_counts add_before
    add_counts_lem i h = ground (arith, h, sum_before-le edges begin end i h)

    tally_chunk_step :
        HasCounts
        → (i : ℕ) → begin ≤ end
        → i < n
        → tally_chunk storage prefix e type (pos begin) (pos end) (pos i) (counts_of i)
          ≡ ok (counts_of (suc i))
    unfolding tally_chunk
    tally_chunk_step has i h lt =
        ap
          (λ v. or_raise v >>= λ num.
            add_counts (pos begin) (pos end) (pos i) num
              (or_raise (get_edge_num storage prefix e type (pos i))) (counts_of i))
          (has.edge_chunks i lt)
        ∙ ap
            (λ v.
              add_counts (pos begin) (pos end) (pos i) (pos (chunks i)) (or_raise v) (counts_of i))
            (has.edge_nums i lt)
        ∙ add_counts_lem i h

    tally_chunks_lem :
        HasCounts
        → begin ≤ end
        → (rest i : ℕ) → i + rest ≡ n
        → tally_chunks storage prefix e type (pos begin) (pos end) rest i (counts_of i)
          ≡ ok (counts_of n)
    unfolding tally_chunks
    tally_chunks_lem has h zero i total = ap (λ m. ok (counts_of m)) (no_rest i n total)
    tally_chunks_lem has h (suc rest) i total =
        ap
          (λ v. v >>= λ next.
            tally_chunks storage prefix e type (pos begin) (pos end) rest (suc i) next)
          (tally_chunk_step has i h (omega (arith, total)))
        ∙ tally_chunks_lem has h rest (suc i) (omega (arith, total))

    abbrev tally_of : ℤ → ℤ → Result Tally
    tally_of asked num =
        if ltb_ℤ num (pos 0)
        then err raised
        else tally_chunks storage prefix e type (pos begin) (range_end storage asked num)
            (pos_part num) 0 (nothing storage)

    -- Where the range ends for a value of `vertex_chunk_end`: at the value, or behind the last vertex
    -- chunk if it is the default, the greatest `int64_t`.
    abbrev pub EndsAt : ℤ → Type 0
    EndsAt asked =
        ((asked ≡ pos end) × (end < pos_part int64_max)) ⊎ ((asked ≡ int64_max) × (n ≡ end))

    range_end-EndsAt : (asked : ℤ) → EndsAt asked → range_end storage asked (pos n) ≡ pos end
    range_end-EndsAt asked (inl (same, bound)) =
        ap (λ z. range_end storage z (pos n)) same
        ∙ if_false _ _ (pos end ==ℤ int64_max) (ground (arith, bound))
    range_end-EndsAt asked (inr (greatest, all)) =
        ap (λ z. range_end storage z (pos n)) greatest ∙ ap pos all

    -- If storage has the numbers for every vertex chunk, the collection of the vertex chunks from
    -- `begin` up to a given end, or up to the last one if the end is the default, has the range of edge
    -- chunks that these hold among all edge chunks, as many edges as they hold, and the numbers of edge
    -- chunks of all vertex chunks; the end must not be before `begin`.
    pub tally_lem :
        HasCounts
        → begin ≤ end
        → (vertex_chunk_end : ℤ) → EndsAt vertex_chunk_end
        → tally storage e prefix (pos begin) vertex_chunk_end type ≡ ok (counts_of n)
    unfolding tally
    tally_lem has h asked ends =
        ap (λ v. or_raise v >>= tally_of asked) has.vertex_chunks
        ∙ if_false _ _ (ltb_ℤ (pos n) (pos 0)) (ground arith)
        ∙ ap (λ m. tally_chunks storage prefix e type (pos begin) m n 0 (nothing storage))
            (range_end-EndsAt asked ends)
        ∙ tally_chunks_lem has h n 0 (omega arith)
