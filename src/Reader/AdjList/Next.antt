-- ===== src/Reader/AdjList/Next.antt =====
-- `next_chunk` of `AdjListChunkInfoReader` (chunk_info_reader.cc), and the global indices of the edge
-- chunks (util.h).
use graph_ar.Base.Assoc.{is_none}
use graph_ar.Base.{
  refl, ℕ, zero, suc, ◌+◌, ◌-◌, ◌<◌, ◌≤◌, ◌≡◌, List, [], ◌∷◌, map, some, ok, Status, arith, length,
  Bool-cases, ltb, inl, inr, if◌then◌else◌, ◌++◌, err, status, index_error, length-append, ◌∙◌, ◌∙◌,
  ap, false, Result-cases, or_raise,
}
use graph_ar.Base.Int.{ℤ, pos, pos_part, ◌-ℤ◌, leb_ℤ, ◌+ℤ◌}
use graph_ar.Storage.{Storage}
use graph_ar.Converter.{
  find_pair, global_chunk_index_to_index_pair, index_pair_to_global_chunk_index,
}
use graph_ar.Converter.RoundTrip.{sum, sum_first, global_of_pair}
use graph_ar.Reader.AdjList.{AdjListReader, chunk_num_at, advance, next_chunk}

-- The number of edge chunks of the vertex chunk in which an index falls.
abbrev pub num_of : List ℕ → ℕ → ℕ
num_of [] g = 0
num_of (n ∷ ns) g = if ltb g n then n else num_of ns (g - n)

module _ (storage : Storage) where
  -- The reader at a place of a vertex chunk with so many edge chunks.
  abbrev pub moved_to : AdjListReader → (ℤ × ℤ) → ℕ → AdjListReader
  moved_to r place num = record r {
    vertex_chunk_index = place.0;
    chunk_index = place.1;
    chunk_num = pos num;
  }

  -- The numbers of edge chunks that storage has for the vertex chunks from the first one given.
  abbrev pub HasCounts : AdjListReader → ℕ → List ℕ → Type 0
  HasCounts r i [] = Unit
  HasCounts r i (n ∷ ns) = (chunk_num_at storage r (pos i) ≡ ok (pos n)) × HasCounts r (suc i) ns

  advance_found :
      (r : AdjListReader) (past_end : Status) (v e n : ℕ) (ns : List ℕ) (fuel : ℕ)
      → r.vertex_chunk_num ≡ pos (v + length (n ∷ ns))
      → HasCounts r (suc v) ns
      → length ns ≤ fuel
      → e ≤ n
      → e < sum (n ∷ ns)
      → advance storage past_end (suc fuel) (moved_to r (pos v, pos e) n)
        ≡ some (moved_to r (find_pair (map pos (n ∷ ns)) v (pos e)) (num_of (n ∷ ns) e), ok tt)
  unfolding advance find_pair
  advance_found r past_end v e n [] fuel total counts enough le lt = ground arith
  advance_found r past_end v e n (m ∷ ns) zero total counts enough le lt = absurd (omega arith)
  advance_found r past_end v e n (m ∷ ns) (suc fuel) total counts enough le lt =
      elim (Bool-cases (ltb e n)) [
        | inl inside ↦ ground arith
        | inr outside ↦ ground (arith, counts.0, advance_found r past_end (suc v) 0 m ns fuel)
      ]

  advance_past :
      (r : AdjListReader) (past_end : Status) (v e n : ℕ) (ns : List ℕ) (fuel : ℕ)
      → r.vertex_chunk_num ≡ pos (v + length (n ∷ ns))
      → HasCounts r (suc v) ns
      → length ns ≤ fuel
      → e ≤ n
      → sum (n ∷ ns) ≤ e
      → (w : AdjListReader) × (advance storage past_end (suc fuel) (moved_to r (pos v, pos e) n)
          ≡ some (w, past_end))
  unfolding advance
  advance_past r past_end v e n [] fuel total counts enough le lt = (
    record r { vertex_chunk_index = pos (v + 1); chunk_index = pos e; chunk_num = pos n },
    ground arith,
  )
  advance_past r past_end v e n (m ∷ ns) zero total counts enough le lt = absurd (omega arith)
  advance_past r past_end v e n (m ∷ ns) (suc fuel) total counts enough le lt =
      let (w, ends) =
        advance_past r past_end (suc v) 0 m ns fuel (ground arith) counts.1 (omega arith)
          (omega arith) (omega arith) in
      (w, ground (arith, counts.0))

  find_pair_skip :
      (front xs : List ℕ) (i j g : ℕ)
      → j ≡ i + length front
      → find_pair (map pos (front ++ xs)) i (pos (sum front + g)) ≡ find_pair (map pos xs) j (pos g)
  unfolding find_pair
  find_pair_skip [] xs i j g e = ground arith
  find_pair_skip (n ∷ front) xs i j g e =
      ground (arith, find_pair_skip front xs (suc i) j g (omega arith))

  num_of_skip : (front xs : List ℕ) (g : ℕ) → num_of (front ++ xs) (sum front + g) ≡ num_of xs g
  num_of_skip [] xs g = ground arith
  num_of_skip (n ∷ front) xs g = ground (arith, num_of_skip front xs g)

  sum-append : (xs ys : List ℕ) → sum (xs ++ ys) ≡ sum xs + sum ys
  sum-append [] ys = ground arith
  sum-append (x ∷ xs) ys = omega (arith, sum-append xs ys)

  HasCounts-append :
      (r : AdjListReader) (i k : ℕ) (front : List ℕ) (n : ℕ) (ns : List ℕ)
      → HasCounts r i (front ++ n ∷ ns)
      → k ≡ i + length front
      → HasCounts r (suc k) ns
  HasCounts-append r i k [] n ns h e = ground (arith, h.1)
  HasCounts-append r i k (m ∷ front) n ns h e =
      HasCounts-append r (suc i) k front n ns h.1 (omega arith)

  sum_first-length : (front xs : List ℕ) → sum_first (length front) (front ++ xs) ≡ sum front
  sum_first-length [] xs = refl
  sum_first-length (n ∷ front) xs = ground (arith, sum_first-length front xs)

  -- The reader stands at edge chunk `e` of the vertex chunk behind `front`, which has `n` edge chunks,
  -- more than `e`; storage has the numbers of edge chunks of all vertex chunks.
  pub record IsAt (r : AdjListReader) (front : List ℕ) (n : ℕ) (ns : List ℕ) (e : ℕ) : Type 0 where
    pub vertex_chunk : r.vertex_chunk_index ≡ pos (length front)
    pub chunk : r.chunk_index ≡ pos e
    pub total : r.vertex_chunk_num ≡ pos (length (front ++ n ∷ ns))
    pub num : r.chunk_num ≡ pos n
    pub counts : HasCounts r 0 (front ++ n ∷ ns)
    pub inside : e < n

  -- `next_chunk` from there is the loop at the next place of the vertex chunk.
  next_chunk_loop :
      (r : AdjListReader) (front : List ℕ) (n : ℕ) (ns : List ℕ) (e : ℕ)
      → IsAt r front n ns e
      → next_chunk storage r
        ≡ advance storage
            (err (status index_error))
            (suc (suc (length ns)))
            (moved_to r (pos (length front), pos (suc e)) n)
  unfolding next_chunk
  next_chunk_loop r front n ns e at =
      ground (arith, at.vertex_chunk, at.chunk, at.total, at.num, length-append front (n ∷ ns))

  -- Where an edge chunk with the next global index exists, `next_chunk` succeeds and leaves the reader
  -- at that chunk: vertex chunks without edge chunks are passed over, no edge chunk is, and the reader
  -- knows the number of edge chunks of its vertex chunk.
  pub next_chunk_found :
      (r : AdjListReader) (front : List ℕ) (n : ℕ) (ns : List ℕ) (e : ℕ)
      → IsAt r front n ns e
      → suc (sum front + e) < sum (front ++ n ∷ ns)
      → (let nums = map pos (front ++ n ∷ ns) in
          (index_pair_to_global_chunk_index nums r.vertex_chunk_index r.chunk_index
            ≡ ok (pos (sum front + e)))
          × (next_chunk storage r
              ≡ some (
                moved_to r
                    (global_chunk_index_to_index_pair nums (pos (suc (sum front + e))))
                    (num_of (front ++ n ∷ ns) (suc (sum front + e))),
                ok tt,
              )))
  unfolding global_chunk_index_to_index_pair
  next_chunk_found r front n ns e at more =
      let place : suc (sum front + e) ≡ sum front + suc e = omega arith in
      (
        rw (at.vertex_chunk, at.chunk)
            (global_of_pair (front ++ n ∷ ns) (length front) e
                (omega (arith, length-append front (n ∷ ns)))
              ∙ ap (λ k. ok (pos (k + e))) (sum_first-length front (n ∷ ns))),
        next_chunk_loop r front n ns e at
            ∙ advance_found r (err (status index_error)) (length front) (suc e) n ns
                (suc (length ns)) (at.total ∙ ap pos (length-append front (n ∷ ns)))
                (HasCounts-append r 0 (length front) front n ns at.counts (omega arith))
                (omega arith) at.inside (omega (arith, sum-append front (n ∷ ns)))
            ∙ rw
                (
                  place,
                  find_pair_skip front (n ∷ ns) 0 (length front) (suc e) (omega arith),
                  num_of_skip front (n ∷ ns) (suc e),
                )
                refl,
      )

  -- At the last edge chunk, `next_chunk` gives an index error.
  pub next_chunk_past :
      (r : AdjListReader) (front : List ℕ) (n : ℕ) (ns : List ℕ) (e : ℕ)
      → IsAt r front n ns e
      → sum (front ++ n ∷ ns) ≤ suc (sum front + e)
      → (w : AdjListReader) × (next_chunk storage r ≡ some (w, err (status index_error)))
  next_chunk_past r front n ns e at last =
      let (w, ends) =
        advance_past r (err (status index_error)) (length front) (suc e) n ns (suc (length ns))
          (at.total ∙ ap pos (length-append front (n ∷ ns)))
          (HasCounts-append r 0 (length front) front n ns at.counts (omega arith)) (omega arith)
          at.inside (omega (arith, sum-append front (n ∷ ns))) in
      (w, next_chunk_loop r front n ns e at ∙ ends)

  -- The reader in the next vertex chunk, as the loop leaves it.
  abbrev entered : AdjListReader → ℤ → AdjListReader
  entered r num = record r {
    vertex_chunk_index = r.vertex_chunk_index +ℤ pos 1;
    chunk_index = pos 0;
    chunk_num = num;
  }

  advance_round :
      (fuel : ℕ) (past_end : Status) (r : AdjListReader)
      → ((num : ℤ)
          → leb_ℤ r.vertex_chunk_num (r.vertex_chunk_index +ℤ pos 1) ≡ false
          → is_none (advance storage past_end fuel (entered r num)) ≡ false)
      → is_none (advance storage past_end (suc fuel) r) ≡ false
  unfolding advance
  advance_round fuel past_end r again = elim (Bool-cases (leb_ℤ r.chunk_num r.chunk_index)) [
    | inr inside ↦ ground arith
    | inl outside ↦ elim (Bool-cases (leb_ℤ r.vertex_chunk_num (r.vertex_chunk_index +ℤ pos 1))) [
      | inl past ↦ ground arith
      | inr left ↦
          elim (Result-cases (or_raise (chunk_num_at storage r (r.vertex_chunk_index +ℤ pos 1)))) [
            | inr (e, fails) ↦ ground arith
            | inl (num, reads) ↦ ground (arith, again num left)
          ]
    ]
  ]

  advance_returns :
      (fuel : ℕ) (past_end : Status) (r : AdjListReader)
      → pos_part (r.vertex_chunk_num -ℤ r.vertex_chunk_index) ≤ fuel
      → is_none (advance storage past_end (suc fuel) r) ≡ false
  advance_returns zero past_end r enough =
      advance_round zero past_end r (λ num left. absurd (ground arith))
  advance_returns (suc fuel) past_end r enough =
      advance_round (suc fuel) past_end r
        (λ num left. advance_returns fuel past_end (entered r num) (ground arith))

  -- `next_chunk` returns, from any reader and whatever storage answers: the rounds that the loop is
  -- given are enough.
  pub next_chunk_returns : (r : AdjListReader) → is_none (next_chunk storage r) ≡ false
  unfolding next_chunk
  next_chunk_returns r =
      advance_returns _ _ (record r { chunk_index = r.chunk_index +ℤ pos 1 }) (omega arith)
