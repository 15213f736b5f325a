-- ===== src/ChunkReader/Ends.antt =====
-- The loop of `next_chunk` of `AdjListArrowChunkReader` (arrow/chunk_reader.cc).
use graph_ar.Base.{
  ℕ, zero, suc, ◌<◌, Option, none, some, Result-cases, Bool-cases, inl, inr, ok, err, status,
  index_error, refl, ◌≡◌, false, arith,
}
use graph_ar.Base.Int.{ℤ, pos, negsuc, pos_part, ◌+ℤ◌, ◌-ℤ◌, leb_ℤ}
use graph_ar.Storage.{Storage}
use graph_ar.Reader.Steps.{Step}
use graph_ar.Reader.AdjList.{chunk_num_at, rounds}
use graph_ar.ChunkReader.{
  ChunkReader, at_vertex_chunk, advance, arrived, next_from, next_chunk, init_edge_chunk_num,
}

-- A round leaves fewer vertex chunks.
fewer_left :
    (n i : ℤ) → leb_ℤ n (i +ℤ pos 1) ≡ false → pos_part (n -ℤ (i +ℤ pos 1)) < pos_part (n -ℤ i)
fewer_left (pos n) (pos i) h = ground arith
fewer_left (pos n) (negsuc zero) h = ground arith
fewer_left (pos n) (negsuc (suc i)) h = ground arith
fewer_left (negsuc n) (pos i) h = ground arith
fewer_left (negsuc n) (negsuc zero) h = ground arith
fewer_left (negsuc n) (negsuc (suc i)) h = ground arith

module _ (storage : Storage) where
  -- The fuel was enough.
  abbrev pub Ends : Option (Step (ChunkReader storage)) → Type 0
  Ends o = (s : Step (ChunkReader storage)) × (o ≡ some s)

  -- The reader at a vertex chunk with so many edge chunks.
  abbrev counted_at : ChunkReader storage → ℤ → ℤ → ChunkReader storage
  counted_at r i num =
      let entered = at_vertex_chunk storage r i in
      record entered { place = record entered.place { chunk_num = num } }

  advance-Ends :
      (fuel : ℕ) (r : ChunkReader storage)
      → pos_part (r.place.vertex_chunk_num -ℤ r.place.vertex_chunk_index) < fuel
      → Ends (advance storage fuel r)
  unfolding advance
  advance-Ends zero r h = absurd (omega arith)
  advance-Ends (suc fuel) r h = elim (Bool-cases (leb_ℤ r.place.chunk_num r.place.chunk_index)) [
    | inr inside ↦ ((r, ok tt), ground (arith, inside))
    | inl outside ↦
        let i = r.place.vertex_chunk_index +ℤ pos 1 in
        elim (Bool-cases (leb_ℤ r.place.vertex_chunk_num i)) [
          | inl past ↦ (
            (
              record r { place = record r.place { vertex_chunk_index = i } },
              err (status index_error),
            ),
            ground (arith, outside, past),
          )
          | inr more ↦
              elim (Result-cases (chunk_num_at storage (at_vertex_chunk storage r i).place i)) [
                | inl (num, read) ↦
                    let (s, ends) = advance-Ends fuel (counted_at r i num) (
                      omega (
                        arith,
                        fewer_left r.place.vertex_chunk_num r.place.vertex_chunk_index more,
                      )) in
                    (s, ground (arith, outside, more, read, ends))
                | inr (e, read) ↦
                    ((at_vertex_chunk storage r i, err e), ground (arith, outside, more, read))
              ]
        ]
  ]

  arrived-Ends : (o : Option (Step (ChunkReader storage))) → Ends o → Ends (arrived storage o)
  arrived-Ends none (s, e) = absurd (ground (arith, e))
  arrived-Ends (some q) (s, e) = (_, refl)

  next_from-Ends : (s : Step (ChunkReader storage)) → Ends (next_from storage s)
  next_from-Ends (counted, ok u) =
      arrived-Ends (advance storage (rounds storage counted.place) counted)
        (advance-Ends (rounds storage counted.place) counted (omega arith))
  next_from-Ends (counted, err e) = (_, refl)

  -- `next_chunk` ends: the fuel of its loop is enough from every reader.
  pub next_chunk-Ends :
      (r : ChunkReader storage) → (s : Step (ChunkReader storage)) × (next_chunk storage r ≡ some s)
  unfolding next_chunk
  next_chunk-Ends r = next_from-Ends (
      init_edge_chunk_num storage
        (record r { place = record r.place { chunk_index = r.place.chunk_index +ℤ pos 1 } }))
