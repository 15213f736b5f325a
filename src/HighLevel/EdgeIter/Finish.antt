-- ===== src/HighLevel/EdgeIter/Finish.antt =====
-- The end of a run of `operator++` of `EdgeIter` (high-level/graph_reader.h).
use graph_ar.Base.{zero, suc}
use native.Mathlib.Nat.{le-div_iff_mul-le}
use graph_ar.Base.{refl}
use graph_ar.HighLevel.EdgeIter.{
  seek_list, end_rows, enter_next, follow, is_end, quotient, pass_chunk, increment,
}
use graph_ar.ChunkReader.Casts.{ArrowTables}
use graph_ar.Expression.{ArrowCompute}
use graph_ar.Base.{
  ℕ, suc, Result, some, ok, err, status, index_error, true, ap, ◌∙◌, arith, ◌≡◌, ◌≡◌, ◌≤◌, ◌≤◌, ◌*◌,
  ◌*◌, Status, ◌<◌, ◌>>=◌, ◌<◌, key_error, ◌/◌, ◌/◌, ◌+◌, ◌+◌, ◌%◌, ◌%◌,
}
use graph_ar.Base.Int.{ℤ, pos, pos_part, ◌+ℤ◌, ◌-ℤ◌, leb_ℤ, ◌*ℤ◌, ◌*ℤ◌}
use graph_ar.Storage.{Storage}
use graph_ar.HighLevel.{ended}
use graph_ar.ChunkReader.{ChunkReader, next_chunk, advance, next_from, arrived, Rows, at_chunk}
use graph_ar.HighLevel.EdgeIter.Walk.{
  IsLast, next_div, next_mod, seek_inside, increments, IsOn-moved, increment_inside,
}
use graph_ar.HighLevel.EdgeIter.Increment.{
  Iter, IsOn, sought, moved, increment_on, pass_rows_behind, ignored-seek, init_counted,
  quotient_pos, at_chunk_num, at_chunk_index, at_chunk_size,
}

times : (j s : ℕ) → (pos j +ℤ pos 1) *ℤ pos s ≡ pos (suc j * s)
times j s = ground arith

leb_refl : (a : ℤ) → leb_ℤ a a ≡ true
leb_refl a = ground arith

more : (r m : ℕ) → suc r ≡ m → 0 < m
more r m h = omega arith

div_of : (j s r m : ℕ) → suc r ≡ m → m < s → suc (j * s + r) / s ≡ j
div_of j s r m h k = next_div j s r (omega (arith, h, k))

inside : (j s r m k : ℕ) → suc r ≡ m → m < s → j < k → suc (j * s + r) / s < k
inside j s r m k h l lt = omega (arith, div_of j s r m h l, lt)

behind : (j s r m : ℕ) → suc r ≡ m → m < s → m ≤ suc (j * s + r) % s
behind j s r m h k = omega (arith, next_mod j s r (omega (arith, h, k)), h)

last_index : (j s : ℕ) → 0 < s → suc j ≤ suc (suc j * s / s)
last_index j s h = omega (arith, (le-div_iff_mul-le {x = suc j} {y = suc j * s} h).1 (omega arith))

module _ (storage : Storage) where
  module _ (r : ChunkReader storage) (c s : ℕ) where
    sought_size : (sought storage r c s).place.edge_info.chunk_size ≡ r.place.edge_info.chunk_size
    unfolding at_chunk
    sought_size = at_chunk_size storage (record r { seek_offset = pos c }) (pos (c / s))

    sought_num : (sought storage r c s).place.chunk_num ≡ r.place.chunk_num
    sought_num = at_chunk_num storage (record r { seek_offset = pos c }) (pos (c / s))

    sought_vertex : (sought storage r c s).place.vertex_chunk_index ≡ r.place.vertex_chunk_index
    unfolding at_chunk
    sought_vertex = ground arith

    sought_vertices : (sought storage r c s).place.vertex_chunk_num ≡ r.place.vertex_chunk_num
    unfolding at_chunk
    sought_vertices = ground arith

  -- The reader past the last vertex chunk.
  abbrev pub past : ChunkReader storage → ChunkReader storage
  past r = record r {
    place = record r.place {
      vertex_chunk_index = r.place.vertex_chunk_index +ℤ pos 1;
      chunk_index = r.place.chunk_index +ℤ pos 1;
    };
  }

  advance_last :
      (fuel : ℕ) (q : ChunkReader storage)
      → leb_ℤ q.place.chunk_num q.place.chunk_index ≡ true
      → leb_ℤ q.place.vertex_chunk_num (q.place.vertex_chunk_index +ℤ pos 1) ≡ true
      → advance storage (suc fuel) q
        ≡ some (
          record q {
            place = record q.place { vertex_chunk_index = q.place.vertex_chunk_index +ℤ pos 1 };
          },
          err (status index_error),
        )
  unfolding advance
  advance_last fuel q h k = ground (arith, h, k)

  next_chunk_last :
      (r : ChunkReader storage) (i k v : ℕ)
      → r.place.chunk_num ≡ pos k
      → r.place.chunk_index ≡ pos i
      → k ≤ suc i
      → r.place.vertex_chunk_index ≡ pos v
      → r.place.vertex_chunk_num ≡ pos (suc v)
      → ended (next_chunk storage r) ≡ ok (past r, err (status index_error))
  unfolding next_chunk
  next_chunk_last r i k v num index behind vertex total =
      let q = record r { place = record r.place { chunk_index = r.place.chunk_index +ℤ pos 1 } } in
      ap (λ s. ended (next_from storage s)) (init_counted storage q k num)
      ∙ ap (λ o. ended (arrived storage o))
          (advance_last (pos_part (r.place.vertex_chunk_num -ℤ r.place.vertex_chunk_index)) q
            (ap (λ n. leb_ℤ n (r.place.chunk_index +ℤ pos 1)) num
              ∙ ap (λ n. leb_ℤ (pos k) (n +ℤ pos 1)) index
              ∙ ground (arith, behind))
            (ap (λ n. leb_ℤ n (r.place.vertex_chunk_index +ℤ pos 1)) total
              ∙ ap (λ n. leb_ℤ (pos (suc v)) (n +ℤ pos 1)) vertex
              ∙ ground arith))

module _ (storage : Storage) (arrow : ArrowCompute) (tables : ArrowTables storage arrow)
    (rows : Rows storage) where
  -- The reader is sent to an offset, and the status says so.
  abbrev sent :
      Iter storage arrow tables rows → ℤ → Result (Iter storage arrow tables rows × Status)
  sent it offset =
      seek_list storage arrow tables rows (record it { cur_offset = offset }) offset >>= λ next.
      ok (next, err (status key_error))

  seek_list_at :
      (it : Iter storage arrow tables rows) (c s k : ℕ)
      → 0 < s
      → it.adj_list_reader.place.edge_info.chunk_size ≡ pos s
      → it.adj_list_reader.place.chunk_num ≡ pos k
      → seek_list storage arrow tables rows it (pos c)
        ≡ ok (record it { adj_list_reader = sought storage it.adj_list_reader c s })
  unfolding seek_list
  seek_list_at it c s k h size num =
      ap (λ v. v >>= λ reader. ok (record it { adj_list_reader = reader }))
        (ignored-seek storage it.adj_list_reader c s k h size num)

  -- `operator++` at the last row: what the tests after the seek do.
  end_rows_at :
      (it : Iter storage arrow tables rows) (s j c m k : ℕ)
      → 0 < s
      → it.chunk_size ≡ pos s
      → it.cur_offset ≡ pos c
      → c / s ≡ j
      → it.adj_list_reader.place.edge_info.chunk_size ≡ pos s
      → it.adj_list_reader.place.chunk_num ≡ pos k
      → end_rows storage arrow tables rows it
        ≡ ok (moved storage arrow tables rows it (suc j * s) s, err (status key_error))
  unfolding end_rows
  end_rows_at it s j c m k h size offset div reader_size chunks =
      ap (λ v. v >>= λ chunk. sent it ((chunk +ℤ pos 1) *ℤ it.chunk_size))
        (ap (λ n. quotient n it.chunk_size) offset
          ∙ ap (quotient (pos c)) size
          ∙ quotient_pos c s h
          ∙ ap (λ n. ok (pos n)) div)
      ∙ ap (sent it) (ap (λ n. (pos j +ℤ pos 1) *ℤ n) size ∙ times j s)
      ∙ ap (λ v. v >>= λ next. ok (next, err (status key_error)))
          (seek_list_at (record it { cur_offset = pos (suc j * s) }) (suc j * s) s k h reader_size
            chunks)

  -- The tests of `operator++` after the first, and the end of the last.
  abbrev tests : Iter storage arrow tables rows × Status → Result (Iter storage arrow tables rows)
  tests (in_rows, passed) = pass_chunk storage arrow tables rows in_rows passed >>= λ turned.
      enter_next storage arrow tables rows turned passed

  abbrev entered :
      Iter storage arrow tables rows
      → ChunkReader storage
      → Status
      → Result (Iter storage arrow tables rows)
  entered it reader st =
      follow storage arrow tables rows
        (record it {
          adj_list_reader = reader;
          global_chunk_index = it.global_chunk_index +ℤ pos 1;
          vertex_chunk_index = it.vertex_chunk_index +ℤ pos 1;
        })
        st
      >>= λ followed.
          seek_list storage arrow tables rows (record followed { cur_offset = pos 0 }) (pos 0)

  -- After the last row of the last vertex chunk, whose last edge chunk is not full, the iterator is at
  -- the end.
  increment_last :
      (it : Iter storage arrow tables rows) (s j r m k v : ℕ)
      → IsOn storage arrow tables rows it s j r m k
      → suc r ≡ m
      → IsLast storage arrow tables rows it s j m k v
      → (last : Iter storage arrow tables rows) × (increment storage arrow tables rows it ≡ ok last)
        × (is_end storage arrow tables rows last ≡ true)
  unfolding enter_next follow is_end pass_chunk
  increment_last it s j r m k v on final at =
      let c = suc (j * s + r) in
      let r1 = sought storage it.adj_list_reader c s in
      let one = moved storage arrow tables rows it c s in
      let two = moved storage arrow tables rows one (suc j * s) s in
      let three = record two {
        adj_list_reader = past storage two.adj_list_reader;
        global_chunk_index = it.global_chunk_index +ℤ pos 1;
        vertex_chunk_index = it.vertex_chunk_index +ℤ pos 1;
      } in
      let size1 = sought_size storage it.adj_list_reader c s ∙ on.reader_size in
      let num1 = sought_num storage it.adj_list_reader c s ∙ on.chunks in
      let size2 = sought_size storage r1 (suc j * s) s ∙ size1 in
      let num2 = sought_num storage r1 (suc j * s) s ∙ num1 in
      (
        record three {
          cur_offset = pos 0;
          adj_list_reader = sought storage three.adj_list_reader 0 s;
        },
        increment_on storage arrow tables rows it s (j * s + r) m k (ok tt) on.positive
              (more r m final) on.offset on.num
              (seek_inside storage arrow tables rows it.adj_list_reader c s k on.positive
                on.reader_size on.chunks (inside j s r m k final at.not_full on.chunk))
            ∙ ap (λ v. v >>= tests)
                (pass_rows_behind storage arrow tables rows one s c m on.positive on.size refl
                  on.num at.not_full (behind j s r m final at.not_full))
            ∙ ap (λ v. v >>= tests)
                (end_rows_at one s j c m k on.positive on.size refl
                  (div_of j s r m final at.not_full) size1 num1)
            ∙ ap (λ v. v >>= λ (reader, st). entered two reader st)
                (next_chunk_last storage two.adj_list_reader (suc j * s / s) k v num2
                  (at_chunk_index storage (record r1 { seek_offset = pos (suc j * s) })
                    (pos (suc j * s / s)))
                  (rw at.last_chunk (last_index j s on.positive))
                  (sought_vertex storage r1 (suc j * s) s
                    ∙ sought_vertex storage it.adj_list_reader c s
                    ∙ at.vertex_chunk)
                  (sought_vertices storage r1 (suc j * s) s
                    ∙ sought_vertices storage it.adj_list_reader c s
                    ∙ at.vertex_chunks))
            ∙ seek_list_at (record three { cur_offset = pos 0 }) 0 s k on.positive size2 num2,
        ap (λ n. leb_ℤ n (it.global_chunk_index +ℤ pos 1)) at.ends
            ∙ leb_refl (it.global_chunk_index +ℤ pos 1),
      )

  IsLast-moved :
      (it : Iter storage arrow tables rows) (s j m k v c : ℕ)
      → IsLast storage arrow tables rows it s j m k v
      → IsLast storage arrow tables rows (moved storage arrow tables rows it c s) s j m k v
  IsLast-moved it s j m k v c at = record {
    not_full = at.not_full;
    last_chunk = at.last_chunk;
    vertex_chunk = sought_vertex storage it.adj_list_reader c s ∙ at.vertex_chunk;
    vertex_chunks = sought_vertices storage it.adj_list_reader c s ∙ at.vertex_chunks;
    ends = at.ends;
  }

  -- From a row of the last edge chunk of the last vertex chunk, a chunk that is not full, the calls of
  -- `operator++` that are as many as there are rows left all succeed and bring the iterator to the
  -- end.
  pub increments-is_end :
      (n : ℕ) (it : Iter storage arrow tables rows) (s j r m k v : ℕ)
      → IsOn storage arrow tables rows it s j r m k
      → r + suc n ≡ m
      → IsLast storage arrow tables rows it s j m k v
      → (last : Iter storage arrow tables rows) × (increments storage arrow tables rows (suc n) it
          ≡ ok last)
        × (is_end storage arrow tables rows last ≡ true)
  unfolding increments
  increments-is_end zero it s j r m k v on h at =
      let (last, runs, ends) = increment_last it s j r m k v on (omega (arith, h)) at in
      (last, ap (λ u. u >>= increments storage arrow tables rows 0) runs, ends)
  increments-is_end (suc n) it s j r m k v on h at =
      let c = suc (j * s + r) in
      let (last, runs, ends) =
        increments-is_end n (moved storage arrow tables rows it c s) s j (suc r) m k v
          (IsOn-moved storage arrow tables rows it s j r m k on (omega (arith, h)))
          (omega (arith, h)) (IsLast-moved it s j m k v c at) in
      (
        last,
        ap (λ u. u >>= increments storage arrow tables rows (suc n))
              (increment_inside storage arrow tables rows it s j r m k on (omega (arith, h)))
            ∙ runs,
        ends,
      )
