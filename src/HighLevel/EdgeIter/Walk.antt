-- ===== src/HighLevel/EdgeIter/Walk.antt =====
-- Runs of `operator++` of `EdgeIter` (high-level/graph_reader.h).
use graph_ar.Base.{
  if_false, if_true, ℕ, zero, suc, ◌+◌, ◌*◌, ◌/◌, ◌%◌, ◌<◌, ◌≤◌, Result, ok, err, status,
  index_error, ◌>>=◌, ◌≡◌, refl, ◌∙◌, ap, arith, false,
}
use graph_ar.Base.Int.{pos, ◌+ℤ◌, leb_ℤ}
use graph_ar.Storage.{Storage}
use graph_ar.Expression.{ArrowCompute}
use graph_ar.ChunkReader.{Rows, ChunkReader, seek}
use graph_ar.ChunkReader.Casts.{ArrowTables}
use graph_ar.HighLevel.EdgeIter.{increment, returned, pass_chunk, pass_rows, enter_next, is_end}
use graph_ar.HighLevel.EdgeIter.Increment.{
  Iter, IsOn, sought, moved, seek_pos, increment_on, pass_rows_inside, pass_chunk_inside,
  at_chunk_size, at_chunk_num,
}
use native.Mathlib.Nat.{div-eq_of_lt-le, le-div_iff_mul-le, mod-eq-sub-div-mul}

place_div : (j s r : ℕ) → r < s → (j * s + r) / s ≡ j
place_div j s r h = div-eq_of_lt-le s (omega arith) (omega arith)

place_mod : (j s r : ℕ) → r < s → (j * s + r) % s ≡ r
place_mod j s r h = mod-eq-sub-div-mul (j * s + r) s ∙ rw (place_div j s r h) (omega arith)

after : (j s r : ℕ) → suc (j * s + r) ≡ j * s + suc r
after j s r = omega arith

pub next_div : (j s r : ℕ) → suc r < s → suc (j * s + r) / s ≡ j
next_div j s r h = ap (λ n. n / s) (after j s r) ∙ place_div j s (suc r) h

pub next_mod : (j s r : ℕ) → suc r < s → suc (j * s + r) % s ≡ suc r
next_mod j s r h = ap (λ n. n % s) (after j s r) ∙ place_mod j s (suc r) h

module _ (storage : Storage) (arrow : ArrowCompute) (tables : ArrowTables storage arrow)
    (rows : Rows storage) where
  -- So many calls of `operator++`.
  unfoldable pub increments :
      ℕ → Iter storage arrow tables rows → Result (Iter storage arrow tables rows)
  increments zero it = ok it
  increments (suc n) it = increment storage arrow tables rows it >>= increments n

  pub seek_inside :
      (r : ChunkReader storage) (c s k : ℕ)
      → 0 < s
      → r.place.edge_info.chunk_size ≡ pos s
      → r.place.chunk_num ≡ pos k
      → c / s < k
      → returned (seek storage r (pos c)) ≡ ok (sought storage r c s, ok tt)
  seek_inside r c s k h size num inside = ap returned (
      seek_pos storage r c s k h size num
      ∙ ap (λ st. (sought storage r c s, st))
          (if_false _ _ (leb_ℤ (pos k) (pos (c / s))) (ground (arith, inside))))

  seek_outside :
      (r : ChunkReader storage) (c s k : ℕ)
      → 0 < s
      → r.place.edge_info.chunk_size ≡ pos s
      → r.place.chunk_num ≡ pos k
      → k ≤ c / s
      → returned (seek storage r (pos c)) ≡ ok (sought storage r c s, err (status index_error))
  seek_outside r c s k h size num outside = ap returned (
      seek_pos storage r c s k h size num
      ∙ ap (λ st. (sought storage r c s, st))
          (if_true _ _ (leb_ℤ (pos k) (pos (c / s))) (ground (arith, outside))))

  -- The next row of the same chunk.
  pub increment_inside :
      (it : Iter storage arrow tables rows) (s j r m k : ℕ)
      → IsOn storage arrow tables rows it s j r m k
      → suc r < m
      → increment storage arrow tables rows it
        ≡ ok (moved storage arrow tables rows it (suc (j * s + r)) s)
  unfolding enter_next
  increment_inside it s j r m k on h =
      let next = moved storage arrow tables rows it (suc (j * s + r)) s in
      increment_on storage arrow tables rows it s (j * s + r) m k (ok tt) on.positive (omega arith)
        on.offset on.num
        (seek_inside it.adj_list_reader (suc (j * s + r)) s k on.positive on.reader_size on.chunks
          (omega (arith, next_div j s r (omega (arith, on.bounded)), on.chunk)))
      ∙ ap
          (λ v. v >>= λ (a, b). pass_chunk storage arrow tables rows a b >>= λ t.
            enter_next storage arrow tables rows t b)
          (pass_rows_inside storage arrow tables rows next s (suc (j * s + r)) m on.positive on.size
            refl on.num (omega (arith, next_mod j s r (omega (arith, on.bounded)))))
      ∙ ap (λ v. v >>= λ t. enter_next storage arrow tables rows t (ok tt))
          (pass_chunk_inside storage arrow tables rows next s (suc (j * s + r)) m on.positive
            on.size refl on.num (λ e. omega (arith, next_mod j s r (omega (arith, on.bounded)))))
      ∙ refl

  -- An iterator that is sent to the end of a vertex chunk whose last edge chunk is full.
  pub record IsStuck (it : Iter storage arrow tables rows) (s c m k : ℕ) : Type 0 where
    pub positive : 0 < s
    pub reader_size : it.adj_list_reader.place.edge_info.chunk_size ≡ pos s
    pub offset : it.cur_offset ≡ pos c
    pub counted : 0 < m
    pub num : it.num_row_of_chunk ≡ pos m
    pub chunks : it.adj_list_reader.place.chunk_num ≡ pos k
    pub last : k * s ≤ suc c

  increment_stuck :
      (it : Iter storage arrow tables rows) (s c m k : ℕ)
      → IsStuck it s c m k
      → increment storage arrow tables rows it ≡ ok (moved storage arrow tables rows it (suc c) s)
  unfolding pass_rows pass_chunk enter_next
  increment_stuck it s c m k on =
      increment_on storage arrow tables rows it s c m k (err (status index_error)) on.positive
        on.counted on.offset on.num
        (seek_outside it.adj_list_reader (suc c) s k on.positive on.reader_size on.chunks
          ((le-div_iff_mul-le on.positive).1 on.last))

  IsStuck-moved :
      (it : Iter storage arrow tables rows) (s c m k : ℕ)
      → IsStuck it s c m k
      → IsStuck (moved storage arrow tables rows it (suc c) s) s (suc c) m k
  IsStuck-moved it s c m k on = record {
    positive = on.positive;
    reader_size =
        at_chunk_size storage (record it.adj_list_reader { seek_offset = pos (suc c) })
          (pos (suc c / s))
        ∙ on.reader_size;
    offset = refl;
    counted = on.counted;
    num = on.num;
    chunks =
        at_chunk_num storage (record it.adj_list_reader { seek_offset = pos (suc c) })
          (pos (suc c / s))
        ∙ on.chunks;
    last = omega (arith, on.last);
  }

  -- When the last edge chunk of a vertex chunk is full, an iterator on its last row never leaves it:
  -- every number of calls of `operator++` succeeds, and an iterator that was not at the end is still
  -- not at the end.
  pub increments-IsStuck :
      (n : ℕ) (it : Iter storage arrow tables rows) (s c m k : ℕ)
      → IsStuck it s c m k
      → is_end storage arrow tables rows it ≡ false
      → (last : Iter storage arrow tables rows) × (increments n it ≡ ok last)
        × (is_end storage arrow tables rows last ≡ false)
  unfolding increments is_end
  increments-IsStuck zero it s c m k on h = (it, refl, h)
  increments-IsStuck (suc n) it s c m k on h =
      let next = moved storage arrow tables rows it (suc c) s in
      let (last, runs, same) =
        increments-IsStuck n next s (suc c) m k (IsStuck-moved it s c m k on) h in
      (last, ap (λ v. v >>= increments n) (increment_stuck it s c m k on) ∙ runs, same)

  pub IsOn-moved :
      (it : Iter storage arrow tables rows) (s j r m k : ℕ)
      → IsOn storage arrow tables rows it s j r m k
      → suc r < m
      → IsOn storage arrow tables rows
          (moved storage arrow tables rows it (suc (j * s + r)) s)
          s
          j
          (suc r)
          m
          k
  IsOn-moved it s j r m k on h = record {
    positive = on.positive;
    size = on.size;
    reader_size =
        at_chunk_size storage (record it.adj_list_reader { seek_offset = pos (suc (j * s + r)) })
          (pos (suc (j * s + r) / s))
        ∙ on.reader_size;
    offset = ap pos (after j s r);
    num = on.num;
    chunks =
        at_chunk_num storage (record it.adj_list_reader { seek_offset = pos (suc (j * s + r)) })
          (pos (suc (j * s + r) / s))
        ∙ on.chunks;
    row = h;
    bounded = on.bounded;
    chunk = on.chunk;
  }

  -- The last vertex chunk, and its last edge chunk.
  pub record IsLast (it : Iter storage arrow tables rows) (s j m k v : ℕ) : Type 0 where
    pub not_full : m < s
    pub last_chunk : k ≡ suc j
    pub vertex_chunk : it.adj_list_reader.place.vertex_chunk_index ≡ pos v
    pub vertex_chunks : it.adj_list_reader.place.vertex_chunk_num ≡ pos (suc v)
    pub ends : it.chunk_end ≡ it.global_chunk_index +ℤ pos 1
