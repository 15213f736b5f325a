-- ===== src/HighLevel/EdgeIter/Increment.antt =====
-- `operator++` of `EdgeIter` (high-level/graph_reader.h).
use graph_ar.HighLevel.EdgeIter.{
  EdgeIter, count_rows, increment, pass_rows, pass_chunk, enter_next, end_rows, set_row_num,
}
use graph_ar.ChunkReader.Casts.{ArrowTables}
use graph_ar.Expression.{ArrowCompute}
use graph_ar.HighLevel.{ignored, returned}
use graph_ar.Reader.Steps.{Step, and_then, with_value}
use graph_ar.Base.{
  if_false, if_true, if_same, if_unless, sym, true, false, ◌≢◌, ℕ, ◌/◌, ◌%◌, ◌<◌, ok, err, status,
  index_error, ◌≡◌, refl, ◌∙◌, arith, if◌then◌else◌, Bool-cases, inl, inr, ap, Bool, suc, true,
  Status, Result, ◌>>=◌, ◌*◌, ◌≤◌, ◌*◌, ◌≤◌, ◌+◌, ◌+◌,
}
use graph_ar.Base.Int.{ℤ, pos, leb_ℤ, ◌==ℤ◌, ==ℤ_sound, ◌+ℤ◌, ◌+ℤ◌}
use graph_ar.Storage.{Storage}
use graph_ar.ReaderUtil.{quotient, remainder}
use graph_ar.ChunkReader.{ChunkReader, seek, at_chunk, init_edge_chunk_num, Rows}

pub quotient_pos : (c s : ℕ) → 0 < s → quotient (pos c) (pos s) ≡ ok (pos (c / s))
quotient_pos c s h = ground (arith, h)

remainder_pos : (c s : ℕ) → 0 < s → remainder (pos c) (pos s) ≡ ok (pos (c % s))
remainder_pos c s h = ground (arith, h)

different_pos : (m n : ℕ) → m ≢ n → (pos m ==ℤ pos n) ≡ false
different_pos m n h = ground (arith, h)

pos_same : (m n : ℕ) → (pos m ==ℤ pos n) ≡ true → m ≡ n
pos_same m n h = ground (arith, h)

pub plus_one : (c : ℕ) → pos c +ℤ pos 1 ≡ pos (suc c)
plus_one c = ground arith

module _ (storage : Storage) where
  -- The reader after a seek in the vertex chunk, and whether there is an edge chunk.
  abbrev pub sought : ChunkReader storage → ℕ → ℕ → ChunkReader storage
  sought r c s = at_chunk storage (record r { seek_offset = pos c }) (pos (c / s))

  pub init_counted :
      (r : ChunkReader storage) (k : ℕ)
      → r.place.chunk_num ≡ pos k
      → init_edge_chunk_num storage r ≡ (r, ok tt)
  unfolding init_edge_chunk_num
  init_counted r k num = ground (arith, num)

  pub at_chunk_num :
      (r : ChunkReader storage) (i : ℤ) → (at_chunk storage r i).place.chunk_num ≡ r.place.chunk_num
  unfolding at_chunk
  at_chunk_num r i = ground arith

  pub at_chunk_size :
      (r : ChunkReader storage) (i : ℤ)
      → (at_chunk storage r i).place.edge_info.chunk_size ≡ r.place.edge_info.chunk_size
  unfolding at_chunk
  at_chunk_size r i = ground arith

  pub at_chunk_index :
      (r : ChunkReader storage) (i : ℤ) → (at_chunk storage r i).place.chunk_index ≡ i
  unfolding at_chunk
  at_chunk_index r i = elim (Bool-cases (r.place.chunk_index ==ℤ i)) [
    | inl same ↦ rw same (==ℤ_sound r.place.chunk_index i same)
    | inr different ↦ rw different refl
  ]

  -- What `seek` does with the reader at an edge chunk.
  abbrev checked : Step (ChunkReader storage) → Step (ChunkReader storage)
  checked step = and_then step λ counted. (
    counted,
    if leb_ℤ counted.place.chunk_num counted.place.chunk_index
        then err (status index_error)
        else ok tt,
  )

  divided : (size : ℤ) (c s : ℕ) → 0 < s → size ≡ pos s → quotient (pos c) size ≡ ok (pos (c / s))
  divided size c s h e = ap (quotient (pos c)) e ∙ quotient_pos c s h

  test_eq :
      (r : ChunkReader storage) (n i : ℤ)
      → r.place.chunk_num ≡ n
      → r.place.chunk_index ≡ i
      → checked (r, ok tt) ≡ (r, if leb_ℤ n i then err (status index_error) else ok tt)
  test_eq r n i e f =
      ap (λ m. (r, if leb_ℤ m r.place.chunk_index then err (status index_error) else ok tt)) e
      ∙ ap (λ j. (r, if leb_ℤ n j then err (status index_error) else ok tt)) f

  pub seek_pos :
      (r : ChunkReader storage) (c s k : ℕ)
      → 0 < s
      → r.place.edge_info.chunk_size ≡ pos s
      → r.place.chunk_num ≡ pos k
      → seek storage r (pos c)
        ≡ (sought r c s, if leb_ℤ (pos k) (pos (c / s)) then err (status index_error) else ok tt)
  unfolding seek
  seek_pos r c s k h size num =
      let there = record r { seek_offset = pos c } in
      let counted = at_chunk_num there (pos (c / s)) ∙ num in
      ap
        (λ v.
          with_value there v
            (λ i. checked (init_edge_chunk_num storage (at_chunk storage there i))))
        (divided r.place.edge_info.chunk_size c s h size)
      ∙ ap checked (init_counted (sought r c s) k counted)
      ∙ test_eq (sought r c s) (pos k) (pos (c / s)) counted (at_chunk_index there (pos (c / s)))

  either :
      {R : Type 0} (r : R) (b : Bool)
      → ignored (r, if b then err (status index_error) else ok tt) ≡ ok r
  either r true = refl
  either r false = refl

  -- A seek whose status is not looked at.
  pub ignored-seek :
      (r : ChunkReader storage) (c s k : ℕ)
      → 0 < s
      → r.place.edge_info.chunk_size ≡ pos s
      → r.place.chunk_num ≡ pos k
      → ignored (seek storage r (pos c)) ≡ ok (sought r c s)
  ignored-seek r c s k h size num =
      ap ignored (seek_pos r c s k h size num) ∙ either (sought r c s) (leb_ℤ (pos k) (pos (c / s)))

module _ (storage : Storage) (arrow : ArrowCompute) (tables : ArrowTables storage arrow)
    (rows : Rows storage) where
  abbrev pub Iter : Type 0
  Iter = EdgeIter storage arrow tables rows

  -- The iterator stands on a row of an edge chunk of which it has counted the rows.
  pub record IsOn (it : Iter) (s j r m k : ℕ) : Type 0 where
    pub positive : 0 < s
    pub size : it.chunk_size ≡ pos s
    pub reader_size : it.adj_list_reader.place.edge_info.chunk_size ≡ pos s
    pub offset : it.cur_offset ≡ pos (j * s + r)
    pub num : it.num_row_of_chunk ≡ pos m
    pub chunks : it.adj_list_reader.place.chunk_num ≡ pos k
    pub row : r < m
    pub bounded : m ≤ s
    pub chunk : j < k

  count_on :
      (it : Iter) (m : ℕ)
      → 0 < m
      → it.num_row_of_chunk ≡ pos m
      → count_rows storage arrow tables rows it ≡ ok it
  unfolding count_rows
  count_on it m h num =
      if_false _ _ (it.num_row_of_chunk ==ℤ pos 0)
        (ap (λ n. n ==ℤ pos 0) num ∙ different_pos m 0 (omega arith))

  -- What `operator++` does after the seek.
  abbrev after_seek : Iter → Status → Result Iter
  after_seek it st = pass_rows storage arrow tables rows it st >>= λ (in_rows, passed).
      pass_chunk storage arrow tables rows in_rows passed >>= λ turned.
      enter_next storage arrow tables rows turned passed

  -- The iterator after the seek.
  abbrev pub moved : Iter → ℕ → ℕ → Iter
  moved it c s = record it {
    adj_list_reader = sought storage it.adj_list_reader c s;
    cur_offset = pos c;
  }

  abbrev go : Iter → ℤ → ChunkReader storage × Status → Result Iter
  go it n (reader, st) = after_seek (record it { adj_list_reader = reader; cur_offset = n }) st

  pub increment_on :
      (it : Iter) (s c m k : ℕ) (st : Status)
      → 0 < s
      → 0 < m
      → it.cur_offset ≡ pos c
      → it.num_row_of_chunk ≡ pos m
      → returned (seek storage it.adj_list_reader (pos (suc c)))
        ≡ ok (sought storage it.adj_list_reader (suc c) s, st)
      → increment storage arrow tables rows it ≡ after_seek (moved it (suc c) s) st
  unfolding increment
  increment_on it s c m k st hs hm offset num sought_next =
      ap
        (λ v. v >>= λ counted.
          returned (seek storage counted.adj_list_reader (it.cur_offset +ℤ pos 1))
          >>= go counted (it.cur_offset +ℤ pos 1))
        (count_on it m hm num)
      ∙ ap (λ n. returned (seek storage it.adj_list_reader n) >>= go it n)
          (ap (λ n. n +ℤ pos 1) offset ∙ plus_one c)
      ∙ ap (λ v. v >>= go it (pos (suc c))) sought_next

  module _ (it : Iter) (s c m : ℕ) (positive : 0 < s) (size : it.chunk_size ≡ pos s)
      (offset : it.cur_offset ≡ pos c) (num : it.num_row_of_chunk ≡ pos m) where
    full : (it.num_row_of_chunk ==ℤ it.chunk_size) ≡ (pos m ==ℤ pos s)
    full = ap (λ n. n ==ℤ it.chunk_size) num ∙ ap (λ n. pos m ==ℤ n) size

    row_offset : remainder it.cur_offset it.chunk_size ≡ ok (pos (c % s))
    row_offset =
        ap (λ n. remainder n it.chunk_size) offset
        ∙ ap (remainder (pos c)) size
        ∙ remainder_pos c s positive

    -- The tests on the row in the chunk.
    abbrev rows_test : ℤ → Result (Iter × Status)
    rows_test row =
        if leb_ℤ it.num_row_of_chunk row
        then end_rows storage arrow tables rows it
        else ok (it, ok tt)

    abbrev chunk_test : ℤ → Result Iter
    chunk_test row =
        if row ==ℤ pos 0
        then (set_row_num storage arrow tables rows it >>= λ counted.
            ok (record counted { global_chunk_index = it.global_chunk_index +ℤ pos 1 }))
        else ok it

    -- In the rows of the chunk nothing more happens.
    pub pass_rows_inside :
        c % s < m → pass_rows storage arrow tables rows it (ok tt) ≡ ok (it, ok tt)
    unfolding pass_rows
    pass_rows_inside h = if_same _ _ _ (it.num_row_of_chunk ==ℤ it.chunk_size) refl (
        ap (λ v. v >>= rows_test) row_offset
        ∙ if_false _ _ (leb_ℤ it.num_row_of_chunk (pos (c % s)))
            (ap (λ n. leb_ℤ n (pos (c % s))) num ∙ ground (arith, h)))

    pub pass_chunk_inside :
        (m ≡ s → 0 < c % s) → pass_chunk storage arrow tables rows it (ok tt) ≡ ok it
    unfolding pass_chunk
    pass_chunk_inside h = if_unless _ _ (it.num_row_of_chunk ==ℤ it.chunk_size) (λ e.
        ap (λ v. v >>= chunk_test) row_offset
        ∙ if_false _ _ (pos (c % s) ==ℤ pos 0)
            (different_pos (c % s) 0 (ground (arith, h (pos_same m s (sym full ∙ e))))))

    pub pass_rows_behind :
        m < s
        → m ≤ c % s
        → pass_rows storage arrow tables rows it (ok tt) ≡ end_rows storage arrow tables rows it
    unfolding pass_rows
    pass_rows_behind h k =
        if_false _ _ (it.num_row_of_chunk ==ℤ it.chunk_size)
          (full ∙ different_pos m s (omega arith))
        ∙ ap (λ v. v >>= rows_test) row_offset
        ∙ if_true _ _ (leb_ℤ it.num_row_of_chunk (pos (c % s)))
            (ap (λ n. leb_ℤ n (pos (c % s))) num ∙ ground (arith, k))
