-- ===== src/ChunkWriter/Slices.antt =====
-- The loop of the table writes in arrow/chunk_writer.cc against a count of chunks.
use graph_ar.Base.{ℕ, zero, suc, ◌+◌, ◌*◌, ◌≤◌, ◌<◌, ◌≡◌, true, ok, arith, ap, ◌∙◌, Bool, subst}
use graph_ar.Base.Int.{ℤ, pos, ◌+ℤ◌, ltb_ℤ}
use graph_ar.Storage.{Storage}
use graph_ar.Reader.Steps.{Step, and_then}
use graph_ar.ReaderUtil.Counts.{IsNeeded}
use graph_ar.ChunkWriter.{Tables, Write, write_slices, write_all_slices, when_more}

module _ (storage : Storage) (tables : Tables storage) where
  -- The writes of a number of chunks one after the other, up to the first that fails: chunk `k` is the
  -- slice of `size` rows from row `k * size` on.
  unfoldable pub write_each :
      Write storage tables → ℕ → tables.Table → ℕ → ℕ → ℤ → tables.Files → Step tables.Files
  write_each write size table zero k i files = (files, ok tt)
  write_each write size table (suc c) k i files =
      and_then (write (tables.slice table (pos (k * size)) (pos size)) i files)
        (λ written. write_each write size table c (suc k) (i +ℤ pos 1) written)

  module _ (write : Write storage tables) (size : ℕ) (table : tables.Table) (rows : ℕ)
      (h : tables.num_rows table ≡ pos rows) where
    slices_end :
        (fuel k : ℕ) (i : ℤ) (files : tables.Files)
        → rows ≤ k * size
        → write_slices storage tables write (pos size) table fuel (pos (k * size)) i files
          ≡ (files, ok tt)
    unfolding write_slices
    slices_end zero k i files e = ground (arith, h)
    slices_end (suc fuel) k i files e = ground (arith, h)

    slices_step :
        (fuel k : ℕ) (i : ℤ) (files : tables.Files)
        → k * size < rows
        → write_slices storage tables write (pos size) table (suc fuel) (pos (k * size)) i files
          ≡ and_then (write (tables.slice table (pos (k * size)) (pos size)) i files) (λ written.
            write_slices storage tables write
              (pos size)
              table
              fuel
              (pos (k * size) +ℤ pos size)
              (i +ℤ pos 1)
              written)
    unfolding write_slices
    slices_step fuel k i files e =
        let there : ltb_ℤ (pos (k * size)) (tables.num_rows table) ≡ true = ground (arith, h) in
        ap
          (λ (b : Bool).
            when_more storage tables b (files, ok tt)
              (and_then (write (tables.slice table (pos (k * size)) (pos size)) i files) (λ written.
                write_slices storage tables write (pos size) table fuel (pos (k * size) +ℤ pos size)
                  (i +ℤ pos 1) written)))
          there

    -- What is left of the loop at chunk `k`, where `c` more are needed.
    slices_each :
        (c fuel k : ℕ) (i : ℤ) (files : tables.Files)
        → ((j : ℕ) → j < k + c → j * size < rows)
        → rows ≤ (k + c) * size
        → rows ≤ k * size + fuel
        → 0 < size
        → write_slices storage tables write (pos size) table fuel (pos (k * size)) i files
          ≡ write_each write size table c k i files
    unfolding write_each
    slices_each zero fuel k i files below all enough p =
        slices_end fuel k i files (grind (arith, all))
    slices_each (suc c) zero k i files below all enough p =
        absurd (ground (arith, below k (omega arith), enough))
    slices_each (suc c) (suc fuel) k i files below all enough p =
        let here = below k (omega arith) in
        let next : pos (k * size) +ℤ pos size ≡ pos (suc k * size) = ground arith in
        let sum : k + suc c ≡ suc k + c = omega arith in
        let rest = λ (written : tables.Files).
          ap (λ o. write_slices storage tables write (pos size) table fuel o (i +ℤ pos 1) written)
            next
          ∙ slices_each c fuel (suc k) (i +ℤ pos 1) written (λ j b. below j (omega (arith, b)))
              (subst (λ n. rows ≤ n * size) sum all) (ground (arith, enough, p)) p in
        slices_step fuel k i files here ∙ (λ t.
          and_then (write (tables.slice table (pos (k * size)) (pos size)) i files)
            (λ written. rest written t))

  -- Of a table with some rows, cut by a positive chunk size, the loop writes one after the other,
  -- from the given index on and up to the first write that fails, exactly the chunks that so many rows
  -- need: chunk `k` is the slice of `size` rows from row `k * size` on.
  pub write_all_slices-write_each :
      (write : Write storage tables) (size : ℕ) (table : tables.Table) (rows c : ℕ) (start : ℤ)
      (files : tables.Files)
      → tables.num_rows table ≡ pos rows
      → 0 < size
      → IsNeeded rows size c
      → write_all_slices storage tables write (pos size) table start files
        ≡ write_each write size table c 0 start files
  unfolding write_all_slices
  write_all_slices-write_each write size table rows c start files h p needed =
      let all = (needed c).1 (omega arith) in
      let below : (j : ℕ) → j < 0 + c → j * size < rows = λ j b. ground (arith, (needed j).0, b) in
      let each =
        slices_each write size table rows h c rows 0 start files below (omega (arith, all))
          (omega arith) p in
      let first : ◌≡◌ {A = ℕ} 0 (0 * size) = omega arith in
      rw h (
        ap (λ n. write_slices storage tables write (pos size) table rows (pos n) start files) first
        ∙ each)
