-- ===== src/ChunkReader/Offset/Range.antt =====
-- The offsets of a vertex by the reader (arrow/chunk_reader.cc) and by `GetAdjListOffsetOfVertex`
-- (reader_util.cc).
use graph_ar.ChunkReader.Offset.Parts.{
  or_raise-ok, list_of_directory, row_of, quotient_of, remainder_of, ordered_size,
}
use graph_ar.Base.{sym, ◌>>=◌, ◌<◌, ◌<◌, ok-injective, ◌++◌, Result-cases, inr, inl}
use graph_ar.ChunkReader.Offset.{
  offset_at_chunk, offset_chunk_size, OffsetChunkReader, new_offset_chunk_reader, offset_seek,
  offset_get_chunk, read_offsets,
}
use graph_ar.ReaderUtil.{get_edge_vertex_chunk_num, get_adj_list_offset_of_vertex}
use graph_ar.EdgeInfo.{adj_list_Eq}
use graph_ar.Base.{ℕ, ◌/◌, ◌%◌, ◌∙◌, ap, arith, none, some, bind-ok, or_raise}
use graph_ar.Base.Text.{Text}
use graph_ar.Base.Int.{◌-ℤ◌, ◌*ℤ◌}
use graph_ar.Types.{AdjListType}
use graph_ar.Property.{AdjacentList}
use graph_ar.EdgeInfo.{EdgeInfo, get_adjacent_list}
use graph_ar.EdgeInfo.Files.{get_offset_path_prefix, get_adj_list_offset_file_path}
use graph_ar.Base.{
  [], ◌∷◌, List, Result, ok, err, status, index_error, if◌then◌else◌, ◌>>=◌, ◌≡◌, refl, take, subst,
}
use graph_ar.Base.Int.{ℤ, pos, leb_ℤ}
use graph_ar.Base.Assoc.{vector_at}
use graph_ar.Storage.{Storage}
use graph_ar.ChunkReader.{Rows}

module _ (storage : Storage) (rows : Rows storage) where
  -- The offsets in a chunk: its first two values.
  abbrev pub range_of : Result (List ℤ) → Result (ℤ × ℤ)
  range_of values = do
    array ← values
    begin ← vector_at array (pos 0)
    end ← vector_at array (pos 1)
    ok (begin, end)

  -- Of a table with a first column of integers, the column of the slice from a row on, and the slice of
  -- two rows of the column: the second is the first two values of the other.
  pub record SlicesAgree (table : storage.Table) (row : ℤ) : Type 0 where
    pub values : List ℤ
    pub column : rows.int_column (rows.slice_from table row) (pos 0) ≡ ok values
    pub slice : storage.first_column_slice table row (pos 2) ≡ take 2 values

  range_of_two : (values : List ℤ) → range_of (ok values) ≡ range_of (ok (take 2 values))
  unfolding vector_at
  range_of_two [] = refl
  range_of_two (x ∷ []) = refl
  range_of_two (x ∷ y ∷ rest) = refl

  range_of_read :
      (table : storage.Table) (row : ℤ)
      → SlicesAgree table row
      → range_of (rows.int_column (rows.slice_from table row) (pos 0))
        ≡ range_of (ok (storage.first_column_slice table row (pos 2)))
  range_of_read table row same = rw (same.column, same.slice) (range_of_two same.values)

module _ (storage : Storage) (rows : Rows storage) (e : EdgeInfo) (type : AdjListType)
    (prefix : Text) (s : ℕ) where
  -- A reader at a vertex, without a table.
  abbrev reader_at : storage.FileSystem → Text → ℤ → ℤ → ℤ → OffsetChunkReader storage
  reader_at fs path num i id = record {
    edge_info = e;
    adj_list_type = type;
    prefix = path;
    fs = fs;
    chunk_index = i;
    seek_id = id;
    chunk_table = none;
    vertex_chunk_num = num;
    vertex_chunk_size = pos s;
  }

  -- What the constructor has found.
  record IsNew (r : OffsetChunkReader storage) : Type 0 where
    fs : storage.FileSystem
    path : Text
    num : ℤ
    al : AdjacentList
    files : storage.file_system_from_uri_or_path prefix ≡ ok (fs, path)
    list : get_adjacent_list e type ≡ ok (some al)
    made : reader_at fs path num (pos 0) (pos 0) ≡ r

  new_offset_chunk_reader-IsNew :
      (r : OffsetChunkReader storage)
      → offset_chunk_size e type ≡ ok (pos s)
      → new_offset_chunk_reader storage e type prefix ≡ ok r
      → IsNew r
  unfolding new_offset_chunk_reader
  new_offset_chunk_reader-IsNew r size h =
      let ((fs, path), files, h1) =
        bind-ok (or_raise (storage.file_system_from_uri_or_path prefix)) _ r h in
      let (dir, directory, h2) = bind-ok (or_raise (get_offset_path_prefix e type)) _ r h1 in
      let (n, same, h3) = bind-ok (offset_chunk_size e type) _ r h2 in
      let (num, counted, h4) =
        bind-ok (or_raise (get_edge_vertex_chunk_num storage path e type)) _ r h3 in
      let (al, listed) = list_of_directory e type dir (or_raise-ok _ dir directory) in
      record {
        fs = fs;
        path = path;
        num = num;
        al = al;
        files = or_raise-ok _ (fs, path) files;
        list = listed;
        made =
            ap (λ m. record (reader_at fs path num (pos 0) (pos 0)) { vertex_chunk_size = m })
              (ok-injective (sym size ∙ same))
            ∙ ok-injective h4;
      }

  seek_at :
      (fs : storage.FileSystem) (path : Text) (num : ℤ) (k : ℕ)
      → 0 < s
      → (offset_seek storage (reader_at fs path num (pos 0) (pos 0)) (pos k)).0
        ≡ reader_at fs path num (pos (k / s)) (pos k)
  unfolding offset_seek offset_at_chunk
  seek_at fs path num k h = ground (arith, quotient_of k s h)

  -- The rest of both, from the path of the file on.
  abbrev from_path : storage.FileSystem → Text → AdjacentList → ℕ → Result Text → Result (ℤ × ℤ)
  from_path fs path al k file = do
    p ← file
    table ← storage.read_file_to_table fs (path ++ p) al.file_type
    range_of storage rows (ok (storage.first_column_slice table (pos (k % s)) (pos 2)))

  read_offset_lem :
      (fs : storage.FileSystem) (path : Text) (al : AdjacentList) (k : ℕ)
      → 0 < s
      → offset_chunk_size e type ≡ ok (pos s)
      → storage.file_system_from_uri_or_path prefix ≡ ok (fs, path)
      → get_adjacent_list e type ≡ ok (some al)
      → get_adj_list_offset_of_vertex storage e prefix type (pos k)
        ≡ from_path fs path al k (get_adj_list_offset_file_path e (pos (k / s)) type)
  unfolding get_adj_list_offset_of_vertex
  read_offset_lem fs path al k h size files list =
      rw (ordered_size e type (pos s) size, quotient_of k s h, remainder_of k s h, files, list)

  -- The table that a reader reads, if it reads one, has slices that agree.
  abbrev pub ReadsAgree : OffsetChunkReader storage → ℕ → Type 0
  ReadsAgree r k =
      (table : storage.Table)
      → read_offsets storage r ≡ ok table
      → SlicesAgree storage rows table (pos (k % s))

  row_range :
      (table : storage.Table) (k : ℕ)
      → SlicesAgree storage rows table (pos (k % s))
      → range_of storage rows
          (rows.int_column (rows.slice_from table (pos k -ℤ pos (k / s) *ℤ pos s)) (pos 0))
        ≡ range_of storage rows (ok (storage.first_column_slice table (pos (k % s)) (pos 2)))
  row_range table k same =
      ap (λ i. range_of storage rows (rows.int_column (rows.slice_from table i) (pos 0)))
        (row_of k s)
      ∙ range_of_read storage rows table (pos (k % s)) same

  get_at :
      (fs : storage.FileSystem) (path : Text) (num : ℤ) (al : AdjacentList) (k : ℕ)
      → ReadsAgree (reader_at fs path num (pos (k / s)) (pos k)) k
      → get_adjacent_list e type ≡ ok (some al)
      → range_of storage rows
          (offset_get_chunk storage rows (reader_at fs path num (pos (k / s)) (pos k))).1
        ≡ from_path fs path al k (get_adj_list_offset_file_path e (pos (k / s)) type)
  unfolding offset_get_chunk read_offsets
  get_at fs path num al k agree list =
      elim (Result-cases (get_adj_list_offset_file_path e (pos (k / s)) type)) [
        | inr (x, ex) ↦ rw ex refl
        | inl (p, ep) ↦
            elim (Result-cases (storage.read_file_to_table fs (path ++ p) al.file_type)) [
              | inl (table, et) ↦
                  rw (ep, list, et) (row_range table k (agree table (rw (ep, list, et) refl)))
              | inr (x, ex) ↦ rw (ep, list, ex) refl
            ]
      ]

  -- The status of a seek: whether the vertex chunk is one of the reader's.
  abbrev pub status_at : OffsetChunkReader storage → ℕ → Result (Unit {0})
  status_at r k = if leb_ℤ r.vertex_chunk_num (pos (k / s)) then err (status index_error) else ok tt

  seek_status :
      (fs : storage.FileSystem) (path : Text) (num : ℤ) (k : ℕ)
      → 0 < s
      → (offset_seek storage (reader_at fs path num (pos 0) (pos 0)) (pos k)).1
        ≡ status_at (reader_at fs path num (pos 0) (pos 0)) k
  unfolding offset_seek
  seek_status fs path num k h = rw (quotient_of k s h) refl

  -- For a reader as the constructor gives it: `seek` to a vertex gives an index error exactly if the
  -- vertex chunk of the vertex is not below the number of vertex chunks, and otherwise OK; and whichever
  -- it gives, `GetChunk` then gives, as the first two values, the offsets that
  -- `GetAdjListOffsetOfVertex` gives for the same vertex, or the error that it gives. Of the table that
  -- is read, if there is one, the first column is of integers and the two slices that are taken of it
  -- agree.
  pub offset_get_chunk-get_adj_list_offset_of_vertex :
      (r : OffsetChunkReader storage) (k : ℕ)
      → 0 < s
      → offset_chunk_size e type ≡ ok (pos s)
      → new_offset_chunk_reader storage e type prefix ≡ ok r
      → ReadsAgree (offset_seek storage r (pos k)).0 k
      → ((offset_seek storage r (pos k)).1 ≡ status_at r k)
        × (range_of storage rows (offset_get_chunk storage rows (offset_seek storage r (pos k)).0).1
            ≡ get_adj_list_offset_of_vertex storage e prefix type (pos k))
  offset_get_chunk-get_adj_list_offset_of_vertex r k h size new agree =
      let at = new_offset_chunk_reader-IsNew r size new in
      let sought = seek_at at.fs at.path at.num k h in
      let found : (offset_seek storage r (pos k)).0
          ≡ reader_at at.fs at.path at.num (pos (k / s)) (pos k) =
        ap (λ q. (offset_seek storage q (pos k)).0) (sym at.made) ∙ sought in
      (
        subst (λ q. (offset_seek storage q (pos k)).1 ≡ status_at q k) at.made
            (seek_status at.fs at.path at.num k h),
        ap (λ q. range_of storage rows (offset_get_chunk storage rows q).1) found
            ∙ get_at at.fs at.path at.num at.al k (subst (λ q. ReadsAgree q k) found agree) at.list
            ∙ sym (read_offset_lem at.fs at.path at.al k h size at.files at.list),
      )
