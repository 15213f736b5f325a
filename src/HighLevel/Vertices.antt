-- ===== src/HighLevel/Vertices.antt =====
-- `VerticesCollection` and `VertexIter` (high-level/graph_reader.h, graph_reader.cc): the vertices of
-- a type, or those that a filter has left.
pub mod Passing
pub mod Filter
use graph_ar.Base.{
  ℕ, zero, suc, ◌-◌, ◌%◌, Bool, true, false, not, List, [], ◌∷◌, ◌++◌, Option, none, some, Result,
  ok, err, status, undefined, raised, key_error, ◌>>=◌, if◌then◌else◌, or_raise, ltb, length,
}
use graph_ar.Base.Text.{Text, codes, text_eq}
use graph_ar.Base.Int.{ℤ, pos, negsuc, pos_part, ◌+ℤ◌, ◌-ℤ◌, ◌*ℤ◌, ◌/ℤ◌, ◌==ℤ◌, ltb_ℤ, leb_ℤ}
use graph_ar.Base.Assoc.{vector_at}
use graph_ar.VertexInfo.{VertexInfo}
use graph_ar.VertexInfo
use graph_ar.GraphInfo.{GraphInfo, get_vertex_info}
use graph_ar.Storage.{Storage}
use graph_ar.HighLevel.Labels.{Parquet, valid_indices, is_among}

pub record VerticesCollection : Type 0 where
  pub vertex_info : VertexInfo
  pub prefix : Text
  pub labels : List Text
  pub is_filtered : Bool
  pub filtered_ids : List ℕ
  pub valid_chunk : List ℕ
  pub vertex_num : ℤ

-- The place of a label among the labels of the type, if it is one: `std::find`.
unfoldable pub label_place : ℕ → List Text → Text → Option ℕ
label_place i [] label = none
label_place i (l ∷ ls) label =
    let rest = label_place (suc i) ls label in if text_eq l label then some i else rest

abbrev pub with_place : Option ℕ → List ℕ → List ℕ
with_place none ids = ids
with_place (some i) ids = i ∷ ids

unfoldable pub tested_label_ids : List Text → List Text → List ℕ
tested_label_ids labels [] = []
tested_label_ids labels (f ∷ fs) = with_place (label_place 0 labels f) (tested_label_ids labels fs)

-- A value put into a variable of type `int`, which has 32 bits: the other bits are dropped.
abbrev pub low_bits : ℤ → ℕ
low_bits (pos n) = n % 4_294_967_296
low_bits (negsuc n) = 4_294_967_295 - n % 4_294_967_296

unfoldable pub to_int : ℤ → ℤ
to_int z =
    if ltb (low_bits z) 2_147_483_648 then pos (low_bits z) else negsuc (4_294_967_295 - low_bits z)

-- The result of a calculation with `int`, of which an overflow is undefined.
unfoldable pub in_int : ℤ → Result ℤ
in_int z =
    if leb_ℤ z (pos 2_147_483_647)
    then (if leb_ℤ (negsuc 2_147_483_647) z then ok z else err undefined)
    else err undefined

-- The number of rows of a chunk, when so many are left from its start on. The memory for a negative
-- number of rows is refused by an exception.
unfoldable pub rows_of_chunk : ℤ → ℤ → Result ℕ
rows_of_chunk (pos size) (pos left) = ok (if ltb size left then size else left)
rows_of_chunk (pos size) (negsuc left) = err raised
rows_of_chunk (negsuc size) left = err raised

module _ (parquet : Parquet) (path : Text) (size total : ℤ) (num : ℕ) (ids : List ℕ) where
  -- The body of both loops: the indices of a chunk.
  unfoldable pub filter_chunk : ℕ → Result (List ℕ)
  filter_chunk i = do
    start ← in_int (pos i *ℤ size)
    left ← in_int (total -ℤ start)
    row_num ← rows_of_chunk size left
    valid_indices parquet path row_num num ids i (pos_part size)

  -- The loop over the chunks that an earlier filter found: the indices, and the chunks that have some.
  -- The numbers of these chunks came from an `int`.
  unfoldable pub filter_chunks : List ℕ → Result (List ℕ × List ℕ)
  filter_chunks [] = ok ([], [])
  filter_chunks (i ∷ chunks) = do
    found ← filter_chunk i
    (indices, valid) ← filter_chunks chunks
    ok (found ++ indices, if ltb 0 (length found) then i ∷ valid else valid)

  -- The loop over the chunks that begin before the number of rows, from one on; fuel that runs out
  -- stands for a loop that does not end.
  unfoldable pub filter_all : ℕ → ℕ → Result (List ℕ × List ℕ)
  filter_all zero i = do
    start ← in_int (pos i *ℤ size)
    if ltb_ℤ start total then err undefined else ok ([], [])
  filter_all (suc fuel) i =
      let rest = filter_all fuel (suc i) in
      let here = (do
        found ← filter_chunk i
        (indices, valid) ← rest
        ok (found ++ indices, if ltb 0 (length found) then i ∷ valid else valid)) in
      (in_int (pos i *ℤ size) >>= λ start. if ltb_ℤ start total then here else ok ([], []))

module _ (storage : Storage) (parquet : Parquet) where
  -- The constructor.
  unfoldable pub new_vertices_collection : VertexInfo → Text → Result VerticesCollection
  new_vertices_collection vertex_info prefix = do
    (fs, base_dir) ← or_raise (storage.file_system_from_uri_or_path prefix)
    file_path ← or_raise (VertexInfo.get_vertices_num_file_path vertex_info)
    vertex_num ← or_raise (storage.read_file_to_value fs (base_dir ++ file_path))
    ok (record {
      vertex_info = vertex_info;
      prefix = prefix;
      labels = vertex_info.labels;
      is_filtered = false;
      filtered_ids = [];
      valid_chunk = [];
      vertex_num = vertex_num;
    })

  -- The loop of `filter` over the chunks that an earlier filter found, or over all. The bitmap, which is
  -- not used, is refused by an exception if its size is negative.
  unfoldable pub filter_rows : VerticesCollection → ℤ → ℤ → ℕ → List ℕ → Result (List ℕ × List ℕ)
  filter_rows c size total num ids =
      let path = c.prefix ++ c.vertex_info.prefix ++ codes "labels/chunk" in
      if ltb_ℤ (total /ℤ pos 64 +ℤ pos 1) (pos 0)
      then err raised
      else if c.is_filtered
      then filter_chunks parquet path size total num ids c.valid_chunk
      else filter_all parquet path size total num ids (pos_part total) 0

  -- `filter` of labels: the indices, and the chunks that have some. The number of vertices and the size
  -- of a chunk are put into variables of type `int`.
  unfoldable pub filter_labels : VerticesCollection → List Text → Result (List ℕ × List ℕ)
  filter_labels c names =
      let ids = tested_label_ids c.labels names in
      if ltb 0 (length ids)
      then filter_rows c (to_int c.vertex_info.chunk_size) (to_int c.vertex_num) (length names) ids
      else err (status key_error)

  -- The chunks found are added to those of the collection itself if it is not filtered, and to those of
  -- the new collection if it is.
  abbrev pub found_chunks : VerticesCollection → List ℕ → VerticesCollection
  found_chunks c chunks =
      if c.is_filtered then c else record c { valid_chunk = c.valid_chunk ++ chunks }

  -- The vertices in both lists, in the order of the first; the source leaves the order open.
  unfoldable pub intersection : List ℕ → List ℕ → List ℕ
  intersection [] origin = []
  intersection (x ∷ xs) origin =
      let rest = intersection xs origin in if is_among x origin then x ∷ rest else rest

  -- `value()` of a result that has none: an exception.
  abbrev pub value_of {ℓ} : {A : Type ℓ} → Result A → Result A
  value_of (ok a) = ok a
  value_of (err (status c)) = err raised
  value_of (err raised) = err raised
  value_of (err undefined) = err undefined

  abbrev pub found_vertex : Option VertexInfo → Result VertexInfo
  found_vertex none = err undefined
  found_vertex (some v) = ok v

  -- `verticesWithMultipleLabels` of a graph info, and `verticesWithLabel`, which has one label; a type
  -- that the graph lacks is a null pointer dereferenced.
  unfoldable pub vertices_with_labels : List Text → GraphInfo → Text → Result VerticesCollection
  vertices_with_labels names graph_info type = do
    found ← get_vertex_info graph_info type
    vertex_info ← found_vertex found
    c ← new_vertices_collection vertex_info graph_info.prefix
    (indices, chunks) ← value_of (filter_labels c names)
    ok (record c {
      is_filtered = true;
      filtered_ids = indices;
      valid_chunk = c.valid_chunk ++ chunks;
    })

  -- The new collection with the indices that a filter found in another: only if that one is filtered is
  -- the new one.
  abbrev pub narrowed : VerticesCollection → VerticesCollection → List ℕ → VerticesCollection
  narrowed new origin indices =
      if origin.is_filtered
      then record new {
        is_filtered = true;
        filtered_ids = intersection indices origin.filtered_ids;
      }
      else record new { filtered_ids = indices }

  -- `verticesWithLabel` of a collection, which filters the new collection.
  unfoldable pub vertices_with_label_in : Text → VerticesCollection → Result VerticesCollection
  vertices_with_label_in name origin = do
    new ← new_vertices_collection origin.vertex_info origin.prefix
    (indices, chunks) ← value_of (filter_labels new (name ∷ []))
    ok (narrowed (found_chunks new chunks) origin indices)

  -- `verticesWithMultipleLabels` of a collection, which filters that one: its chunks change if it is
  -- not filtered.
  unfoldable pub vertices_with_labels_in :
      List Text → VerticesCollection → Result (VerticesCollection × VerticesCollection)
  vertices_with_labels_in names origin = do
    new ← new_vertices_collection origin.vertex_info origin.prefix
    (indices, chunks) ← value_of (filter_labels origin names)
    let filled = (if origin.is_filtered then record new { valid_chunk = chunks } else new)
    ok (found_chunks origin chunks, narrowed filled origin indices)

  -- `Make`: the labels are read before the null pointer is checked.
  unfoldable pub make : GraphInfo → Text → Result VerticesCollection
  make graph_info type = do
    found ← get_vertex_info graph_info type
    vertex_info ← found_vertex found
    new_vertices_collection vertex_info graph_info.prefix

-- `size`.
unfoldable pub size : VerticesCollection → ℤ
size c = if c.is_filtered then pos (length c.filtered_ids) else c.vertex_num

-- `VertexIter`: its place, and the ids that a filter has left.
pub record VertexIter : Type 0 where
  pub cur_offset : ℤ
  pub is_filtered : Bool
  pub filtered_ids : List ℕ

-- `begin`, `end` and `find`.
unfoldable pub begin : VerticesCollection → VertexIter
begin c = record { cur_offset = pos 0; is_filtered = c.is_filtered; filtered_ids = c.filtered_ids }

unfoldable pub end : VerticesCollection → VertexIter
end c = record { cur_offset = size c; is_filtered = c.is_filtered; filtered_ids = c.filtered_ids }

unfoldable pub find : VerticesCollection → ℤ → VertexIter
find c id = record { cur_offset = id; is_filtered = false; filtered_ids = [] }

-- `id`.
unfoldable pub id : VertexIter → Result ℤ
id it =
    if it.is_filtered
    then (vector_at it.filtered_ids it.cur_offset >>= λ v. ok (pos v))
    else ok it.cur_offset

-- `operator++` and `operator!=`.
unfoldable pub increment : VertexIter → VertexIter
increment it = record it { cur_offset = it.cur_offset +ℤ pos 1 }

unfoldable pub differs : VertexIter → VertexIter → Bool
differs it rhs = not (it.cur_offset ==ℤ rhs.cur_offset)
