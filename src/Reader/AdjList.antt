-- ===== src/Reader/AdjList.antt =====
-- `AdjListChunkInfoReader` (chunk_info_reader.cc). Its file system and base directory are set and
-- not used again.
pub mod Next
pub mod Seek
use graph_ar.Base.{
  ℕ, zero, suc, Bool, true, false, not, Option, none, some, Result, Status, ok, err, status,
  invalid, index_error, key_error, ◌>>=◌, ◌++◌, if◌then◌else◌, or_raise,
}
use graph_ar.Base.Text.{Text}
use graph_ar.Base.Int.{ℤ, pos, pos_part, ◌+ℤ◌, ◌-ℤ◌, ◌==ℤ◌, leb_ℤ}
use graph_ar.Types.{
  AdjListType, unordered_by_source, unordered_by_dest, ordered_by_source, ordered_by_dest, other,
  error_naming,
}
use graph_ar.EdgeInfo.{EdgeInfo}
use graph_ar.EdgeInfo
use graph_ar.GraphInfo.{GraphInfo, get_edge_info}
use graph_ar.Storage.{Storage}
use graph_ar.ReaderUtil.{
  quotient, get_edge_chunk_num, get_edge_vertex_chunk_num, get_adj_list_offset_of_vertex,
}
use graph_ar.Reader.Steps.{Step, and_then, with_value}

pub record AdjListReader : Type 0 where
  pub edge_info : EdgeInfo
  pub adj_list_type : AdjListType
  pub prefix : Text
  pub vertex_chunk_index : ℤ
  pub chunk_index : ℤ
  pub vertex_chunk_num : ℤ
  pub chunk_num : ℤ

-- The types that `seek_src` and `seek_dst` take, and the types without offsets.
abbrev pub is_by_source : AdjListType → Bool
is_by_source unordered_by_source = true
is_by_source ordered_by_source = true
is_by_source unordered_by_dest = false
is_by_source ordered_by_dest = false
is_by_source (other n) = false

abbrev pub is_by_dest : AdjListType → Bool
is_by_dest unordered_by_source = false
is_by_dest ordered_by_source = false
is_by_dest unordered_by_dest = true
is_by_dest ordered_by_dest = true
is_by_dest (other n) = false

abbrev pub is_unordered : AdjListType → Bool
is_unordered unordered_by_source = true
is_unordered ordered_by_source = false
is_unordered unordered_by_dest = true
is_unordered ordered_by_dest = false
is_unordered (other n) = false

-- `seek`.
unfoldable pub seek : AdjListReader → ℤ → Step AdjListReader
seek r index = with_value r (quotient index r.edge_info.chunk_size) (λ i.
    (record r { chunk_index = i }, if leb_ℤ r.chunk_num i then err (status index_error) else ok tt))

-- `GetChunk`.
unfoldable pub get_chunk : AdjListReader → Result Text
get_chunk r = do
  chunk_file_path ←
      EdgeInfo.Files.get_adj_list_file_path r.edge_info r.vertex_chunk_index r.chunk_index
        r.adj_list_type
  ok (r.prefix ++ chunk_file_path)

-- The check for the null pointer that each `Make` of a graph info begins with.
abbrev pub edge_or_key_error : Option EdgeInfo → Result EdgeInfo
edge_or_key_error none = err (status key_error)
edge_or_key_error (some e) = ok e

module _ (storage : Storage) where
  -- The number of edge chunks of a vertex chunk.
  abbrev pub chunk_num_at : AdjListReader → ℤ → Result ℤ
  chunk_num_at r i = get_edge_chunk_num storage r.prefix r.edge_info r.adj_list_type i

  -- The part of `seek_src` and `seek_dst` that goes to another vertex chunk: the index is set before
  -- the number of its edge chunks is read.
  unfoldable pub enter_vertex_chunk : AdjListReader → ℤ → Step AdjListReader
  enter_vertex_chunk r i =
      if r.vertex_chunk_index ==ℤ i
      then (r, ok tt)
      else (let entered = record r { vertex_chunk_index = i } in
          with_value entered (chunk_num_at r i)
            (λ num. (record entered { chunk_num = num }, ok tt)))

  -- The end of `seek_src` and `seek_dst`: the first chunk, or the one of the vertex's first edge.
  unfoldable pub seek_edges : AdjListReader → ℤ → Step AdjListReader
  seek_edges r id =
      if is_unordered r.adj_list_type
      then seek r (pos 0)
      else with_value r
          (get_adj_list_offset_of_vertex storage r.edge_info r.prefix r.adj_list_type id)
          (λ offsets. seek r offsets.0)

  -- `seek_src`.
  unfoldable pub seek_src : AdjListReader → ℤ → Step AdjListReader
  seek_src r id =
      if not (is_by_source r.adj_list_type)
      then (r, error_naming r.adj_list_type invalid)
      else with_value r (quotient id r.edge_info.src_chunk_size) (λ i.
        if leb_ℤ r.vertex_chunk_num i
        then (r, err (status index_error))
        else and_then (enter_vertex_chunk r i) (λ entered. seek_edges entered id))

  -- `seek_dst`.
  unfoldable pub seek_dst : AdjListReader → ℤ → Step AdjListReader
  seek_dst r id =
      if not (is_by_dest r.adj_list_type)
      then (r, error_naming r.adj_list_type invalid)
      else with_value r (quotient id r.edge_info.dst_chunk_size) (λ i.
        if leb_ℤ r.vertex_chunk_num i
        then (r, err (status index_error))
        else and_then (enter_vertex_chunk r i) (λ entered. seek_edges entered id))

  -- The loop of `next_chunk`, with the status past the last vertex chunk, on fuel; `none` if that
  -- runs out.
  unfoldable pub advance : Status → ℕ → AdjListReader → Option (Step AdjListReader)
  advance past_end zero r = none
  advance past_end (suc fuel) r = elim (leb_ℤ r.chunk_num r.chunk_index) [
    | false ↦ some (r, ok tt)
    | true ↦
        let i = r.vertex_chunk_index +ℤ pos 1 in
        elim (leb_ℤ r.vertex_chunk_num i) [
          | true ↦ some (record r { vertex_chunk_index = i }, past_end)
          | false ↦ elim (or_raise (chunk_num_at r i)) [
            | err e ↦ some (record r { vertex_chunk_index = i; chunk_index = pos 0 }, err e)
            | ok num ↦
                advance past_end fuel
                  (record r { vertex_chunk_index = i; chunk_index = pos 0; chunk_num = num })
          ]
        ]
  ]

  -- As many rounds as there are vertex chunks behind the reader's are enough.
  abbrev pub rounds : AdjListReader → ℕ
  rounds r = suc (pos_part (r.vertex_chunk_num -ℤ r.vertex_chunk_index))

  -- `next_chunk`.
  unfoldable pub next_chunk : AdjListReader → Option (Step AdjListReader)
  next_chunk r =
      advance (err (status index_error)) (rounds r)
        (record r { chunk_index = r.chunk_index +ℤ pos 1 })

  -- The constructor.
  unfoldable pub new_adj_list_reader : EdgeInfo → AdjListType → Text → Result AdjListReader
  new_adj_list_reader edge_info adj_list_type prefix = do
    (fs, base_dir) ← or_raise (storage.file_system_from_uri_or_path prefix)
    path_prefix ← or_raise (EdgeInfo.Files.get_adj_list_path_prefix edge_info adj_list_type)
    vertex_chunk_num ← or_raise (get_edge_vertex_chunk_num storage prefix edge_info adj_list_type)
    chunk_num ← or_raise (get_edge_chunk_num storage prefix edge_info adj_list_type (pos 0))
    ok (record {
      edge_info = edge_info;
      adj_list_type = adj_list_type;
      prefix = prefix;
      vertex_chunk_index = pos 0;
      chunk_index = pos 0;
      vertex_chunk_num = vertex_chunk_num;
      chunk_num = chunk_num;
    })

  -- `Make` of an edge info.
  unfoldable pub make : EdgeInfo → AdjListType → Text → Result AdjListReader
  make edge_info adj_list_type prefix =
      if not (EdgeInfo.has_adjacent_list_type edge_info adj_list_type)
      then error_naming adj_list_type key_error
      else new_adj_list_reader edge_info adj_list_type prefix

  -- `Make` of a graph info and the three types.
  unfoldable pub make_of_types : GraphInfo → Text → Text → Text → AdjListType → Result AdjListReader
  make_of_types graph_info src_type edge_type dst_type adj_list_type = do
    found ← get_edge_info graph_info src_type edge_type dst_type
    edge_info ← edge_or_key_error found
    make edge_info adj_list_type graph_info.prefix
