-- ===== src/Reader/AdjList/Seek.antt =====
-- `seek_src` and `seek_dst` of `AdjListChunkInfoReader` (chunk_info_reader.cc).
use graph_ar.Types.Names.{not_named}
use graph_ar.Base.{
  invalid, ◌≢◌, Failure, refl, ap, sym, ◌∙◌, subst, ◌≡◌, ok, Result-cases, inl, inr, arith, Result,
  Bool-cases, if◌then◌else◌, ◌>>=◌, true, false, err, bind-ok,
}
use graph_ar.Base.Int.{==ℤ_sound, ==ℤ_refl, not_leb, ℤ, ◌<ℤ◌, ◌==ℤ◌, pos, leb_ℤ}
use graph_ar.ReaderUtil.{quotient}
use graph_ar.Reader.AdjList.{
  AdjListReader, seek, Storage, chunk_num_at, enter_vertex_chunk, seek_edges, is_unordered,
  get_adj_list_offset_of_vertex, and_then, Step, seek_src, is_by_source, seek_dst, is_by_dest,
}

seek_ok :
    (r w : AdjListReader) (index : ℤ)
    → seek r index ≡ (w, ok tt)
    → (quotient index r.edge_info.chunk_size ≡ ok w.chunk_index)
      × (w.chunk_index <ℤ w.chunk_num)
      × (record r { chunk_index = w.chunk_index } ≡ w)
unfolding seek
seek_ok r w index h = elim (Result-cases (quotient index r.edge_info.chunk_size)) [
  | inl (i, q) ↦ ground (arith, q)
  | inr (e, q) ↦ ground (arith, q)
]

module _ (storage : Storage) where
  -- The number of edge chunks that the reader has is the one that storage has for its vertex chunk.
  abbrev pub IsCounted : AdjListReader → Type 0
  IsCounted r = chunk_num_at storage r r.vertex_chunk_index ≡ ok r.chunk_num

  -- What entering a vertex chunk leaves: the chunk, and how many edge chunks it has.
  abbrev Entered : AdjListReader → ℤ → AdjListReader → Type 0
  Entered r i w =
      IsCounted w
      × (record r { vertex_chunk_index = w.vertex_chunk_index; chunk_num = w.chunk_num } ≡ w)
      × (w.vertex_chunk_index ≡ i)

  enter_ok :
      (r w : AdjListReader) (i : ℤ)
      → IsCounted r
      → enter_vertex_chunk storage r i ≡ (w, ok tt)
      → Entered r i w
  unfolding enter_vertex_chunk
  enter_ok r w i counted h = elim (Bool-cases (r.vertex_chunk_index ==ℤ i)) [
    | inl same ↦
        subst (Entered r i) (ground (arith, same))
          (counted, refl, ==ℤ_sound r.vertex_chunk_index i same)
    | inr differs ↦ elim (Result-cases (chunk_num_at storage r i)) [
      | inl (num, reads) ↦ subst (Entered r i) (ground (arith, differs, reads)) (reads, refl, refl)
      | inr (e, fails) ↦ absurd (ground (arith, differs, fails))
    ]
  ]

  -- The place of the first edge that a seek by vertex looks for: the offset of the vertex in an
  -- ordered list, and otherwise the first edge of the vertex chunk.
  abbrev pub first_edge : AdjListReader → ℤ → Result ℤ
  first_edge r id =
      if is_unordered r.adj_list_type
      then ok (pos 0)
      else (get_adj_list_offset_of_vertex storage r.edge_info r.prefix r.adj_list_type id
          >>= λ offsets. ok offsets.0)

  edges_ok :
      (r w : AdjListReader) (id : ℤ)
      → seek_edges storage r id ≡ (w, ok tt)
      → (first : ℤ) × (first_edge r id ≡ ok first) × (seek r first ≡ (w, ok tt))
  unfolding seek_edges
  edges_ok r w id h = elim (Bool-cases (is_unordered r.adj_list_type)) [
    | inl unordered ↦ (pos 0, ground (arith, unordered), ground (arith, unordered))
    | inr ordered ↦
        elim (Result-cases
          (get_adj_list_offset_of_vertex storage r.edge_info r.prefix r.adj_list_type id)) [
            | inl (offsets, reads) ↦
                (offsets.0, ground (arith, ordered, reads), ground (arith, ordered, reads))
            | inr (e, fails) ↦ absurd (ground (arith, ordered, fails))
          ]
  ]

  -- Where a seek by vertex leaves the reader: at the vertex chunk of the vertex, which exists, with
  -- the number of edge chunks that storage has for it, and at an edge chunk below that number, the
  -- one of the first edge that is looked for.
  pub record IsPlaced (r : AdjListReader) (vertex_chunk_size id : ℤ) (w : AdjListReader)
      : Type 0 where
    pub vertex_chunk : quotient id vertex_chunk_size ≡ ok w.vertex_chunk_index
    pub in_range : w.vertex_chunk_index <ℤ r.vertex_chunk_num
    pub counted : IsCounted w
    pub first :
        (first_edge r id >>= λ first. quotient first r.edge_info.chunk_size) ≡ ok w.chunk_index
    pub chunk_in_range : w.chunk_index <ℤ w.chunk_num

  and_then_ok :
      (s : Step AdjListReader) (f : AdjListReader → Step AdjListReader) (w : AdjListReader)
      → and_then s f ≡ (w, ok tt)
      → (u : AdjListReader) × (s ≡ (u, ok tt)) × (f u ≡ (w, ok tt))
  and_then_ok (u, ok t) f w h = (u, refl, h)
  and_then_ok (u, err e) f w h = absurd (ground arith)

  placed :
      (r w : AdjListReader) (size id i : ℤ)
      → IsCounted r
      → quotient id size ≡ ok i
      → leb_ℤ r.vertex_chunk_num i ≡ false
      → and_then (enter_vertex_chunk storage r i) (λ entered. seek_edges storage entered id)
        ≡ (w, ok tt)
      → IsPlaced r size id w
  placed r w size id i counted q in_range h =
      let (u, entered, rest) = and_then_ok (enter_vertex_chunk storage r i) _ w h in
      let (counted_u, same_u, at) = enter_ok r u i counted entered in
      let (first, found, sought) = edges_ok u w id rest in
      let (q_first, below, same_w) = seek_ok u w first sought in
      let i_w : i ≡ w.vertex_chunk_index = sym at ∙ ap (λ z. z.vertex_chunk_index) same_w in
      let keeps : (first_edge r id >>= λ f. quotient f r.edge_info.chunk_size)
          ≡ (first_edge u id >>= λ f. quotient f u.edge_info.chunk_size) =
        ap (λ z. first_edge z id >>= λ f. quotient f z.edge_info.chunk_size) same_u in
      record {
        vertex_chunk = q ∙ ap ok i_w;
        in_range = subst (λ j. j <ℤ r.vertex_chunk_num) i_w (not_leb r.vertex_chunk_num i in_range);
        counted = subst IsCounted same_w counted_u;
        first = keeps ∙ rw found q_first;
        chunk_in_range = below;
      }

  -- A seek by source that succeeds leaves the reader at the source's vertex chunk, with the number of
  -- edge chunks that storage has for it, and at an edge chunk below that number: that of the offset of
  -- the source if the list is ordered, and of an unordered list, which has no offsets, that of edge 0 of
  -- the vertex chunk. Before it, the reader must have the number that storage has for its vertex chunk.
  pub seek_src-IsPlaced :
      (r w : AdjListReader) (id : ℤ)
      → IsCounted r
      → seek_src storage r id ≡ (w, ok tt)
      → IsPlaced r r.edge_info.src_chunk_size id w
  unfolding seek_src
  seek_src-IsPlaced r w id counted h = elim (Bool-cases (is_by_source r.adj_list_type)) [
    | inr other_type ↦ absurd (ground (arith, other_type, not_named r.adj_list_type tt invalid))
    | inl by_source ↦ elim (Result-cases (quotient id r.edge_info.src_chunk_size)) [
      | inr (e, q) ↦ absurd (ground (arith, by_source, q))
      | inl (i, q) ↦ elim (Bool-cases (leb_ℤ r.vertex_chunk_num i)) [
        | inl out ↦ absurd (ground (arith, by_source, q, out))
        | inr in_range ↦
            placed r w r.edge_info.src_chunk_size id i counted q in_range
              (ground (arith, by_source, q, in_range))
      ]
    ]
  ]

  -- A seek by destination that succeeds leaves the reader at the destination's vertex chunk, with the
  -- number of edge chunks that storage has for it, and at an edge chunk below that number: that of the
  -- offset of the destination if the list is ordered, and of an unordered list that of edge 0 of the
  -- vertex chunk. Before it, the reader must have the number that storage has for its vertex chunk.
  pub seek_dst-IsPlaced :
      (r w : AdjListReader) (id : ℤ)
      → IsCounted r
      → seek_dst storage r id ≡ (w, ok tt)
      → IsPlaced r r.edge_info.dst_chunk_size id w
  unfolding seek_dst
  seek_dst-IsPlaced r w id counted h = elim (Bool-cases (is_by_dest r.adj_list_type)) [
    | inr other_type ↦ absurd (ground (arith, other_type, not_named r.adj_list_type tt invalid))
    | inl by_dest ↦ elim (Result-cases (quotient id r.edge_info.dst_chunk_size)) [
      | inr (e, q) ↦ absurd (ground (arith, by_dest, q))
      | inl (i, q) ↦ elim (Bool-cases (leb_ℤ r.vertex_chunk_num i)) [
        | inl out ↦ absurd (ground (arith, by_dest, q, out))
        | inr in_range ↦
            placed r w r.edge_info.dst_chunk_size id i counted q in_range
              (ground (arith, by_dest, q, in_range))
      ]
    ]
  ]

  failed_seek :
      (r : AdjListReader) (id i : ℤ) (e : Failure)
      → is_by_source r.adj_list_type ≡ true
      → quotient id r.edge_info.src_chunk_size ≡ ok i
      → i <ℤ r.vertex_chunk_num
      → r.vertex_chunk_index ≢ i
      → chunk_num_at storage r i ≡ err e
      → seek_src storage r id ≡ (record r { vertex_chunk_index = i }, err e)
  unfolding seek_src enter_vertex_chunk
  failed_seek r id i e by_source q in_range differs fails =
      ground (arith, by_source, q, in_range, differs, fails, ==ℤ_sound r.vertex_chunk_index i)

  seek_edges-first :
      (r : AdjListReader) (id j : ℤ)
      → (first_edge r id >>= λ first. quotient first r.edge_info.chunk_size) ≡ ok j
      → j <ℤ r.chunk_num
      → seek_edges storage r id ≡ (record r { chunk_index = j }, ok tt)
  unfolding seek_edges seek
  seek_edges-first r id j h below =
      let (first, found, at) =
        bind-ok (first_edge r id) (λ first. quotient first r.edge_info.chunk_size) (j) h in
      elim (Bool-cases (is_unordered r.adj_list_type)) [
        | inl unordered ↦ ground (arith, unordered, found, at, below)
        | inr ordered ↦
            elim (Result-cases
              (get_adj_list_offset_of_vertex storage r.edge_info r.prefix r.adj_list_type id)) [
                | inl (offsets, reads) ↦ ground (arith, ordered, reads, found, at, below)
                | inr (e, fails) ↦ absurd (ground (arith, ordered, fails, found))
              ]
      ]

  seek_src_here :
      (r : AdjListReader) (id : ℤ)
      → is_by_source r.adj_list_type ≡ true
      → quotient id r.edge_info.src_chunk_size ≡ ok r.vertex_chunk_index
      → r.vertex_chunk_index <ℤ r.vertex_chunk_num
      → seek_src storage r id ≡ seek_edges storage r id
  unfolding seek_src enter_vertex_chunk
  seek_src_here r id by_source q in_range =
      ground (arith, by_source, q, in_range, ==ℤ_refl r.vertex_chunk_index)

  -- When a seek by source goes to another vertex chunk whose number of edge chunks cannot be read, it
  -- fails as the read does; but the same seek made once more succeeds, although the number can still
  -- not be read: the edge chunk that is sought is compared with the number of the old vertex chunk, which
  -- the reader keeps, and must be below it.
  pub seek_src-seek_src :
      (r : AdjListReader) (id i j : ℤ) (e : Failure)
      → is_by_source r.adj_list_type ≡ true
      → quotient id r.edge_info.src_chunk_size ≡ ok i
      → i <ℤ r.vertex_chunk_num
      → r.vertex_chunk_index ≢ i
      → chunk_num_at storage r i ≡ err e
      → (first_edge r id >>= λ first. quotient first r.edge_info.chunk_size) ≡ ok j
      → j <ℤ r.chunk_num
      → ((seek_src storage r id).1 ≡ err e)
        × (seek_src storage (seek_src storage r id).0 id
            ≡ (record r { vertex_chunk_index = i; chunk_index = j }, ok tt))
  seek_src-seek_src r id i j e by_source q in_range differs fails first below =
      let failed = failed_seek r id i e by_source q in_range differs fails in
      let stale = record r { vertex_chunk_index = i } in
      (
        ap (λ s. s.1) failed,
        ap (λ s. seek_src storage s.0 id) failed
            ∙ seek_src_here stale id by_source q in_range
            ∙ seek_edges-first stale id j first below,
      )
