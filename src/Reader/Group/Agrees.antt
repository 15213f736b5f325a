-- ===== src/Reader/Group/Agrees.antt =====
-- `AdjListPropertyChunkInfoReader` against `AdjListChunkInfoReader` (chunk_info_reader.cc).
use graph_ar.Base.{◌≡◌, refl, index_error, err, status, arith}
use graph_ar.Types.{
  AdjListType, IsConstant, error_naming, adj_list_type_to_string, unordered_by_source,
  unordered_by_dest, ordered_by_source, ordered_by_dest, other,
}
use graph_ar.Storage.{Storage}
use graph_ar.Reader.Group.{GroupReader, on_edges?, next_chunk}
use graph_ar.Reader.AdjList

naming_constant :
    (t : AdjListType)
    → IsConstant t
    → error_naming {A = Unit {0}} t index_error ≡ err (status index_error)
unfolding adj_list_type_to_string
naming_constant unordered_by_source c = refl
naming_constant unordered_by_dest c = refl
naming_constant ordered_by_source c = refl
naming_constant ordered_by_dest c = refl
naming_constant (other n) c = absurd (omega arith)

-- Where the type of the list is a constant of the enumeration, `next_chunk` of a group reader moves it
-- as `next_chunk` of the adjacent list reader does, with the same status, and keeps the group.
pub group_next_chunk_lem :
    (storage : Storage) (r : GroupReader)
    → IsConstant r.edges.adj_list_type
    → next_chunk storage r ≡ on_edges? storage r (AdjList.next_chunk storage r.edges)
unfolding next_chunk AdjList.next_chunk
group_next_chunk_lem storage r constant = rw (naming_constant r.edges.adj_list_type constant) refl
