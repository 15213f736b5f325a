-- ===== src/ChunkReader/Vertex/Make.antt =====
-- The `Make` functions of `VertexPropertyArrowChunkReader` (arrow/chunk_reader.cc).
use graph_ar.Base.{
  Bool, true, false, List, [], ◌∷◌, Option, none, some, Result, Status, ok, err, status, invalid,
  key_error, ◌>>=◌, ◌>>◌, ◌++◌, if◌then◌else◌,
}
use graph_ar.Base.Text.{Text, codes, text_eq}
use graph_ar.Property.{PropertyGroup}
use graph_ar.Base.Assoc.{find, or_minus_one, text_Eq}
use graph_ar.Base.Int.{◌==ℤ◌}
use graph_ar.VertexInfo.{VertexInfo}
use graph_ar.VertexInfo
use graph_ar.GraphInfo.{GraphInfo, get_vertex_info}
use graph_ar.Storage.{Storage}
use graph_ar.Expression.{ArrowCompute, FilterOptions}
use graph_ar.ChunkReader.Casts.{ArrowTables}
use graph_ar.ChunkReader.Vertex.{VertexChunkReader, new_vertex_chunk_reader, new_label_reader}

-- `SelectType`.
pub data SelectType : Type 0 where
  properties labels : SelectType

-- The checks for null pointers.
abbrev pub vertex_or_key_error : Option VertexInfo → Result VertexInfo
vertex_or_key_error none = err (status key_error)
vertex_or_key_error (some v) = ok v

abbrev pub vertex_group_or_key_error : Option PropertyGroup → Result PropertyGroup
vertex_group_or_key_error none = err (status key_error)
vertex_group_or_key_error (some pg) = ok pg

abbrev pub index_col : Text
index_col = codes "_graphArVertexIndex"

-- The name of the column of indices in front of the name of a property.
abbrev pub with_index_col : Text → List Text
with_index_col name = if text_eq name index_col then name ∷ [] else index_col ∷ name ∷ []

-- The last name, and the names before it; a last name that is the index is exchanged with the first.
abbrev pub split_last : Text → List Text → List Text × Text
split_last name [] = ([], name)
split_last name (n ∷ ns) = let (front, last) = split_last n ns in (name ∷ front, last)

abbrev pub exchanged : List Text × Text → List Text × Text
exchanged ([], last) = ([], last)
exchanged (n ∷ ns, last) = (last ∷ ns, n)

-- Two properties stand in the same place among the groups.
abbrev pub same_place : VertexInfo → Text → Text → Bool
same_place v a b =
    or_minus_one (find a v.property_name_to_index)
    ==ℤ or_minus_one (find b v.property_name_to_index)

-- The loop over the names before the last: each is of the same property group, which are compared as
-- pointers; two lookups give the same pointer exactly if they give the same place.
unfoldable pub same_group : VertexInfo → Text → List Text → Status
same_group vertex_info last [] = ok tt
same_group vertex_info last (name ∷ names) = do
  found ← VertexInfo.get_property_group vertex_info name
  pg ← vertex_group_or_key_error found
  if same_place vertex_info name last
      then same_group vertex_info last names
      else err (status invalid)

unfoldable pub has_index : List Text → Bool
has_index [] = false
has_index (name ∷ names) =
    let rest = has_index names in if text_eq name index_col then true else rest

module _ (storage : Storage) (arrow : ArrowCompute) (tables : ArrowTables storage arrow) where
  abbrev pub Reader : Type 0
  Reader = VertexChunkReader storage arrow tables

  -- `Make` of a graph info, a type and a property group.
  unfoldable pub make_of_group :
      GraphInfo → Text → Option PropertyGroup → FilterOptions arrow → Result Reader
  make_of_group graph_info type property_group options = do
    found ← get_vertex_info graph_info type
    vertex_info ← vertex_or_key_error found
    new_vertex_chunk_reader storage arrow tables vertex_info property_group [] graph_info.prefix
        options

  -- `Make` of a graph info, a type and the name of a property.
  unfoldable pub make_of_property : GraphInfo → Text → Text → FilterOptions arrow → Result Reader
  make_of_property graph_info type property_name options = do
    found ← get_vertex_info graph_info type
    vertex_info ← vertex_or_key_error found
    group ← VertexInfo.get_property_group vertex_info property_name
    property_group ← vertex_group_or_key_error group
    new_vertex_chunk_reader storage arrow tables vertex_info (some property_group)
        (with_index_col property_name) graph_info.prefix options

  -- The names with the column of indices, unless they have it.
  abbrev pub indexed : List Text → List Text
  indexed names = if has_index names then names else index_col ∷ names

  -- The rest of `MakeForProperties`, with the names before the last and the last.
  unfoldable pub make_of_names :
      GraphInfo → VertexInfo → List Text × Text → FilterOptions arrow → Result Reader
  make_of_names graph_info vertex_info (front, last) options = do
    group ← VertexInfo.get_property_group vertex_info last
    property_group ← vertex_group_or_key_error group
    same_group vertex_info last front
    new_vertex_chunk_reader storage arrow tables vertex_info (some property_group)
        (indexed (front ++ last ∷ [])) graph_info.prefix options

  abbrev pub names_arranged : List Text × Text → List Text × Text
  names_arranged (front, last) =
      if text_eq last index_col then exchanged (front, last) else (front, last)

  -- `MakeForProperties`.
  unfoldable pub make_for_properties :
      GraphInfo → Text → List Text → FilterOptions arrow → Result Reader
  make_for_properties graph_info type property_names options = do
    found ← get_vertex_info graph_info type
    vertex_info ← vertex_or_key_error found
    elim property_names [
      | [] ↦ err (status invalid)
      | n ∷ ns ↦ make_of_names graph_info vertex_info (names_arranged (split_last n ns)) options
    ]

  -- `MakeForLabels`.
  unfoldable pub make_for_labels :
      GraphInfo → Text → List Text → FilterOptions arrow → Result Reader
  make_for_labels graph_info type names options = do
    found ← get_vertex_info graph_info type
    vertex_info ← vertex_or_key_error found
    new_label_reader storage arrow tables vertex_info names graph_info.prefix options

  -- `Make` of names of properties or labels.
  unfoldable pub make_of_selected :
      GraphInfo → Text → List Text → SelectType → FilterOptions arrow → Result Reader
  make_of_selected graph_info type names labels options =
      make_for_labels graph_info type names options
  make_of_selected graph_info type names properties options =
      make_for_properties graph_info type names options
