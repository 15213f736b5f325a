-- ===== src/EdgeInfo/Paths.antt =====
-- The files of an edge info (graph_info.cc).
use graph_ar.Base.{
  ◌≡◌, ok, Option, some, none, ◌++◌, [], ◌∷◌, arith, inl, inr, Result-cases, ok-injective, ◌⊎◌,
  ◌>>=◌,
}
use graph_ar.Base.Text.{Text, codes}
use graph_ar.Base.Int.{ℤ}
use graph_ar.Types.{AdjListType}
use graph_ar.Property.{PropertyGroup}
use graph_ar.Path.{numbered-injective, part_chunk-injective, build_path}
use graph_ar.EdgeInfo.{EdgeInfo}
use graph_ar.EdgeInfo.Files.{
  get_adj_list_file_path, get_property_file_path, get_adj_list_offset_file_path,
  get_edges_num_file_path, list_directory, list_prefix,
}

-- `GetAdjListFilePath` gives different files to different edge chunks of one adjacent list: equal
-- paths are of one vertex chunk and one edge chunk.
pub get_adj_list_file_path-injective :
    (e : EdgeInfo) (t : AdjListType) (i j k l : ℤ) (path : Text)
    → get_adj_list_file_path e i j t ≡ ok path
    → get_adj_list_file_path e k l t ≡ ok path
    → (i ≡ k) × (j ≡ l)
unfolding get_adj_list_file_path
get_adj_list_file_path-injective e t i j k l path hi hk = elim (Result-cases (list_directory e t)) [
  | inl (dir, h) ↦
      part_chunk-injective (dir ++ codes "adj_list/part") i j k l (ok-injective (ground (arith, h)))
  | inr (f, h) ↦ absurd (ground (arith, h))
]

-- `GetPropertyFilePath` gives different files to different edge chunks of one adjacent list and one
-- property group.
pub get_property_file_path-injective :
    (e : EdgeInfo) (group : Option PropertyGroup) (t : AdjListType) (i j k l : ℤ) (path : Text)
    → get_property_file_path e group t i j ≡ ok path
    → get_property_file_path e group t k l ≡ ok path
    → (i ≡ k) × (j ≡ l)
unfolding get_property_file_path
get_property_file_path-injective e none t i j k l path hi hk = cc
get_property_file_path-injective e (some pg) t i j k l path hi hk =
    elim (Result-cases (list_prefix e t >>= λ p. build_path (e.prefix ∷ p ∷ pg.prefix ∷ []))) [
      | inl (dir, h) ↦
          part_chunk-injective (dir ++ codes "part") i j k l (ok-injective (ground (arith, h)))
      | inr (f, h) ↦ absurd (ground (arith, h))
    ]

-- `GetAdjListOffsetFilePath` gives different files to different vertex chunks of one adjacent list,
-- and so does `GetEdgesNumFilePath`.
pub numbered_files-injective :
    (e : EdgeInfo) (t : AdjListType) (i j : ℤ) (path : Text)
    → ((get_adj_list_offset_file_path e i t ≡ ok path)
        × (get_adj_list_offset_file_path e j t ≡ ok path))
      ⊎ ((get_edges_num_file_path e i t ≡ ok path) × (get_edges_num_file_path e j t ≡ ok path))
    → i ≡ j
unfolding get_adj_list_offset_file_path get_edges_num_file_path
numbered_files-injective e t i j path (inl h) = elim (Result-cases (list_directory e t)) [
  | inl (dir, d) ↦
      numbered-injective (dir ++ codes "offset/chunk") i j (ok-injective (ground (arith, d)))
  | inr (f, d) ↦ absurd (ground (arith, d))
]
numbered_files-injective e t i j path (inr h) = elim (Result-cases (list_directory e t)) [
  | inl (dir, d) ↦
      numbered-injective (dir ++ codes "edge_count") i j (ok-injective (ground (arith, d)))
  | inr (f, d) ↦ absurd (ground (arith, d))
]
