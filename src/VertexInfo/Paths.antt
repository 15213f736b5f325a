-- ===== src/VertexInfo/Paths.antt =====
-- The files of a vertex info (graph_info.cc).
use graph_ar.Base.{
  none, ◌≡◌, ok, Option, some, ◌++◌, Result-cases, ◌∷◌, [], inl, ok-injective, arith, inr,
}
use graph_ar.Base.Text.{Text, codes}
use graph_ar.Base.Int.{ℤ}
use graph_ar.Property.{PropertyGroup}
use graph_ar.Path.{numbered-injective, build_path}
use graph_ar.VertexInfo.{VertexInfo, get_file_path}

-- `GetFilePath` gives different files to different chunks of one property group.
pub get_file_path-injective :
    (v : VertexInfo) (group : Option PropertyGroup) (i j : ℤ) (path : Text)
    → get_file_path v group i ≡ ok path
    → get_file_path v group j ≡ ok path
    → i ≡ j
unfolding get_file_path
get_file_path-injective v none i j path hi hj = cc
get_file_path-injective v (some pg) i j path hi hj =
    elim (Result-cases (build_path (v.prefix ∷ pg.prefix ∷ []))) [
      | inl (dir, e) ↦
          numbered-injective (dir ++ codes "chunk") i j (ok-injective (ground (arith, e)))
      | inr (f, e) ↦ absurd (ground (arith, e))
    ]
