-- ===== src/Path.antt =====
-- `BuildPath` of cpp/src/graphar/graph_info.cc, and when two paths below one directory are equal.
use mathlib.Core.List.{append_assoc}
use graph_ar.Base.{
  sym, ◌∙◌, Bool, false, List, [], ◌∷◌, ◌++◌, ◌≡◌, Result, ok, err, undefined, ◌>>=◌, ◌==◌,
  if◌then◌else◌,
}
use graph_ar.Base.Text.{
  Text, codes, to_string, to_string-injective, to_string-Lacks_slash, append-left_cancel,
  append-sep-injective,
}
use graph_ar.Base.Int.{ℤ}

abbrev pub ends_with_slash : Text → Bool
ends_with_slash [] = false
ends_with_slash (c ∷ []) = c == b'/'
ends_with_slash (c ∷ d ∷ s) = ends_with_slash (d ∷ s)

-- One part of the path; `back()` of an empty string is undefined behaviour.
abbrev pub with_slash : Text → Result Text
with_slash [] = err undefined
with_slash (c ∷ s) = ok (if ends_with_slash (c ∷ s) then c ∷ s else (c ∷ s) ++ codes "/")

unfoldable pub build_path : List Text → Result Text
build_path [] = ok []
build_path (p ∷ ps) = do part ← with_slash p; rest ← build_path ps; ok (part ++ rest)

-- Files that differ in one number.
pub numbered-injective : (dir : Text) (i j : ℤ) → dir ++ to_string i ≡ dir ++ to_string j → i ≡ j
numbered-injective dir i j e = to_string-injective i j (append-left_cancel dir _ _ e)

part_shape :
    (dir a b : Text) → dir ++ a ++ codes "/chunk" ++ b ≡ dir ++ (a ++ b'/' ∷ (codes "chunk" ++ b))
part_shape dir a b = simp append_assoc

-- Files that differ in two numbers, the first of them in the name of a directory.
pub part_chunk-injective :
    (dir : Text) (i j k l : ℤ)
    → dir ++ to_string i ++ codes "/chunk" ++ to_string j
      ≡ dir ++ to_string k ++ codes "/chunk" ++ to_string l
    → (i ≡ k) × (j ≡ l)
part_chunk-injective dir i j k l e =
    let parts =
      append-sep-injective b'/' (to_string i) (to_string k) _ _ (to_string-Lacks_slash i)
        (to_string-Lacks_slash k)
        (append-left_cancel dir _ _ (sym (part_shape dir _ _) ∙ e ∙ part_shape dir _ _)) in
    (
      to_string-injective i k parts.0,
      to_string-injective j l (append-left_cancel (codes "chunk") _ _ parts.1),
    )
