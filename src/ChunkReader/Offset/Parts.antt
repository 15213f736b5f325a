-- ===== src/ChunkReader/Offset/Parts.antt =====
-- The parts of the offset reader and of `GetAdjListOffsetOfVertex`: the list of a directory, and the
-- place of a vertex among the chunks.
use graph_ar.Base.{◌>>=◌, ◌<◌, ◌<◌}
use graph_ar.ChunkReader.Offset.{offset_chunk_size}
use graph_ar.ReaderUtil.{ordered_chunk_size, remainder, quotient}
use graph_ar.Base.{raised, undefined}
use graph_ar.EdgeInfo.{adj_list_Eq}
use native.Mathlib.Nat.{mod-add-div'}
use graph_ar.Base.{
  ℕ, ◌*◌, ◌/◌, ◌%◌, ◌∙◌, ap, arith, Option, none, some, err, status, key_error, bind-ok, or_raise,
  deref, deref-ok, StatusCode,
}
use graph_ar.Base.Text.{Text}
use graph_ar.Base.Int.{◌-ℤ◌, ◌*ℤ◌, mul_pos, minus_pos}
use graph_ar.Base.Assoc.{find}
use graph_ar.Types.{AdjListType, error_naming, adj_list_type_to_string}
use graph_ar.Property.{AdjacentList}
use graph_ar.EdgeInfo.{EdgeInfo, get_adjacent_list}
use graph_ar.EdgeInfo.Files.{get_offset_path_prefix, list_directory, list_prefix}
use graph_ar.Base.{Result, ok, ◌>>=◌, ◌≡◌}
use graph_ar.Base.Int.{ℤ, pos}
use graph_ar.Base.Assoc.{vector_at}

pub or_raise-ok : {A : Type 0} (v : Result A) (a : A) → or_raise v ≡ ok a → v ≡ ok a
or_raise-ok (ok b) a h = h
or_raise-ok (err (status c)) a h = cc
or_raise-ok (err raised) a h = cc
or_raise-ok (err undefined) a h = cc

error_naming-IsErr :
    (type : AdjListType) (c : StatusCode) (p : Text) → error_naming type c ≡ ok p → ⊥
error_naming-IsErr type c p h =
    let (name, e, absurdity) = bind-ok (adj_list_type_to_string type) _ p h in cc

listed :
    (e : EdgeInfo) (type : AdjListType) (p : Text) (place : Option ℕ)
    → elim place [
      | none ↦ error_naming type key_error
      | some i ↦ (vector_at e.adjacent_lists (pos i) >>= λ al. deref al >>= λ l. ok l.prefix)
    ]
      ≡ ok p
    → (al : AdjacentList) × (elim place [
      | none ↦ ok none
      | some i ↦ vector_at e.adjacent_lists (pos i)
    ]
        ≡ ok (some al))
listed e type p none h = absurd (error_naming-IsErr type key_error p h)
listed e type p (some i) h =
    let (al, here, rest) = bind-ok (vector_at e.adjacent_lists (pos i)) _ p h in
    let (l, same, last) = bind-ok (deref al) _ p rest in (l, here ∙ ap ok (deref-ok al l same))

found_list :
    (e : EdgeInfo) (type : AdjListType) (p : Text)
    → list_prefix e type ≡ ok p
    → (al : AdjacentList) × (get_adjacent_list e type ≡ ok (some al))
unfolding list_prefix get_adjacent_list
found_list e type p h = listed e type p (find type e.adjacent_list_type_to_index) h

pub list_of_directory :
    (e : EdgeInfo) (type : AdjListType) (p : Text)
    → get_offset_path_prefix e type ≡ ok p
    → (al : AdjacentList) × (get_adjacent_list e type ≡ ok (some al))
unfolding get_offset_path_prefix list_directory
list_of_directory e type p h =
    let (dir, directory, rest) = bind-ok (list_directory e type) _ p h in
    let (prefix, found, more) = bind-ok (list_prefix e type) _ dir directory in
    found_list e type prefix found

-- The row of a vertex in its chunk.
pub row_of : (k s : ℕ) → pos k -ℤ pos (k / s) *ℤ pos s ≡ pos (k % s)
row_of k s =
    ap (λ n. pos k -ℤ n) (mul_pos (k / s) s) ∙ minus_pos k (k / s * s) (k % s) (mod-add-div' k s)

pub quotient_of : (k s : ℕ) → 0 < s → quotient (pos k) (pos s) ≡ ok (pos (k / s))
quotient_of k s h = ground (arith, h)

pub remainder_of : (k s : ℕ) → 0 < s → remainder (pos k) (pos s) ≡ ok (pos (k % s))
remainder_of k s h = ground (arith, h)

pub ordered_size :
    (e : EdgeInfo) (type : AdjListType) (n : ℤ)
    → offset_chunk_size e type ≡ ok n
    → ordered_chunk_size e type ≡ ok n
ordered_size e graph_ar.Types.ordered_by_source n h = h
ordered_size e graph_ar.Types.ordered_by_dest n h = h
ordered_size e graph_ar.Types.unordered_by_source n h = cc
ordered_size e graph_ar.Types.unordered_by_dest n h = cc
ordered_size e (graph_ar.Types.other m) n h = cc
