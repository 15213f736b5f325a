-- ===== src/HighLevel.antt =====
-- The collections of vertices and edges of high-level/graph_reader.h and graph_reader.cc, and their
-- iterators. An exception ends the use of an iterator, so what a call does to it is a result.
pub mod EdgeIter
pub mod Edges
pub mod Labels
pub mod Vertices
use graph_ar.Base.{
  Bool, true, false, Option, none, some, Result, Status, ok, err, status, raised, undefined,
  index_error, key_error, or_raise,
}
use graph_ar.Reader.Steps.{Step}

-- A call whose status is not looked at.
abbrev pub ignored {ℓ} : {R : Type ℓ} → Step R → Result R
ignored (r, ok u) = ok r
ignored (r, err (status c)) = ok r
ignored (r, err raised) = err raised
ignored (r, err undefined) = err undefined

-- A call whose status is kept.
abbrev pub returned {ℓ} : {R : Type ℓ} → Step R → Result (R × Status)
returned (r, ok u) = ok (r, ok u)
returned (r, err (status c)) = ok (r, err (status c))
returned (r, err raised) = err raised
returned (r, err undefined) = err undefined

-- A call whose error status is thrown.
abbrev pub thrown {ℓ κ} : {R : Type ℓ} {A : Type κ} → R × Result A → Result (R × A)
thrown (r, ok a) = ok (r, a)
thrown (r, err (status c)) = err raised
thrown (r, err raised) = err raised
thrown (r, err undefined) = err undefined

-- A loop that does not end.
abbrev pub ended {ℓ} : {A : Type ℓ} → Option (Step A) → Result (A × Status)
ended none = err undefined
ended (some step) = returned step

abbrev pub is_ok : Status → Bool
is_ok (ok u) = true
is_ok (err e) = false

abbrev pub is_key_error : Status → Bool
is_key_error (err (status key_error)) = true
is_key_error _ = false

abbrev pub is_index_error : Status → Bool
is_index_error (err (status index_error)) = true
is_index_error _ = false
