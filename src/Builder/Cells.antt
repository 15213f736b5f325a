-- ===== src/Builder/Cells.antt =====
-- The values that `tryToAppend` of the two builders puts into a column.
use graph_ar.Base.{
  Bool, true, false, List, Option, none, ◌≡◌, ok, arith, Bool-cases, inl, inr, Option-cases,
  if◌then◌else◌, Failure, err, raised,
}
use graph_ar.Base.Text.{Text}
use graph_ar.Base.Assoc.{find, text_Eq}
use graph_ar.Builder.{CppType, AnyValue, cell, same_cpp_type}

-- What a table says of an element under the name of a property.
abbrev pub value_in : Text → Bool → List (Text × AnyValue) → Option AnyValue
value_in name empty properties = if empty then none else find name properties

pub cell-value_in :
    (t : CppType) (name : Text) (empty : Bool) (m : List (Text × AnyValue)) (a : Option AnyValue)
    → cell t name empty m ≡ ok a
    → a ≡ value_in name empty m
cell-value_in t name true m a h = ground (arith, h)
cell-value_in t name false m a h = elim (Option-cases (find name m)) [
  | inl absent ↦ ground (arith, h, absent)
  | inr (w, there) ↦ elim (Bool-cases (same_cpp_type w.cpp_type t)) [
    | inl same ↦ ground (arith, h, there, same)
    | inr other ↦ ground (arith, h, there, other)
  ]
]

pub cell-raised :
    (t : CppType) (name : Text) (empty : Bool) (m : List (Text × AnyValue)) (f : Failure)
    → cell t name empty m ≡ err f
    → f ≡ raised
cell-raised t name true m f h = cc
cell-raised t name false m f h = elim (Option-cases (find name m)) [
  | inl absent ↦ ground (arith, h, absent)
  | inr (w, there) ↦ elim (Bool-cases (same_cpp_type w.cpp_type t)) [
    | inl same ↦ ground (arith, h, there, same)
    | inr other ↦ ground (arith, h, there, other)
  ]
]
