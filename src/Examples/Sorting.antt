-- ===== src/Examples/Sorting.antt =====
-- A sort to stand for `std::sort` in the examples of the edges builder.
use graph_ar.Base.{Bool, List, [], ◌∷◌, arith, Bool-cases, inl, inr, if◌then◌else◌}
use graph_ar.Base.Int.{ℤ, ltb_ℤ, ◌≤ℤ◌}
use graph_ar.Builder.Edges.Defs.{Edge}
use graph_ar.Builder.Edges.Csr.{AtLeast, Sorted}
use graph_ar.Builder.Edges.Order.{AtLeast-Perm}
use graph_ar.Builder.Edges.Layout.{Sorts}
use mathlib.Core.List.{Perm}
use mathlib.Core.List.Perm

-- Before the first edge that is not less.
unfoldable pub insert_by : (Edge → Edge → Bool) → Edge → List Edge → List Edge
insert_by cmp e [] = e ∷ []
insert_by cmp e (f ∷ fs) = let rest = insert_by cmp e fs in if cmp f e then f ∷ rest else e ∷ f ∷ fs

unfoldable pub sort_by : (Edge → Edge → Bool) → List Edge → List Edge
sort_by cmp [] = []
sort_by cmp (e ∷ es) = insert_by cmp e (sort_by cmp es)

insert_by-Perm :
    (cmp : Edge → Edge → Bool) (e : Edge) (es : List Edge) → Perm (insert_by cmp e es) (e ∷ es)
unfolding insert_by
insert_by-Perm cmp e [] = Perm.refl (e ∷ [])
insert_by-Perm cmp e (f ∷ fs) = elim (Bool-cases (cmp f e)) [
  | inl less ↦ rw less (Perm.trans (Perm.cons f (insert_by-Perm cmp e fs)) (Perm.swap e f fs))
  | inr more ↦ rw more (Perm.refl (e ∷ f ∷ fs))
]

sort_by-Perm : (cmp : Edge → Edge → Bool) (es : List Edge) → Perm (sort_by cmp es) es
unfolding sort_by
sort_by-Perm cmp [] = Perm.nil
sort_by-Perm cmp (e ∷ es) =
    Perm.trans (insert_by-Perm cmp e (sort_by cmp es)) (Perm.cons e (sort_by-Perm cmp es))

module _ (key : Edge → ℤ) where
  abbrev by_key : Edge → Edge → Bool
  by_key a b = ltb_ℤ (key a) (key b)

  weaker : (i j : ℤ) (es : List Edge) → i ≤ℤ j → AtLeast key j es → AtLeast key i es
  weaker i j [] h a = tt
  weaker i j (e ∷ es) h a = (omega arith, weaker i j es h a.1)

  insert_by-Sorted :
      (e : Edge) (es : List Edge) → Sorted key es → Sorted key (insert_by by_key e es)
  unfolding insert_by
  insert_by-Sorted e [] s = (tt, tt)
  insert_by-Sorted e (f ∷ fs) s = elim (Bool-cases (by_key f e)) [
    | inl less ↦
        let at_least : AtLeast key (key f) (e ∷ fs) = (ground (arith, less), s.0) in
        rw less (
          AtLeast-Perm key (key f) (e ∷ fs) (insert_by by_key e fs)
              (Perm.symm (insert_by-Perm by_key e fs)) at_least,
          insert_by-Sorted e fs s.1,
        )
    | inr more ↦
        let below : key e ≤ℤ key f = ground (arith, more) in
        rw more ((below, weaker (key e) (key f) fs below s.0), s)
  ]

  sort_by-Sorted : (es : List Edge) → Sorted key (sort_by by_key es)
  unfolding sort_by
  sort_by-Sorted [] = tt
  sort_by-Sorted (e ∷ es) = insert_by-Sorted e (sort_by by_key es) (sort_by-Sorted es)

pub sort_by-Sorts : Sorts sort_by
sort_by-Sorts key es = (sort_by-Perm (by_key key) es, sort_by-Sorted key es)
