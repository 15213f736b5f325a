-- ===== src/Builder/Edges/Csr.antt =====
-- The offset table of a sorted chunk, as the readers take it apart (edges_builder.cc,
-- `getOffsetTable`).
use graph_ar.Base.{
  ℕ, zero, suc, ◌+◌, ◌-◌, ◌<◌, true, false, List, [], ◌∷◌, ◌++◌, some, ◌≡◌, arith, refl,
  if◌then◌else◌, length, get_elem?, All, take, drop, Bool-cases, inl, inr, drop-append, sym,
  length-append, take-append, ◌∙◌, ◌∙◌, ap, append_assoc,
}
use graph_ar.Base.Int.{ℤ, pos, negsuc, ◌+ℤ◌, ◌≤ℤ◌, ◌<ℤ◌, ◌==ℤ◌, leb_ℤ, not_leb}
use graph_ar.Builder.Edges.Defs.{Edge}
use graph_ar.Builder.Edges.Offsets.{passed, offsets}

-- What lies between two neighbours in a list of offsets.
abbrev pub Slice : List ℕ → ℕ → List Edge → List Edge → Type 0
Slice table k xs ys =
    (a : ℕ) × (b : ℕ) × (get_elem? table k ≡ some a)
    × (get_elem? table (suc k) ≡ some b)
    × (take (b - a) (drop a xs) ≡ ys)

module _ (key : Edge → ℤ) where
  abbrev pub AtLeast : ℤ → List Edge → Type 0
  AtLeast i es = All (λ e. i ≤ℤ key e) es

  abbrev pub Below : ℤ → List Edge → Type 0
  Below i es = All (λ e. key e <ℤ i) es

  -- No edge stands behind one of a larger vertex.
  abbrev pub Sorted : List Edge → Type 0
  Sorted [] = Unit
  Sorted (e ∷ es) = AtLeast (key e) es × Sorted es

  -- The edges of a vertex, in their order.
  unfoldable pub edges_of : ℤ → List Edge → List Edge
  edges_of i [] = []
  edges_of i (e ∷ es) = let rest = edges_of i es in if key e ==ℤ i then e ∷ rest else rest

  AtLeast-trans : (i j : ℤ) (es : List Edge) → i ≤ℤ j → AtLeast j es → AtLeast i es
  AtLeast-trans i j [] h a = tt
  AtLeast-trans i j (e ∷ es) h a = (omega arith, AtLeast-trans i j es h a.1)

  edges_of-AtLeast : (i j : ℤ) (es : List Edge) → i <ℤ j → AtLeast j es → edges_of i es ≡ []
  unfolding edges_of
  edges_of-AtLeast i j [] h a = refl
  edges_of-AtLeast i j (e ∷ es) h a = ground (arith, edges_of-AtLeast i j es h a.1)

  edges_of-edges_of : (j i : ℤ) (es : List Edge) → i <ℤ j → edges_of j (edges_of i es) ≡ []
  unfolding edges_of
  edges_of-edges_of j i [] h = refl
  edges_of-edges_of j i (e ∷ es) h = ground (arith, edges_of-edges_of j i es h)

  edges_of-append :
      (i : ℤ) (xs ys : List Edge) → edges_of i (xs ++ ys) ≡ edges_of i xs ++ edges_of i ys
  unfolding edges_of
  edges_of-append i [] ys = refl
  edges_of-append i (x ∷ xs) ys = ground (arith, edges_of-append i xs ys)

  -- One step passes the edges of its vertex, and only them.
  abbrev Passed : ℤ → ℕ → List Edge → ℕ × List Edge → Type 0
  Passed i index es (next, rest) =
      (next ≡ index + length (edges_of i es))
      × (edges_of i es ++ rest ≡ es)
      × AtLeast (i +ℤ pos 1) rest
      × Sorted rest

  passed-here :
      (i : ℤ) (index : ℕ) (e : Edge) (es : List Edge)
      → leb_ℤ (key e) i ≡ true
      → passed key i index (e ∷ es) ≡ passed key i (suc index) es
  unfolding passed
  passed-here i index e es h = rw h refl

  passed-there :
      (i : ℤ) (index : ℕ) (e : Edge) (es : List Edge)
      → leb_ℤ (key e) i ≡ false
      → passed key i index (e ∷ es) ≡ (index, e ∷ es)
  unfolding passed
  passed-there i index e es h = rw h refl

  edges_of-here :
      (i : ℤ) (e : Edge) (es : List Edge)
      → i ≤ℤ key e
      → leb_ℤ (key e) i ≡ true
      → edges_of i (e ∷ es) ≡ e ∷ edges_of i es
  unfolding edges_of
  edges_of-here i e es h k = ground arith

  Passed-nil :
      (i : ℤ) (index : ℕ) (es : List Edge)
      → edges_of i es ≡ []
      → AtLeast (i +ℤ pos 1) es
      → Sorted es
      → Passed i index es (index, es)
  Passed-nil i index es h a s = (ground (arith, h), rw h refl, a, s)

  Passed-cons :
      (i : ℤ) (index : ℕ) (e : Edge) (es : List Edge) (r : ℕ × List Edge)
      → edges_of i (e ∷ es) ≡ e ∷ edges_of i es
      → Passed i (suc index) es r
      → Passed i index (e ∷ es) r
  Passed-cons i index e es r h (n, app, a, s) = (ground (arith, h, n), rw h (cc app), a, s)

  passed_lem :
      (i : ℤ) (index : ℕ) (es : List Edge)
      → AtLeast i es
      → Sorted es
      → Passed i index es (passed key i index es)
  unfolding passed edges_of
  passed_lem i index [] a s = ground arith
  passed_lem i index (e ∷ es) a s = elim (Bool-cases (leb_ℤ (key e) i)) [
    | inl le ↦ rw (passed-here i index e es le) (
        Passed-cons i index e es (passed key i (suc index) es) (edges_of-here i e es a.0 le)
          (passed_lem i (suc index) es a.1 s.1))
    | inr gt ↦
        let above : i <ℤ key e = not_leb (key e) i gt in
        rw (passed-there i index e es gt) (
          Passed-nil i index (e ∷ es) (edges_of-AtLeast i (key e) (e ∷ es) above (omega arith, s.0))
            (AtLeast-trans (i +ℤ pos 1) (key e) (e ∷ es) (ground (arith, above)) (omega arith, s.0))
            s)
  ]

  Segment-lem :
      (front mid rest es : List Edge) (next : ℕ)
      → next ≡ length front + length mid
      → mid ++ rest ≡ es
      → take (next - length front) (drop (length front) (front ++ es)) ≡ mid
  Segment-lem front mid rest es next n app =
      let size : next - length front ≡ length mid = omega arith in
      rw (drop-append front es) (rw size (rw (sym app) (take-append mid rest)))

  Slice-cong :
      (t u : List ℕ) (k : ℕ) (xs zs ys ws : List Edge)
      → t ≡ u
      → xs ≡ zs
      → ys ≡ ws
      → Slice t k xs ys
      → Slice u k zs ws
  Slice-cong t u k xs zs ys ws p q r (a, b, ha, hb, h) =
      (a, b, rw (sym p) ha, rw (sym p) hb, rw (sym q) (h ∙ r))

  abbrev pub table_from : ℕ → ℤ → ℕ → List Edge → List ℕ
  table_from n i index es = index ∷ offsets key n i index es

  add_zero : (i : ℤ) → i +ℤ pos 0 ≡ i
  add_zero (pos m) = ground arith
  add_zero (negsuc m) = ground arith

  next_vertex : (i : ℤ) (k : ℕ) → i +ℤ pos 1 +ℤ pos k ≡ i +ℤ pos (suc k)
  next_vertex (pos m) k = ground arith
  next_vertex (negsuc m) k = ground arith

  -- The edges of a later vertex all stand behind those of this one.
  edges_of-later :
      (i : ℤ) (k : ℕ) (es rest : List Edge)
      → edges_of i es ++ rest ≡ es
      → edges_of (i +ℤ pos 1 +ℤ pos k) rest ≡ edges_of (i +ℤ pos (suc k)) es
  edges_of-later i k es rest app =
      let j = i +ℤ pos (suc k) in
      let gone : edges_of j (edges_of i es) ≡ [] = edges_of-edges_of j i es (ground arith) in
      let split : edges_of j (edges_of i es ++ rest)
          ≡ edges_of j (edges_of i es) ++ edges_of j rest =
        edges_of-append j (edges_of i es) rest in
      rw (next_vertex i k) (cc (gone, split, app))

  pub offsets-Slice :
      (n : ℕ) (i : ℤ) (front es : List Edge) (k : ℕ)
      → AtLeast i es
      → Sorted es
      → k < n
      → Slice (table_from n i (length front) es) k (front ++ es) (edges_of (i +ℤ pos k) es)
  unfolding offsets
  offsets-Slice zero i front es k a s h = ground arith
  offsets-Slice (suc n) i front es zero a s h =
      let (next, app, below, sorted) = passed_lem i (length front) es a s in
      let same : i +ℤ pos 0 ≡ i = add_zero i in
      (
        length front,
        (passed key i (length front) es).0,
        refl,
        refl,
        rw same (Segment-lem front (edges_of i es) _ es _ next app),
      )
  offsets-Slice (suc n) i front es (suc k) a s h =
      let (next, app, below, sorted) = passed_lem i (length front) es a s in
      let r = passed key i (length front) es in
      let mid = edges_of i es in
      let at_next : length (front ++ mid) ≡ r.0 = length-append front mid ∙ sym next in
      let ih = offsets-Slice n (i +ℤ pos 1) (front ++ mid) r.1 k below sorted (omega arith) in
      Slice-cong (table_from n (i +ℤ pos 1) (length (front ++ mid)) r.1)
        (table_from n (i +ℤ pos 1) r.0 r.1) k ((front ++ mid) ++ r.1) (front ++ es) _ _
        (ap (λ index. table_from n (i +ℤ pos 1) index r.1) at_next)
        (append_assoc front mid r.1 ∙ ap (λ ys. front ++ ys) app) (edges_of-later i k es r.1 app) ih
