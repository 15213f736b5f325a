-- ===== src/ChunkWriter/Edge/Flat.antt =====
-- `getOffsetTable` of arrow/chunk_writer.cc, over the chunks of a column, against the one of
-- high-level/edges_builder.cc, over a list of edges.
use graph_ar.Base.{
  ℕ, zero, suc, List, [], ◌∷◌, ◌++◌, Option, none, some, map, ◌≡◌, Result, ok, arith, refl,
  Bool-cases, inl, inr, append_nil, ◌∙◌, sym, ap, ◌⊎◌, subst, ◌⊎◌,
}
use graph_ar.Base.Int.{ℤ, pos, ◌+ℤ◌, leb_ℤ}
use graph_ar.ChunkWriter.Edge.Column.{passed_ids, passed_chunks, chunked_offsets}
use graph_ar.Builder.Edges.Defs.{Edge}
use graph_ar.Builder.Edges.Offsets.{passed, offsets}

-- No chunk of a column is empty.
abbrev pub NoEmpty : List (List (Option ℤ)) → Type 0
NoEmpty [] = Unit
NoEmpty ([] ∷ cs) = ⊥
NoEmpty ((x ∷ xs) ∷ cs) = NoEmpty cs

-- All values of the chunks, in order.
unfoldable pub concat : List (List (Option ℤ)) → List (Option ℤ)
concat [] = []
concat (c ∷ cs) = c ++ concat cs

passed_ids-stop :
    (i : ℤ) (g : ℕ) (xs ys : List (Option ℤ)) (h : ℕ) (z : Option ℤ) (zs : List (Option ℤ))
    → passed_ids i g xs ≡ (h, z ∷ zs)
    → passed_ids i g (xs ++ ys) ≡ (h, (z ∷ zs) ++ ys)
unfolding passed_ids
passed_ids-stop i g [] ys h z zs e = absurd (ground (arith, e))
passed_ids-stop i g (none ∷ xs) ys h z zs e = passed_ids-stop i (suc g) xs ys h z zs e
passed_ids-stop i g (some x ∷ xs) ys h z zs e = elim (Bool-cases (leb_ℤ x i)) [
  | inl le ↦ rw le (passed_ids-stop i (suc g) xs ys h z zs (ground (arith, e, le)))
  | inr gt ↦ ground (arith, e, gt)
]

passed_ids-through :
    (i : ℤ) (g : ℕ) (xs ys : List (Option ℤ)) (h : ℕ)
    → passed_ids i g xs ≡ (h, [])
    → passed_ids i g (xs ++ ys) ≡ passed_ids i h ys
unfolding passed_ids
passed_ids-through i g [] ys h e = ground (arith, e)
passed_ids-through i g (none ∷ xs) ys h e = passed_ids-through i (suc g) xs ys h e
passed_ids-through i g (some x ∷ xs) ys h e = elim (Bool-cases (leb_ℤ x i)) [
  | inl le ↦ rw le (passed_ids-through i (suc g) xs ys h (ground (arith, e, le)))
  | inr gt ↦ absurd (ground (arith, e, gt))
]

-- What a round over the chunks gives, by a round over all their values.
abbrev Flat : ℕ × List (Option ℤ) → Result (ℕ × List (Option ℤ) × List (List (Option ℤ))) → Type 0
Flat (next, rest) r =
    (xs : List (Option ℤ)) × (cs : List (List (Option ℤ))) × (r ≡ ok (next, xs, cs))
    × (xs ++ concat cs ≡ rest)
    × NoEmpty cs

-- A round that ends within the first chunk, and one that goes on with the next.
passed_chunks-stop :
    (i : ℤ) (g : ℕ) (ids c : List (Option ℤ)) (cs : List (List (Option ℤ))) (h : ℕ) (z : Option ℤ)
    (zs : List (Option ℤ))
    → passed_ids i g ids ≡ (h, z ∷ zs)
    → passed_chunks i g ids (c ∷ cs) ≡ ok (h, z ∷ zs, c ∷ cs)
unfolding passed_chunks
passed_chunks-stop i g ids c cs h z zs e = ground (arith, e)

passed_chunks-through :
    (i : ℤ) (g : ℕ) (ids : List (Option ℤ)) (y : Option ℤ) (ys : List (Option ℤ))
    (cs : List (List (Option ℤ))) (h : ℕ)
    → passed_ids i g ids ≡ (h, [])
    → passed_chunks i g ids ((y ∷ ys) ∷ cs) ≡ passed_chunks i h (y ∷ ys) cs
unfolding passed_chunks
passed_chunks-through i g ids y ys cs h e = ground (arith, e)

pairs :
    (r : ℕ × List (Option ℤ))
    → ((h : ℕ) × (r ≡ (h, [])))
      ⊎ ((h : ℕ) × (z : Option ℤ) × (zs : List (Option ℤ)) × (r ≡ (h, z ∷ zs)))
pairs (h, []) = inl (h, refl)
pairs (h, z ∷ zs) = inr (h, z, zs, refl)

passed_chunks-Flat :
    (i : ℤ) (g : ℕ) (ids : List (Option ℤ)) (cs : List (List (Option ℤ)))
    → NoEmpty cs
    → Flat (passed_ids i g (ids ++ concat cs)) (passed_chunks i g ids cs)
unfolding passed_chunks concat
passed_chunks-Flat i g ids [] n =
    subst (λ xs. Flat (passed_ids i g xs) (passed_chunks i g ids [])) (sym (append_nil ids))
      ((passed_ids i g ids).1, [], refl, append_nil (passed_ids i g ids).1, tt)
passed_chunks-Flat i g ids ([] ∷ cs) n = absurd n
passed_chunks-Flat i g ids ((y ∷ ys) ∷ cs) n = elim (pairs (passed_ids i g ids)) [
  | inl (h, e) ↦
      subst (λ r. Flat r (passed_chunks i g ids ((y ∷ ys) ∷ cs)))
        (sym (passed_ids-through i g ids (concat ((y ∷ ys) ∷ cs)) h e))
        (subst (λ r. Flat (passed_ids i h (concat ((y ∷ ys) ∷ cs))) r)
          (sym (passed_chunks-through i g ids y ys cs h e)) (passed_chunks-Flat i h (y ∷ ys) cs n))
  | inr (h, z, zs, e) ↦
      subst (λ r. Flat r (passed_chunks i g ids ((y ∷ ys) ∷ cs)))
        (sym (passed_ids-stop i g ids (concat ((y ∷ ys) ∷ cs)) h z zs e))
        (z ∷ zs, (y ∷ ys) ∷ cs, passed_chunks-stop i g ids (y ∷ ys) cs h z zs e, refl, n)
]

-- A column of values, by the vertices of some edges.
abbrev pub column_by : (Edge → ℤ) → List Edge → List (Option ℤ)
column_by key es = map (λ e. some (key e)) es

passed_ids-passed :
    (key : Edge → ℤ) (i : ℤ) (g : ℕ) (es : List Edge)
    → passed_ids i g (column_by key es)
      ≡ ((passed key i g es).0, column_by key (passed key i g es).1)
unfolding passed_ids passed
passed_ids-passed key i g [] = refl
passed_ids-passed key i g (e ∷ es) = elim (Bool-cases (leb_ℤ (key e) i)) [
  | inl le ↦ rw le (passed_ids-passed key i (suc g) es)
  | inr gt ↦ rw gt refl
]

-- The two routines for an offset table agree: of a column that holds the vertices of some edges, in
-- one or more chunks of which only the first may be empty, the chunk writer gets without an error the
-- offsets that the edges builder gets of the edges.
pub chunked_offsets-offsets :
    (key : Edge → ℤ) (n : ℕ) (i : ℤ) (g : ℕ) (ids : List (Option ℤ)) (cs : List (List (Option ℤ)))
    (es : List Edge)
    → NoEmpty cs
    → ids ++ concat cs ≡ column_by key es
    → chunked_offsets n i g ids cs ≡ ok (offsets key n i g es)
unfolding chunked_offsets offsets
chunked_offsets-offsets key zero i g ids cs es e same = refl
chunked_offsets-offsets key (suc n) i g ids cs es e same =
    let (xs, ds, h, rest, f) = passed_chunks-Flat i g ids cs e in
    let both : passed_ids i g (ids ++ concat cs)
        ≡ ((passed key i g es).0, column_by key (passed key i g es).1) =
      ap (λ ys. passed_ids i g ys) same ∙ passed_ids-passed key i g es in
    let left : xs ++ concat ds ≡ column_by key (passed key i g es).1 =
      rest ∙ ap (λ (r : ℕ × List (Option ℤ)). r.1) both in
    let ih =
      chunked_offsets-offsets key n (i +ℤ pos 1) (passed_ids i g (ids ++ concat cs)).0 xs ds
        (passed key i g es).1 f left in
    let next : (passed_ids i g (ids ++ concat cs)).0 ≡ (passed key i g es).0 =
      ap (λ (r : ℕ × List (Option ℤ)). r.0) both in
    rw h (rw ih (cc next))
