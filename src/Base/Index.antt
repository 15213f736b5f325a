-- ===== src/Base/Index.antt =====
-- The maps from keys to places that the constructors of the infos fill, a later item of a key in
-- place of an earlier one: what such a map finds, and how long it is.
use mathlib.Core.List.{append_assoc}
use Prim.Native.Nat.{ℕ, suc, ◌+◌, ◌≤◌}
use mathlib.Core.Path.{◌≡◌, refl, sym}
use mathlib.Core.Logic.{◌≢◌, ◌↔◌, inl, inr}
use mathlib.Core.Bool.{Bool, true, false, not}
use mathlib.Core.Option.{Option, none, some}
use mathlib.Core.List.{List, [], ◌∷◌, ◌++◌}
use native.Mathlib.Omega.{arith}
use graph_ar.Base.Tests.{if◌then◌else◌, Bool-cases}
use graph_ar.Base.Lists.{All, length, length-append, get_elem?-append_length}
use graph_ar.Base.Results.{Result, ok}
use graph_ar.Base.Int.{pos}
use graph_ar.Base.Assoc.{Eq, find, assign, find-assign, length-assign, or_else, is_none, vector_at}

-- A pointer that is not null.
abbrev pub IsThere {ℓ} : {A : Type ℓ} → Option A → Type 0
IsThere none = ⊥
IsThere (some x) = Unit

-- No key of the list is this one; no key stands twice in the list.
abbrev pub OtherThan {ℓ} : {K : Type ℓ} → K → List K → Type ℓ
OtherThan t = All (λ u. u ≢ t)

abbrev pub DistinctKeys {ℓ} : {K : Type ℓ} → List K → Type ℓ
DistinctKeys [] = Unit
DistinctKeys (t ∷ ts) = OtherThan t ts × DistinctKeys ts

-- A lookup in a vector by the place that a map has, if it has one.
abbrev pub item_at {ℓ} : {A : Type ℓ} → List (Option A) → Option ℕ → Result (Option A)
item_at xs none = ok none
item_at xs (some i) = vector_at xs (pos i)

module _ {ℓ κ} {K : Type ℓ} {A : Type κ} ⦃keys : Eq K⦄ (key : A → K) where
  -- The loop of the constructor over the items, with the place of the first of them; a null pointer
  -- is left out.
  unfoldable pub index_by : ℕ → List (Option A) → List (K × ℕ) → List (K × ℕ)
  index_by i [] m = m
  index_by i (none ∷ xs) m = index_by (suc i) xs m
  index_by i (some x ∷ xs) m = index_by (suc i) xs (assign (key x) i m)

  abbrev last_place : K → ℕ → List (Option A) → Option ℕ
  last_place t i [] = none
  last_place t i (none ∷ xs) = last_place t (suc i) xs
  last_place t i (some x ∷ xs) =
      or_else (last_place t (suc i) xs) (if keys.beq (key x) t then some i else none)

  -- The last item of a key.
  abbrev pub last_of : K → List (Option A) → Option A
  last_of t [] = none
  last_of t (none ∷ xs) = last_of t xs
  last_of t (some x ∷ xs) = or_else (last_of t xs) (if keys.beq (key x) t then some x else none)

  find-index_by :
      (t : K) (i : ℕ) (xs : List (Option A)) (m : List (K × ℕ))
      → find t (index_by i xs m) ≡ or_else (last_place t i xs) (find t m)
  unfolding index_by
  find-index_by t i [] m = refl
  find-index_by t i (none ∷ xs) m = find-index_by t (suc i) xs m
  find-index_by t i (some x ∷ xs) m =
      ground (arith, find-index_by t (suc i) xs (assign (key x) i m), find-assign (key x) t i m)

  vector_at-length :
      (front xs : List (Option A)) (x : A) (n : ℕ)
      → n ≡ length front
      → vector_at (front ++ some x ∷ xs) (pos n) ≡ ok (some x)
  unfolding vector_at
  vector_at-length front xs x n e = rw e (ground (arith, get_elem?-append_length front (some x) xs))

  place_step :
      (xs : List (Option A)) (x : A) (n : ℕ) (t : K) (place : Option ℕ) (last : Option A)
      → item_at xs place ≡ ok last
      → vector_at xs (pos n) ≡ ok (some x)
      → (is_none place ≡ is_none last)
      → item_at xs (or_else place (if keys.beq (key x) t then some n else none))
        ≡ ok (or_else last (if keys.beq (key x) t then some x else none))
  place_step xs x n t none none found here same = elim (Bool-cases (keys.beq (key x) t)) [
    | inl hit ↦ rw hit here
    | inr miss ↦ rw miss
  ]
  place_step xs x n t none (some l) found here same = cc
  place_step xs x n t (some i) none found here same = cc
  place_step xs x n t (some i) (some l) found here same = found

  same_place :
      (t : K) (n : ℕ) (xs : List (Option A)) → is_none (last_place t n xs) ≡ is_none (last_of t xs)
  same_place t n [] = refl
  same_place t n (none ∷ xs) = same_place t (suc n) xs
  same_place t n (some x ∷ xs) = elim (Bool-cases (keys.beq (key x) t)) [
    | inl hit ↦ rw hit (or_else_some (last_place t (suc n) xs) (last_of t xs))
    | inr miss ↦
        rw miss (or_else_none (last_place t (suc n) xs) (last_of t xs) (same_place t (suc n) xs))
  ]
    where
      or_else_some :
          (p : Option ℕ) (l : Option A)
          → is_none (or_else p (some n)) ≡ is_none (or_else l (some x))
      or_else_some none none = refl
      or_else_some none (some l) = refl
      or_else_some (some p) none = refl
      or_else_some (some p) (some l) = refl

      or_else_none :
          (p : Option ℕ) (l : Option A)
          → is_none p ≡ is_none l
          → is_none (or_else p none) ≡ is_none (or_else l none)
      or_else_none none none h = h
      or_else_none none (some l) h = h
      or_else_none (some p) none h = h
      or_else_none (some p) (some l) h = h

  item_at-place :
      (t : K) (front xs : List (Option A)) (n : ℕ)
      → n ≡ length front
      → item_at (front ++ xs) (last_place t n xs) ≡ ok (last_of t xs)
  item_at-place t front [] n e = refl
  item_at-place t front (none ∷ xs) n e = rw (← append_assoc front (none ∷ []) xs) (
      item_at-place t (front ++ none ∷ []) xs (suc n)
        (omega (arith, length-append front (none ∷ []))))
  item_at-place t front (some x ∷ xs) n e =
      place_step (front ++ some x ∷ xs) x n t (last_place t (suc n) xs) (last_of t xs)
        (rw (← append_assoc front (some x ∷ []) xs) (
          item_at-place t (front ++ some x ∷ []) xs (suc n)
            (omega (arith, length-append front (some x ∷ [])))))
        (vector_at-length front xs x n e) (same_place t (suc n) xs)

  pub item_at-last_of :
      (t : K) (xs : List (Option A)) → item_at xs (find t (index_by 0 xs [])) ≡ ok (last_of t xs)
  unfolding find
  item_at-last_of t xs = ground (arith, find-index_by t 0 xs [], item_at-place t [] xs 0 refl)

  -- The keys of the items that are there.
  abbrev pub keys_of : List (Option A) → List K
  keys_of [] = []
  keys_of (none ∷ xs) = keys_of xs
  keys_of (some x ∷ xs) = (key x) ∷ keys_of xs

  -- Keys that a map does not have.
  abbrev Unknown : List (K × ℕ) → List K → Type 0
  Unknown m = All (λ t. find t m ≡ none)

  Unknown-assign :
      (t : K) (i : ℕ) (m : List (K × ℕ)) (ts : List K)
      → Unknown (assign t i m) ts ↔ (Unknown m ts × OtherThan t ts)
  Unknown-assign t i m [] = (λ _. (tt, tt), λ _. tt)
  Unknown-assign t i m (u ∷ ts) =
      let ih = Unknown-assign t i m ts in
      (
        λ h. (
          (ground (arith, h.0, find-assign t u i m), (ih.0 h.1).0),
          (ground (arith, h.0, find-assign t u i m, keys.beq_iff t u), (ih.0 h.1).1),
        ),
        λ h. (
          ground (arith, h.0.0, h.1.0, find-assign t u i m, keys.beq_iff t u),
          ih.1 (h.0.1, h.1.1),
        ),
      )

  length-index_by-le :
      (i : ℕ) (xs : List (Option A)) (m : List (K × ℕ))
      → length (index_by i xs m) ≤ length m + length xs
  unfolding index_by
  length-index_by-le i [] m = omega arith
  length-index_by-le i (none ∷ xs) m = omega (arith, length-index_by-le (suc i) xs m)
  length-index_by-le i (some x ∷ xs) m =
      ground (arith, length-index_by-le (suc i) xs (assign (key x) i m), length-assign (key x) i m)

  -- The map has as many entries as there are items only if no two have one key.
  length-index_by_sound :
      (i : ℕ) (xs : List (Option A)) (m : List (K × ℕ))
      → length (index_by i xs m) ≡ length m + length xs
      → DistinctKeys (keys_of xs) × Unknown m (keys_of xs)
  unfolding index_by
  length-index_by_sound i [] m h = (tt, tt)
  length-index_by_sound i (none ∷ xs) m h = absurd (omega (arith, length-index_by-le (suc i) xs m))
  length-index_by_sound i (some x ∷ xs) m h =
      let new : find (key x) m ≡ none =
        ground
          (arith, length-index_by-le (suc i) xs (assign (key x) i m), length-assign (key x) i m) in
      let ih =
        length-index_by_sound (suc i) xs (assign (key x) i m)
          (ground (arith, new, length-assign (key x) i m)) in
      let parts = (Unknown-assign (key x) i m (keys_of xs)).0 ih.1 in
      ((parts.1, ih.0), (new, parts.0))

  length-index_by_complete :
      (i : ℕ) (xs : List (Option A)) (m : List (K × ℕ))
      → All IsThere xs
      → DistinctKeys (keys_of xs)
      → Unknown m (keys_of xs)
      → length (index_by i xs m) ≡ length m + length xs
  unfolding index_by
  length-index_by_complete i [] m there d u = omega arith
  length-index_by_complete i (none ∷ xs) m there d u = absurd there.0
  length-index_by_complete i (some x ∷ xs) m there d u = ground (
    arith,
    u.0,
    length-assign (key x) i m,
    length-index_by_complete (suc i) xs (assign (key x) i m) there.1 d.1
        ((Unknown-assign (key x) i m (keys_of xs)).1 (u.1, d.0)),
  )

  Unknown-nil : (ts : List K) → Unknown [] ts
  unfolding find
  Unknown-nil [] = tt
  Unknown-nil (t ∷ ts) = (refl, Unknown-nil ts)

  pub length-index_by_iff :
      (xs : List (Option A))
      → All IsThere xs
      → (length xs ≡ length (index_by 0 xs [])) ↔ DistinctKeys (keys_of xs)
  length-index_by_iff xs there = (
    λ h. (length-index_by_sound 0 xs [] (omega arith)).0,
    λ d. omega (arith, length-index_by_complete 0 xs [] there d (Unknown-nil _)),
  )

  last_place-OtherThan :
      (t : K) (i : ℕ) (xs : List (Option A)) → last_place t i xs ≡ none → OtherThan t (keys_of xs)
  last_place-OtherThan t i [] h = tt
  last_place-OtherThan t i (none ∷ xs) h = last_place-OtherThan t (suc i) xs h
  last_place-OtherThan t i (some x ∷ xs) h =
      ground (arith, keys.beq_iff (key x) t, last_place-OtherThan t (suc i) xs)

  -- A key that the map does not have is not that of any item.
  pub index_by-OtherThan :
      (t : K) (xs : List (Option A)) → find t (index_by 0 xs []) ≡ none → OtherThan t (keys_of xs)
  unfolding find
  index_by-OtherThan t xs h = last_place-OtherThan t 0 xs (ground (arith, find-index_by t 0 xs []))

  pub DistinctKeys-append :
      (xs : List (Option A)) (x : A)
      → DistinctKeys (keys_of xs)
      → OtherThan (key x) (keys_of xs)
      → DistinctKeys (keys_of (xs ++ some x ∷ []))
  DistinctKeys-append [] x d o = (tt, tt)
  DistinctKeys-append (none ∷ xs) x d o = DistinctKeys-append xs x d o
  DistinctKeys-append (some w ∷ xs) x d o =
      (keys_of-append xs d.0, DistinctKeys-append xs x d.1 o.1)
    where
      keys_of-append :
          (zs : List (Option A))
          → OtherThan (key w) (keys_of zs)
          → OtherThan (key w) (keys_of (zs ++ some x ∷ []))
      keys_of-append [] h = ((λ e. o.0 (sym e)), tt)
      keys_of-append (none ∷ zs) h = keys_of-append zs h
      keys_of-append (some z ∷ zs) h = (h.0, keys_of-append zs h.1)

  abbrev has_place : Option ℕ → Bool
  has_place none = false
  has_place (some i) = true

  pub has_item :
      (t : K) (xs : List (Option A))
      → has_place (find t (index_by 0 xs [])) ≡ not (is_none (last_of t xs))
  unfolding find
  has_item t xs = ground (arith, find-index_by t 0 xs [], same_place t 0 xs)

  pub last_of-append :
      (t : K) (xs : List (Option A)) (x : A)
      → last_of t (xs ++ some x ∷ []) ≡ (if keys.beq (key x) t then some x else last_of t xs)
  last_of-append t [] x = ground arith
  last_of-append t (none ∷ xs) x = last_of-append t xs x
  last_of-append t (some y ∷ xs) x = ground (arith, last_of-append t xs x)

  -- An item that is found has the key.
  pub last_of-key : (t : K) (xs : List (Option A)) (x : A) → last_of t xs ≡ some x → key x ≡ t
  last_of-key t [] x h = cc
  last_of-key t (none ∷ xs) x h = last_of-key t xs x h
  last_of-key t (some y ∷ xs) x h = ground (arith, last_of-key t xs x, keys.beq_iff (key y) t)
