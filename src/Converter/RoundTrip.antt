-- ===== src/Converter/RoundTrip.antt =====
-- The two directions of the index converter, one after the other (util.h). The numbers of edge chunks are
-- natural numbers here, as `GetEdgeChunkNum` gives them for a count that is not negative.
use graph_ar.Base.{
  Bool-cases, ltb, inl, inr, ◌-◌, ℕ, zero, suc, ◌+◌, ◌<◌, ◌≤◌, ◌≡◌, refl, List, [], ◌∷◌, ◌++◌, map,
  some, ok, arith, length, length-append, get_elem?, ◌>>=◌, ap,
}
use graph_ar.Base.Int.{pos}
use graph_ar.Base.Assoc.{vector_at}
use mathlib.Core.List.{append_assoc}
use graph_ar.Converter.{
  sum_from, find_pair, index_pair_to_global_chunk_index, global_chunk_index_to_index_pair,
}

abbrev pub sum : List ℕ → ℕ
sum [] = 0
sum (n ∷ ns) = n + sum ns

-- The edge chunks of the first vertex chunks.
abbrev pub sum_first : ℕ → List ℕ → ℕ
sum_first zero ns = 0
sum_first (suc v) [] = 0
sum_first (suc v) (n ∷ ns) = n + sum_first v ns

vector_at-map :
    (front ns : List ℕ) (n i : ℕ)
    → i ≡ length front
    → vector_at (map pos (front ++ n ∷ ns)) (pos i) ≡ ok (pos n)
unfolding vector_at
vector_at-map [] ns n zero e = refl
vector_at-map [] ns n (suc i) e = cc
vector_at-map (m ∷ front) ns n zero e = cc
vector_at-map (m ∷ front) ns n (suc i) e = vector_at-map front ns n i (omega arith)

sum_from_lem :
    (front ns : List ℕ) (rest i t : ℕ)
    → i ≡ length front
    → rest ≤ length ns
    → sum_from (map pos (front ++ ns)) rest i (pos t) ≡ ok (pos (t + sum_first rest ns))
unfolding sum_from
sum_from_lem front ns zero i t e h = ground arith
sum_from_lem front [] (suc rest) i t e h = absurd (omega arith)
sum_from_lem front (n ∷ ns) (suc rest) i t e h =
    let ih =
      sum_from_lem (front ++ n ∷ []) ns rest (suc i) (t + n)
        (omega (arith, length-append front (n ∷ []))) (omega arith) in
    ground (arith, vector_at-map front ns n i e, ih, append_assoc front (n ∷ []) ns)

find_pair_hit :
    (ns : List ℕ) (i v e num : ℕ)
    → get_elem? ns v ≡ some num
    → e < num
    → find_pair (map pos ns) i (pos (sum_first v ns + e)) ≡ (pos (i + v), pos e)
unfolding find_pair
find_pair_hit [] i v e num h l = cc
find_pair_hit (n ∷ ns) i zero e num h l = ground arith
find_pair_hit (n ∷ ns) i (suc v) e num h l = ground (arith, find_pair_hit ns (suc i) v e num h l)

get_elem?-lt {ℓ} :
    {A : Type ℓ} (xs : List A) (i : ℕ) (x : A) → get_elem? xs i ≡ some x → i < length xs
get_elem?-lt [] i x h = cc
get_elem?-lt (y ∷ ys) zero x h = omega arith
get_elem?-lt (y ∷ ys) (suc i) x h = omega (arith, get_elem?-lt ys i x h)

-- The place that an index has among the vertex chunks.
place_of :
    (ns : List ℕ) (g : ℕ)
    → g < sum ns
    → (v e num : ℕ) × (get_elem? ns v ≡ some num) × (e < num) × (sum_first v ns + e ≡ g)
place_of [] g h = absurd (omega arith)
place_of (n ∷ ns) g h = elim (Bool-cases (ltb g n)) [
  | inl inside ↦ (0, g, n, refl, ground arith, omega arith)
  | inr outside ↦
      let (v, e, num, at, below, total) = place_of ns (g - n) (ground arith) in
      (suc v, e, num, at, below, ground arith)
]

find_pair_miss :
    (ns : List ℕ) (i g : ℕ) → sum ns ≤ g → find_pair (map pos ns) i (pos g) ≡ (pos 0, pos 0)
unfolding find_pair
find_pair_miss [] i g h = refl
find_pair_miss (n ∷ ns) i g h = ground (arith, find_pair_miss ns (suc i) (g - n))

-- The global index of an edge chunk is the number of edge chunks before it.
pub global_of_pair :
    (ns : List ℕ) (v e : ℕ)
    → v ≤ length ns
    → index_pair_to_global_chunk_index (map pos ns) (pos v) (pos e) ≡ ok (pos (sum_first v ns + e))
unfolding index_pair_to_global_chunk_index
global_of_pair ns v e h = ground (arith, sum_from_lem [] ns v 0 0 refl h)

pair_of_global :
    (ns : List ℕ) (v e num : ℕ)
    → get_elem? ns v ≡ some num
    → e < num
    → global_chunk_index_to_index_pair (map pos ns) (pos (sum_first v ns + e)) ≡ (pos v, pos e)
unfolding global_chunk_index_to_index_pair
pair_of_global ns v e num h l = ground (arith, find_pair_hit ns 0 v e num h l)

-- The global index of edge chunk `e` of vertex chunk `v`, where that vertex chunk has more than `e`
-- edge chunks, is converted back to `v` and `e`.
pub pair_round_trip :
    (ns : List ℕ) (v e num : ℕ)
    → get_elem? ns v ≡ some num
    → e < num
    → (index_pair_to_global_chunk_index (map pos ns) (pos v) (pos e) >>= λ g.
        ok (global_chunk_index_to_index_pair (map pos ns) g))
      ≡ ok (pos v, pos e)
pair_round_trip ns v e num h l =
    rw (global_of_pair ns v e (omega (arith, get_elem?-lt ns v num h)))
      (ap ok (pair_of_global ns v e num h l))

-- A global index below the number of all edge chunks is converted to a pair that is converted back
-- to it.
pub global_round_trip :
    (ns : List ℕ) (g : ℕ)
    → g < sum ns
    → (let (v, e) = global_chunk_index_to_index_pair (map pos ns) (pos g) in
        index_pair_to_global_chunk_index (map pos ns) v e ≡ ok (pos g))
global_round_trip ns g h =
    let (v, e, num, at, below, total) = place_of ns g h in
    rw (← total, pair_of_global ns v e num at below)
      (global_of_pair ns v e (omega (arith, get_elem?-lt ns v num at)))

-- From the number of all edge chunks on, every global index is converted to the pair of the first
-- edge chunk of the first vertex chunk.
pub global_out_of_range :
    (ns : List ℕ) (g : ℕ)
    → sum ns ≤ g
    → global_chunk_index_to_index_pair (map pos ns) (pos g) ≡ (pos 0, pos 0)
unfolding global_chunk_index_to_index_pair
global_out_of_range ns g h = find_pair_miss ns 0 g h
