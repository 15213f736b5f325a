-- ===== src/HighLevel/Vertices/Passing.antt =====
-- The numbers of vertices that `filter` of `VerticesCollection` goes through, chunk by chunk
-- (high-level/graph_reader.cc): those that pass a test, and the values that fit an `int`.
use graph_ar.Base.{
  length, ℕ, zero, suc, ◌+◌, ◌-◌, ◌*◌, ◌<◌, ◌≤◌, Bool, false, List, [], ◌∷◌, ◌++◌, ok, ◌≡◌, refl,
  ◌∙◌, ap, sym, arith, if◌then◌else◌, ltb, if_false, if_true, Bool-cases, inl, inr, append_nil,
}
use graph_ar.Base.Int.{pos, ◌-ℤ◌, ◌*ℤ◌, ◌/ℤ◌, ◌+ℤ◌, ltb_ℤ, mul_pos, minus_pos}
use graph_ar.HighLevel.Labels.Rows.{rows_where}
use graph_ar.HighLevel.Vertices.{in_int, to_int}

-- The numbers among so many from one on that pass a test.
abbrev pub passing : (ℕ → Bool) → ℕ → ℕ → List ℕ
passing f zero v = []
passing f (suc n) v = if f v then v ∷ passing f n (suc v) else passing f n (suc v)

suc_add : (a b : ℕ) → suc a + b ≡ suc (a + b)
suc_add a b = omega arith

pub zero_add : (b : ℕ) → 0 + b ≡ b
zero_add b = omega arith

passing-add :
    (f : ℕ → Bool) (a b v : ℕ) → passing f (a + b) v ≡ passing f a v ++ passing f b (v + a)
passing-add f zero b v = ap (λ n. passing f n v) (zero_add b) ∙ ap (passing f b) (omega arith)
passing-add f (suc a) b v =
    ap (λ n. passing f n v) (suc_add a b) ∙ ground (arith, passing-add f a b (suc v))

pub rows_where-passing :
    (f : ℕ → Bool) (n i o : ℕ) → rows_where (λ r. f (r + o)) n i o ≡ passing f n (i + o)
rows_where-passing f zero i o = refl
rows_where-passing f (suc n) i o = ground (arith, rows_where-passing f n (suc i) o)

pub rows_where_cong :
    (f g : ℕ → Bool) (n i o : ℕ)
    → ((r : ℕ) → i ≤ r → r < i + n → f r ≡ g r)
    → rows_where f n i o ≡ rows_where g n i o
rows_where_cong f g zero i o same = refl
rows_where_cong f g (suc n) i o same = ground (
  arith,
  same i (omega arith) (omega arith),
  rows_where_cong f g n (suc i) o (λ r h k. same r (omega (arith, h)) (omega (arith, k))),
)

none_behind : (size total o : ℕ) → ltb size (total - o) ≡ false → total - (o + size) ≡ 0
none_behind size total o h = ground (arith, h)

none_at : (total o : ℕ) → ltb o total ≡ false → total - o ≡ 0
none_at total o h = ground (arith, h)

pub none_left : (f : ℕ → Bool) (total o : ℕ) → ltb o total ≡ false → passing f (total - o) o ≡ []
none_left f total o h = ap (λ n. passing f n o) (none_at total o h)

-- The number of rows of a chunk.
abbrev pub rows_in : ℕ → ℕ → ℕ → ℕ
rows_in size total i = if ltb size (total - i * size) then size else total - i * size

pub to_int_small : (n : ℕ) → n < 2_147_483_648 → to_int (pos n) ≡ pos n
unfolding to_int
to_int_small n h = ground (arith, h)

in_int_small : (n : ℕ) → n < 2_147_483_648 → in_int (pos n) ≡ ok (pos n)
unfolding in_int
in_int_small n h = ground (arith, h)

pub bitmap_fits : (n : ℕ) → ltb_ℤ (pos n /ℤ pos 64 +ℤ pos 1) (pos 0) ≡ false
bitmap_fits n = ground arith

-- The start of a chunk that begins below a bound.
pub start_small :
    (i size : ℕ) → i * size < 2_147_483_648 → in_int (pos i *ℤ pos size) ≡ ok (pos (i * size))
start_small i size h = ap in_int (mul_pos i size) ∙ in_int_small (i * size) h

pub left_small :
    (total start : ℕ)
    → start < total
    → total < 2_147_483_648
    → in_int (pos total -ℤ pos start) ≡ ok (pos (total - start))
left_small total start h small =
    ap in_int (minus_pos total start (total - start) (omega (arith, h)))
    ∙ in_int_small (total - start) (omega (arith, small))

pub zero_times : (size : ℕ) → 0 * size ≡ 0
zero_times size = omega arith

pub minus_zero : (n : ℕ) → n - 0 ≡ n
minus_zero n = omega arith

pub suc_times : (i size : ℕ) → suc i * size ≡ i * size + size
suc_times i size = omega arith

-- The numbers of a chunk, and those behind it.
pub chunk_passing :
    (f : ℕ → Bool) (size total o : ℕ)
    → passing f (if ltb size (total - o) then size else total - o) o
        ++ passing f (total - (o + size)) (o + size)
      ≡ passing f (total - o) o
chunk_passing f size total o =
    let rest = passing f (total - (o + size)) (o + size) in
    elim (Bool-cases (ltb size (total - o))) [
      | inl more ↦
          ap (λ n. passing f n o ++ rest) (if_true _ _ (ltb size (total - o)) more)
          ∙ sym (passing-add f size (total - (o + size)) o)
          ∙ ap (λ n. passing f n o) (ground (arith, more))
      | inr done ↦
          ap (λ n. passing f n o ++ rest) (if_false _ _ (ltb size (total - o)) done)
          ∙ ap (λ n. passing f (total - o) o ++ passing f n (o + size))
              (none_behind size total o done)
          ∙ append_nil (passing f (total - o) o)
    ]

-- The chunks in which some vertex passes the test, among so many from one on.
abbrev pub chunks_passing : (ℕ → Bool) → ℕ → ℕ → ℕ → ℕ → List ℕ
chunks_passing f size total zero i = []
chunks_passing f size total (suc n) i =
    if ltb 0 (length (passing f (rows_in size total i) (i * size)))
    then i ∷ chunks_passing f size total n (suc i)
    else chunks_passing f size total n (suc i)

no_rows : (size total i : ℕ) → ltb (i * size) total ≡ false → rows_in size total i ≡ 0
no_rows size total i h = ground (arith, h)

-- No chunk behind the last vertex has one.
pub chunks_passing-behind :
    (f : ℕ → Bool) (size total n i : ℕ)
    → ltb (i * size) total ≡ false
    → chunks_passing f size total n i ≡ []
chunks_passing-behind f size total zero i h = refl
chunks_passing-behind f size total (suc n) i h =
    ap
      (λ m.
        if ltb 0 (length (passing f m (i * size)))
        then i ∷ chunks_passing f size total n (suc i)
        else chunks_passing f size total n (suc i))
      (no_rows size total i h)
    ∙ chunks_passing-behind f size total n (suc i) (ground (arith, h))
