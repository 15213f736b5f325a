-- ===== src/Base/Assoc.antt =====
-- `std::unordered_map` as an association list, keys in the order in which they were put in. The
-- source looks keys up and counts them; where it iterates over a map, the order is unspecified there.
use graph_ar.Base.Tests.{if◌then◌else◌}
use graph_ar.Base.Lists.{length, get_elem?}
use graph_ar.Base.Int.{ℤ, pos, negsuc}
use graph_ar.Base.Results.{Result, ok, err, undefined}
use graph_ar.Base.Text.{Text, text_eq, text_eq_iff}
use Prim.Native.Nat.{◌+◌, ℕ}
use mathlib.Core.Path.{◌≡◌}
use mathlib.Core.Logic.{◌↔◌}
use mathlib.Core.Bool.{Bool, true, false}
use mathlib.Core.Option.{Option, none, some}
use mathlib.Core.List.{List, [], ◌∷◌}
use native.Mathlib.Omega.{arith}

abbrev pub is_none {ℓ} : {A : Type ℓ} → Option A → Bool
is_none none = true
is_none (some a) = false

-- `v[i]` of a vector: out of range it is undefined behaviour.
unfoldable pub vector_at {ℓ} : {A : Type ℓ} → List A → ℤ → Result A
vector_at xs (pos i) = elim (get_elem? xs i) [ none ↦ err undefined | some a ↦ ok a ]
vector_at xs (negsuc i) = err undefined

-- `LookupKeyIndex`: the place that a map gives to a key, or -1.
abbrev pub or_minus_one : Option ℕ → ℤ
or_minus_one none = negsuc 0
or_minus_one (some i) = pos i

-- The first value, if there is one, and otherwise the second.
abbrev pub or_else {ℓ} : {A : Type ℓ} → Option A → Option A → Option A
or_else none o = o
or_else (some v) o = some v

-- Keys are compared by `==`.
pub record Eq {ℓ} (A : Type ℓ) : Type ℓ where
  pub beq : A → A → Bool
  pub beq_iff : (a b : A) → (beq a b ≡ true) ↔ (a ≡ b)

instance abbrev pub text_Eq : Eq Text
text_Eq = record { beq = text_eq; beq_iff = text_eq_iff }

module _ {ℓ κ} {K : Type ℓ} {V : Type κ} ⦃e : Eq K⦄ where
  -- `find`, with `none` for `end()`.
  unfoldable pub find : K → List (K × V) → Option V
  find k [] = none
  find k ((j, v) ∷ m) = if e.beq j k then some v else find k m

  -- `emplace`: a key that is there keeps its value.
  unfoldable pub emplace : K → V → List (K × V) → List (K × V)
  emplace k v [] = (k, v) ∷ []
  emplace k v ((j, w) ∷ m) = if e.beq j k then (j, w) ∷ m else (j, w) ∷ emplace k v m

  -- `m[k] = v`: a key that is there gets the new value.
  unfoldable pub assign : K → V → List (K × V) → List (K × V)
  assign k v [] = (k, v) ∷ []
  assign k v ((j, w) ∷ m) = if e.beq j k then (j, v) ∷ m else (j, w) ∷ assign k v m

  pub find-emplace :
      (k j : K) (v : V) (m : List (K × V))
      → find j (emplace k v m) ≡ (if e.beq k j then or_else (find k m) (some v) else find j m)
  unfolding find emplace
  find-emplace k j v [] = ground arith
  find-emplace k j v ((i, w) ∷ m) =
      ground (arith, e.beq_iff k j, e.beq_iff i k, e.beq_iff i j, find-emplace k j v m)

  pub find-assign :
      (k j : K) (v : V) (m : List (K × V))
      → find j (assign k v m) ≡ (if e.beq k j then some v else find j m)
  unfolding find assign
  find-assign k j v [] = ground arith
  find-assign k j v ((i, w) ∷ m) =
      ground (arith, e.beq_iff k j, e.beq_iff i k, e.beq_iff i j, find-assign k j v m)

  -- The map grows by one exactly when the key is new.
  pub length-assign :
      (k : K) (v : V) (m : List (K × V))
      → length (assign k v m) ≡ length m + (if is_none (find k m) then 1 else 0)
  unfolding find assign
  length-assign k v [] = ground arith
  length-assign k v ((i, w) ∷ m) = ground (arith, length-assign k v m)
