-- ===== src/Base/Text.antt =====
-- Texts as lists of character codes: equality, decimal output and the facts about them that paths need.
use Prim.Native.Char.{code}
use Prim.Native.String.{String}
use graph_ar.Base.Tests.{ltb, ◌==◌, if◌then◌else◌, Bool-cases}
use graph_ar.Base.Lists.{All}
use graph_ar.Base.Int.{ℤ, pos, negsuc}
use Prim.Native.Nat.{ℕ, zero, suc, ◌+◌, ◌-◌, ◌*◌, ◌/◌, ◌%◌, ◌≤◌, ◌<◌}
use mathlib.Core.Path.{◌≡◌, refl, ap, sym, ◌∙◌, subst}
use mathlib.Core.Logic.{◌≢◌, ◌↔◌, inl, inr}
use mathlib.Core.Bool.{Bool, true, false, ◌&&◌}
use mathlib.Core.List.{List, [], ◌∷◌, ◌++◌}
use native.Mathlib.Omega.{arith}

-- A `std::string`.
abbrev pub Text : Type 0
Text = List ℕ

abbrev pub codes : String → Text
codes String.[] = []
codes (String.◌∷◌ c s) = code c ∷ codes s

unfoldable pub text_eq : Text → Text → Bool
text_eq [] [] = true
text_eq [] (y ∷ ys) = false
text_eq (x ∷ xs) [] = false
text_eq (x ∷ xs) (y ∷ ys) = (x == y) && text_eq xs ys

pub text_eq_iff : (xs ys : Text) → (text_eq xs ys ≡ true) ↔ (xs ≡ ys)
unfolding text_eq
text_eq_iff [] [] = (λ _. refl, λ _. refl)
text_eq_iff [] (y ∷ ys) = ground arith
text_eq_iff (x ∷ xs) [] = ground arith
text_eq_iff (x ∷ xs) (y ∷ ys) = ground (arith, text_eq_iff xs ys)

pub text_eq_refl : (xs : Text) → text_eq xs xs ≡ true
text_eq_refl xs = (text_eq_iff xs xs).1 refl

abbrev pub is_empty : Text → Bool
is_empty [] = true
is_empty (x ∷ xs) = false

-- Decimal digits, the last one first in the recursion; the fuel is one more than the number.
decimal_go : ℕ → ℕ → Text → Text
decimal_go zero n acc = acc
decimal_go (suc f) n acc =
    let rest = decimal_go f (n / 10) ((48 + n % 10) ∷ acc) in
    if ltb n 10 then (48 + n) ∷ acc else rest

unfoldable pub decimal : ℕ → Text
unfolding decimal_go
decimal n = decimal_go (suc n) n []

-- `std::to_string` of a signed integer.
unfoldable pub to_string : ℤ → Text
unfolding decimal
to_string (pos n) = decimal n
to_string (negsuc n) = b'-' ∷ decimal (suc n)

-- The number that a text of digits stands for, read from the left behind `acc`.
abbrev pub number_of : ℕ → Text → ℕ
number_of acc [] = acc
number_of acc (c ∷ s) = number_of (acc * 10 + (c - 48)) s

number_of-decimal_go :
    (f n : ℕ) (acc : Text) → n < f → number_of 0 (decimal_go f n acc) ≡ number_of n acc
unfolding decimal_go
number_of-decimal_go zero n acc h = elim h [ ]
number_of-decimal_go (suc f) n acc h = elim (Bool-cases (ltb n 10)) [
  | inl small ↦ rw small (ap (λ (m : ℕ). number_of m acc) (omega arith))
  | inr large ↦ rw large (
      number_of-decimal_go f (n / 10) ((48 + n % 10) ∷ acc) (ground arith)
      ∙ ap (λ (m : ℕ). number_of m acc) (omega arith))
]

abbrev pub IsDigit : ℕ → Type 0
IsDigit c = (48 ≤ c) × (c ≤ 57)

decimal_go-IsDigit :
    (f n : ℕ) (acc : Text) → n < f → All IsDigit acc → All IsDigit (decimal_go f n acc)
unfolding decimal_go
decimal_go-IsDigit zero n acc h d = elim h [ ]
decimal_go-IsDigit (suc f) n acc h d = elim (Bool-cases (ltb n 10)) [
  | inl small ↦ rw small (ground arith)
  | inr large ↦ rw large (
      decimal_go-IsDigit f (n / 10) ((48 + n % 10) ∷ acc) (ground arith)
        ((omega arith, omega arith), d))
]

pub decimal-injective : (m n : ℕ) → decimal m ≡ decimal n → m ≡ n
unfolding decimal
decimal-injective m n e =
    sym (number_of-decimal_go (suc m) m [] (omega arith))
    ∙ ap (number_of 0) e
    ∙ number_of-decimal_go (suc n) n [] (omega arith)

-- No text of digits holds a byte that is no digit.
abbrev pub Lacks : ℕ → Text → Type 0
Lacks b = All (λ c. c ≢ b)

digits-Lacks : (b : ℕ) → b < 48 → (s : Text) → All IsDigit s → Lacks b s
digits-Lacks b h [] d = tt
digits-Lacks b h (c ∷ s) d = (omega arith, digits-Lacks b h s d.1)

decimal-Lacks : (b n : ℕ) → b < 48 → Lacks b (decimal n)
unfolding decimal
decimal-Lacks b n h = digits-Lacks b h _ (decimal_go-IsDigit (suc n) n [] (omega arith) tt)

minus_is_no_digit : (n : ℕ) (s : Text) → decimal n ≡ b'-' ∷ s → ⊥
minus_is_no_digit n s e = (subst (Lacks b'-') e (decimal-Lacks b'-' n (omega arith))).0 refl

cons-tail : {x y : ℕ} {xs ys : Text} → ◌≡◌ {A = Text} (x ∷ xs) (y ∷ ys) → xs ≡ ys
cons-tail e = cc

pub to_string-injective : (a b : ℤ) → to_string a ≡ to_string b → a ≡ b
unfolding to_string
to_string-injective (pos m) (pos n) e = ap pos (decimal-injective m n e)
to_string-injective (pos m) (negsuc n) e = absurd (minus_is_no_digit m _ e)
to_string-injective (negsuc m) (pos n) e = absurd (minus_is_no_digit n _ (sym e))
to_string-injective (negsuc m) (negsuc n) e =
    let h = decimal-injective (suc m) (suc n) (cons-tail e) in ap negsuc (omega arith)

-- The decimal form of an integer holds no slash.
pub to_string-Lacks_slash : (a : ℤ) → Lacks b'/' (to_string a)
unfolding to_string
to_string-Lacks_slash (pos n) = decimal-Lacks b'/' n (omega arith)
to_string-Lacks_slash (negsuc n) = (omega arith, decimal-Lacks b'/' (suc n) (omega arith))

pub append-left_cancel : (p xs ys : Text) → p ++ xs ≡ p ++ ys → xs ≡ ys
append-left_cancel [] xs ys e = e
append-left_cancel (c ∷ p) xs ys e = append-left_cancel p xs ys (cons-tail e)

-- A text is split in one way at its first separator.
pub append-sep-injective :
    (sep : ℕ) (xs ys r s : Text)
    → Lacks sep xs
    → Lacks sep ys
    → xs ++ sep ∷ r ≡ ys ++ sep ∷ s
    → (xs ≡ ys) × (r ≡ s)
append-sep-injective sep [] [] r s hx hy e = (refl, cons-tail e)
append-sep-injective sep [] (y ∷ ys) r s hx hy e = absurd (hy.0 (cc))
append-sep-injective sep (x ∷ xs) [] r s hx hy e = absurd (hx.0 (cc))
append-sep-injective sep (x ∷ xs) (y ∷ ys) r s hx hy e =
    let tails = append-sep-injective sep xs ys r s hx.1 hy.1 (cons-tail e) in
    (cc (tails.0), tails.1)
