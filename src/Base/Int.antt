-- ===== src/Base/Int.antt =====
-- Signed integers over the native numbers, under the library's names: the values of `IdType`
-- (int64_t). Overflow of a signed integer is undefined behaviour in C++, so the operations are exact.
use graph_ar.Base.Tests.{ltb, leb, if◌then◌else◌}
use Prim.Native.Nat.{ℕ, suc, ◌+◌, ◌-◌, ◌*◌, ◌/◌, ◌%◌, ◌≤◌, ◌<◌}
use mathlib.Core.Path.{◌≡◌}
use mathlib.Core.Bool.{Bool, true, false}
use native.Mathlib.Omega.{arith}

-- `negsuc n` is -(n + 1).
pub data ℤ : Type 0 where
  pos : ℕ → ℤ
  negsuc : ℕ → ℤ

abbrev pub pos_part : ℤ → ℕ
pos_part (pos n) = n
pos_part (negsuc n) = 0

abbrev pub neg_part : ℤ → ℕ
neg_part (pos n) = 0
neg_part (negsuc n) = suc n

-- a - b, as an integer.
abbrev pub sub_ℕ : ℕ → ℕ → ℤ
sub_ℕ a b = if leb b a then pos (a - b) else negsuc (b - a - 1)

infixl 65 ◌+ℤ◌ ◌-ℤ◌
infixl 70 ◌*ℤ◌ ◌/ℤ◌ ◌%ℤ◌
abbrev pub ◌+ℤ◌ : ℤ → ℤ → ℤ
a +ℤ b = sub_ℕ (pos_part a + pos_part b) (neg_part a + neg_part b)

abbrev pub ◌-ℤ◌ : ℤ → ℤ → ℤ
a -ℤ b = sub_ℕ (pos_part a + neg_part b) (neg_part a + pos_part b)

abbrev pub ◌*ℤ◌ : ℤ → ℤ → ℤ
a *ℤ b =
    sub_ℕ (pos_part a * pos_part b + neg_part a * neg_part b)
      (pos_part a * neg_part b + neg_part a * pos_part b)

-- C++ division: the quotient is rounded towards zero, and the remainder has the dividend's sign.
-- Division by zero is undefined there; here its quotient is 0.
abbrev pub ◌/ℤ◌ : ℤ → ℤ → ℤ
a /ℤ pos m = sub_ℕ (pos_part a / m) (neg_part a / m)
a /ℤ negsuc n = sub_ℕ (neg_part a / suc n) (pos_part a / suc n)

abbrev pub ◌%ℤ◌ : ℤ → ℤ → ℤ
pos a %ℤ b = pos (a % (pos_part b + neg_part b))
negsuc a %ℤ b = sub_ℕ 0 (suc a % (pos_part b + neg_part b))

abbrev pub ltb_ℤ : ℤ → ℤ → Bool
ltb_ℤ a b = ltb (pos_part a + neg_part b) (pos_part b + neg_part a)

abbrev pub leb_ℤ : ℤ → ℤ → Bool
leb_ℤ a b = leb (pos_part a + neg_part b) (pos_part b + neg_part a)

infix 50 ◌≤ℤ◌ ◌<ℤ◌ ◌==ℤ◌
abbrev pub ◌≤ℤ◌ : ℤ → ℤ → Type 0
a ≤ℤ b = pos_part a + neg_part b ≤ pos_part b + neg_part a

abbrev pub ◌<ℤ◌ : ℤ → ℤ → Type 0
a <ℤ b = pos_part a + neg_part b < pos_part b + neg_part a

abbrev pub ◌==ℤ◌ : ℤ → ℤ → Bool
a ==ℤ b = if leb_ℤ a b then leb_ℤ b a else false

pub not_leb : (a b : ℤ) → leb_ℤ a b ≡ false → b <ℤ a
not_leb a b h = ground arith

pub ==ℤ_sound : (a b : ℤ) → (a ==ℤ b) ≡ true → a ≡ b
==ℤ_sound (pos a) (pos b) h = ground arith
==ℤ_sound (pos a) (negsuc b) h = ground arith
==ℤ_sound (negsuc a) (pos b) h = ground arith
==ℤ_sound (negsuc a) (negsuc b) h = ground arith

pub ==ℤ_refl : (a : ℤ) → (a ==ℤ a) ≡ true
==ℤ_refl (pos a) = ground arith
==ℤ_refl (negsuc a) = ground arith

pub mul_pos : (a b : ℕ) → pos a *ℤ pos b ≡ pos (a * b)
mul_pos a b = ground arith

pub minus_pos : (k a b : ℕ) → b + a ≡ k → pos k -ℤ pos a ≡ pos b
minus_pos k a b h = ground (arith, h)
