-- ===== src/Base/Results.antt =====
-- cpp/src/graphar/status.h and result.h: status codes, and `Result<T>`. The text of a message is
-- not modelled. A C++ exception and undefined behaviour are values of their own.
use mathlib.Core.Path.{◌≡◌, refl}
use mathlib.Core.Logic.{◌⊎◌, inl, inr}
use mathlib.Core.Bool.{Bool, true, false}
use mathlib.Core.Option.{Option, none, some}

-- The codes of `StatusCode` but for the one of success.
pub data StatusCode : Type 0 where
  key_error type_error invalid index_error out_of_memory io_error yaml_error arrow_error
        unknown_error :
      StatusCode

-- Why a call gives no value: a status that is returned, an exception, or undefined behaviour, such
-- as a null pointer that is dereferenced.
pub data Failure : Type 0 where
  status : StatusCode → Failure
  raised : Failure
  undefined : Failure

pub data Result {ℓ} (A : Type ℓ) : Type ℓ where
  ok : A → Result A
  err : Failure → Result A

abbrev pub Status : Type 0
Status = Result (Unit {0})

infixl 5 ◌>>=◌ ◌>>◌
abbrev pub ◌>>=◌ {ℓ κ} : {A : Type ℓ} {B : Type κ} → Result A → (A → Result B) → Result B
ok a >>= f = f a
err e >>= f = err e

abbrev pub ◌>>◌ {ℓ} : {B : Type ℓ} → Status → Result B → Result B
m >> k = m >>= λ _. k

-- An early return of an error status.
abbrev pub reject_if : Bool → StatusCode → Status
reject_if true c = err (status c)
reject_if false c = ok tt

-- `GAR_ASSIGN_OR_RAISE_ERROR`: an error status is thrown.
abbrev pub or_raise {ℓ} : {A : Type ℓ} → Result A → Result A
or_raise (ok a) = ok a
or_raise (err (status c)) = err raised
or_raise (err raised) = err raised
or_raise (err undefined) = err undefined

-- A pointer that must not be null.
abbrev pub deref {ℓ} : {A : Type ℓ} → Option A → Result A
deref none = err undefined
deref (some a) = ok a

pub ok-injective {ℓ} : {A : Type ℓ} {a b : A} → ok a ≡ ok b → a ≡ b
ok-injective e = cc

pub Result-cases {ℓ} :
    {A : Type ℓ} (r : Result A) → ((a : A) × (r ≡ ok a)) ⊎ ((e : Failure) × (r ≡ err e))
Result-cases (ok a) = inl (a, refl)
Result-cases (err e) = inr (e, refl)

-- A chain that gives a value has one at its first step.
pub bind-ok {ℓ κ} :
    {A : Type ℓ} {B : Type κ} (r : Result A) (f : A → Result B) (b : B)
    → (r >>= f) ≡ ok b
    → (a : A) × (r ≡ ok a) × (f a ≡ ok b)
bind-ok (ok a) f b h = (a, refl, h)
bind-ok (err e) f b h = cc

pub deref-ok {ℓ} : {A : Type ℓ} (o : Option A) (a : A) → deref o ≡ ok a → o ≡ some a
deref-ok none a h = cc
deref-ok (some b) a h = cc
