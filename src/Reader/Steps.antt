-- ===== src/Reader/Steps.antt =====
-- What the operations of the readers are put together from (chunk_info_reader.cc).
use graph_ar.Base.{Result, Status, ok, err, ◌≡◌, refl, arith}

-- An object after a call, and the status that the call gave.
abbrev pub Step {ℓ} : Type ℓ → Type ℓ
Step R = R × Status

-- Goes on with the object if the status is OK, and returns otherwise.
abbrev pub and_then {ℓ} : {R : Type ℓ} → Step R → (R → Step R) → Step R
and_then (r, ok u) f = f r
and_then (r, err e) f = (r, err e)

-- `GAR_ASSIGN_OR_RAISE`: goes on with the value of a call, or returns its failure.
abbrev pub with_value {ℓ κ} : {R : Type ℓ} {A : Type κ} → R → Result A → (A → Step R) → Step R
with_value r (ok a) f = f a
with_value r (err e) f = (r, err e)

-- A step that is OK went on with a value.
pub with_value-ok {ℓ κ} :
    {R : Type ℓ} {A : Type κ} (P : R → Type 0) (r : R) (s : Result A) (f : A → Step R)
    → ((a : A) → s ≡ ok a → (f a).1 ≡ ok tt → P (f a).0)
    → (with_value r s f).1 ≡ ok tt
    → P (with_value r s f).0
with_value-ok P r (ok a) f h k = h a refl k
with_value-ok P r (err e) f h k = absurd (ground (arith, k))
