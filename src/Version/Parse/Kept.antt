-- ===== src/Version/Parse/Kept.antt =====
-- Trimming, splitting at commas, and the types that are kept (version_parser.cc).
use graph_ar.Base.{
  ℕ, ◌≡◌, ◌≢◌, refl, ◌∙◌, ap, false, List, [], ◌∷◌, ◌++◌, All, arith, Bool-cases, inl, inr, ◌==◌,
}
use graph_ar.Base.Text.{Text, is_empty, Lacks}
use graph_ar.Version.Parse.{is_whitespace, trim_left, trim_right, trim, ends_line, pieces, kept}

-- A text that does not begin with white space.
abbrev BeginsSolid : Text → Type 0
BeginsSolid [] = Unit
BeginsSolid (c ∷ s) = is_whitespace c ≡ false

trim_left-BeginsSolid : (s : Text) → BeginsSolid (trim_left s)
trim_left-BeginsSolid [] = tt
trim_left-BeginsSolid (c ∷ s) = elim (Bool-cases (is_whitespace c)) [
  | inl white ↦ rw white (trim_left-BeginsSolid s)
  | inr solid ↦ rw solid solid
]

trim_right-BeginsSolid : (s : Text) → BeginsSolid s → BeginsSolid (trim_right s)
trim_right-BeginsSolid [] h = tt
trim_right-BeginsSolid (c ∷ s) h = elim (Bool-cases (is_empty (trim_right s))) [
  | inl e ↦ rw (e, h) h
  | inr e ↦ rw e h
]

BeginsSolid-trim_left : (s : Text) → BeginsSolid s → trim_left s ≡ s
BeginsSolid-trim_left [] h = refl
BeginsSolid-trim_left (c ∷ s) h = ground (arith, h)

trim_right_idempotent : (s : Text) → trim_right (trim_right s) ≡ trim_right s
trim_right_idempotent [] = refl
trim_right_idempotent (c ∷ s) = elim (Bool-cases (is_empty (trim_right s))) [
  | inl e ↦ ground arith
  | inr e ↦ rw e (ground (arith, trim_right_idempotent s))
]

pub trim_idempotent : (s : Text) → trim (trim s) ≡ trim s
trim_idempotent s =
    ap trim_right (
      BeginsSolid-trim_left (trim_right (trim_left s))
        (trim_right-BeginsSolid (trim_left s) (trim_left-BeginsSolid s)))
    ∙ trim_right_idempotent (trim_left s)

-- What holds of each character holds of those that are left.
trim_left-All : (P : ℕ → Type 0) (s : Text) → All P s → All P (trim_left s)
trim_left-All P [] h = tt
trim_left-All P (c ∷ s) h = elim (Bool-cases (is_whitespace c)) [
  | inl white ↦ rw white (trim_left-All P s h.1)
  | inr solid ↦ rw solid h
]

trim_right-All : (P : ℕ → Type 0) (s : Text) → All P s → All P (trim_right s)
trim_right-All P [] h = tt
trim_right-All P (c ∷ s) h = elim (Bool-cases (is_empty (trim_right s))) [
  | inl e ↦ elim (Bool-cases (is_whitespace c)) [
    | inl white ↦ rw (e, white) tt
    | inr solid ↦ rw (e, solid) (h.0, tt)
  ]
  | inr e ↦ rw e (h.0, trim_right-All P s h.1)
]

pub trim-All : (P : ℕ → Type 0) (s : Text) → All P s → All P (trim s)
trim-All P s h = trim_right-All P (trim_left s) (trim_left-All P s h)

-- A name that can stand in the list of types.
pub record IsTypeName (t : Text) : Type 0 where
  pub named : is_empty t ≡ false
  pub trimmed : trim t ≡ t
  pub one : Lacks b',' t
  pub on_line : All (λ c. ends_line c ≡ false) t

-- A piece between commas on one line.
abbrev pub IsPiece : Text → Type 0
IsPiece p = Lacks b',' p × All (λ c. ends_line c ≡ false) p

pub kept-IsTypeName : (ps : List Text) → All IsPiece ps → All IsTypeName (kept ps)
kept-IsTypeName [] h = tt
kept-IsTypeName (p ∷ ps) h = elim (Bool-cases (is_empty (trim p))) [
  | inl e ↦ rw e (kept-IsTypeName ps h.1)
  | inr e ↦ rw e (
    record {
      named = e;
      trimmed = trim_idempotent p;
      one = trim-All (λ c. c ≢ b',') p h.0.0;
      on_line = trim-All (λ c. ends_line c ≡ false) p h.0.1;
    },
    kept-IsTypeName ps h.1,
  )
]

pub kept_all : (ts : List Text) → All IsTypeName ts → kept ts ≡ ts
kept_all [] h = refl
kept_all (t ∷ ts) h = rw (h.0.trimmed, h.0.named) (ap (λ r. t ∷ r) (kept_all ts h.1))

pub pieces-IsPiece :
    (s : Text) → All (λ c. ends_line c ≡ false) s → IsPiece (pieces s).0 × All IsPiece (pieces s).1
pieces-IsPiece [] h = ((tt, tt), tt)
pieces-IsPiece (c ∷ s) h =
    let ih = pieces-IsPiece s h.1 in
    elim (Bool-cases (c == b',')) [
      | inl comma ↦ rw comma ((tt, tt), ih)
      | inr other ↦ rw other (((ground (arith, other), ih.0.0), (h.0, ih.0.1)), ih.1)
    ]

-- A text with no comma is one piece, and a comma behind it ends the piece.
pub pieces_one : (t : Text) → Lacks b',' t → pieces t ≡ (t, [])
pieces_one [] h = refl
pieces_one (c ∷ t) h = ground (arith, h.0, pieces_one t h.1)

pub pieces_comma :
    (t s : Text) → Lacks b',' t → pieces (t ++ b',' ∷ s) ≡ (t, (pieces s).0 ∷ (pieces s).1)
pieces_comma [] s h = refl
pieces_comma (c ∷ t) s h = ground (arith, h.0, pieces_comma t s h.1)
