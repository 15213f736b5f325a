-- ===== src/Version/Parse/RoundTrip.antt =====
-- `InfoVersion::Parse` against `ToString` (version_parser.h, version_parser.cc).
use mathlib.Core.List.{append_assoc}
use graph_ar.Base.{
  ok-injective, Failure, ◌==◌, subst, ℕ, ◌≡◌, refl, sym, ◌∙◌, ap, true, false, List, [], ◌∷◌, ◌++◌,
  All, All-append, some, ok, err, status, raised, invalid, arith, Bool-cases, inl, inr, ◌⊎◌,
  Result-cases, Option-cases,
}
use graph_ar.Base.Int.{==ℤ_sound, ◌==ℤ◌, pos}
use graph_ar.Base.Text.{Text, codes, decimal, to_string}
use graph_ar.Version.{InfoVersion, new_info_version, with_commas, set_last, version_to_string}
use graph_ar.Version.Parse.{
  after_prefix, skip_spaces, digits, parse, parser_version_impl, parse_user_define_types_impl,
  types_in, before_last, is_one_line, pieces, ends_line, parenthesis,
}
use graph_ar.Version.Parse.Kept.{
  IsTypeName, kept_all, pieces_one, pieces_comma, kept-IsTypeName, pieces-IsPiece,
}

-- The types with commas between them.
abbrev joined : Text → List Text → Text
joined t [] = t
joined t (u ∷ us) = t ++ b',' ∷ joined u us

set_last-append : (xs : Text) (c : ℕ) (s : Text) → set_last (xs ++ c ∷ s) ≡ xs ++ set_last (c ∷ s)
set_last-append [] c s = refl
set_last-append (x ∷ []) c s = refl
set_last-append (x ∷ y ∷ xs) c s = ap (λ r. x ∷ r) (set_last-append (y ∷ xs) c s)

set_last-cons :
    (c : ℕ) (t s : Text) (d : ℕ) → set_last (c ∷ (t ++ d ∷ s)) ≡ c ∷ set_last (t ++ d ∷ s)
set_last-cons c t s d = set_last-append (c ∷ t) d s ∙ ap (λ r. c ∷ r) (sym (set_last-append t d s))

set_last-joined :
    (t : Text) (ts : List Text) → set_last (with_commas (t ∷ ts)) ≡ joined t ts ++ b')' ∷ []
set_last-joined t [] = set_last-append t b',' []
set_last-joined t (u ∷ us) =
    set_last-append t b',' (with_commas (u ∷ us))
    ∙ ap (λ r. t ++ r) (set_last-cons b',' u (with_commas us) b',')
    ∙ ap (λ r. t ++ b',' ∷ r) (set_last-joined u us)
    ∙ sym (append_assoc t (b',' ∷ joined u us) (b')' ∷ []))

before_last_closed : (s : Text) → before_last (s ++ b')' ∷ []) ≡ some s
before_last_closed [] = refl
before_last_closed (c ∷ s) = rw (before_last_closed s) refl

is_one_line-All : (s : Text) → All (λ c. ends_line c ≡ false) s → is_one_line s ≡ true
is_one_line-All [] h = refl
is_one_line-All (c ∷ s) h = rw h.0 (is_one_line-All s h.1)

All-is_one_line : (s : Text) → is_one_line s ≡ true → All (λ c. ends_line c ≡ false) s
All-is_one_line [] h = tt
All-is_one_line (c ∷ s) h = elim (Bool-cases (ends_line c)) [
  | inl ends ↦ absurd (ground (arith, ends))
  | inr stays ↦ (stays, All-is_one_line s (ground (arith, stays)))
]

joined-on_line :
    (t : Text) (ts : List Text)
    → All IsTypeName (t ∷ ts)
    → All (λ c. ends_line c ≡ false) (joined t ts)
joined-on_line t [] h = h.0.on_line
joined-on_line t (u ∷ us) h =
    All-append (λ c. ends_line c ≡ false) t (b',' ∷ joined u us) h.0.on_line
      (refl, joined-on_line u us h.1)

pieces-joined :
    (t : Text) (ts : List Text) → All IsTypeName (t ∷ ts) → pieces (joined t ts) ≡ (t, ts)
pieces-joined t [] h = pieces_one t h.0.one
pieces-joined t (u ∷ us) h = rw (pieces_comma t (joined u us) h.0.one, pieces-joined u us h.1) refl

-- A version that `Parse` can make: the supported one, with names that can stand in a list.
pub record IsReadable (v : InfoVersion) : Type 0 where
  pub supported : v.version ≡ pos 1
  pub names : All IsTypeName v.user_define_types

-- The supported version with some types.
abbrev supporting : List Text → InfoVersion
supporting ts = record { version = pos 1; user_define_types = ts }

version_to_string-cons :
    (t : Text) (ts : List Text)
    → version_to_string (supporting (t ∷ ts)) ≡ codes "gar/v1 (" ++ joined t ts ++ b')' ∷ []
unfolding version_to_string to_string decimal
version_to_string-cons t ts =
    ap (λ r. codes "gar/v1" ++ r)
      (set_last-cons b' ' (b'(' ∷ t) (with_commas ts) b','
        ∙ ap (λ r. b' ' ∷ r) (set_last-cons b'(' t (with_commas ts) b',')
        ∙ ap (λ r. codes " (" ++ r) (set_last-joined t ts))

read_types :
    (t : Text) (ts : List Text)
    → All IsTypeName (t ∷ ts)
    → parse (codes "gar/v1 (" ++ joined t ts ++ b')' ∷ []) ≡ ok (supporting (t ∷ ts))
unfolding parse parser_version_impl parse_user_define_types_impl new_info_version
read_types t ts h =
    let line : is_one_line (joined t ts ++ b')' ∷ []) ≡ true = is_one_line-All _ (
      All-append (λ c. ends_line c ≡ false) (joined t ts) (b')' ∷ []) (joined-on_line t ts h)
        (refl, tt)) in
    ground
      (arith, line, before_last_closed (joined t ts), pieces-joined t ts h, kept_all (t ∷ ts) h)

read_supporting :
    (ts : List Text)
    → All IsTypeName ts
    → parse (version_to_string (supporting ts)) ≡ ok (supporting ts)
unfolding parse parser_version_impl parse_user_define_types_impl new_info_version version_to_string
    to_string decimal
read_supporting [] h = refl
read_supporting (t ∷ ts) h = ap parse (version_to_string-cons t ts) ∙ read_types t ts h

-- `Parse` reads a version back from its printed form, if its number is the supported one and each of
-- its types is not empty, not surrounded by white space, and on one line without commas.
pub parse-version_to_string : (v : InfoVersion) → IsReadable v → parse (version_to_string v) ≡ ok v
parse-version_to_string v h =
    let same : supporting v.user_define_types ≡ v =
      ap (λ n. record { version = n; user_define_types = v.user_define_types }) (sym h.supported) in
    subst (λ u. parse (version_to_string u) ≡ ok u) same
      (read_supporting v.user_define_types h.names)

before_last-All : (P : ℕ → Type 0) (s t : Text) → before_last s ≡ some t → All P s → All P t
before_last-All P [] t e h = absurd (ground arith)
before_last-All P (c ∷ s) t e h = elim (Option-cases (before_last s)) [
  | inl last ↦ elim (Bool-cases (c == b')')) [
    | inl closes ↦
        let empty : [] ≡ t = some-injective (ground (arith, last, closes)) in subst (All P) empty tt
    | inr other ↦ absurd (ground (arith, last, other))
  ]
  | inr (front, more) ↦
      let same : c ∷ front ≡ t = some-injective (ground (arith, more)) in
      subst (All P) same (h.0, before_last-All P s front more h.1)
]
  where
    some-injective : {a b : Text} → some a ≡ some b → a ≡ b
    some-injective e = cc

parenthesis-on_line : (s t : Text) → parenthesis s ≡ some t → All (λ c. ends_line c ≡ false) t
parenthesis-on_line [] t e = absurd (ground arith)
parenthesis-on_line (c ∷ s) t e = elim (Bool-cases (is_one_line s)) [
  | inl line ↦
      before_last-All (λ c. ends_line c ≡ false) s t (ground (arith, line)) (All-is_one_line s line)
  | inr lines ↦ absurd (ground (arith, lines))
]

types_in-on_line :
    (version_str t : Text) → types_in version_str ≡ some t → All (λ c. ends_line c ≡ false) t
types_in-on_line version_str t e = elim (Option-cases (after_prefix (codes "gar/v") version_str)) [
  | inl none_there ↦ absurd (ground (arith, none_there))
  | inr (s, there) ↦ parenthesis-on_line (skip_spaces (digits s).1) t (ground (arith, there))
]

parse_types-IsTypeName :
    (version_str : Text) → All IsTypeName (parse_user_define_types_impl version_str)
unfolding parse_user_define_types_impl
parse_types-IsTypeName version_str = elim (Option-cases (types_in version_str)) [
  | inl e ↦ rw e tt
  | inr (t, e) ↦ rw e (
      kept-IsTypeName ((pieces t).0 ∷ (pieces t).1)
        (pieces-IsPiece t (types_in-on_line version_str t e)))
]

parser_version_raises :
    (version_str : Text) (e : Failure) → parser_version_impl version_str ≡ err e → e ≡ raised
unfolding parser_version_impl
parser_version_raises version_str e h = ground arith

-- Whatever the text, `Parse` gives an invalid status or a version of the supported number whose types
-- are not empty, not surrounded by white space, and on one line without commas.
pub parse-IsReadable :
    (version_str : Text)
    → (parse version_str ≡ err (status invalid))
      ⊎ ((v : InfoVersion) × (parse version_str ≡ ok v) × IsReadable v)
unfolding parse new_info_version
parse-IsReadable version_str = elim (Result-cases (parser_version_impl version_str)) [
  | inr (e, fails) ↦ inl (ground (arith, fails, parser_version_raises version_str e fails))
  | inl (n, reads) ↦ elim (Bool-cases (n ==ℤ pos 1)) [
    | inr other ↦ inl (ground (arith, reads, other))
    | inl one ↦ inr (
      record { version = n; user_define_types = parse_user_define_types_impl version_str },
      ground (arith, reads, one),
      record { supported = ==ℤ_sound n (pos 1) one; names = parse_types-IsTypeName version_str },
    )
  ]
]

-- What `Parse` reads is a fixed point: printed and parsed again it is the same version.
pub parse-version_to_string-parse :
    (version_str : Text) (v : InfoVersion)
    → parse version_str ≡ ok v
    → parse (version_to_string v) ≡ ok v
parse-version_to_string-parse version_str v h = elim (parse-IsReadable version_str) [
  | inl fails ↦ absurd (ground (arith, fails))
  | inr (w, reads, readable) ↦
      parse-version_to_string v (subst IsReadable (ok-injective (sym reads ∙ h)) readable)
]
