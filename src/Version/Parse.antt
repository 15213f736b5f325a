-- ===== src/Version/Parse.antt =====
-- `InfoVersion::Parse` and its helpers (version_parser.cc). A regular expression is matched as the
-- grammar of ECMAScript has it: `.` is any character but the two that end a line.

pub mod Kept
pub mod RoundTrip
use graph_ar.Base.{
  ℕ, Bool, true, false, not, ◌||◌, ◌==◌, List, [], ◌∷◌, Option, none, some, Result, ok, err, status,
  raised, invalid, undefined, ◌>>=◌, if◌then◌else◌, leb,
}
use graph_ar.Base.Text.{Text, codes, is_empty, number_of}
use graph_ar.Base.Int.{ℤ, pos}
use graph_ar.Version.{InfoVersion, new_info_version}

-- `is_whitespace`.
abbrev pub is_whitespace : ℕ → Bool
is_whitespace c = c == b' ' || c == b'\t' || c == b'\r' || c == b'\n'

abbrev pub trim_left : Text → Text
trim_left [] = []
trim_left (c ∷ s) = let rest = trim_left s in if is_whitespace c then rest else c ∷ s

abbrev pub trim_right : Text → Text
trim_right [] = []
trim_right (c ∷ s) =
    let rest = trim_right s in
    if is_empty rest then (if is_whitespace c then [] else c ∷ []) else c ∷ rest

-- `trim`.
abbrev pub trim : Text → Text
trim s = trim_right (trim_left s)

-- What stands behind a prefix.
abbrev pub after_prefix : Text → Text → Option Text
after_prefix [] s = some s
after_prefix (p ∷ ps) [] = none
after_prefix (p ∷ ps) (c ∷ s) = let rest = after_prefix ps s in if p == c then rest else none

abbrev pub is_digit : ℕ → Bool
is_digit c = if leb b'0' c then leb c b'9' else false

-- The longest run of digits, and what stands behind it.
abbrev pub digits : Text → Text × Text
digits [] = ([], [])
digits (c ∷ s) = let (run, rest) = digits s in if is_digit c then (c ∷ run, rest) else ([], c ∷ s)

abbrev pub ends_line : ℕ → Bool
ends_line c = c == b'\n' || c == b'\r'

-- `.*` up to the end.
abbrev pub is_one_line : Text → Bool
is_one_line [] = true
is_one_line (c ∷ s) = let rest = is_one_line s in if ends_line c then false else rest

-- `parserVersionImpl`: the match of `gar/v(\d+).*`, and `stoi`, which throws above 2^31 - 1.
unfoldable pub parser_version_impl : Text → Result ℤ
parser_version_impl version_str = elim (after_prefix (codes "gar/v") version_str) [
  | none ↦ err raised
  | some s ↦
      let (run, rest) = digits s in
      if is_empty run
      then err raised
      else if not (is_one_line rest)
      then err raised
      else if leb (number_of 0 run) 2147483647
      then ok (pos (number_of 0 run))
      else err raised
]

abbrev pub skip_spaces : Text → Text
skip_spaces [] = []
skip_spaces (c ∷ s) = let rest = skip_spaces s in if c == b' ' then rest else c ∷ s

-- What stands before the last closing parenthesis.
abbrev pub before_last : Text → Option Text
before_last [] = none
before_last (c ∷ s) = elim (before_last s) [
  | some front ↦ some (c ∷ front)
  | none ↦ if c == b')' then some [] else none
]

-- `\((.*)\).*`: the greedy group ends before the last closing parenthesis.
abbrev pub parenthesis : Text → Option Text
parenthesis [] = none
parenthesis (c ∷ s) =
    let inside = before_last s in
    if c == b'(' then (if is_one_line s then inside else none) else none

-- The match of `gar/v\d+ *\((.*)\).*`.
abbrev pub types_in : Text → Option Text
types_in version_str = elim (after_prefix (codes "gar/v") version_str) [
  | none ↦ none
  | some s ↦
      let (run, rest) = digits s in if is_empty run then none else parenthesis (skip_spaces rest)
]

-- The loop over the commas: the first piece, and the others.
abbrev pub pieces : Text → Text × List Text
pieces [] = ([], [])
pieces (c ∷ s) =
    let (piece, others) = pieces s in
    if c == b',' then ([], piece ∷ others) else (c ∷ piece, others)

-- Each piece is trimmed, and kept if that leaves something.
abbrev pub kept : List Text → List Text
kept [] = []
kept (p ∷ ps) = let rest = kept ps in if is_empty (trim p) then rest else trim p ∷ rest

-- `parseUserDefineTypesImpl`.
unfoldable pub parse_user_define_types_impl : Text → List Text
parse_user_define_types_impl version_str = elim (types_in version_str) [
  | none ↦ []
  | some types_str ↦ let (piece, others) = pieces types_str in kept (piece ∷ others)
]

-- Every exception becomes an invalid status.
abbrev pub caught {ℓ} : {A : Type ℓ} → Result A → Result A
caught (ok a) = ok a
caught (err (status c)) = err (status c)
caught (err raised) = err (status invalid)
caught (err undefined) = err undefined

-- `Parse`.
unfoldable pub parse : Text → Result InfoVersion
parse version_str = caught (do
  version ← parser_version_impl version_str
  new_info_version version (parse_user_define_types_impl version_str))
