-- ===== src/Property/Validation.antt =====
-- What the checks of property groups test (graph_info.cc, `PropertyGroup::IsValidated` and the loop
-- over the groups in `is_validated` of both infos), in terms of the names alone.
use graph_ar.Base.{
  ◌≡◌, ◌≢◌, ◌↔◌, refl, true, false, List, [], ◌∷◌, ◌++◌, Option, none, some, All, arith, inl, inr,
  Option-cases, sym, subst,
}
use graph_ar.Base.Text.{Text, text_eq_iff}
use graph_ar.Property.{
  Property, PropertyGroup, contains, unique_names, valid_groups, group_is_validated,
}

abbrev pub names : List Property → List Text
names [] = []
names (p ∷ ps) = p.name ∷ names ps

-- The names of all properties of the groups, null groups left out.
abbrev pub group_names : List (Option PropertyGroup) → List Text
group_names [] = []
group_names (none ∷ pgs) = group_names pgs
group_names (some pg ∷ pgs) = names pg.properties ++ group_names pgs

abbrev pub NotIn : List Text → Text → Type 0
NotIn ys x = All (λ y. y ≢ x) ys

-- No name stands twice in the list.
abbrev pub Distinct : List Text → Type 0
Distinct [] = Unit
Distinct (x ∷ xs) = NotIn xs x × Distinct xs

pub contains-NotIn : (x : Text) (ys : List Text) → (contains x ys ≡ false) ↔ NotIn ys x
unfolding contains
contains-NotIn x [] = (λ _. tt, λ _. refl)
contains-NotIn x (y ∷ ys) = ground (arith, text_eq_iff y x, contains-NotIn x ys)

abbrev pub Fresh : List Text → List Text → Type 0
Fresh seen [] = Unit
Fresh seen (n ∷ ns) = (contains n seen ≡ false) × Fresh (n ∷ seen) ns

abbrev seen_after : List Text → List Text → List Text
seen_after [] seen = seen
seen_after (n ∷ ns) seen = seen_after ns (n ∷ seen)

unique_names-Fresh :
    (ps : List Property) (seen : List Text)
    → Fresh seen (names ps)
    → unique_names ps seen ≡ some (seen_after (names ps) seen)
unfolding unique_names
unique_names-Fresh [] seen h = refl
unique_names-Fresh (p ∷ ps) seen h = ground (arith, unique_names-Fresh ps (p.name ∷ seen) h.1)

Fresh-unique_names :
    (ps : List Property) (seen s : List Text)
    → unique_names ps seen ≡ some s
    → Fresh seen (names ps) × (s ≡ seen_after (names ps) seen)
unfolding unique_names
Fresh-unique_names [] seen s h = ground arith
Fresh-unique_names (p ∷ ps) seen s h = ground (arith, Fresh-unique_names ps (p.name ∷ seen) s)

Fresh-append :
    (seen ns ms : List Text)
    → Fresh seen (ns ++ ms) ↔ (Fresh seen ns × Fresh (seen_after ns seen) ms)
Fresh-append seen [] ms = (λ h. (tt, h), λ h. h.1)
Fresh-append seen (n ∷ ns) ms =
    let ih = Fresh-append (n ∷ seen) ns ms in
    (λ h. ((h.0, (ih.0 h.1).0), (ih.0 h.1).1), λ h. (h.0.0, ih.1 (h.0.1, h.1)))

-- A name that is not among those seen, for each of the list.
abbrev Unseen : List Text → List Text → Type 0
Unseen seen = All (NotIn seen)

Unseen-cons :
    (n : Text) (seen ns : List Text) → Unseen (n ∷ seen) ns ↔ (Unseen seen ns × NotIn ns n)
Unseen-cons n seen [] = (λ _. (tt, tt), λ _. tt)
Unseen-cons n seen (m ∷ ns) =
    let ih = Unseen-cons n seen ns in
    (
      λ h. ((h.0.1, (ih.0 h.1).0), (λ e. h.0.0 (sym e), (ih.0 h.1).1)),
      λ h. ((λ e. h.1.0 (sym e), h.0.0), ih.1 (h.0.1, h.1.1)),
    )

Fresh-iff : (seen ns : List Text) → Fresh seen ns ↔ (Distinct ns × Unseen seen ns)
Fresh-iff seen [] = (λ _. (tt, tt), λ _. tt)
Fresh-iff seen (n ∷ ns) =
    let ih = Fresh-iff (n ∷ seen) ns in
    let cons = Unseen-cons n seen ns in
    let here = contains-NotIn n seen in
    (
      λ h. (((cons.0 (ih.0 h.1).1).1, (ih.0 h.1).0), (here.0 h.0, (cons.0 (ih.0 h.1).1).0)),
      λ h. (here.1 h.1.0, ih.1 (h.0.1, cons.1 (h.1.1, h.0.0))),
    )

Unseen-nil : (ns : List Text) → Unseen [] ns
Unseen-nil [] = tt
Unseen-nil (n ∷ ns) = (tt, Unseen-nil ns)

-- With no name seen before, all that is asked is that no name stands twice.
pub Fresh-nil : (ns : List Text) → Fresh [] ns ↔ Distinct ns
Fresh-nil ns = (λ h. ((Fresh-iff [] ns).0 h).0, λ h. (Fresh-iff [] ns).1 (h, Unseen-nil ns))

-- A group that is there and is validated.
abbrev pub IsValidGroup : Option PropertyGroup → Type 0
IsValidGroup none = ⊥
IsValidGroup (some pg) = group_is_validated pg ≡ true

valid_groups_sound :
    (pgs : List (Option PropertyGroup)) (seen : List Text)
    → valid_groups pgs seen ≡ true
    → All IsValidGroup pgs × Fresh seen (group_names pgs)
unfolding valid_groups
valid_groups_sound [] seen h = (tt, tt)
valid_groups_sound (none ∷ pgs) seen h = cc
valid_groups_sound (some pg ∷ pgs) seen h = elim (Option-cases (unique_names pg.properties seen)) [
  | inl e ↦ absurd (ground (arith, e))
  | inr (s, e) ↦
      let fresh = Fresh-unique_names pg.properties seen s e in
      let ih = valid_groups_sound pgs s (ground (arith, e)) in
      (
        (ground (arith, e), ih.0),
        (Fresh-append seen (names pg.properties) (group_names pgs)).1
            (fresh.0, subst (λ t. Fresh t (group_names pgs)) fresh.1 ih.1),
      )
]

valid_groups_complete :
    (pgs : List (Option PropertyGroup)) (seen : List Text)
    → All IsValidGroup pgs
    → Fresh seen (group_names pgs)
    → valid_groups pgs seen ≡ true
unfolding valid_groups
valid_groups_complete [] seen v h = refl
valid_groups_complete (none ∷ pgs) seen v h = absurd v.0
valid_groups_complete (some pg ∷ pgs) seen v h =
    let parts = (Fresh-append seen (names pg.properties) (group_names pgs)).0 h in
    ground (
      arith,
      v.0,
      unique_names-Fresh pg.properties seen parts.0,
      valid_groups_complete pgs (seen_after (names pg.properties) seen) v.1 parts.1,
    )

-- The loop accepts exactly groups that are each validated and together name no property twice.
pub valid_groups_iff :
    (pgs : List (Option PropertyGroup))
    → (valid_groups pgs [] ≡ true) ↔ (All IsValidGroup pgs × Distinct (group_names pgs))
valid_groups_iff pgs = (
  λ h. let s = valid_groups_sound pgs [] h in (s.0, (Fresh-nil _).0 s.1),
  λ h. valid_groups_complete pgs [] h.0 ((Fresh-nil _).1 h.1),
)
