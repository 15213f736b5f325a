-- ===== src/Builder/Edges/Order.antt =====
-- Edges in another order: what a sort keeps (edges_builder.cc, `Dump`).
use graph_ar.Base.{List, [], ◌∷◌, refl, Bool-cases, inl, inr, subst}
use graph_ar.Base.Int.{ℤ, ◌==ℤ◌, ◌≤ℤ◌}
use graph_ar.Builder.Edges.Defs.{Edge}
use graph_ar.Builder.Edges.Csr.{AtLeast, edges_of}
use mathlib.Core.HLevel.{×_prop}
use mathlib.Core.List.{Perm, Permᴰ, Perm-prop}
use mathlib.Core.Logic.{∥∥₁_elim}
use mathlib.Core.List.Permᴰ
use native.Mathlib.Bridge.{le_prop}

AtLeast-prop : (key : Edge → ℤ) (i : ℤ) (es : List Edge) → IsProp (AtLeast key i es)
AtLeast-prop key i [] = λ u v. refl
AtLeast-prop key i (e ∷ es) = ×_prop le_prop (AtLeast-prop key i es)

AtLeast-Permᴰ :
    (key : Edge → ℤ) (i : ℤ) (es fs : List Edge) → Permᴰ es fs → AtLeast key i es → AtLeast key i fs
AtLeast-Permᴰ key i es fs (Permᴰ.nil) a = a
AtLeast-Permᴰ key i (e ∷ es) (f ∷ fs) (Permᴰ.cons p d) a =
    (subst (λ g. i ≤ℤ key g) p a.0, AtLeast-Permᴰ key i es fs d a.1)
AtLeast-Permᴰ key i (e ∷ f ∷ es) (g ∷ h ∷ fs) (Permᴰ.swap p q) a =
    (subst (λ x. i ≤ℤ key x) q a.1.0, (subst (λ x. i ≤ℤ key x) p a.0, a.1.1))
AtLeast-Permᴰ key i es fs (Permᴰ.trans {l₂ = gs} c d) a =
    AtLeast-Permᴰ key i gs fs d (AtLeast-Permᴰ key i es gs c a)

pub AtLeast-Perm :
    (key : Edge → ℤ) (i : ℤ) (es fs : List Edge) → Perm es fs → AtLeast key i es → AtLeast key i fs
AtLeast-Perm key i es fs p a =
    ∥∥₁_elim p (AtLeast-prop key i fs) (λ d. AtLeast-Permᴰ key i es fs d a)

edges_of-cons :
    (key : Edge → ℤ) (i : ℤ) (e : Edge) (es fs : List Edge)
    → Permᴰ (edges_of key i es) (edges_of key i fs)
    → Permᴰ (edges_of key i (e ∷ es)) (edges_of key i (e ∷ fs))
unfolding edges_of
edges_of-cons key i e es fs d = elim (Bool-cases (key e ==ℤ i)) [
  | inl h ↦ rw h (Permᴰ.cons refl d)
  | inr h ↦ rw h d
]

edges_of-swap :
    (key : Edge → ℤ) (i : ℤ) (e f : Edge) (es : List Edge)
    → Permᴰ (edges_of key i (e ∷ f ∷ es)) (edges_of key i (f ∷ e ∷ es))
unfolding edges_of
edges_of-swap key i e f es = elim (Bool-cases (key e ==ℤ i)) [
  | inl h ↦ elim (Bool-cases (key f ==ℤ i)) [
    | inl k ↦ rw h (rw k (Permᴰ.swap refl refl))
    | inr k ↦ rw h (rw k (Permᴰ.refl _))
  ]
  | inr h ↦ elim (Bool-cases (key f ==ℤ i)) [
    | inl k ↦ rw h (rw k (Permᴰ.refl _))
    | inr k ↦ rw h (rw k (Permᴰ.refl _))
  ]
]

edges_of-Permᴰ :
    (key : Edge → ℤ) (i : ℤ) (es fs : List Edge)
    → Permᴰ es fs
    → Permᴰ (edges_of key i es) (edges_of key i fs)
unfolding edges_of
edges_of-Permᴰ key i es fs (Permᴰ.nil) = Permᴰ.nil
edges_of-Permᴰ key i (e ∷ es) (f ∷ fs) (Permᴰ.cons p d) =
    subst (λ g. Permᴰ (edges_of key i (e ∷ es)) (edges_of key i (g ∷ fs))) p
      (edges_of-cons key i e es fs (edges_of-Permᴰ key i es fs d))
edges_of-Permᴰ key i (e ∷ f ∷ es) (g ∷ h ∷ fs) (Permᴰ.swap p q) =
    subst (λ x. Permᴰ (edges_of key i (e ∷ f ∷ es)) (edges_of key i (g ∷ x ∷ fs))) p
      (subst (λ x. Permᴰ (edges_of key i (e ∷ f ∷ es)) (edges_of key i (x ∷ e ∷ fs))) q
        (edges_of-swap key i e f es))
edges_of-Permᴰ key i es fs (Permᴰ.trans {l₂ = gs} c d) =
    Permᴰ.trans (edges_of-Permᴰ key i es gs c) (edges_of-Permᴰ key i gs fs d)

pub edges_of-Perm :
    (key : Edge → ℤ) (i : ℤ) (es fs : List Edge)
    → Perm es fs
    → Perm (edges_of key i es) (edges_of key i fs)
edges_of-Perm key i es fs p = ∥∥₁_elim p Perm-prop (λ d. ∣ edges_of-Permᴰ key i es fs d ∣₁)
