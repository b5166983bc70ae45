-- ===== src/Base/Strip.antt =====
-- `s.strip()` and `s.lower()`: doing either again changes nothing, and they commute.
use Prim.Native.Nat.{ℕ}
use mathlib.Core.Path.{◌≡◌, refl, sym, ap, ◌∙◌, subst}
use mathlib.Core.Logic.{inl, inr}
use mathlib.Core.Bool.{Bool, true}
use mathlib.Core.List.{[], ◌∷◌, ◌++◌, reverse, reverse_aux, reverse-append, reverse-reverse}
use native.Mathlib.Omega.{arith}
use wdc_catalog_api.Base.Tests.{negb, Bool-cases}
use wdc_catalog_api.Base.Texts.{Text, is_space, to_lower, lower, lower-lower, strip_left, strip}

-- The text does not start with white space.
abbrev starts_clean : Text → Bool
starts_clean [] = true
starts_clean (c ∷ s) = negb (is_space c)

strip_left_clean : (s : Text) → starts_clean (strip_left s) ≡ true
unfolding strip_left
strip_left_clean [] = refl
strip_left_clean (c ∷ s) = ground (arith, strip_left_clean s)

clean_strip_left : (s : Text) → starts_clean s ≡ true → strip_left s ≡ s
unfolding strip_left
clean_strip_left [] h = refl
clean_strip_left (c ∷ s) h = ground (arith, h)

clean_prefix : (s t : Text) → starts_clean (s ++ t) ≡ true → starts_clean s ≡ true
clean_prefix [] t h = refl
clean_prefix (c ∷ s) t h = h

strip_left_suffix : (s : Text) → (before : Text) × (s ≡ before ++ strip_left s)
unfolding strip_left
strip_left_suffix [] = ([], refl)
strip_left_suffix (c ∷ s) = elim (Bool-cases (is_space c)) [
  | inl space ↦
      let (before, whole) = strip_left_suffix s in (c ∷ before, rw space (ap (λ r. c ∷ r) whole))
  | inr other ↦ ([], rw other refl)
]

-- What is left after both ends are stripped starts clean.
strip_clean : (s : Text) → starts_clean (reverse (strip_left (reverse (strip_left s)))) ≡ true
strip_clean s =
    let u = strip_left s in
    let (before, whole) = strip_left_suffix (reverse u) in
    let parts : reverse (strip_left (reverse u)) ++ reverse before ≡ u =
      sym (reverse-append before (strip_left (reverse u)))
      ∙ (ap (λ t. reverse t) (sym whole) ∙ reverse-reverse u) in
    clean_prefix (reverse (strip_left (reverse u))) (reverse before)
      (subst (λ t. starts_clean t ≡ true) (sym parts) (strip_left_clean s))

pub strip-strip : (s : Text) → strip (strip s) ≡ strip s
unfolding strip
strip-strip s =
    let v = strip_left (reverse (strip_left s)) in
    let left : strip_left (reverse v) ≡ reverse v = clean_strip_left (reverse v) (strip_clean s) in
    let right : strip_left v ≡ v = clean_strip_left v (strip_left_clean (reverse (strip_left s))) in
    ap (λ t. reverse (strip_left (reverse t))) left
    ∙ (ap (λ t. reverse (strip_left t)) (reverse-reverse v) ∙ ap (λ t. reverse t) right)

is_space-to_lower : (c : ℕ) → is_space (to_lower c) ≡ is_space c
is_space-to_lower c = ground arith

strip_left-lower : (s : Text) → strip_left (lower s) ≡ lower (strip_left s)
unfolding strip_left
strip_left-lower [] = refl
strip_left-lower (c ∷ s) = elim (Bool-cases (is_space c)) [
  | inl space ↦ rw (is_space-to_lower c, space) (strip_left-lower s)
  | inr other ↦ rw (is_space-to_lower c, other) refl
]

lower-reverse_aux : (s t : Text) → lower (reverse_aux s t) ≡ reverse_aux (lower s) (lower t)
lower-reverse_aux [] t = refl
lower-reverse_aux (c ∷ s) t = lower-reverse_aux s (c ∷ t)

lower-reverse : (s : Text) → lower (reverse s) ≡ reverse (lower s)
lower-reverse s = lower-reverse_aux s []

strip-lower : (s : Text) → strip (lower s) ≡ lower (strip s)
unfolding strip
strip-lower s =
    let u = strip_left s in
    ap (λ t. reverse (strip_left (reverse t))) (strip_left-lower s)
    ∙ (ap (λ t. reverse (strip_left t)) (sym (lower-reverse u))
        ∙ (ap (λ t. reverse t) (strip_left-lower (reverse u))
            ∙ sym (lower-reverse (strip_left (reverse u)))))

-- An address that was normalized is its own normal form.
pub lower-strip_idem : (s : Text) → lower (strip (lower (strip s))) ≡ lower (strip s)
lower-strip_idem s =
    ap (λ t. lower t) (strip-lower (strip s) ∙ ap (λ t. lower t) (strip-strip s))
    ∙ lower-lower (strip s)
