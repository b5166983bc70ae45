-- ===== src/Base/Tables.antt =====
-- A database table as the list of its rows, and the statements that the program sends to it.
-- A predicate is a Boolean test on a row, as in a WHERE clause.
use Prim.Native.Nat.{ℕ, ◌+◌, ◌≤◌, ◌<◌, max}
use mathlib.Core.Path.{◌≡◌, refl}
use mathlib.Core.Logic.{inl, inr}
use mathlib.Core.Bool.{Bool, true, false}
use mathlib.Core.Option.{Option, none, some}
use mathlib.Core.List.{List, [], ◌∷◌, ◌++◌}
use native.Mathlib.Omega.{arith}
use wdc_catalog_api.Base.Tests.{if◌then◌else◌, Bool-cases, ◌==◌}
use wdc_catalog_api.Base.Lists.{All, Elem, length}

module _ {A : Type 0} where
  -- SELECT … WHERE p, the first row
  unfoldable pub find? : (A → Bool) → List A → Option A
  find? p [] = none
  find? p (x ∷ xs) = if p x then some x else find? p xs

  -- SELECT … WHERE p
  unfoldable pub select : (A → Bool) → List A → List A
  select p [] = []
  select p (x ∷ xs) = let rest = select p xs in if p x then x ∷ rest else rest

  -- DELETE … WHERE p
  unfoldable pub delete_where : (A → Bool) → List A → List A
  delete_where p [] = []
  delete_where p (x ∷ xs) = let rest = delete_where p xs in if p x then rest else x ∷ rest

  -- UPDATE … WHERE p
  unfoldable pub update_where : (A → Bool) → (A → A) → List A → List A
  update_where p f [] = []
  update_where p f (x ∷ xs) = (if p x then f x else x) ∷ update_where p f xs

  -- SELECT COUNT(*) … WHERE p
  unfoldable pub count_where : (A → Bool) → List A → ℕ
  count_where p [] = 0
  count_where p (x ∷ xs) = (if p x then 1 else 0) + count_where p xs

  -- the id that the database gives a new row: one more than the largest
  unfoldable pub fresh_id : (A → ℕ) → List A → ℕ
  fresh_id key [] = 1
  fresh_id key (x ∷ xs) = max (key x + 1) (fresh_id key xs)

-- What a lookup by a key finds after a statement.
module _ {A : Type 0} (q : A → Bool) where
  pub find?_holds : (xs : List A) (a : A) → find? q xs ≡ some a → q a ≡ true
  unfolding find?
  find?_holds [] a h = cc
  find?_holds (x ∷ xs) a h = ground (arith, find?_holds xs a)

  pub find?-Elem : (xs : List A) (a : A) → find? q xs ≡ some a → Elem a xs
  unfolding find?
  find?-Elem [] a h = cc
  find?-Elem (x ∷ xs) a h = elim (Bool-cases (q x)) [
    | inl hit ↦ inl (ground arith)
    | inr miss ↦ inr (find?-Elem xs a (ground arith))
  ]

  pub find?-append :
      (xs ys : List A)
      → find? q (xs ++ ys) ≡ (elim (find? q xs) [ none ↦ find? q ys | some a ↦ some a ])
  unfolding find?
  find?-append [] ys = refl
  find?-append (x ∷ xs) ys = ground (arith, find?-append xs ys)

  pub find?-update_where :
      (p : A → Bool) (f : A → A)
      → ((x : A) → q (f x) ≡ q x)
      → (xs : List A)
      → find? q (update_where p f xs)
        ≡ (elim (find? q xs) [ none ↦ none | some a ↦ some (if p a then f a else a) ])
  unfolding find? update_where
  find?-update_where p f same [] = refl
  find?-update_where p f same (x ∷ xs) = ground (arith, same x, find?-update_where p f same xs)

  pub find?-delete_where_ne :
      (p : A → Bool)
      → ((x : A) → q x ≡ true → p x ≡ false)
      → (xs : List A) → find? q (delete_where p xs) ≡ find? q xs
  unfolding find? delete_where
  find?-delete_where_ne p apart [] = refl
  find?-delete_where_ne p apart (x ∷ xs) = ground (arith, apart x, find?-delete_where_ne p apart xs)

  pub find?-delete_where :
      (p : A → Bool)
      → ((x : A) → q x ≡ true → p x ≡ true)
      → (xs : List A) → find? q (delete_where p xs) ≡ none
  unfolding find? delete_where
  find?-delete_where p gone [] = refl
  find?-delete_where p gone (x ∷ xs) = ground (arith, gone x, find?-delete_where p gone xs)

  pub find?-none : (xs : List A) → All (λ x. q x ≡ false) xs → find? q xs ≡ none
  unfolding find?
  find?-none [] h = refl
  find?-none (x ∷ xs) (h, hs) = rw h (find?-none xs hs)

module _ {A : Type 0} where
  pub find?-All :
      (P : A → Type 0) (q : A → Bool) (xs : List A) (a : A) → All P xs → find? q xs ≡ some a → P a
  unfolding find?
  find?-All P q [] a h e = cc
  find?-All P q (x ∷ xs) a (h, hs) e = elim (Bool-cases (q x)) [
    | inl hit ↦ let same : x ≡ a = ground arith in rw same at h
    | inr miss ↦ find?-All P q xs a hs (ground arith)
  ]

  pub All-append : (P : A → Type 0) (xs ys : List A) → All P xs → All P ys → All P (xs ++ ys)
  All-append P [] ys h k = k
  All-append P (x ∷ xs) ys (h, hs) k = (h, All-append P xs ys hs k)

  pub All-update_where :
      (P : A → Type 0) (p : A → Bool) (f : A → A)
      → ((x : A) → P x → p x ≡ true → P (f x))
      → (xs : List A) → All P xs
      → All P (update_where p f xs)
  unfolding update_where
  All-update_where P p f keep [] h = tt
  All-update_where P p f keep (x ∷ xs) (h, hs) = elim (Bool-cases (p x)) [
    | inl hit ↦ rw hit (keep x h hit, All-update_where P p f keep xs hs)
    | inr miss ↦ rw miss (h, All-update_where P p f keep xs hs)
  ]

  pub All-delete_where :
      (P : A → Type 0) (p : A → Bool) (xs : List A) → All P xs → All P (delete_where p xs)
  unfolding delete_where
  All-delete_where P p [] h = tt
  All-delete_where P p (x ∷ xs) (h, hs) = elim (Bool-cases (p x)) [
    | inl hit ↦ rw hit (All-delete_where P p xs hs)
    | inr miss ↦ rw miss (h, All-delete_where P p xs hs)
  ]

  -- After DELETE … WHERE p no row has p.
  pub delete_where_lem : (p : A → Bool) (xs : List A) → All (λ x. p x ≡ false) (delete_where p xs)
  unfolding delete_where
  delete_where_lem p [] = tt
  delete_where_lem p (x ∷ xs) = elim (Bool-cases (p x)) [
    | inl hit ↦ rw hit (delete_where_lem p xs)
    | inr miss ↦ rw miss (miss, delete_where_lem p xs)
  ]

  pub count_where-append :
      (p : A → Bool) (xs ys : List A)
      → count_where p (xs ++ ys) ≡ count_where p xs + count_where p ys
  unfolding count_where
  count_where-append p [] ys = omega arith
  count_where-append p (x ∷ xs) ys = omega (arith, count_where-append p xs ys)

  pub length-delete_where :
      (p : A → Bool) (xs : List A) → length (delete_where p xs) + count_where p xs ≡ length xs
  unfolding count_where delete_where
  length-delete_where p [] = omega arith
  length-delete_where p (x ∷ xs) = ground (arith, length-delete_where p xs)

  pub length-update_where :
      (p : A → Bool) (f : A → A) (xs : List A) → length (update_where p f xs) ≡ length xs
  unfolding update_where
  length-update_where p f [] = refl
  length-update_where p f (x ∷ xs) = omega (arith, length-update_where p f xs)

-- A new id is the id of no row.
module _ {A : Type 0} (key : A → ℕ) where
  fresh_id_bound : (n : ℕ) (xs : List A) → fresh_id key xs ≤ n → All (λ x. key x < n) xs
  unfolding fresh_id
  fresh_id_bound n [] h = tt
  fresh_id_bound n (x ∷ xs) h = (omega arith, fresh_id_bound n xs (omega arith))

  pub fresh_id_lt : (xs : List A) → All (λ x. key x < fresh_id key xs) xs
  fresh_id_lt xs = fresh_id_bound (fresh_id key xs) xs (omega arith)

  find?-above : (n : ℕ) (xs : List A) → All (λ x. key x < n) xs → find? (λ x. key x == n) xs ≡ none
  unfolding find?
  find?-above n [] h = refl
  find?-above n (x ∷ xs) (h, hs) = ground (arith, find?-above n xs hs)

  pub find?-fresh_id : (xs : List A) → find? (λ x. key x == fresh_id key xs) xs ≡ none
  find?-fresh_id xs = find?-above (fresh_id key xs) xs (fresh_id_lt xs)
