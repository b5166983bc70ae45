-- ===== src/Base/Keyed.antt =====
-- Tables whose rows have a key: statements on the one row of a key, and what they do to counts.
use Prim.Native.Nat.{ℕ, ◌+◌, ◌≤◌}
use mathlib.Core.Path.{◌≡◌, refl, sym, subst}
use mathlib.Core.Logic.{inl, inr}
use mathlib.Core.Bool.{Bool, true, false}
use mathlib.Core.Option.{none, some}
use mathlib.Core.List.{List, [], ◌∷◌, ◌++◌}
use native.Mathlib.Omega.{arith}
use wdc_catalog_api.Base.Tests.{is_some, Option-cases, if◌then◌else◌, Bool-cases, ◌==◌}
use wdc_catalog_api.Base.Lists.{All, Elem}
use wdc_catalog_api.Base.Tables.{
  find?, find?-append, select, delete_where, update_where, count_where, find?-update_where,
  find?-delete_where_ne,
}

module _ {A : Type 0} where
  -- What SELECT … WHERE p returns is in the table and has p.
  pub select-Elem :
      (p : A → Bool) (a : A) (xs : List A) → Elem a (select p xs) → Elem a xs × (p a ≡ true)
  unfolding select
  select-Elem p a [] h = elim h [ ]
  select-Elem p a (x ∷ xs) h = elim (Bool-cases (p x)) [
    | inl hit ↦ elim (rw hit at h) [
      | inl same ↦ (inl same, ground arith)
      | inr later ↦ let (m, k) = select-Elem p a xs later in (inr m, k)
    ]
    | inr miss ↦ let (m, k) = select-Elem p a xs (rw miss at h) in (inr m, k)
  ]

  -- No two rows share a key.
  abbrev pub UniqueKeys : (A → ℕ) → List A → Type 0
  UniqueKeys key [] = Unit
  UniqueKeys key (x ∷ xs) = (find? (λ y. key y == key x) xs ≡ none) × UniqueKeys key xs

  pub find?-none-Elem :
      (q : A → Bool) (a : A) (xs : List A) → find? q xs ≡ none → Elem a xs → q a ≡ false
  unfolding find?
  find?-none-Elem q a [] h m = elim m [ ]
  find?-none-Elem q a (x ∷ xs) h m = elim (Bool-cases (q x)) [
    | inl hit ↦ absurd (ground arith)
    | inr miss ↦ elim m [
      | inl same ↦ ground arith
      | inr later ↦ find?-none-Elem q a xs (rw miss at h) later
    ]
  ]

  -- With unique keys the row that is found by a key is the only one of that key.
  pub find?-unique :
      (key : A → ℕ) (k : ℕ) (a b : A) (xs : List A)
      → UniqueKeys key xs
      → find? (λ y. key y == k) xs ≡ some a
      → Elem b xs
      → key b ≡ k
      → b ≡ a
  unfolding find?
  find?-unique key k a b [] u h m e = elim m [ ]
  find?-unique key k a b (x ∷ xs) (new, u) h m e = elim (Bool-cases (key x == k)) [
    | inl hit ↦ elim m [
      | inl same ↦ ground arith
      | inr later ↦
          absurd (ground (arith, find?-none-Elem (λ (y : A). key y == key x) b xs new later))
    ]
    | inr miss ↦ elim m [
      | inl same ↦ absurd (ground arith)
      | inr later ↦ find?-unique key k a b xs u (rw miss at h) later e
    ]
  ]

  pub select-append :
      (p : A → Bool) (xs ys : List A) → select p (xs ++ ys) ≡ select p xs ++ select p ys
  unfolding select
  select-append p [] ys = refl
  select-append p (x ∷ xs) ys = ground (arith, select-append p xs ys)

  pub All-Elem : (P : A → Type 0) (a : A) (xs : List A) → All P xs → Elem a xs → P a
  All-Elem P a [] h m = elim m [ ]
  All-Elem P a (x ∷ xs) (h, hs) m = elim m [
    | inl same ↦ rw same h
    | inr later ↦ All-Elem P a xs hs later
  ]

  pub All-intro : (P : A → Type 0) (xs : List A) → ((a : A) → Elem a xs → P a) → All P xs
  All-intro P [] h = tt
  All-intro P (x ∷ xs) h = (h x (inl refl), All-intro P xs (λ a m. h a (inr m)))

  pub is_some-find? :
      (q : A → Bool) (a : A) (xs : List A) → Elem a xs → q a ≡ true → is_some (find? q xs) ≡ true
  is_some-find? q a xs m h = elim (Option-cases (find? q xs)) [
    | inl missing ↦ absurd (ground (arith, find?-none-Elem q a xs missing m))
    | inr (b, found) ↦ rw found refl
  ]

  -- UPDATE … WHERE p leaves every row with p as the update made it.
  pub update_where_lem :
      (P : A → Type 0) (p : A → Bool) (f : A → A)
      → ((x : A) → p x ≡ true → P (f x))
      → ((x : A) → p x ≡ false → P x)
      → (xs : List A) → All P (update_where p f xs)
  unfolding update_where
  update_where_lem P p f hit miss [] = tt
  update_where_lem P p f hit miss (x ∷ xs) = elim (Bool-cases (p x)) [
    | inl h ↦ rw h (hit x h, update_where_lem P p f hit miss xs)
    | inr h ↦ rw h (miss x h, update_where_lem P p f hit miss xs)
  ]

-- 1 for true, 0 for false
abbrev pub bit : Bool → ℕ
bit b = if b then 1 else 0

-- Statements on the one row with a given key.
module _ {A : Type 0} (key : A → ℕ) (k : ℕ) where
  pub update_where-none :
      (f : A → A) (xs : List A)
      → find? (λ y. key y == k) xs ≡ none
      → update_where (λ y. key y == k) f xs ≡ xs
  unfolding find? update_where
  update_where-none f [] h = refl
  update_where-none f (x ∷ xs) h = ground (arith, update_where-none f xs)

  pub delete_where-none :
      (xs : List A) → find? (λ y. key y == k) xs ≡ none → delete_where (λ y. key y == k) xs ≡ xs
  unfolding find? delete_where
  delete_where-none [] h = refl
  delete_where-none (x ∷ xs) h = ground (arith, delete_where-none xs)

  find?-other :
      (x : A) (xs : List A)
      → key x ≡ k
      → find? (λ y. key y == key x) xs ≡ none
      → find? (λ y. key y == k) xs ≡ none
  find?-other x xs e h = subst (λ n. find? (λ y. key y == n) xs ≡ none) e h

  pub count_where-update_where :
      (p : A → Bool) (f : A → A) (a : A) (xs : List A)
      → UniqueKeys key xs
      → find? (λ y. key y == k) xs ≡ some a
      → count_where p (update_where (λ y. key y == k) f xs) + bit (p a)
        ≡ count_where p xs + bit (p (f a))
  unfolding find? update_where count_where
  count_where-update_where p f a [] u h = cc
  count_where-update_where p f a (x ∷ xs) (new, u) h = elim (Bool-cases (key x == k)) [
    | inl hit ↦
        let same : x ≡ a = ground arith in
        let rest = update_where-none f xs (find?-other x xs (ground arith) new) in
        rw (hit, rest) (rw same (omega arith))
    | inr miss ↦ rw miss (omega (arith, count_where-update_where p f a xs u (rw miss at h)))
  ]

  pub count_where-delete_where :
      (p : A → Bool) (a : A) (xs : List A)
      → UniqueKeys key xs
      → find? (λ y. key y == k) xs ≡ some a
      → count_where p (delete_where (λ y. key y == k) xs) + bit (p a) ≡ count_where p xs
  unfolding find? delete_where count_where
  count_where-delete_where p a [] u h = cc
  count_where-delete_where p a (x ∷ xs) (new, u) h = elim (Bool-cases (key x == k)) [
    | inl hit ↦
        let same : x ≡ a = ground arith in
        let rest = delete_where-none xs (find?-other x xs (ground arith) new) in
        rw (hit, rest) (rw same (omega arith))
    | inr miss ↦ rw miss (omega (arith, count_where-delete_where p a xs u (rw miss at h)))
  ]

  pub UniqueKeys-delete_where :
      (xs : List A) → UniqueKeys key xs → UniqueKeys key (delete_where (λ y. key y == k) xs)
  unfolding delete_where
  UniqueKeys-delete_where [] u = tt
  UniqueKeys-delete_where (x ∷ xs) (new, u) = elim (Bool-cases (key x == k)) [
    | inl hit ↦ rw hit (UniqueKeys-delete_where xs u)
    | inr miss ↦ rw miss (
      rw (find?-delete_where_ne (λ y. key y == key x) (λ y. key y == k) (λ y h. ground arith) xs)
          new,
      UniqueKeys-delete_where xs u,
    )
  ]

  pub UniqueKeys-update_where :
      (p : A → Bool) (f : A → A)
      → ((x : A) → key (f x) ≡ key x)
      → (xs : List A) → UniqueKeys key xs
      → UniqueKeys key (update_where p f xs)
  unfolding update_where
  UniqueKeys-update_where p f same [] u = tt
  UniqueKeys-update_where p f same (x ∷ xs) (new, u) = (
    subst (λ n. find? (λ y. key y == n) (update_where p f xs) ≡ none) (sym (kept x))
        (rw (find?-update_where (λ y. key y == key x) p f (λ y. ground (arith, same y)) xs, new)),
    UniqueKeys-update_where p f same xs u,
  )
    where
      kept : (y : A) → key (if p y then f y else y) ≡ key y
      kept y = ground (arith, same y)

pub UniqueKeys-append :
    {A : Type 0} (key : A → ℕ) (xs : List A) (y : A)
    → UniqueKeys key xs
    → find? (λ x. key x == key y) xs ≡ none
    → UniqueKeys key (xs ++ y ∷ [])
unfolding find?
UniqueKeys-append key [] y u h = (refl, tt)
UniqueKeys-append key (x ∷ xs) y (new, u) h = (
  rw (find?-append (λ z. key z == key x) xs (y ∷ []), new) (ground (arith, h)),
  UniqueKeys-append key xs y u (ground (arith, h)),
)

pub count_where-delete_where_le :
    {A : Type 0} (q p : A → Bool) (xs : List A)
    → count_where q (delete_where p xs) ≤ count_where q xs
unfolding delete_where count_where
count_where-delete_where_le q p [] = omega arith
count_where-delete_where_le q p (x ∷ xs) = ground (arith, count_where-delete_where_le q p xs)

-- UPDATE … WHERE p, when neither the rows that it hits nor what it makes of them have q.
pub find?-update_where_apart :
    {A : Type 0} (q p : A → Bool) (f : A → A)
    → ((x : A) → p x ≡ true → q x ≡ false)
    → ((x : A) → p x ≡ true → q (f x) ≡ false)
    → (xs : List A) → find? q (update_where p f xs) ≡ find? q xs
unfolding find? update_where
find?-update_where_apart q p f before after [] = refl
find?-update_where_apart q p f before after (x ∷ xs) =
    ground (arith, before x, after x, find?-update_where_apart q p f before after xs)

-- UPDATE … WHERE q to a row that has q: the first row with q is that row.
pub find?-overwrite :
    {A : Type 0} (q : A → Bool) (a old : A) (xs : List A)
    → q a ≡ true
    → find? q xs ≡ some old
    → find? q (update_where q (λ x. a) xs) ≡ some a
unfolding find? update_where
find?-overwrite q a old [] h k = cc
find?-overwrite q a old (x ∷ xs) h k = ground (arith, h, k, find?-overwrite q a old xs h)
