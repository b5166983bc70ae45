-- ===== src/Batches.antt =====
-- app/retention.py, `_batched_delete`: a DELETE made in pages of primary keys. A table's primary key
-- is an interface, since some tables have a number and some a text.
pub mod Equivalence
use wdc_catalog_api.Base.{
  ℕ, zero, suc, ◌+◌, ◌≡◌, refl, Bool, true, false, Option, none, some, List, [], ◌∷◌, Text, text_eq,
  text_eq_refl, text_eq→eq, ◌==◌, ==_refl, ==→eq, ◌||◌, if◌then◌else◌, is_empty, ltb, length, take,
  select, find?, delete_where, count_where,
}

-- A type of keys with the equality of the database.
pub record KeyEq (K : Type 0) : Type 0 where
  pub same : K → K → Bool
  pub same_refl : (k : K) → same k k ≡ true
  pub same→eq : (a b : K) → same a b ≡ true → a ≡ b

abbrev pub number_key : KeyEq ℕ
number_key = record { same = λ a b. a == b; same_refl = ==_refl; same→eq = ==→eq }

abbrev pub text_key : KeyEq Text
text_key = record { same = text_eq; same_refl = text_eq_refl; same→eq = text_eq→eq }

module _ {A K : Type 0} (keys : KeyEq K) (key : A → K) where
  -- `pk_col.in_(ids)`
  unfoldable pub one_of : List K → K → Bool
  one_of [] k = false
  one_of (id ∷ ids) k = keys.same id k || one_of ids k

  unfoldable pub keys_of : List A → List K
  keys_of [] = []
  keys_of (row ∷ rows) = key row ∷ keys_of rows

  -- No two rows have the same primary key.
  abbrev pub DistinctKeys : List A → Type 0
  DistinctKeys [] = Unit
  DistinctKeys (row ∷ rows) =
      (find? (λ other. keys.same (key other) (key row)) rows ≡ none) × DistinctKeys rows

  -- The loop, with a bound on its rounds: the number of rows that it deleted and what is left.
  unfoldable pub batched_delete : ℕ → ℕ → (A → Bool) → List A → Option (ℕ × List A)
  unfolding one_of
  batched_delete zero batch filter rows = none
  batched_delete (suc fuel) batch filter rows =
      let ids = keys_of (take batch (select filter rows)) in
      let deleted = count_where (λ row. one_of ids (key row)) rows in
      let left = delete_where (λ row. one_of ids (key row)) rows in
      let rest = batched_delete fuel batch filter left in
      if is_empty ids
      then some (0, rows)
      else if ltb (length ids) batch
      then some (deleted, left)
      else elim rest [ none ↦ none | some (more, final) ↦ some (deleted + more, final) ]

  -- the session's call: as many rounds as there could be rows, and one for the empty page
  unfoldable pub delete_batched : ℕ → (A → Bool) → List A → Option (ℕ × List A)
  delete_batched batch filter rows = batched_delete (suc (length rows)) batch filter rows
