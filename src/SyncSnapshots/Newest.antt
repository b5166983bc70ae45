-- ===== src/SyncSnapshots/Newest.antt =====
-- app/api_sync_snapshots.py, `ORDER BY created_at DESC`.
use wdc_catalog_api.Base.{
  ℕ, suc, ◌≤◌, ◌≡◌, refl, ◌⊎◌, inl, inr, Bool, false, none, List, [], ◌∷◌, ◌==◌, length, find?,
  UniqueKeys, Elem, All, All-intro, All-Elem, Bool-cases, arith,
}
use wdc_catalog_api.Schema.{SyncSnapshot}
use wdc_catalog_api.SyncSnapshots.{goes_behind, insert_newest, newest_first}

abbrev pub key : SyncSnapshot → ℕ
key s = s.id

abbrev pub NotNewer : SyncSnapshot → SyncSnapshot → Type 0
NotNewer s t = t.created_at ≤ s.created_at

-- The newest row comes first, all along the list.
abbrev pub Newest : List SyncSnapshot → Type 0
Newest [] = Unit
Newest (s ∷ rest) = All (NotNewer s) rest × Newest rest

module _ (ties : ℕ → ℕ → Bool) where
  module _ (P : SyncSnapshot → Type 0) where
    All-insert_newest :
        (s : SyncSnapshot) (rows : List SyncSnapshot)
        → P s
        → All P rows
        → All P (insert_newest ties s rows)
    unfolding insert_newest
    All-insert_newest s [] h hs = (h, tt)
    All-insert_newest s (t ∷ rest) h (k, ks) = elim (Bool-cases (goes_behind ties s t)) [
      | inl older ↦ rw older (k, All-insert_newest s rest h ks)
      | inr newer ↦ rw newer (h, (k, ks))
    ]

    pub All-newest_first : (rows : List SyncSnapshot) → All P rows → All P (newest_first ties rows)
    unfolding newest_first
    All-newest_first [] h = tt
    All-newest_first (s ∷ rest) (h, hs) =
        All-insert_newest s (newest_first ties rest) h (All-newest_first rest hs)

  Newest-insert_newest :
      (s : SyncSnapshot) (rows : List SyncSnapshot)
      → Newest rows
      → Newest (insert_newest ties s rows)
  unfolding insert_newest
  Newest-insert_newest s [] h = (tt, tt)
  Newest-insert_newest s (t ∷ rest) (first, h) = elim (Bool-cases (goes_behind ties s t)) [
    | inl older ↦ rw older (
      All-insert_newest (NotNewer t) s rest (ground (arith, older)) first,
      Newest-insert_newest s rest h,
    )
    | inr newer ↦ rw newer (
      (
        ground arith,
        All-intro (NotNewer s) rest (λ r m.
            let below = All-Elem (NotNewer t) r rest first m in ground (arith, newer, below)),
      ),
      (first, h),
    )
  ]

  pub Newest-newest_first : (rows : List SyncSnapshot) → Newest (newest_first ties rows)
  unfolding newest_first
  Newest-newest_first [] = tt
  Newest-newest_first (s ∷ rest) =
      Newest-insert_newest s (newest_first ties rest) (Newest-newest_first rest)

  Elem-insert_newest :
      (a s : SyncSnapshot) (rows : List SyncSnapshot)
      → (a ≡ s) ⊎ Elem a rows
      → Elem a (insert_newest ties s rows)
  unfolding insert_newest
  Elem-insert_newest a s [] (inl h) = inl h
  Elem-insert_newest a s [] (inr h) = elim h [ ]
  Elem-insert_newest a s (t ∷ rest) h = elim (Bool-cases (goes_behind ties s t)) [
    | inl older ↦ rw older elim h [
      | inl same ↦ inr (Elem-insert_newest a s rest (inl same))
      | inr (inl same) ↦ inl same
      | inr (inr m) ↦ inr (Elem-insert_newest a s rest (inr m))
    ]
    | inr newer ↦ rw newer h
  ]

  pub Elem-newest_first :
      (a : SyncSnapshot) (rows : List SyncSnapshot) → Elem a rows → Elem a (newest_first ties rows)
  unfolding newest_first
  Elem-newest_first a [] m = elim m [ ]
  Elem-newest_first a (s ∷ rest) (inl same) =
      Elem-insert_newest a s (newest_first ties rest) (inl same)
  Elem-newest_first a (s ∷ rest) (inr m) =
      Elem-insert_newest a s (newest_first ties rest) (inr (Elem-newest_first a rest m))

  length-insert_newest :
      (s : SyncSnapshot) (rows : List SyncSnapshot)
      → length (insert_newest ties s rows) ≡ suc (length rows)
  unfolding insert_newest
  length-insert_newest s [] = refl
  length-insert_newest s (t ∷ rest) = ground (arith, length-insert_newest s rest)

  pub length-newest_first :
      (rows : List SyncSnapshot) → length (newest_first ties rows) ≡ length rows
  unfolding newest_first
  length-newest_first [] = refl
  length-newest_first (s ∷ rest) =
      omega (arith, length-insert_newest s (newest_first ties rest), length-newest_first rest)

  find?-insert_newest :
      (q : SyncSnapshot → Bool) (s : SyncSnapshot) (rows : List SyncSnapshot)
      → q s ≡ false
      → find? q rows ≡ none
      → find? q (insert_newest ties s rows) ≡ none
  unfolding insert_newest find?
  find?-insert_newest q s [] h k = ground (arith, h)
  find?-insert_newest q s (t ∷ rest) h k = ground (arith, h, k, find?-insert_newest q s rest h)

  pub find?-newest_first :
      (q : SyncSnapshot → Bool) (rows : List SyncSnapshot)
      → find? q rows ≡ none
      → find? q (newest_first ties rows) ≡ none
  unfolding newest_first find?
  find?-newest_first q [] k = refl
  find?-newest_first q (s ∷ rest) k =
      find?-insert_newest q s (newest_first ties rest) (ground (arith, k))
        (find?-newest_first q rest (ground (arith, k)))

  Unique-insert_newest :
      (s : SyncSnapshot) (rows : List SyncSnapshot)
      → find? (λ (r : SyncSnapshot). r.id == s.id) rows ≡ none
      → UniqueKeys key rows
      → UniqueKeys key (insert_newest ties s rows)
  unfolding insert_newest find?
  Unique-insert_newest s [] new u = (refl, tt)
  Unique-insert_newest s (t ∷ rest) new (first, u) = elim (Bool-cases (goes_behind ties s t)) [
    | inl older ↦ rw older (
      find?-insert_newest (λ (r : SyncSnapshot). r.id == t.id) s rest (ground (arith, new)) first,
      Unique-insert_newest s rest (ground (arith, new)) u,
    )
    | inr newer ↦ rw newer (new, (first, u))
  ]

  pub Unique-newest_first :
      (rows : List SyncSnapshot) → UniqueKeys key rows → UniqueKeys key (newest_first ties rows)
  unfolding newest_first
  Unique-newest_first [] u = tt
  Unique-newest_first (s ∷ rest) (new, u) =
      Unique-insert_newest s (newest_first ties rest)
        (find?-newest_first (λ (r : SyncSnapshot). r.id == s.id) rest new)
        (Unique-newest_first rest u)
