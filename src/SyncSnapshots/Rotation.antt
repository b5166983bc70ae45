-- ===== src/SyncSnapshots/Rotation.antt =====
-- app/api_sync_snapshots.py, `_rotate`.
use wdc_catalog_api.Base.{
  ℕ, zero, suc, ◌+◌, ◌≤◌, ◌≡◌, refl, ◌⊎◌, inl, inr, Bool, true, false, none, some, List, [], ◌∷◌,
  Text, is_some, min, ◌==◌, ==_refl, ==→eq, length, length-drop, drop, find?, find?_holds,
  find?-Elem, find?-none-Elem, find?-unique, is_some-find?, find?-delete_where, select, select-Elem,
  delete_where, count_where, count_where-delete_where, UniqueKeys, UniqueKeys-delete_where, Elem,
  All, All-intro, All-Elem, Bool-cases, Option-cases, arith, subst, sym, ap, ◌∙◌,
}
use wdc_catalog_api.Schema.{SyncSnapshot}
use wdc_catalog_api.Batches.{number_key}
use wdc_catalog_api.Batches.Equivalence.{Elem-select, find?-none-delete_where}
use wdc_catalog_api.SyncSnapshots.{
  in_group, newest_first, delete_each, rotate_snapshots, keep_per_device,
}
use wdc_catalog_api.SyncSnapshots.Newest.{
  key, NotNewer, Newest, Newest-newest_first, Elem-newest_first, All-newest_first,
  length-newest_first, Unique-newest_first,
}

Elem-delete_where :
    {A : Type 0} (p : A → Bool) (a : A) (xs : List A)
    → Elem a xs
    → p a ≡ false
    → Elem a (delete_where p xs)
unfolding delete_where
Elem-delete_where p a [] m h = elim m [ ]
Elem-delete_where p a (x ∷ xs) (inl same) h = rw (sym same, h) (inl refl)
Elem-delete_where p a (x ∷ xs) (inr later) h = elim (Bool-cases (p x)) [
  | inl hit ↦ rw hit (Elem-delete_where p a xs later h)
  | inr miss ↦ rw miss (inr (Elem-delete_where p a xs later h))
]

Elem-delete_where_back :
    {A : Type 0} (p : A → Bool) (a : A) (xs : List A) → Elem a (delete_where p xs) → Elem a xs
unfolding delete_where
Elem-delete_where_back p a [] m = elim m [ ]
Elem-delete_where_back p a (x ∷ xs) m = elim (Bool-cases (p x)) [
  | inl hit ↦ inr (Elem-delete_where_back p a xs (rw hit at m))
  | inr miss ↦ elim (rw miss at m) [
    | inl same ↦ inl same
    | inr later ↦ inr (Elem-delete_where_back p a xs later)
  ]
]

-- What is found by the id of a row of the table is that row.
pub found :
    (s : SyncSnapshot) (rows : List SyncSnapshot)
    → UniqueKeys key rows
    → Elem s rows
    → find? (λ (r : SyncSnapshot). r.id == s.id) rows ≡ some s
found s rows u m = elim (Option-cases (find? (λ (r : SyncSnapshot). r.id == s.id) rows)) [
  | inl missing ↦ absurd (
      ground
        (arith, missing, ==_refl s.id, is_some-find? (λ (r : SyncSnapshot). r.id == s.id) s rows m))
  | inr (t, there) ↦ there ∙ ap (λ x. some x) (sym (find?-unique key s.id t s rows u there m refl))
]

pub find?-select :
    (p q : SyncSnapshot → Bool) (xs : List SyncSnapshot)
    → find? q xs ≡ none
    → find? q (select p xs) ≡ none
unfolding select find?
find?-select p q [] h = refl
find?-select p q (x ∷ xs) h = ground (arith, h, find?-select p q xs)

Unique-select :
    (p : SyncSnapshot → Bool) (rows : List SyncSnapshot)
    → UniqueKeys key rows
    → UniqueKeys key (select p rows)
unfolding select
Unique-select p [] u = tt
Unique-select p (s ∷ rest) (new, u) = elim (Bool-cases (p s)) [
  | inl hit ↦
      rw hit (find?-select p (λ (r : SyncSnapshot). r.id == s.id) rest new, Unique-select p rest u)
  | inr miss ↦ rw miss (Unique-select p rest u)
]

Unique-drop :
    (n : ℕ) (rows : List SyncSnapshot) → UniqueKeys key rows → UniqueKeys key (drop n rows)
Unique-drop zero rows u = u
Unique-drop (suc n) [] u = tt
Unique-drop (suc n) (s ∷ rest) (new, u) = Unique-drop n rest u

Elem-drop :
    (n : ℕ) (a : SyncSnapshot) (rows : List SyncSnapshot) → Elem a (drop n rows) → Elem a rows
Elem-drop zero a rows m = m
Elem-drop (suc n) a [] m = m
Elem-drop (suc n) a (s ∷ rest) m = inr (Elem-drop n a rest m)

-- A row of the list is among the first, or it is among the rest; the rest is not newer.
Elem-take-drop :
    (n : ℕ) (a : SyncSnapshot) (rows : List SyncSnapshot)
    → Newest rows
    → Elem a rows
    → Elem a (drop n rows) ⊎ ((b : SyncSnapshot) → Elem b (drop n rows) → NotNewer a b)
Elem-take-drop zero a rows h m = inl m
Elem-take-drop (suc n) a [] h m = inl m
Elem-take-drop (suc n) a (s ∷ rest) (first, h) (inl same) =
    inr (λ b k. rw same (All-Elem (NotNewer s) b rest first (Elem-drop n b rest k)))
Elem-take-drop (suc n) a (s ∷ rest) (first, h) (inr m) = Elem-take-drop n a rest h m

length-select :
    (p : SyncSnapshot → Bool) (rows : List SyncSnapshot)
    → length (select p rows) ≡ count_where p rows
unfolding select count_where
length-select p [] = refl
length-select p (s ∷ rest) = ground (arith, length-select p rest)

-- DELETE by id of rows that are in the table and differ from each other.
module _ (g : SyncSnapshot → Bool) where
  others_stay :
      (s : SyncSnapshot) (ds rows : List SyncSnapshot)
      → find? (λ (r : SyncSnapshot). r.id == s.id) ds ≡ none
      → All (λ d. Elem d rows × (g d ≡ true)) ds
      → All (λ d. Elem d (delete_where (λ (r : SyncSnapshot). r.id == s.id) rows) × (g d ≡ true)) ds
  others_stay s ds rows new h = All-intro _ ds (λ d m.
      let (there, hit) = All-Elem _ d ds h m in
      (
        Elem-delete_where (λ (r : SyncSnapshot). r.id == s.id) d rows there
            (find?-none-Elem (λ (r : SyncSnapshot). r.id == s.id) d ds new m),
        hit,
      ))

  delete_each_lem :
      (ds rows : List SyncSnapshot)
      → UniqueKeys key rows
      → UniqueKeys key ds
      → All (λ d. Elem d rows × (g d ≡ true)) ds
      → (count_where g (delete_each ds rows) + length ds ≡ count_where g rows)
        × UniqueKeys key (delete_each ds rows)
  unfolding delete_each
  delete_each_lem [] rows u v h = (omega arith, u)
  delete_each_lem (d ∷ ds) rows u (new, v) ((there, hit), h) =
      let left = delete_where (λ (r : SyncSnapshot). r.id == d.id) rows in
      let one = count_where-delete_where key d.id g d rows u (found d rows u there) in
      let (count, unique) =
        delete_each_lem ds left (UniqueKeys-delete_where key d.id rows u) v
          (others_stay d ds rows new h) in
      (omega (arith, count, rw hit at one), unique)

delete_each_back :
    (a : SyncSnapshot) (ds rows : List SyncSnapshot) → Elem a (delete_each ds rows) → Elem a rows
unfolding delete_each
delete_each_back a [] rows m = m
delete_each_back a (d ∷ ds) rows m = Elem-delete_where_back _ a rows (delete_each_back a ds _ m)

-- A row that is deleted is gone, a row with the id of none stays.
delete_each_gone :
    (id : ℕ) (ds rows : List SyncSnapshot)
    → (find? (λ (r : SyncSnapshot). r.id == id) rows ≡ none)
      ⊎ (is_some (find? (λ (r : SyncSnapshot). r.id == id) ds) ≡ true)
    → find? (λ (r : SyncSnapshot). r.id == id) (delete_each ds rows) ≡ none
unfolding delete_each find?
delete_each_gone id [] rows (inl gone) = gone
delete_each_gone id [] rows (inr there) = cc
delete_each_gone id (d ∷ ds) rows (inl gone) =
    delete_each_gone id ds _ (inl (find?-none-delete_where number_key key _ _ rows gone))
delete_each_gone id (d ∷ ds) rows (inr there) = elim (Bool-cases (d.id == id)) [
  | inl hit ↦ delete_each_gone id ds _ (
      inl (
        find?-delete_where (λ (r : SyncSnapshot). r.id == id) (λ (r : SyncSnapshot). r.id == d.id)
          (λ x h. ground (arith, hit, h)) rows))
  | inr miss ↦ delete_each_gone id ds _ (inr (rw miss at there))
]

pub delete_each_stays :
    (a : SyncSnapshot) (ds rows : List SyncSnapshot)
    → find? (λ (r : SyncSnapshot). r.id == a.id) ds ≡ none
    → Elem a rows
    → Elem a (delete_each ds rows)
unfolding delete_each find?
delete_each_stays a [] rows h m = m
delete_each_stays a (d ∷ ds) rows h m =
    delete_each_stays a ds _ (ground (arith, h))
      (Elem-delete_where (λ (r : SyncSnapshot). r.id == d.id) a rows m (ground (arith, h)))

-- What one rotation does to the rows of a device and account.
module _ (ties : ℕ → ℕ → Bool) (device_id : Text) (account_id : ℕ) (rows : List SyncSnapshot)
    (unique : UniqueKeys key rows) where
  abbrev group : SyncSnapshot → Bool
  group = in_group device_id account_id

  abbrev sorted_rows : List SyncSnapshot
  sorted_rows = newest_first ties (select group rows)

  abbrev old_rows : List SyncSnapshot
  old_rows = drop keep_per_device sorted_rows

  old_rows-All : All (λ d. Elem d rows × (group d ≡ true)) old_rows
  old_rows-All = All-intro _ old_rows (λ d m.
      All-Elem _ d sorted_rows
        (All-newest_first ties (λ d. Elem d rows × (group d ≡ true)) (select group rows)
          (All-intro _ (select group rows) (λ e n. select-Elem group e rows n)))
        (Elem-drop keep_per_device d sorted_rows m))

  old_rows-Unique : UniqueKeys key old_rows
  old_rows-Unique =
      Unique-drop keep_per_device sorted_rows
        (Unique-newest_first ties (select group rows) (Unique-select group rows unique))

  pub rotate_snapshots_count :
      (count_where group (rotate_snapshots ties device_id account_id rows)
        ≡ min keep_per_device (count_where group rows))
      × UniqueKeys key (rotate_snapshots ties device_id account_id rows)
  unfolding rotate_snapshots
  rotate_snapshots_count =
      let (count, left) = delete_each_lem group old_rows rows unique old_rows-Unique old_rows-All in
      (
        omega (
          arith,
          count,
          length-drop keep_per_device sorted_rows,
          length-newest_first ties (select group rows),
          length-select group rows,
        ),
        left,
      )

  -- a row of the table with the id of one of the old rows is that row
  old_row :
      (b : SyncSnapshot)
      → Elem b rows
      → (find? (λ (r : SyncSnapshot). r.id == b.id) old_rows ≡ none)
        ⊎ (Elem b old_rows × (group b ≡ true))
  old_row b m = elim (Option-cases (find? (λ (r : SyncSnapshot). r.id == b.id) old_rows)) [
    | inl missing ↦ inl missing
    | inr (d, there) ↦
        let old = find?-Elem (λ (r : SyncSnapshot). r.id == b.id) old_rows d there in
        let (in_rows, hit) = All-Elem _ d old_rows old_rows-All old in
        let same_id =
          ==→eq d.id b.id (find?_holds (λ (r : SyncSnapshot). r.id == b.id) old_rows d there) in
        let same : d ≡ b =
          find?-unique key b.id b d rows unique (found b rows unique m) in_rows same_id in
        inr (subst (λ x. Elem x old_rows × (group x ≡ true)) same (old, hit))
  ]

  -- a row of another device or account stays
  pub rotate_snapshots_others :
      (b : SyncSnapshot)
      → Elem b rows
      → group b ≡ false
      → Elem b (rotate_snapshots ties device_id account_id rows)
  unfolding rotate_snapshots
  rotate_snapshots_others b m other = elim (old_row b m) [
    | inl apart ↦ delete_each_stays b old_rows rows apart m
    | inr (old, hit) ↦ absurd (ground (arith, other, hit))
  ]

  rotate_snapshots_newest :
      (a b : SyncSnapshot)
      → Elem a (rotate_snapshots ties device_id account_id rows)
      → group a ≡ true
      → Elem b rows
      → find? (λ (r : SyncSnapshot). r.id == b.id) (rotate_snapshots ties device_id account_id rows)
        ≡ none
      → b.created_at ≤ a.created_at
  unfolding rotate_snapshots
  rotate_snapshots_newest a b kept hit m gone =
      let there = delete_each_back a old_rows rows kept in
      let listed =
        Elem-newest_first ties a (select group rows) (Elem-select group a rows there hit) in
      elim (Elem-take-drop keep_per_device a sorted_rows
        (Newest-newest_first ties (select group rows)) listed) [
          | inl old ↦ absurd (
              let dead = delete_each_gone a.id old_rows rows (
                inr (
                  is_some-find? (λ (r : SyncSnapshot). r.id == a.id) a old_rows old
                    (==_refl a.id))) in
              ground (
                arith,
                find?-none-Elem (λ (r : SyncSnapshot). r.id == a.id) a _ dead kept,
                ==_refl a.id,
              ))
          | inr below ↦ elim (old_row b m) [
            | inl apart ↦ absurd (
                ground (
                  arith,
                  find?-none-Elem (λ (r : SyncSnapshot). r.id == b.id) b _ gone
                      (delete_each_stays b old_rows rows apart m),
                  ==_refl b.id,
                ))
            | inr (old, k) ↦ below b old
          ]
        ]

  -- A rotation leaves of a device and account at most ten rows, all of them when there were no more;
  -- it deletes no row of another device or account, and none that is newer than one that it keeps.
  pub rotate_snapshots_lem :
      (count_where (in_group device_id account_id) (rotate_snapshots ties device_id account_id rows)
        ≡ min keep_per_device (count_where (in_group device_id account_id) rows))
      × ((a b : SyncSnapshot)
          → Elem a (rotate_snapshots ties device_id account_id rows)
          → in_group device_id account_id a ≡ true
          → Elem b rows
          → find?
              (λ (r : SyncSnapshot). r.id == b.id)
              (rotate_snapshots ties device_id account_id rows)
            ≡ none
          → (b.created_at ≤ a.created_at) × (in_group device_id account_id b ≡ true))
  rotate_snapshots_lem = (
    rotate_snapshots_count.0,
    λ a b kept hit m gone. (
      rotate_snapshots_newest a b kept hit m gone,
      elim (Bool-cases (group b)) [
        | inl mine ↦ mine
        | inr other ↦ absurd (
            ground (
              arith,
              find?-none-Elem (λ (r : SyncSnapshot). r.id == b.id) b _ gone
                  (rotate_snapshots_others b m other),
              ==_refl b.id,
            ))
      ],
    ),
  )
