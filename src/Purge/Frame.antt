-- ===== src/Purge/Frame.antt =====
-- app/snapshots.py, `purge_auto_older_than` and the other tables.
use wdc_catalog_api.Base.{
  ℕ, zero, suc, ◌≡◌, refl, Bool, List, [], ◌∷◌, is_empty, length, take, drop, select, delete_where,
  UniqueKeys, UniqueKeys-update_where, Bool-cases, inl, inr, arith, ◌∙◌, ap,
}
use wdc_catalog_api.Schema.{Db, DeviceSnapshot}
use wdc_catalog_api.Session.{World, Result-cases}
use wdc_catalog_api.Batches.{number_key}
use wdc_catalog_api.Batches.Equivalence.{find?-none-delete_where}
use wdc_catalog_api.Purge.{
  PurgeRule, snapshot_ids, is_doomed, restricted, delete_ids, delete_chunks, purge_auto_older_than,
}

abbrev pub UniqueSnapshots : Db → Type 0
UniqueSnapshots db = UniqueKeys (λ (s : DeviceSnapshot). s.id) db.snapshots

UniqueKeys-delete_rows_where :
    (q : DeviceSnapshot → Bool) (rows : List DeviceSnapshot)
    → UniqueKeys (λ (s : DeviceSnapshot). s.id) rows
    → UniqueKeys (λ (s : DeviceSnapshot). s.id) (delete_where q rows)
unfolding delete_where
UniqueKeys-delete_rows_where q [] u = tt
UniqueKeys-delete_rows_where q (x ∷ xs) (new, u) = elim (Bool-cases (q x)) [
  | inl hit ↦ rw hit (UniqueKeys-delete_rows_where q xs u)
  | inr miss ↦ rw miss (
    find?-none-delete_where number_key (λ (s : DeviceSnapshot). s.id) _ q xs new,
    UniqueKeys-delete_rows_where q xs u,
  )
]

-- Only the snapshots differ.
pub record OnlySnapshots (w w' : World) : Type 0 where
  pub frame : w'.working ≡ record w.working { snapshots = w'.working.snapshots }
  pub durable : w'.committed ≡ w.committed
  pub unique : UniqueSnapshots w'.working

pub OnlySnapshots-refl : (w : World) → UniqueSnapshots w.working → OnlySnapshots w w
OnlySnapshots-refl w u = record { frame = refl; durable = refl; unique = u }

pub OnlySnapshots-trans :
    {a b c : World} → OnlySnapshots a b → OnlySnapshots b c → OnlySnapshots a c
OnlySnapshots-trans {a} {b} {c} h k = record {
  frame = k.frame ∙ ap (λ (db : Db). record db { snapshots = c.working.snapshots }) h.frame;
  durable = k.durable ∙ h.durable;
  unique = k.unique;
}

module _ (ties : ℕ → ℕ → Bool) (rule : PurgeRule) (now : ℕ) where
  delete_ids-OnlySnapshots :
      (ids : List ℕ) (w : World)
      → UniqueSnapshots w.working
      → OnlySnapshots w (delete_ids ties rule now ids w).1
  unfolding delete_ids
  delete_ids-OnlySnapshots ids w u = elim (Bool-cases (restricted ties rule now ids w.working)) [
    | inl held ↦ rw held (OnlySnapshots-refl w u)
    | inr free ↦ rw free (record {
      frame = refl;
      durable = refl;
      unique = UniqueKeys-update_where _ 0 _ _ (λ x. refl) _ (UniqueKeys-delete_rows_where _ _ u);
    })
  ]

  delete_chunks-OnlySnapshots :
      (fuel : ℕ) (ids : List ℕ) (w : World)
      → UniqueSnapshots w.working
      → OnlySnapshots w (delete_chunks ties rule now fuel ids w).1
  unfolding delete_chunks
  delete_chunks-OnlySnapshots zero ids w u = OnlySnapshots-refl w u
  delete_chunks-OnlySnapshots (suc fuel) ids w u =
      let w' = (delete_ids ties rule now (take 500 ids) w).1 in
      let one = delete_ids-OnlySnapshots (take 500 ids) w u in
      let both =
        OnlySnapshots-trans one (delete_chunks-OnlySnapshots fuel (drop 500 ids) w' one.unique) in
      elim (Bool-cases (is_empty ids)) [
        | inl done ↦ rw done (OnlySnapshots-refl w u)
        | inr more ↦ elim (Result-cases (delete_ids ties rule now (take 500 ids) w).0) [
          | inr (e, raised) ↦ rw (more, raised) one
          | inl (n, passed) ↦
              elim (Result-cases (delete_chunks ties rule now fuel (drop 500 ids) w').0) [
                | inr (e, raised) ↦ rw (more, passed, raised) both
                | inl (m, done) ↦ rw (more, passed, done) both
              ]
        ]
      ]

  abbrev candidates : World → List DeviceSnapshot
  candidates w = select (is_doomed ties rule now w.working) w.working.snapshots

  purge_state :
      (w : World)
      → (purge_auto_older_than ties rule now w).1
        ≡ (delete_chunks ties rule now (length (candidates w)) (snapshot_ids (candidates w)) w).1
  unfolding purge_auto_older_than
  purge_state w =
      elim (Result-cases
        (delete_chunks ties rule now (length (candidates w)) (snapshot_ids (candidates w)) w).0) [
          | inl (n, done) ↦ ground (arith, done)
          | inr (e, raised) ↦ ground (arith, raised)
        ]

  pub purge-OnlySnapshots :
      (w : World)
      → UniqueSnapshots w.working
      → OnlySnapshots w (purge_auto_older_than ties rule now w).1
  purge-OnlySnapshots w u = rw purge_state (delete_chunks-OnlySnapshots _ _ w u)
