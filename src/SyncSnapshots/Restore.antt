-- ===== src/SyncSnapshots/Restore.antt =====
-- app/api_sync_snapshots.py: a payload that was kept against `restore_sync_snapshot`.
use wdc_catalog_api.Base.{
  ℕ, zero, suc, ◌<◌, ◌≡◌, true, refl, inl, inr, Bool, none, some, List, [], ◌∷◌, ◌++◌, Text,
  text_eq_refl, ◌==◌, ==_refl, drop, find?, find?-fresh_id, select, select-append, fresh_id,
  UniqueKeys, UniqueKeys-append, Elem, All, arith, ap, ◌∙◌,
}
use wdc_catalog_api.Schema.{Db, Account, SyncSnapshot, Fields}
use wdc_catalog_api.Session.{World, ok}
use wdc_catalog_api.SyncSnapshots.{
  GzipEnv, in_group, goes_behind, insert_newest, newest_first, rotate_snapshots, new_sync_snapshot,
  create_sync_snapshot, require_snapshot, decompress_snapshot, restore_sync_snapshot,
}
use wdc_catalog_api.SyncSnapshots.Newest.{key, find?-newest_first}
use wdc_catalog_api.SyncSnapshots.Rotation.{
  found, find?-select, delete_each_stays, rotate_snapshots_count,
}

-- The row is newer than the other.
abbrev pub Newer : SyncSnapshot → SyncSnapshot → Type 0
Newer s t = t.created_at < s.created_at

-- A last row that is newer than every other comes first.
newest_first-append :
    (ties : ℕ → ℕ → Bool) (s : SyncSnapshot) (rows : List SyncSnapshot)
    → All (Newer s) rows
    → newest_first ties (rows ++ s ∷ []) ≡ s ∷ newest_first ties rows
unfolding newest_first insert_newest
newest_first-append ties s [] h = refl
newest_first-append ties s (t ∷ rest) (older, h) =
    let behind : goes_behind ties t s ≡ true = ground (arith, older) in
    rw (newest_first-append ties s rest h) (rw (insert_newest, behind) refl)

find?-drop :
    (q : SyncSnapshot → Bool) (n : ℕ) (rows : List SyncSnapshot)
    → find? q rows ≡ none
    → find? q (drop n rows) ≡ none
unfolding find?
find?-drop q zero rows h = h
find?-drop q (suc n) [] h = h
find?-drop q (suc n) (s ∷ rest) h = find?-drop q n rest (ground (arith, h))

Elem-last : (s : SyncSnapshot) (rows : List SyncSnapshot) → Elem s (rows ++ s ∷ [])
Elem-last s [] = inl refl
Elem-last s (t ∷ rest) = inr (Elem-last s rest)

module _ (gzip : GzipEnv) (device_id : Text) (account : Account) (payload : Fields) (now : ℕ)
    (db : Db) where
  abbrev next_id : ℕ
  next_id = fresh_id key db.sync_snapshots

  abbrev snap : SyncSnapshot
  snap = new_sync_snapshot gzip next_id device_id account.id payload now

  abbrev group : SyncSnapshot → Bool
  group = in_group device_id account.id

  snap_first :
      All (Newer snap) (select group db.sync_snapshots)
      → newest_first gzip.ties (select group (db.sync_snapshots ++ snap ∷ []))
        ≡ snap ∷ newest_first gzip.ties (select group db.sync_snapshots)
  unfolding select
  snap_first older =
      let one : select group (snap ∷ []) ≡ snap ∷ [] =
        ground (arith, text_eq_refl device_id, ==_refl account.id) in
      ap (newest_first gzip.ties) (
        select-append group db.sync_snapshots (snap ∷ [])
        ∙ ap (λ r. select group db.sync_snapshots ++ r) one)
      ∙ newest_first-append gzip.ties snap (select group db.sync_snapshots) older

  snap_kept :
      All (Newer snap) (select group db.sync_snapshots)
      → Elem snap (rotate_snapshots gzip.ties device_id account.id (db.sync_snapshots ++ snap ∷ []))
  unfolding rotate_snapshots
  snap_kept older =
      let new = find?-fresh_id key db.sync_snapshots in
      rw (rotate_snapshots, snap_first older)
        (delete_each_stays snap _ _
          (find?-drop (λ (r : SyncSnapshot). r.id == next_id) 9 _
            (find?-newest_first gzip.ties (λ (r : SyncSnapshot). r.id == next_id) _
              (find?-select group (λ (r : SyncSnapshot). r.id == next_id) db.sync_snapshots new)))
          (Elem-last snap db.sync_snapshots))

  decompress_snap :
      gzip.loads (gzip.dumps payload) ≡ some payload → decompress_snapshot gzip snap ≡ some payload
  unfolding decompress_snapshot
  decompress_snap json = rw (decompress_snapshot, gzip.gunzip-gzip (gzip.dumps payload)) json

  -- A payload that was kept, when every other row of its device and account is older and JSON reads it
  -- back as it was, is what a restore of its row by its account answers, with its device and the time
  -- of the keeping: the rotation did not take it, in whatever order the database gives rows of one
  -- instant.
  pub restore_sync_snapshot-create_sync_snapshot :
      (w : World)
      → gzip.loads (gzip.dumps payload) ≡ some payload
      → w.working ≡ create_sync_snapshot gzip device_id account.id payload now db
      → UniqueKeys key db.sync_snapshots
      → All (Newer snap) (select group db.sync_snapshots)
      → (restore_sync_snapshot gzip next_id account w).0
        ≡ ok (record { device_id = device_id; updated_at = now; payload = payload })
  unfolding restore_sync_snapshot require_snapshot create_sync_snapshot
  restore_sync_snapshot-create_sync_snapshot w json made unique older =
      let rows = db.sync_snapshots ++ snap ∷ [] in
      let distinct : UniqueKeys key rows =
        UniqueKeys-append key db.sync_snapshots snap unique
          (find?-fresh_id key db.sync_snapshots) in
      let (_, left) = rotate_snapshots_count gzip.ties device_id account.id rows distinct in
      let there = found snap _ left (snap_kept older) in
      rw
        (
          restore_sync_snapshot,
          require_snapshot,
          made,
          there,
          ==_refl account.id,
          decompress_snap json,
        )
        refl
