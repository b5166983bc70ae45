-- ===== src/Purge.antt =====
-- app/snapshots.py, `purge_auto_older_than`: which automatic snapshots of an account go, and the
-- DELETE in chunks, with what the foreign keys on device_snapshots do: a child loses its parent, and
-- a row that a HEAD points at cannot go. The order that the engine gives rows of one instant is a
-- parameter, `ties`.
pub mod Frame
pub mod Chunks
pub mod Heads
use wdc_catalog_api.Base.{
  ℕ, zero, suc, ◌+◌, ◌*◌, ◌≡◌, Bool, true, false, Option, none, some, List, [], ◌∷◌, ◌++◌, Text,
  codes, text_eq, is_some, is_empty, if◌then◌else◌, ltb, leb, ◌==◌, negb, ◌&&◌, ◌||◌, linked_to,
  length, take, drop, find?, select, update_where, delete_where, count_where,
}
use wdc_catalog_api.Schema.{Db, DeviceSnapshot, DeviceHead}
use wdc_catalog_api.Session.{Exec, World, Result, ok, err, integrity_error, pure, query, ◌>>=◌}
use wdc_catalog_api.Batches.{number_key, one_of, keys_of}

-- The arguments of `purge_auto_older_than`.
pub record PurgeRule : Type 0 where
  pub account_id : ℕ
  pub keep_last_n : ℕ
  pub auto_expire_days : Option ℕ
  pub keep_labeled : Bool

abbrev pub snapshot_by_id : ℕ → DeviceSnapshot → Bool
snapshot_by_id id s = s.id == id

abbrev pub one_of_ids : List ℕ → ℕ → Bool
one_of_ids ids id = one_of number_key (λ (s : DeviceSnapshot). s.id) ids id

abbrev pub snapshot_ids : List DeviceSnapshot → List ℕ
snapshot_ids rows = keys_of number_key (λ (s : DeviceSnapshot). s.id) rows

module _ (ties : ℕ → ℕ → Bool) (rule : PurgeRule) (now : ℕ) where
  -- `base_filters`
  unfoldable pub is_purgeable : DeviceSnapshot → Bool
  is_purgeable s =
      linked_to rule.account_id s.account_id
      && text_eq s.kind (codes "auto")
      && negb (rule.keep_labeled && is_some s.label)

  -- `order_by created_at DESC` inside the partition of a device
  unfoldable pub comes_before : DeviceSnapshot → DeviceSnapshot → Bool
  comes_before s r =
      text_eq s.device_id r.device_id
      && (ltb r.created_at s.created_at || s.created_at == r.created_at && ties s.id r.id)

  -- `ROW_NUMBER() OVER (PARTITION BY device_id ORDER BY created_at DESC)`
  unfoldable pub row_number : List DeviceSnapshot → DeviceSnapshot → ℕ
  row_number rows r = suc (count_where (λ s. is_purgeable s && comes_before s r) rows)

  -- `created_at <= now - days`
  unfoldable pub is_expired : DeviceSnapshot → Bool
  is_expired s = elim rule.auto_expire_days [
    | none ↦ false
    | some days ↦ leb (s.created_at + days * 86400) now
  ]

  -- `head_subq`: the heads of the devices that have a snapshot of the account
  unfoldable pub heads_account : Db → DeviceHead → Bool
  heads_account db h = is_some (
      find?
        (λ (s : DeviceSnapshot).
          text_eq s.device_id h.device_id && linked_to rule.account_id s.account_id)
        db.snapshots)

  unfoldable pub is_head : Db → ℕ → Bool
  is_head db id =
      is_some
        (find? (λ (h : DeviceHead). h.current_snapshot_id == id && heads_account db h) db.heads)

  -- the rows of `to_delete_stmt`
  unfoldable pub is_doomed : Db → DeviceSnapshot → Bool
  is_doomed db s =
      is_purgeable s
      && (ltb rule.keep_last_n (row_number db.snapshots s) || is_expired s)
      && negb (is_head db s.id)

  -- `ON DELETE SET NULL` of `parent_snapshot_id`
  abbrev pub orphaned : List ℕ → DeviceSnapshot → Bool
  orphaned ids s = elim s.parent_snapshot_id [ none ↦ false | some p ↦ one_of_ids ids p ]

  abbrev pub without_parent : DeviceSnapshot → DeviceSnapshot
  without_parent s = record s { parent_snapshot_id = none }

  abbrev pub delete_rows : List ℕ → List DeviceSnapshot → List DeviceSnapshot
  delete_rows ids rows =
      update_where (orphaned ids) without_parent (delete_where (λ s. one_of_ids ids s.id) rows)

  -- `ON DELETE RESTRICT` of `current_snapshot_id`
  abbrev pub restricted : List ℕ → Db → Bool
  restricted ids db =
      is_some (find? (λ (h : DeviceHead). one_of_ids ids h.current_snapshot_id) db.heads)

  -- DELETE of the rows with the ids of one chunk; it answers the row count
  unfoldable pub delete_ids : List ℕ → Exec ℕ
  delete_ids ids w =
      if restricted ids w.working
      then (err integrity_error, w)
      else let db = w.working in
        (
          ok (count_where (λ (s : DeviceSnapshot). one_of_ids ids s.id) db.snapshots),
          record w { working = record db { snapshots = delete_rows ids db.snapshots } },
        )

  -- the loop over the chunks of 500 ids, with a bound on the number of chunks
  unfoldable pub delete_chunks : ℕ → List ℕ → Exec ℕ
  delete_chunks zero ids w = (ok 0, w)
  delete_chunks (suc fuel) ids w =
      let (r, w') = delete_ids (take 500 ids) w in
      let rest = delete_chunks fuel (drop 500 ids) w' in
      if is_empty ids then (ok 0, w) else elim r [
        | err e ↦ (err e, w')
        | ok deleted ↦ elim rest.0 [
          | err e ↦ (err e, rest.1)
          | ok more ↦ (ok (deleted + more), rest.1)
        ]
      ]

  -- the blobs of the doomed rows, in the order in which `blob_store.delete` is asked for them
  unfoldable pub blob_uris : List DeviceSnapshot → List Text
  blob_uris [] = []
  blob_uris (s ∷ rows) =
      let rest = blob_uris rows in
      elim s.blob_uri [ none ↦ rest | some uri ↦ if is_empty uri then rest else uri ∷ rest ]

  -- `purge_auto_older_than`: the row count, and the blobs that were asked to go
  unfoldable pub purge_auto_older_than : Exec (ℕ × List Text)
  purge_auto_older_than = do
    candidates ← query (λ db. select (is_doomed db) db.snapshots)
    deleted ← delete_chunks (length candidates) (snapshot_ids candidates)
    pure (deleted, blob_uris candidates)
