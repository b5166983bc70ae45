-- ===== src/Sync/Ownership.antt =====
-- app/api_sync.py, `api_upsert_config`: whose devices it writes, and what `api_get_config` reads.
use wdc_catalog_api.Base.{
  ℕ, ◌≡◌, refl, inl, inr, true, false, Option, none, some, [], ◌∷◌, Text, text_eq, text_eq_refl,
  linked_to, ==_refl, find?, find?_holds, find?-append, find?-overwrite, Bool-cases, Option-cases,
  arith, ap, ◌∙◌,
}
use wdc_catalog_api.Schema.{Db, Account, DeviceConfig, Fields}
use wdc_catalog_api.Session.{World, ok, Result-cases}
use wdc_catalog_api.DeviceIds.{normalize_device_id}
use wdc_catalog_api.Devices.{device_by_id, owned_device}
use wdc_catalog_api.Snapshots.{PackEnv, create_plain_snapshot}
use wdc_catalog_api.Snapshots.Moves.{create_plain_snapshot_frame}
use wdc_catalog_api.SyncSnapshots.{GzipEnv, ConfigSyncEntry}
use wdc_catalog_api.Sync.{
  TextColumn, of_another, entry_of, describe, name_from, sites_from, system_from, pushed_row,
  save_device, keep_previous, pushed_spec, store_push, api_upsert_config, require_owned_row,
  api_get_config,
}
use wdc_catalog_api.Sync.Push.{world-answer_push, entry-answer_push, devices-keep_previous}

-- What describing a row by its payload leaves alone.
record SameRow (d e : DeviceConfig) : Type 0 where
  id : e.device_id ≡ d.device_id
  owner : e.user_id ≡ d.user_id
  content : e.payload ≡ d.payload
  time : e.updated_at ≡ d.updated_at

SameRow-trans : {d e f : DeviceConfig} → SameRow d e → SameRow e f → SameRow d f
SameRow-trans h k = record {
  id = k.id ∙ h.id;
  owner = k.owner ∙ h.owner;
  content = k.content ∙ h.content;
  time = k.time ∙ h.time;
}

module _ (column : TextColumn) (payload : Fields) where
  name_from_lem : (d e : DeviceConfig) → name_from column payload d ≡ ok e → SameRow d e
  unfolding name_from
  name_from_lem d e h = record {
    id = ground (arith, h);
    owner = ground (arith, h);
    content = ground (arith, h);
    time = ground (arith, h);
  }

  sites_from_lem : (d : DeviceConfig) → SameRow d (sites_from column payload d)
  unfolding sites_from
  sites_from_lem d = record {
    id = ground arith;
    owner = ground arith;
    content = ground arith;
    time = ground arith;
  }

  system_from_lem : (d e : DeviceConfig) → system_from column payload d ≡ ok e → SameRow d e
  unfolding system_from
  system_from_lem d e h = record {
    id = ground (arith, h);
    owner = ground (arith, h);
    content = ground (arith, h);
    time = ground (arith, h);
  }

  describe_lem : (d e : DeviceConfig) → describe column payload d ≡ ok e → SameRow d e
  unfolding describe
  describe_lem d e h = elim (Result-cases (name_from column payload d)) [
    | inr (x, odd) ↦ absurd (ground (arith, h, odd))
    | inl (named, fine) ↦
        SameRow-trans (name_from_lem d named fine)
          (SameRow-trans (sites_from_lem named) (system_from_lem _ e (ground (arith, h, fine))))
  ]

-- The row that is saved.
module _ (column : TextColumn) (id : Text) (payload : Fields) (account_id now : ℕ)
    (row : Option DeviceConfig) (d : DeviceConfig)
    (described : describe column payload (pushed_row id payload account_id now row) ≡ ok d) where
  abbrev same : SameRow (pushed_row id payload account_id now row) d
  same = describe_lem column payload _ d described

  saved_content : (d.payload ≡ payload) × (d.updated_at ≡ now)
  unfolding pushed_row
  saved_content = elim (Option-cases row) [
    | inl new ↦ (ground (arith, new, same.content), ground (arith, new, same.time))
    | inr (old, there) ↦ (ground (arith, there, same.content), ground (arith, there, same.time))
  ]

  saved_id : (db : Db) → find? (device_by_id id) db.devices ≡ row → text_eq d.device_id id ≡ true
  unfolding pushed_row
  saved_id db known = elim (Option-cases row) [
    | inl new ↦ ground (arith, new, same.id, text_eq_refl id)
    | inr (old, there) ↦
        let its_id = find?_holds (device_by_id id) db.devices old (known ∙ there) in
        ground (arith, there, same.id, its_id)
  ]

  saved_owner :
      ((old : DeviceConfig) → row ≡ some old → of_another account_id old ≡ false)
      → linked_to account_id d.user_id ≡ true
  unfolding pushed_row
  saved_owner mine = elim (Option-cases row) [
    | inl new ↦ ground (arith, new, same.owner, ==_refl account_id)
    | inr (old, there) ↦ ground (arith, there, same.owner, mine old there, ==_refl account_id)
  ]

  find?-save_device :
      (db : Db)
      → find? (device_by_id id) db.devices ≡ row
      → find? (device_by_id id) (save_device id row d db).devices ≡ some d
  unfolding save_device find?
  find?-save_device db known = elim (Option-cases row) [
    | inl new ↦
        ground
          (arith, new, known, find?-append (device_by_id id) db.devices (d ∷ []), saved_id db known)
    | inr (old, there) ↦
        rw (save_device, there)
          (find?-overwrite (device_by_id id) d old db.devices (saved_id db known) (known ∙ there))
  ]

module _ (pack : PackEnv) (gzip : GzipEnv) (column : TextColumn) where
  abbrev kept : Text → ℕ → ℕ → Option DeviceConfig → World → Db
  kept id account_id now row w = keep_previous gzip id account_id now row w.working

  devices-store_push :
      (id : Text) (payload : Fields) (account_id now : ℕ) (row : Option DeviceConfig)
      (d : DeviceConfig) (w : World)
      → describe column payload (pushed_row id payload account_id now row) ≡ ok d
      → (store_push pack gzip column id payload account_id now row w).1.working.devices
        ≡ (save_device id row d (kept id account_id now row w)).devices
  unfolding store_push
  devices-store_push id payload account_id now row d w described =
      let saved = record w { working = save_device id row d (kept id account_id now row w) } in
      let made = create_plain_snapshot pack (pushed_spec id payload account_id) now saved in
      rw (store_push, described, world-answer_push (entry_of d) made)
        (create_plain_snapshot_frame pack (pushed_spec id payload account_id) now saved).0

  store_push_ok :
      (id : Text) (payload : Fields) (account_id now : ℕ) (row : Option DeviceConfig) (w : World)
      (entry : ConfigSyncEntry)
      → (store_push pack gzip column id payload account_id now row w).0 ≡ ok entry
      → (d : DeviceConfig) × (describe column payload (pushed_row id payload account_id now row)
          ≡ ok d)
        × (entry ≡ entry_of d)
  unfolding store_push
  store_push_ok id payload account_id now row w entry h =
      elim (Result-cases (describe column payload (pushed_row id payload account_id now row))) [
        | inr (e, odd) ↦ absurd (ground (arith, h, odd))
        | inl (d, fine) ↦
            (d, fine, entry-answer_push (entry_of d) entry _ (rw (store_push, fine) at h))
      ]

  owned_after_push :
      (id : Text) (payload : Fields) (caller : Account) (now : ℕ) (row : Option DeviceConfig)
      (w : World) (entry : ConfigSyncEntry)
      → find? (device_by_id id) w.working.devices ≡ row
      → ((old : DeviceConfig) → row ≡ some old → of_another caller.id old ≡ false)
      → (store_push pack gzip column id payload caller.id now row w).0 ≡ ok entry
      → (d : DeviceConfig) × (owned_device caller id
            (store_push pack gzip column id payload caller.id now row w).1.working
          ≡ some d)
        × (entry ≡ entry_of d)
        × (d.payload ≡ payload)
        × (d.updated_at ≡ now)
  unfolding owned_device
  owned_after_push id payload caller now row w entry known mine h =
      let (d, fine, answer) = store_push_ok id payload caller.id now row w entry h in
      let same = devices-keep_previous gzip id caller.id now row w.working in
      let there =
        ap (find? (device_by_id id)) (devices-store_push id payload caller.id now row d w fine)
        ∙ find?-save_device column id payload caller.id now row d fine (kept id caller.id now row w)
            (ap (find? (device_by_id id)) same ∙ known) in
      let owner = saved_owner column id payload caller.id now row d fine mine in
      let (content, time) = saved_content column id payload caller.id now row d fine in
      (d, rw (owned_device, there) (rw owner refl), answer, content, time)

  reads_back :
      (device_id id : Text) (caller : Account) (d : DeviceConfig) (w : World)
      → normalize_device_id device_id ≡ ok id
      → owned_device caller id w.working ≡ some d
      → (api_get_config device_id caller w).0 ≡ ok (entry_of d)
  unfolding api_get_config require_owned_row
  reads_back device_id id caller d w good owned =
      rw (api_get_config, require_owned_row, good, owned) refl

  pushed_then_read :
      (device_id id : Text) (payload : Fields) (caller : Account) (now : ℕ)
      (row : Option DeviceConfig) (w : World) (entry : ConfigSyncEntry)
      → normalize_device_id device_id ≡ ok id
      → find? (device_by_id id) w.working.devices ≡ row
      → ((old : DeviceConfig) → row ≡ some old → of_another caller.id old ≡ false)
      → (store_push pack gzip column id payload caller.id now row w).0 ≡ ok entry
      → ((api_get_config device_id caller
            (store_push pack gzip column id payload caller.id now row w).1).0
          ≡ ok entry)
        × (entry.payload ≡ payload)
        × (entry.updated_at ≡ now)
  pushed_then_read device_id id payload caller now row w entry good known mine h =
      let (d, owned, answer, content, time) =
        owned_after_push id payload caller now row w entry known mine h in
      rw answer (reads_back device_id id caller d _ good owned, content, time)

  -- After a push that returned, the same account reads under the same id exactly what the push
  -- answered: the payload that was pushed, with the time of the push.
  pub api_get_config-api_upsert_config :
      (device_id : Text) (payload : Fields) (caller : Account) (now : ℕ) (w : World)
      (entry : ConfigSyncEntry)
      → (api_upsert_config pack gzip column device_id payload (some caller) now w).0 ≡ ok entry
      → ((api_get_config device_id caller
            (api_upsert_config pack gzip column device_id payload (some caller) now w).1).0
          ≡ ok entry)
        × (entry.payload ≡ payload)
        × (entry.updated_at ≡ now)
  unfolding api_upsert_config
  api_get_config-api_upsert_config device_id payload caller now w entry h =
      elim (Result-cases (normalize_device_id device_id)) [
        | inr (e, bad) ↦ absurd (ground (arith, bad, h))
        | inl (id, good) ↦ elim (Option-cases (find? (device_by_id id) w.working.devices)) [
          | inl new ↦
              rw (api_upsert_config, good, new)
                (pushed_then_read device_id id payload caller now none w entry good new
                  (λ old h. absurd (ground (arith, h))) (rw (api_upsert_config, good, new) at h))
          | inr (old, row) ↦ elim (Bool-cases (of_another caller.id old)) [
            | inl refused ↦ absurd (ground (arith, h, good, row, refused))
            | inr mine ↦
                rw (api_upsert_config, good, row, mine)
                  (pushed_then_read device_id id payload caller now (some old) w entry good row
                    (λ d e. ground (arith, e, mine)) (rw (api_upsert_config, good, row, mine) at h))
          ]
        ]
      ]
