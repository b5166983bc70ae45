-- ===== src/Sync.antt =====
-- app/api_sync.py: the configuration that a device pushes, with the row it replaces kept for a
-- rollback and the new one stored as a snapshot. The caller is the account of the request, if any.
pub mod Push
pub mod Ownership
use wdc_catalog_api.Base.{
  ℕ, ◌≡◌, Bool, true, false, Option, none, some, List, [], ◌∷◌, ◌++◌, Text, codes, is_some,
  if◌then◌else◌, linked_to, find?, update_where,
}
use wdc_catalog_api.Schema.{
  Db, Account, DeviceConfig, DeviceSnapshot, Json, arr, obj, Fields, end, field, get_field,
  count_items,
}
use wdc_catalog_api.Session.{Exec, World, Result, ok, err, Exn, http, payload_too_large}
use wdc_catalog_api.DeviceIds.{normalize_device_id}
use wdc_catalog_api.Devices.{device_by_id, owned_device}
use wdc_catalog_api.Snapshots.{PackEnv, SnapshotSpec, create_plain_snapshot}
use wdc_catalog_api.SyncSnapshots.{GzipEnv, ConfigSyncEntry, create_sync_snapshot}

-- `if row.payload`
abbrev pub has_payload : DeviceConfig → Bool
has_payload d = elim d.payload [ end ↦ false | field k v rest ↦ true ]

-- `row.user_id is not None and row.user_id != account.id`
abbrev pub of_another : ℕ → DeviceConfig → Bool
of_another id d =
    if is_some d.user_id then (if linked_to id d.user_id then false else true) else false

-- A dict under a key of a dict.
abbrev pub get_dict : Text → Fields → Option Fields
get_dict key d = elim (get_field key d) [
  | some v ↦ elim v [ obj inner ↦ some inner | _ ↦ none ]
  | none ↦ none
]

abbrev pub entry_of : DeviceConfig → ConfigSyncEntry
entry_of d = record { device_id = d.device_id; updated_at = d.updated_at; payload = d.payload }

-- `_require_owned_row`, without `not_found_ok`
unfoldable pub require_owned_row : Text → Account → Db → Result DeviceConfig
require_owned_row device_id account db = elim (normalize_device_id device_id) [
  | err e ↦ err e
  | ok id ↦ elim (owned_device account id db) [
    | none ↦ err (http 404 "No snapshot for")
    | some d ↦ ok d
  ]
]

-- `_require_owned_row`, with `not_found_ok`
unfoldable pub find_owned_row : Text → Account → Db → Result (Option DeviceConfig)
find_owned_row device_id account db = elim (normalize_device_id device_id) [
  | err e ↦ err e
  | ok id ↦ elim (find? (device_by_id id) db.devices) [
    | none ↦ ok none
    | some d ↦
        if linked_to account.id d.user_id then ok (some d) else err (http 404 "No snapshot for")
  ]
]

-- `api_get_config`
unfoldable pub api_get_config : Text → Account → Exec ConfigSyncEntry
api_get_config device_id account w = elim (require_owned_row device_id account w.working) [
  | err e ↦ (err e, w)
  | ok d ↦ (ok (entry_of d), w)
]

-- `api_head_config`: the status, and the time of change for its header
unfoldable pub api_head_config : Text → Account → Exec (ℕ × Option ℕ)
api_head_config device_id account w = elim (find_owned_row device_id account w.working) [
  | err e ↦ (err e, w)
  | ok row ↦ elim row [ none ↦ (ok (404, none), w) | some d ↦ (ok (200, some d.updated_at), w) ]
]

-- `ConfigSyncListResponse`
pub record ConfigSyncListResponse : Type 0 where
  pub device_id : Text
  pub updated_at : Option ℕ
  pub has_config : Bool

-- `api_exists_config`, without the headers that it adds
unfoldable pub api_exists_config : Text → Account → Exec ConfigSyncListResponse
api_exists_config device_id account w = elim (find_owned_row device_id account w.working) [
  | err e ↦ (err e, w)
  | ok row ↦ elim row [
    | none ↦ elim (normalize_device_id device_id) [
      | err e ↦ (err e, w)
      | ok id ↦ (ok (record { device_id = id; updated_at = none; has_config = false }), w)
    ]
    | some d ↦ (
      ok (record { device_id = d.device_id; updated_at = some d.updated_at; has_config = true }),
      w,
    )
  ]
]

-- What the database driver makes of a value that the code assigns to a text column, or the exception
-- of the flush.
abbrev pub TextColumn : Type 0
TextColumn = Option Json → Result (Option Text)

module _ (column : TextColumn) where
  -- `row.name = settings["sync.deviceName"]`
  unfoldable pub name_from : Fields → DeviceConfig → Result DeviceConfig
  name_from payload d = elim (get_dict (codes "settings") payload) [
    | none ↦ ok d
    | some settings ↦ elim (get_field (codes "sync.deviceName") settings) [
      | none ↦ ok d
      | some v ↦ elim (column (some v)) [ err e ↦ err e | ok name ↦ ok (record d { name = name }) ]
    ]
  ]

  -- `row.site_count = len(p["sites"])`
  unfoldable pub sites_from : Fields → DeviceConfig → DeviceConfig
  sites_from payload d = elim (get_field (codes "sites") payload) [
    | none ↦ d
    | some v ↦ elim v [ arr xs ↦ record d { site_count = some (count_items xs) } | _ ↦ d ]
  ]

  -- `row.os` and `row.arch`
  unfoldable pub system_from : Fields → DeviceConfig → Result DeviceConfig
  system_from payload d = elim (get_dict (codes "system") payload) [
    | none ↦ ok d
    | some system ↦ elim (get_dict (codes "os") system) [
      | none ↦ ok d
      | some os ↦ elim (column (get_field (codes "tag") os)) [
        | err e ↦ err e
        | ok tag ↦ elim (column (get_field (codes "arch") os)) [
          | err e ↦ err e
          | ok arch ↦ ok (record d { os = tag; arch = arch })
        ]
      ]
    ]
  ]

  -- the columns that the payload describes, as the flush writes them
  unfoldable pub describe : Fields → DeviceConfig → Result DeviceConfig
  describe payload d = elim (name_from payload d) [
    | err e ↦ err e
    | ok named ↦ system_from payload (sites_from payload named)
  ]

-- the row of a device that is not in the table yet
abbrev pub new_device : Text → Fields → ℕ → DeviceConfig
new_device id payload now = record {
  device_id = id;
  user_id = none;
  name = none;
  os = none;
  arch = none;
  site_count = none;
  last_seen_at = none;
  updated_at = now;
  payload = payload;
}

-- the row as it is pushed, linked to the account if it had no link
unfoldable pub pushed_row : Text → Fields → ℕ → ℕ → Option DeviceConfig → DeviceConfig
pushed_row id payload account_id now row =
    let d : DeviceConfig = elim row [
      | none ↦ new_device id payload now
      | some old ↦ record old { payload = payload; updated_at = now }
    ] in
    record d {
      user_id = elim d.user_id [ none ↦ some account_id | some owner ↦ some owner ];
      last_seen_at = some now;
    }

-- INSERT or UPDATE of the row
unfoldable pub save_device : Text → Option DeviceConfig → DeviceConfig → Db → Db
save_device id row d db = record db {
  devices = elim row [
    | none ↦ db.devices ++ d ∷ []
    | some old ↦ update_where (device_by_id id) (λ x. d) db.devices
  ];
}

-- the previous payload, kept for a rollback
unfoldable pub keep_previous : GzipEnv → Text → ℕ → ℕ → Option DeviceConfig → Db → Db
keep_previous gzip id account_id now none db = db
keep_previous gzip id account_id now (some d) db =
    if has_payload d then create_sync_snapshot gzip id account_id d.payload now db else db

abbrev pub pushed_spec : Text → Fields → ℕ → SnapshotSpec
pushed_spec id payload account_id = record {
  device_id = id;
  account_id = some account_id;
  payload = payload;
  kind = codes "auto";
  label = none;
  created_by_ip = none;
}

-- a payload that is too large for a snapshot is only logged
unfoldable pub answer_push :
    ConfigSyncEntry → Result DeviceSnapshot × World → Result ConfigSyncEntry × World
answer_push entry (ok s, w) = (ok entry, w)
answer_push entry (err e, w) = elim e [ payload_too_large ↦ (ok entry, w) | other ↦ (err other, w) ]

module _ (pack : PackEnv) (gzip : GzipEnv) (column : TextColumn) where
  -- what follows the checks
  unfoldable pub store_push : Text → Fields → ℕ → ℕ → Option DeviceConfig → Exec ConfigSyncEntry
  store_push id payload account_id now row w =
      let kept = keep_previous gzip id account_id now row w.working in
      elim (describe column payload (pushed_row id payload account_id now row)) [
        | err e ↦ (err e, record w { working = kept })
        | ok d ↦ answer_push (entry_of d) (
            create_plain_snapshot pack (pushed_spec id payload account_id) now
              (record w { working = save_device id row d kept }))
      ]

  -- `api_upsert_config`
  unfoldable pub api_upsert_config : Text → Fields → Option Account → ℕ → Exec ConfigSyncEntry
  api_upsert_config device_id payload account now w = elim (normalize_device_id device_id) [
    | err e ↦ (err e, w)
    | ok id ↦ elim account [
      | none ↦ (err (http 401 "Authentication required to push device config"), w)
      | some caller ↦ elim (find? (device_by_id id) w.working.devices) [
        | none ↦ store_push id payload caller.id now none w
        | some d ↦
            if of_another caller.id d
            then (err (http 403 "Device is linked to another account"), w)
            else store_push id payload caller.id now (some d) w
      ]
    ]
  ]
