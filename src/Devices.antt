-- ===== src/Devices.antt =====
-- app/devices.py, the endpoints on one device: renaming it, reading its configuration, and pushing the
-- configuration of one device to another. The caller is the account of the request.
pub mod Ownership
use wdc_catalog_api.Base.{
  ℕ, Bool, true, false, Option, none, some, Text, text_eq, if◌then◌else◌, ◌==◌, linked_to, find?,
  update_where,
}
use wdc_catalog_api.Schema.{Db, Account, DeviceConfig, Fields}
use wdc_catalog_api.Session.{
  Exec, World, Result, ok, err, Exn, http, pure, query, write, or_raise, ◌>>=◌, ◌>>◌,
}

abbrev pub device_by_id : Text → DeviceConfig → Bool
device_by_id id d = text_eq d.device_id id

-- `device is None or device.user_id != account.id`
unfoldable pub owned_device : Account → Text → Db → Option DeviceConfig
owned_device account id db = elim (find? (device_by_id id) db.devices) [
  | none ↦ none
  | some d ↦ if linked_to account.id d.user_id then some d else none
]

abbrev pub write_device : Text → (DeviceConfig → DeviceConfig) → World → World
write_device id f w =
    let db = w.working in
    record w { working = record db { devices = update_where (device_by_id id) f db.devices } }

-- `update_device`, with the name that the body carries
unfoldable pub update_device : Text → Option Text → Account → Exec Text
update_device id name account w = elim (owned_device account id w.working) [
  | none ↦ (err (http 404 "Device not found"), w)
  | some d ↦ elim name [
    | none ↦ (ok id, w)
    | some n ↦ (ok id, write_device id (λ d. record d { name = some n }) w)
  ]
]

-- What `DeviceConfigDetail` carries.
pub record DeviceConfigDetail : Type 0 where
  pub device_id : Text
  pub name : Option Text
  pub payload : Fields
  pub updated_at : ℕ

-- `get_device_config`
unfoldable pub get_device_config : Text → Account → Exec DeviceConfigDetail
get_device_config id account w = elim (owned_device account id w.working) [
  | none ↦ (err (http 404 "Device not found"), w)
  | some d ↦ (
    ok (record {
      device_id = d.device_id;
      name = d.name;
      payload = d.payload;
      updated_at = d.updated_at;
    }),
    w,
  )
]

abbrev pub with_payload : Fields → ℕ → DeviceConfig → DeviceConfig
with_payload payload now d = record d { payload = payload; updated_at = now }

-- `push_config_to_device`; it answers the two ids
unfoldable pub push_config_to_device : Text → Text → ℕ → Account → Exec (Text × Text)
push_config_to_device id source_device_id now account w =
    elim (owned_device account source_device_id w.working) [
      | none ↦ (err (http 404 "Source device not found"), w)
      | some source ↦ elim (owned_device account id w.working) [
        | none ↦ (err (http 404 "Target device not found"), w)
        | some target ↦
            (ok (source_device_id, id), write_device id (with_payload source.payload now) w)
      ]
    ]
