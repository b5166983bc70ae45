-- ===== src/Snapshots.antt =====
-- app/snapshots.py: storing a device's payload as a snapshot and moving its HEAD. `json`, SHA-256, zstandard and the blob store are parameters.
pub mod Packing
pub mod Moves
use wdc_catalog_api.Base.{
  ℕ, ◌+◌, ◌≤◌, ◌≡◌, Bool, true, false, Option, none, some, List, [], ◌∷◌, ◌++◌, Text, codes,
  text_eq, is_some, is_empty, if◌then◌else◌, leb, ◌==◌, negb, ◌&&◌, ◌||◌, length, find?,
  update_where, fresh_id,
}
use wdc_catalog_api.Schema.{Db, DeviceConfig, DeviceSnapshot, DeviceHead, Fields}
use wdc_catalog_api.Session.{
  Exec, World, Result, ok, err, Exn, integrity_error, payload_too_large, pure, query, write,
  raise_if, ◌>>=◌, ◌>>◌,
}

-- What the code relies on: a text that `json.dumps` wrote reads back as the same dict with its keys
-- sorted, a compressed text decompresses to itself, and a blob that was uploaded is downloaded again.
pub record PackEnv : Type 0 where
  pub inline_threshold : ℕ
  pub blob_threshold : ℕ
  pub canonical_bytes : Fields → Text
  pub sorted : Fields → Fields
  pub loads : Text → Option Fields
  pub loads-canonical_bytes : (d : Fields) → loads (canonical_bytes d) ≡ some (sorted d)
  pub sha256 : Text → Text
  pub compress : Text → Text
  pub decompress : Text → Option Text
  pub decompress-compress : (t : Text) → decompress (compress t) ≡ some t
  pub is_configured : Bool
  pub upload : Option ℕ → Text → Text
  pub download : Text → Option Text
  pub download-upload : (account : Option ℕ) (t : Text) → download (upload account t) ≡ some t

-- `PackedPayload`; the column is the one that is filled
pub record PackedPayload : Type 0 where
  pub json_value : Option Fields
  pub blob_value : Option Text
  pub uri_value : Option Text
  pub compression : Option Text
  pub size_bytes : ℕ
  pub checksum : Text

abbrev pub head_by_device : Text → DeviceHead → Bool
head_by_device device_id h = text_eq h.device_id device_id

-- `get_head`
unfoldable pub get_head : Text → Db → Option DeviceSnapshot
get_head device_id db = elim (find? (head_by_device device_id) db.heads) [
  | none ↦ none
  | some h ↦ find? (λ (s : DeviceSnapshot). s.id == h.current_snapshot_id) db.snapshots
]

abbrev pub moved_head : ℕ → Text → DeviceHead → DeviceHead
moved_head id updated_by h = record h { current_snapshot_id = id; updated_by = updated_by }

abbrev pub new_head : Text → ℕ → Text → DeviceHead
new_head device_id id updated_by = record {
  device_id = device_id;
  current_snapshot_id = id;
  updated_by = updated_by;
}

-- `set_head`
unfoldable pub set_head : Text → ℕ → Text → Db → Db
set_head device_id id updated_by db = record db {
  heads = elim (find? (head_by_device device_id) db.heads) [
    | none ↦ db.heads ++ new_head device_id id updated_by ∷ []
    | some h ↦ update_where (head_by_device device_id) (moved_head id updated_by) db.heads
  ];
}

-- The arguments of `create_snapshot`.
pub record SnapshotSpec : Type 0 where
  pub device_id : Text
  pub account_id : Option ℕ
  pub payload : Fields
  pub kind : Text
  pub label : Option Text
  pub created_by_ip : Option Text

abbrev pub is_kind : Text → Bool
is_kind k =
    text_eq k (codes "auto")
    || text_eq k (codes "manual")
    || text_eq k (codes "pre_restore")
    || text_eq k (codes "import")

module _ (env : PackEnv) where
  -- `_pack_from_raw`, and `pack_payload` with its own text and checksum; `none` is `PayloadTooLarge`
  unfoldable pub pack_from_raw : Text → Text → Fields → Option ℕ → Option PackedPayload
  pack_from_raw raw checksum payload account_id =
      let compressed = env.compress raw in
      if leb (length raw) env.inline_threshold
      then some (record {
        json_value = some payload;
        blob_value = none;
        uri_value = none;
        compression = none;
        size_bytes = length raw;
        checksum = checksum;
      })
      else if leb (length compressed) env.blob_threshold
      then some (record {
        json_value = none;
        blob_value = some compressed;
        uri_value = none;
        compression = some (codes "zstd");
        size_bytes = length compressed;
        checksum = checksum;
      })
      else if env.is_configured
      then some (record {
        json_value = none;
        blob_value = none;
        uri_value = some (env.upload account_id compressed);
        compression = some (codes "zstd");
        size_bytes = length compressed;
        checksum = checksum;
      })
      else none

  unfoldable pub pack_payload : Fields → Option ℕ → Option PackedPayload
  unfolding pack_from_raw
  pack_payload payload account_id =
      let raw = env.canonical_bytes payload in pack_from_raw raw (env.sha256 raw) payload account_id

  -- the text behind a snapshot that is not inline
  abbrev pub stored_text : DeviceSnapshot → Option Text
  stored_text s = elim s.payload_blob [
    | some blob ↦ some blob
    | none ↦ elim s.blob_uri [ none ↦ none | some uri ↦ env.download uri ]
  ]

  abbrev pub read_text : Option Text → Text → Option Fields
  read_text none raw = env.loads raw
  read_text (some algo) raw =
      if text_eq algo (codes "zstd")
      then elim (env.decompress raw) [ none ↦ none | some plain ↦ env.loads plain ]
      else env.loads raw

  -- `unpack_payload` of a snapshot that is not encrypted; `none` stands for an exception
  unfoldable pub unpack_payload : DeviceSnapshot → Option Fields
  unpack_payload s = elim s.payload_json [
    | some payload ↦ some payload
    | none ↦ elim (stored_text s) [ none ↦ none | some raw ↦ read_text s.compression raw ]
  ]

  -- the row that `create_snapshot` adds
  abbrev pub new_snapshot :
      SnapshotSpec → Option Text → ℕ → PackedPayload → Option ℕ → ℕ → DeviceSnapshot
  new_snapshot spec kid id packed parent now = record {
    id = id;
    device_id = spec.device_id;
    account_id = spec.account_id;
    created_at = now;
    label = spec.label;
    kind = spec.kind;
    size_bytes = packed.size_bytes;
    payload_json = packed.json_value;
    payload_blob = packed.blob_value;
    blob_uri = packed.uri_value;
    checksum = packed.checksum;
    parent_snapshot_id = parent;
    compression = packed.compression;
    encryption_kid = kid;
    created_by_ip = spec.created_by_ip;
  }

  -- the constraints of the table: the device is there, and the kind is one of four
  abbrev pub insertable : SnapshotSpec → Db → Bool
  insertable spec db =
      is_some (find? (λ (d : DeviceConfig). text_eq d.device_id spec.device_id) db.devices)
      && is_kind spec.kind

  abbrev pub id_of : Option DeviceSnapshot → Option ℕ
  id_of none = none
  id_of (some s) = some s.id

  -- the new row and the move of the HEAD
  unfoldable pub append_snapshot :
      SnapshotSpec → Option Text → ℕ → PackedPayload → Option DeviceSnapshot → Exec DeviceSnapshot
  append_snapshot spec kid now packed head w =
      let db = w.working in
      let snap =
        new_snapshot spec kid (fresh_id (λ (s : DeviceSnapshot). s.id) db.snapshots) packed
          (id_of head) now in
      if insertable spec db
      then (
        ok snap,
        record w {
          working =
              set_head spec.device_id snap.id spec.kind
                (record db { snapshots = db.snapshots ++ snap ∷ [] });
        },
      )
      else (err integrity_error, w)

  -- the HEAD, if it has the payload already and nothing asks for a row of its own
  abbrev pub duplicate_of : SnapshotSpec → Option DeviceSnapshot → Option DeviceSnapshot
  duplicate_of spec none = none
  duplicate_of spec (some head) =
      if text_eq head.checksum (env.sha256 (env.canonical_bytes spec.payload))
        && negb (is_some spec.label)
      then some head
      else none

  -- `create_snapshot`, without encryption
  unfoldable pub create_plain_snapshot : SnapshotSpec → ℕ → Exec DeviceSnapshot
  create_plain_snapshot spec now w =
      let raw = env.canonical_bytes spec.payload in
      let head = get_head spec.device_id w.working in
      elim (duplicate_of spec head) [
        | some same ↦ (ok same, w)
        | none ↦ elim (pack_from_raw raw (env.sha256 raw) spec.payload spec.account_id) [
          | none ↦ (err payload_too_large, w)
          | some packed ↦ append_snapshot spec none now packed head w
        ]
      ]
