-- ===== src/Tests/SnapshotRuns.antt =====
-- Storing snapshots.
use wdc_catalog_api.Base.{◌≡◌, refl, false, Option, none, some, [], ◌∷◌, Text, codes}
use wdc_catalog_api.Schema.{
  DeviceConfig, DeviceSnapshot, Fields, null, num, str, bool, arr, obj, end, field,
}
use wdc_catalog_api.Session.{World, initial_world}
use wdc_catalog_api.Snapshots.{PackEnv, PackedPayload, SnapshotSpec, new_snapshot}
use wdc_catalog_api.Tests.Fixtures.{two_accounts}

-- A `json` for dicts whose first entry is a number, and no compression.
abbrev pub dumps : Fields → Text
dumps (field k (num n) rest) = n ∷ k
dumps _ = []

abbrev pub first_entry : Fields → Fields
first_entry (field k (num n) rest) = field k (num n) end
first_entry _ = end

abbrev pub loads : Text → Option Fields
loads [] = some end
loads (n ∷ k) = some (field k (num n) end)

pub loads-dumps : (d : Fields) → loads (dumps d) ≡ some (first_entry d)
loads-dumps end = refl
loads-dumps (field k (num n) rest) = refl
loads-dumps (field k null rest) = refl
loads-dumps (field k (bool b) rest) = refl
loads-dumps (field k (str t) rest) = refl
loads-dumps (field k (arr xs) rest) = refl
loads-dumps (field k (obj d) rest) = refl

abbrev pub env : PackEnv
env = record {
  inline_threshold = 2;
  blob_threshold = 10;
  canonical_bytes = dumps;
  sorted = first_entry;
  loads = loads;
  loads-canonical_bytes = loads-dumps;
  sha256 = λ t. t;
  compress = λ t. t;
  decompress = λ t. some t;
  decompress-compress = λ t. refl;
  is_configured = false;
  upload = λ account t. t;
  download = λ t. some t;
  download-upload = λ account t. refl;
}

abbrev pub spec : SnapshotSpec
spec = record {
  device_id = codes "d1";
  account_id = some 1;
  payload = field (codes "sites") (num 4) end;
  kind = codes "auto";
  label = none;
  created_by_ip = none;
}

abbrev packed : PackedPayload
packed = record {
  json_value = none;
  blob_value = some (4 ∷ codes "sites");
  uri_value = none;
  compression = some (codes "zstd");
  size_bytes = 6;
  checksum = codes "c";
}

abbrev pub device : DeviceConfig
device = record {
  device_id = codes "d1";
  user_id = some 1;
  name = none;
  os = none;
  arch = none;
  site_count = none;
  last_seen_at = none;
  updated_at = 1;
  payload = end;
}

abbrev pub world : World
world = initial_world (record two_accounts { devices = device ∷ [] })

abbrev stored : DeviceSnapshot
stored = new_snapshot env spec none 1 (record packed { checksum = 4 ∷ codes "sites" }) none 50
