-- ===== src/Tests/DeviceRuns.antt =====
-- The endpoints on devices.
use wdc_catalog_api.Base.{ℕ, none, some, [], ◌∷◌, codes, String}
use wdc_catalog_api.Schema.{DeviceConfig, Fields, num, end, field}
use wdc_catalog_api.Session.{World, initial_world}
use wdc_catalog_api.Devices.{DeviceConfigDetail}
use wdc_catalog_api.Tests.Fixtures.{two_accounts}

abbrev pub sites : Fields
sites = field (codes "sites") (num 4) end

abbrev pub device : String → ℕ → Fields → DeviceConfig
device id owner payload = record {
  device_id = codes id;
  user_id = some owner;
  name = none;
  os = none;
  arch = none;
  site_count = none;
  last_seen_at = none;
  updated_at = 1;
  payload = payload;
}

abbrev pub theirs : DeviceConfig
theirs = device "d3" 2 end

abbrev world : World
world =
    initial_world
      (record two_accounts { devices = device "d1" 1 sites ∷ device "d2" 1 end ∷ theirs ∷ [] })

abbrev before : DeviceConfigDetail
before = record { device_id = codes "d1"; name = none; payload = sites; updated_at = 1 }
