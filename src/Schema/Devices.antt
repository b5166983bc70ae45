-- ===== src/Schema/Devices.antt =====
-- app/db.py: devices, their snapshots and HEAD pointers, retention policies and keys.
use wdc_catalog_api.Base.{ℕ, Bool, Option, Text}
use wdc_catalog_api.Schema.Values.{Fields}

pub record DeviceConfig : Type 0 where
  pub device_id : Text
  pub user_id : Option ℕ
  pub name : Option Text
  pub os : Option Text
  pub arch : Option Text
  pub site_count : Option ℕ
  pub last_seen_at : Option ℕ
  pub updated_at : ℕ
  pub payload : Fields

pub record DeviceSnapshot : Type 0 where
  pub id : ℕ
  pub device_id : Text
  pub account_id : Option ℕ
  pub created_at : ℕ
  pub label : Option Text
  pub kind : Text
  pub size_bytes : ℕ
  pub payload_json : Option Fields
  pub payload_blob : Option Text
  pub blob_uri : Option Text
  pub checksum : Text
  pub parent_snapshot_id : Option ℕ
  pub compression : Option Text
  pub encryption_kid : Option Text
  pub created_by_ip : Option Text

pub record DeviceHead : Type 0 where
  pub device_id : Text
  pub current_snapshot_id : ℕ
  pub updated_by : Text

pub record SnapshotRetentionPolicy : Type 0 where
  pub id : ℕ
  pub account_id : ℕ
  pub device_id : Option Text
  pub keep_last_n_auto : ℕ
  pub auto_expire_days : Option ℕ
  pub keep_labeled_forever : Bool
  pub max_total_bytes : Option ℕ

pub record SyncSnapshot : Type 0 where
  pub id : ℕ
  pub device_id : Text
  pub account_id : ℕ
  pub created_at : ℕ
  pub size_bytes : ℕ
  pub content_gzip : Text

pub record AccountEncryptionKey : Type 0 where
  pub kid : Text
  pub account_id : ℕ
  pub wrapped_dek : Text
  pub kek_source : Text
  pub created_at : ℕ
  pub retired_at : Option ℕ
