-- ===== src/Tests/EncryptionRuns.antt =====
-- Encrypted snapshots.
use wdc_catalog_api.Base.{
  ◌≡◌, refl, true, false, Option, none, some, [], ◌∷◌, ◌++◌, Text, codes, text_eq, find?, fresh_id,
  starts_with, select,
}
use wdc_catalog_api.Schema.{AccountEncryptionKey, DeviceSnapshot, end, field, num}
use wdc_catalog_api.Session.{ok}
use wdc_catalog_api.Snapshots.{get_head, append_snapshot, new_snapshot}
use wdc_catalog_api.Crypto.{
  Ciphers, KeySettings, wrap_dek_with_kek, unwrap_dek_with_kek, encrypt_payload,
  derive_key_from_passphrase, validate_passphrase_for_encrypt,
}
use wdc_catalog_api.Encryption.{
  Draws, HighCompression, password_derived, sealed, new_key, key_row, insert_key, active_key,
  unwrap, pick_latest, pack_wrapped_dek, uint32_be, unpack_wrapped_dek, create_encrypted_snapshot,
  create_snapshot, seal_snapshot, unpack_snapshot,
}
use wdc_catalog_api.Purge.Chunks.{HeadsValid}
use wdc_catalog_api.Purge.Frame.{UniqueSnapshots}
use wdc_catalog_api.Encryption.Heads.{create_snapshot-HeadsValid}
use wdc_catalog_api.Encryption.Reading.{unpack_snapshot-create_encrypted_snapshot}
use wdc_catalog_api.Tests.SnapshotRuns.{env, spec, world}

-- Ciphers that leave the text open, behind the nonce.
abbrev ciphers : Ciphers
ciphers = record {
  encrypt = λ key nonce extra plain. plain;
  decrypt = λ key nonce extra text. some text;
  decrypt-encrypt = λ key nonce extra plain. refl;
  hkdf = λ key salt info. key;
  argon2 = λ secret salt. secret;
  sha256 = λ t. t;
  utf8 = λ t. t;
}

abbrev settings : KeySettings
settings = record {
  master_key = some (codes "0123456789abcdef0123456789abcdef");
  allow_weak = false;
  dev = false;
  ephemeral = [];
}

abbrev high : HighCompression env
high = record { compress_high = λ t. t; decompress-compress_high = λ t. refl }

abbrev draws : Draws
draws = record {
  dek = codes "dek";
  salt = codes "0123456789abcdef";
  kid = codes "k1";
  wrap_nonce = codes "abcdefghijkl";
  payload_nonce = codes "lkjihgfedcba";
}

abbrev passphrase : Option Text
passphrase = some (codes "correct horse")

abbrev wrapped : Text
wrapped =
    codes "v1" ++ ((0 ∷ 0 ∷ 0 ∷ 15 ∷ []) ++ (codes "abcdefghijkldek" ++ codes "0123456789abcdef"))

abbrev key : AccountEncryptionKey
key = record {
  kid = codes "k1";
  account_id = 1;
  wrapped_dek = wrapped;
  kek_source = password_derived;
  created_at = 50;
  retired_at = none;
}

abbrev stored : DeviceSnapshot
stored =
    new_snapshot env spec (some (codes "k1")) 1
      (sealed env high ciphers settings spec (codes "lkjihgfedcba" ++ (4 ∷ codes "sites"))) none 50

unpack_snapshot-create_encrypted_snapshot_example :
    unpack_snapshot env high ciphers settings passphrase stored
      (create_encrypted_snapshot env high ciphers settings 1 passphrase draws spec 50
        world).1.working
    ≡ ok (field (codes "sites") (num 4) end)
unfolding create_encrypted_snapshot seal_snapshot append_snapshot active_key insert_key new_key
    key_row pack_wrapped_dek uint32_be validate_passphrase_for_encrypt derive_key_from_passphrase
    wrap_dek_with_kek unwrap unpack_wrapped_dek starts_with unwrap_dek_with_kek encrypt_payload
    get_head find? text_eq fresh_id pick_latest select
unpack_snapshot-create_encrypted_snapshot_example =
    unpack_snapshot-create_encrypted_snapshot env high ciphers settings spec 50 passphrase draws 1
      world stored tt refl refl refl

create_snapshot-HeadsValid_example :
    HeadsValid
      (create_snapshot env high ciphers settings true passphrase draws spec 50 world).1.working
    × UniqueSnapshots
        (create_snapshot env high ciphers settings true passphrase draws spec 50 world).1.working
create_snapshot-HeadsValid_example =
    create_snapshot-HeadsValid env high ciphers settings passphrase draws spec 50 true world tt tt
