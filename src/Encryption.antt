-- ===== src/Encryption.antt =====
-- app/snapshots.py: snapshots that are encrypted under a key of their account, and the keys.
pub mod Keys
pub mod Active
pub mod Reading
pub mod Heads
use wdc_catalog_api.Base.{
  ℕ, ◌+◌, ◌*◌, ◌/◌, ◌%◌, ◌≡◌, Bool, true, false, Option, none, some, List, [], ◌∷◌, ◌++◌, Text,
  codes, decimal, text_eq, is_empty, is_some, starts_with, if◌then◌else◌, ltb, leb, ◌==◌, negb,
  ◌&&◌, ◌||◌, get_or, length, take, drop, find?, select,
}
use wdc_catalog_api.Schema.{Db, AccountEncryptionKey, DeviceSnapshot, Fields}
use wdc_catalog_api.Session.{
  Exec, World, Result, ok, err, Exn, integrity_error, runtime_error, permission_error, value_error,
  payload_too_large, overflow_error,
}
use wdc_catalog_api.Crypto.{
  Ciphers, KeySettings, validate_passphrase_for_encrypt, derive_key_from_passphrase,
  wrap_dek_with_kek, unwrap_dek_with_kek, wrap_dek, unwrap_dek, encrypt_payload, decrypt_payload,
}
use wdc_catalog_api.Snapshots.{
  PackEnv, PackedPayload, SnapshotSpec, get_head, pack_from_raw, stored_text, read_text,
  append_snapshot, create_plain_snapshot,
}

-- `n.to_bytes(4, "big")`
unfoldable pub uint32_be : ℕ → Result Text
uint32_be n =
    if ltb n 4294967296
    then ok (n / 16777216 ∷ n / 65536 % 256 ∷ n / 256 % 256 ∷ n % 256 ∷ [])
    else err overflow_error

-- `int.from_bytes(b, "big")`
abbrev pub from_bytes_on : ℕ → Text → ℕ
from_bytes_on acc [] = acc
from_bytes_on acc (b ∷ rest) = from_bytes_on (acc * 256 + b) rest

-- `_pack_wrapped_dek`
unfoldable pub pack_wrapped_dek : Text → Text → Result Text
pack_wrapped_dek wrapped salt = elim (uint32_be (length wrapped)) [
  | err e ↦ err e
  | ok size ↦ ok (codes "v1" ++ (size ++ (wrapped ++ salt)))
]

-- `blob.partition(sep)`, without the separator
unfoldable pub partition : Text → Text → Text × Text
partition sep [] = ([], [])
partition sep (c ∷ s) =
    let (before, after) = partition sep s in
    if starts_with sep (c ∷ s) then ([], drop (length sep) (c ∷ s)) else (c ∷ before, after)

-- `_unpack_wrapped_dek`
unfoldable pub unpack_wrapped_dek : Text → Text × Text
unpack_wrapped_dek blob =
    if starts_with (codes "v1") blob
    then (let body = drop 2 blob in
        let n = from_bytes_on 0 (take 4 body) in (take n (drop 4 body), drop (4 + n) body))
    else partition (codes "||SALT||") blob

abbrev pub password_derived : Text
password_derived = codes "password-derived"

-- `filters` of `_active_key`
abbrev pub is_active : ℕ → Option Text → AccountEncryptionKey → Bool
is_active account_id passphrase k =
    (k.account_id == account_id && negb (is_some k.retired_at))
    && (if is_some passphrase
        then text_eq k.kek_source password_derived
        else negb (text_eq k.kek_source password_derived))

-- `ORDER BY created_at DESC LIMIT 1`
unfoldable pub pick_latest : List AccountEncryptionKey → Option AccountEncryptionKey
pick_latest [] = none
pick_latest (k ∷ rest) = elim (pick_latest rest) [
  | none ↦ some k
  | some other ↦ some (if leb other.created_at k.created_at then k else other)
]

-- What the code draws for one snapshot.
pub record Draws : Type 0 where
  pub dek : Text
  pub salt : Text
  pub kid : Text
  pub wrap_nonce : Text
  pub payload_nonce : Text

-- `if passphrase`
abbrev pub is_given : Option Text → Bool
is_given none = false
is_given (some p) = negb (is_empty p)

-- `_aad_for`, and the form before it
abbrev pub legacy_aad : Option ℕ → Text
legacy_aad account_id = codes "nks-wdc-snapshot-" ++ decimal (get_or account_id 0)

abbrev pub aad_for : Option ℕ → Text → Text
aad_for account_id kid = legacy_aad account_id ++ (codes "-" ++ kid)

abbrev pub key_by_kid : Text → AccountEncryptionKey → Bool
key_by_kid kid k = text_eq k.kid kid

-- the row of a key, and where its wrapping key comes from
unfoldable pub key_row : ℕ → Text → Draws → ℕ → Text → Result AccountEncryptionKey
key_row account_id source draws now wrapped = elim (pack_wrapped_dek wrapped draws.salt) [
  | err e ↦ err e
  | ok blob ↦ ok (record {
    kid = draws.kid;
    account_id = account_id;
    wrapped_dek = blob;
    kek_source = source;
    created_at = now;
    retired_at = none;
  })
]

-- the INSERT of a new key; the only conflict inside one transaction is a kid that is taken
unfoldable pub insert_key : AccountEncryptionKey → Exec AccountEncryptionKey
insert_key k w =
    let db = w.working in
    if is_some (find? (key_by_kid k.kid) db.encryption_keys)
    then (err integrity_error, w)
    else (ok k, record w { working = record db { encryption_keys = db.encryption_keys ++ k ∷ [] } })

module _ (ciphers : Ciphers) (settings : KeySettings) where
  -- a new key of `_active_key`
  unfoldable pub new_key : ℕ → Option Text → Draws → ℕ → Result AccountEncryptionKey
  new_key account_id none draws now =
      elim (wrap_dek ciphers settings draws.wrap_nonce draws.dek account_id draws.salt) [
        | err e ↦ err e
        | ok wrapped ↦
            key_row account_id (if settings.dev then codes "dev-ephemeral" else codes "master")
              draws now wrapped
      ]
  new_key account_id (some passphrase) draws now =
      elim (validate_passphrase_for_encrypt passphrase) [
        | err e ↦ err e
        | ok _ ↦ elim (derive_key_from_passphrase ciphers passphrase draws.salt) [
          | err e ↦ err e
          | ok kek ↦
              key_row account_id password_derived draws now
                (wrap_dek_with_kek ciphers draws.wrap_nonce draws.dek kek account_id)
        ]
      ]

  -- `_active_key`
  unfoldable pub active_key : ℕ → Option Text → Draws → ℕ → Exec AccountEncryptionKey
  active_key account_id passphrase draws now w =
      elim (pick_latest (select (is_active account_id passphrase) w.working.encryption_keys)) [
        | some k ↦ (ok k, w)
        | none ↦ elim (new_key account_id passphrase draws now) [
          | err e ↦ (err e, w)
          | ok k ↦ insert_key k w
        ]
      ]

  -- `_unwrap`
  unfoldable pub unwrap : AccountEncryptionKey → Option Text → Result Text
  unwrap k passphrase =
      let (wrapped, salt) = unpack_wrapped_dek k.wrapped_dek in
      if text_eq k.kek_source password_derived
      then (if is_given passphrase
          then elim (derive_key_from_passphrase ciphers (get_or passphrase []) salt) [
            | err e ↦ err e
            | ok kek ↦ unwrap_dek_with_kek ciphers wrapped kek k.account_id
          ]
          else err permission_error)
      else unwrap_dek ciphers settings wrapped k.account_id salt

  -- `_decrypt_with_kid`
  unfoldable pub decrypt_with_kid : Text → Option ℕ → Text → Option Text → Db → Result Text
  decrypt_with_kid kid account_id ciphertext passphrase db =
      elim (find? (key_by_kid kid) db.encryption_keys) [
        | none ↦ err runtime_error
        | some k ↦ elim (unwrap k passphrase) [
          | err e ↦ err e
          | ok dek ↦ elim (decrypt_payload ciphers ciphertext dek (aad_for account_id kid)) [
            | ok plain ↦ ok plain
            | err e ↦ decrypt_payload ciphers ciphertext dek (legacy_aad account_id)
          ]
        ]
      ]

-- The second compressor of the code, at a higher level, which the same decompressor reads.
pub record HighCompression (env : PackEnv) : Type 0 where
  pub compress_high : Text → Text
  pub decompress-compress_high : (t : Text) → env.decompress (compress_high t) ≡ some t

module _ (env : PackEnv) (high : HighCompression env) (ciphers : Ciphers)
    (settings : KeySettings) where
  abbrev pub sealed : SnapshotSpec → Text → PackedPayload
  sealed spec envelope = record {
    json_value = none;
    blob_value = some envelope;
    uri_value = none;
    compression = some (codes "zstd");
    size_bytes = length envelope;
    checksum = env.sha256 (env.canonical_bytes spec.payload);
  }

  -- the part of `create_snapshot` that encrypts, with the key that `_active_key` found or made
  unfoldable pub seal_snapshot :
      Option Text
      → Draws
      → SnapshotSpec
      → ℕ
      → Option DeviceSnapshot
      → AccountEncryptionKey
      → Exec DeviceSnapshot
  seal_snapshot passphrase draws spec now head k w = elim (unwrap ciphers settings k passphrase) [
    | err e ↦ (err e, w)
    | ok dek ↦
        let plain = high.compress_high (env.canonical_bytes spec.payload) in
        let envelope =
          encrypt_payload ciphers draws.payload_nonce plain dek (aad_for spec.account_id k.kid) in
        append_snapshot env spec (some k.kid) now (sealed spec envelope) head w
  ]

  unfoldable pub create_encrypted_snapshot :
      ℕ → Option Text → Draws → SnapshotSpec → ℕ → Exec DeviceSnapshot
  create_encrypted_snapshot account_id passphrase draws spec now w =
      let head = get_head spec.device_id w.working in
      let (found, w') = active_key ciphers settings account_id passphrase draws now w in
      elim found [ err e ↦ (err e, w') | ok k ↦ seal_snapshot passphrase draws spec now head k w' ]

  -- `create_snapshot`
  unfoldable pub create_snapshot :
      Bool → Option Text → Draws → SnapshotSpec → ℕ → Exec DeviceSnapshot
  create_snapshot encrypt passphrase draws spec now w =
      let raw = env.canonical_bytes spec.payload in
      if encrypt || is_given passphrase
      then elim spec.account_id [
        | some account_id ↦ create_encrypted_snapshot account_id passphrase draws spec now w
        | none ↦ elim (pack_from_raw env raw (env.sha256 raw) spec.payload none) [
          | none ↦ (err payload_too_large, w)
          | some packed ↦
              append_snapshot env spec none now packed (get_head spec.device_id w.working) w
        ]
      ]
      else create_plain_snapshot env spec now w

  abbrev pub or_value_error : Option Fields → Result Fields
  or_value_error none = err value_error
  or_value_error (some d) = ok d

  -- the payload behind a text that is not encrypted, or not any more
  abbrev pub read_plain : DeviceSnapshot → Result Text → Result Fields
  read_plain s (err e) = err e
  read_plain s (ok raw) = or_value_error (read_text env s.compression raw)

  -- `unpack_payload`
  unfoldable pub unpack_snapshot : Option Text → DeviceSnapshot → Db → Result Fields
  unpack_snapshot passphrase s db = elim s.payload_json [
    | some payload ↦ ok payload
    | none ↦ elim (stored_text env s) [
      | none ↦ err runtime_error
      | some raw ↦
          let kid = get_or s.encryption_kid [] in
          read_plain s (
            if is_empty kid
            then ok raw
            else decrypt_with_kid ciphers settings kid s.account_id raw passphrase db)
    ]
  ]
