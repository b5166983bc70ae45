-- ===== src/Encryption/Reading.antt =====
-- app/snapshots.py: an encrypted snapshot against `unpack_payload`.
use wdc_catalog_api.Base.{
  ℕ, ◌≡◌, refl, inl, inr, true, false, Option, none, some, [], Text, codes, text_eq, is_empty,
  is_some, get_or, length, find?, Bool-cases, arith, ap, ◌∙◌,
}
use wdc_catalog_api.Schema.{Db, AccountEncryptionKey, DeviceSnapshot}
use wdc_catalog_api.Session.{World, Result, ok, err, permission_error, Result-cases}
use wdc_catalog_api.Crypto.{Ciphers, KeySettings, nonce_bytes, encrypt_payload}
use wdc_catalog_api.Crypto.Wrapping.{decrypt_payload-encrypt_payload}
use wdc_catalog_api.Snapshots.{
  PackEnv, PackedPayload, SnapshotSpec, get_head, append_snapshot, insertable, set_head, read_text,
}
use wdc_catalog_api.Encryption.{
  Draws, aad_for, key_by_kid, active_key, unwrap, decrypt_with_kid, HighCompression, sealed,
  seal_snapshot, create_encrypted_snapshot, read_plain, unpack_snapshot,
}
use wdc_catalog_api.Encryption.Active.{
  UniqueKids, active_key-find?, active_key-source, shut_without,
}

module _ (env : PackEnv) (high : HighCompression env) (ciphers : Ciphers) (settings : KeySettings)
    (spec : SnapshotSpec) (now : ℕ) (passphrase : Option Text) (draws : Draws) where
  abbrev envelope_of : AccountEncryptionKey → Text → Text
  envelope_of k dek =
      encrypt_payload ciphers draws.payload_nonce
        (high.compress_high (env.canonical_bytes spec.payload)) dek (aad_for spec.account_id k.kid)

  -- what the row of an encrypted snapshot says, and that the keys stay
  append_snapshot_sealed :
      (kid : Text) (packed : PackedPayload) (head : Option DeviceSnapshot) (w : World)
      (snap : DeviceSnapshot)
      → (append_snapshot env spec (some kid) now packed head w).0 ≡ ok snap
      → (snap.payload_json ≡ packed.json_value)
        × (snap.payload_blob ≡ packed.blob_value)
        × (snap.compression ≡ packed.compression)
        × (snap.encryption_kid ≡ some kid)
        × (snap.account_id ≡ spec.account_id)
        × ((append_snapshot env spec (some kid) now packed head w).1.working.encryption_keys
            ≡ w.working.encryption_keys)
  unfolding append_snapshot set_head
  append_snapshot_sealed kid packed head w snap h =
      elim (Bool-cases (insertable env spec w.working)) [
        | inr bad ↦ absurd (ground (arith, h, bad))
        | inl good ↦ (
          ground (arith, h, good),
          ground (arith, h, good),
          ground (arith, h, good),
          ground (arith, h, good),
          ground (arith, h, good),
          rw (append_snapshot, good) refl,
        )
      ]

  -- A key that unwraps opens what was sealed under it.
  decrypt_with_kid-sealed :
      (k : AccountEncryptionKey) (dek : Text) (db : Db)
      → length draws.payload_nonce ≡ nonce_bytes
      → find? (key_by_kid k.kid) db.encryption_keys ≡ some k
      → unwrap ciphers settings k passphrase ≡ ok dek
      → decrypt_with_kid ciphers settings k.kid spec.account_id (envelope_of k dek) passphrase db
        ≡ ok (high.compress_high (env.canonical_bytes spec.payload))
  unfolding decrypt_with_kid
  decrypt_with_kid-sealed k dek db size there opened =
      rw
        (
          decrypt_with_kid,
          there,
          opened,
          decrypt_payload-encrypt_payload ciphers draws.payload_nonce size,
        )
        refl

  read_sealed :
      read_text env (some (codes "zstd")) (high.compress_high (env.canonical_bytes spec.payload))
      ≡ some (env.sorted spec.payload)
  unfolding text_eq
  read_sealed =
      rw
        (
          high.decompress-compress_high (env.canonical_bytes spec.payload),
          env.loads-canonical_bytes spec.payload,
        )
        refl

  abbrev head_before : World → Option DeviceSnapshot
  head_before w = get_head spec.device_id w.working

  abbrev keyed : ℕ → World → World
  keyed account_id w = (active_key ciphers settings account_id passphrase draws now w).1

  -- an encrypted snapshot was sealed under the active key, which unwraps
  create_encrypted_snapshot_inv :
      (account_id : ℕ) (w : World) (snap : DeviceSnapshot)
      → (create_encrypted_snapshot env high ciphers settings account_id passphrase draws spec now
          w).0
        ≡ ok snap
      → (k : AccountEncryptionKey) × (dek : Text) × ((active_key ciphers settings account_id
            passphrase draws now w).0
          ≡ ok k)
        × (unwrap ciphers settings k passphrase ≡ ok dek)
        × (create_encrypted_snapshot env high ciphers settings account_id passphrase draws spec now
              w
            ≡ append_snapshot env spec
                (some k.kid)
                now
                (sealed env high ciphers settings spec (envelope_of k dek))
                (head_before w)
                (keyed account_id w))
  unfolding create_encrypted_snapshot seal_snapshot
  create_encrypted_snapshot_inv account_id w snap h =
      elim (Result-cases (active_key ciphers settings account_id passphrase draws now w).0) [
        | inr (e, refused) ↦ absurd (ground (arith, h, refused))
        | inl (k, active) ↦ elim (Result-cases (unwrap ciphers settings k passphrase)) [
          | inr (e, shut) ↦ absurd (ground (arith, h, active, shut))
          | inl (dek, opened) ↦ (
            k,
            dek,
            active,
            opened,
            rw (create_encrypted_snapshot, active, seal_snapshot, opened) refl,
          )
        ]
      ]

  -- reading a sealed row is decryption under its key
  unpack_sealed :
      (k : AccountEncryptionKey) (envelope : Text) (given : Option Text) (snap : DeviceSnapshot)
      (db : Db)
      → snap.payload_json ≡ none
      → snap.payload_blob ≡ some envelope
      → snap.encryption_kid ≡ some k.kid
      → snap.account_id ≡ spec.account_id
      → is_empty (get_or snap.encryption_kid []) ≡ false
      → unpack_snapshot env high ciphers settings given snap db
        ≡ read_plain env high ciphers settings snap
            (decrypt_with_kid ciphers settings k.kid spec.account_id envelope given db)
  unfolding unpack_snapshot
  unpack_sealed k envelope given snap db inline blob kid owner named =
      let some_kid : is_empty k.kid ≡ false = rw kid at named in
      rw (unpack_snapshot, inline, blob, kid, some_kid, owner) refl

  read_opened :
      (snap : DeviceSnapshot) (opened : Result Text)
      → snap.compression ≡ some (codes "zstd")
      → opened ≡ ok (high.compress_high (env.canonical_bytes spec.payload))
      → read_plain env high ciphers settings snap opened ≡ ok (env.sorted spec.payload)
  read_opened snap opened compression plain = rw (plain, compression, read_sealed) refl

  module _ (account_id : ℕ) (w : World) (snap : DeviceSnapshot) (unique : UniqueKids w.working)
      (created : (create_encrypted_snapshot env high ciphers settings account_id passphrase draws
          spec now w).0
        ≡ ok snap)
      (named : is_empty (get_or snap.encryption_kid []) ≡ false) where
    abbrev after : Db
    after =
        (create_encrypted_snapshot env high ciphers settings account_id passphrase draws spec now
          w).1.working

    -- What a snapshot that was created says, and the key behind it.
    record SealedRow : Type 0 where
      key : AccountEncryptionKey
      dek : Text
      active : (active_key ciphers settings account_id passphrase draws now w).0 ≡ ok key
      opened : unwrap ciphers settings key passphrase ≡ ok dek
      compression : snap.compression ≡ some (codes "zstd")
      there : find? (key_by_kid key.kid) after.encryption_keys ≡ some key
      read :
          (given : Option Text)
          → unpack_snapshot env high ciphers settings given snap after
            ≡ read_plain env high ciphers settings snap (
                decrypt_with_kid ciphers settings key.kid spec.account_id
                  (envelope_of key dek)
                  given
                  after)

    sealed_row : SealedRow
    sealed_row =
        let (k, dek, active, opened, made) =
          create_encrypted_snapshot_inv account_id w snap created in
        let (inline, blob, compression, kid, owner, same_keys) =
          append_snapshot_sealed k.kid (sealed env high ciphers settings spec (envelope_of k dek))
            (head_before w) (keyed account_id w) snap (rw made at created) in
        record {
          key = k;
          dek = dek;
          active = active;
          opened = opened;
          compression = compression;
          there =
              ap (λ r. find? (key_by_kid k.kid) r.1.working.encryption_keys) made
              ∙ (ap (find? (key_by_kid k.kid)) same_keys
                  ∙ active_key-find? ciphers settings account_id now passphrase draws w k unique
                      active);
          read = λ given.
              unpack_sealed k (envelope_of k dek) given snap after inline blob kid owner named;
        }

    -- Once `create_snapshot` has encrypted a payload, `unpack_payload` with the same passphrase, or
    -- with none where none was used, answers that payload with its keys sorted. The kids of the
    -- table are distinct, and that of the snapshot is not the empty text.
    pub unpack_snapshot-create_encrypted_snapshot :
        length draws.payload_nonce ≡ nonce_bytes
        → unpack_snapshot env high ciphers settings passphrase snap after
          ≡ ok (env.sorted spec.payload)
    unpack_snapshot-create_encrypted_snapshot size =
        let row = sealed_row in
        row.read passphrase
        ∙ read_opened snap _ row.compression
            (decrypt_with_kid-sealed row.key row.dek after size row.there row.opened)

    -- A snapshot that was encrypted under a passphrase is not read without one: `unpack_payload`
    -- raises PermissionError. The kids of the table are distinct, and that of the snapshot is not
    -- the empty text.
    pub unpack_snapshot_without_passphrase :
        is_some passphrase ≡ true
        → unpack_snapshot env high ciphers settings none snap after ≡ err permission_error
    unpack_snapshot_without_passphrase given =
        let row = sealed_row in
        row.read none
        ∙ ap (read_plain env high ciphers settings snap) (
            shut_without ciphers settings row.key after (envelope_of row.key row.dek)
              spec.account_id row.there
              (active_key-source ciphers settings account_id now passphrase draws w row.key given
                row.active))
