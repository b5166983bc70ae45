-- ===== src/Encryption/Heads.antt =====
-- app/snapshots.py, `create_snapshot` with and without encryption: the HEAD pointers.
use wdc_catalog_api.Base.{
  ℕ, inl, inr, Bool, Option, none, some, Text, ◌||◌, is_some, find?, select, Bool-cases,
  Option-cases,
}
use wdc_catalog_api.Schema.{Db, AccountEncryptionKey, DeviceSnapshot}
use wdc_catalog_api.Session.{World, Result-cases}
use wdc_catalog_api.Crypto.{Ciphers, KeySettings}
use wdc_catalog_api.Purge.Chunks.{HeadsValid}
use wdc_catalog_api.Purge.Frame.{UniqueSnapshots}
use wdc_catalog_api.Snapshots.{PackEnv, SnapshotSpec, get_head, pack_from_raw}
use wdc_catalog_api.Snapshots.Moves.{append_snapshot-HeadsValid, create_plain_snapshot-HeadsValid}
use wdc_catalog_api.Encryption.{
  Draws, is_given, is_active, pick_latest, key_by_kid, insert_key, new_key, active_key, unwrap,
  HighCompression, sealed, seal_snapshot, create_encrypted_snapshot, create_snapshot,
}

-- Every HEAD is at a snapshot of its device, and the ids of the snapshots are distinct.
abbrev pub SnapshotsValid : Db → Type 0
SnapshotsValid db = HeadsValid db × UniqueSnapshots db

insert_key-SnapshotsValid :
    (k : AccountEncryptionKey) (w : World)
    → SnapshotsValid w.working
    → SnapshotsValid (insert_key k w).1.working
unfolding insert_key
insert_key-SnapshotsValid k w valid =
    elim (Bool-cases (is_some (find? (key_by_kid k.kid) w.working.encryption_keys))) [
      | inl taken ↦ rw (insert_key, taken) valid
      | inr free ↦ rw (insert_key, free) valid
    ]

module _ (env : PackEnv) (high : HighCompression env) (ciphers : Ciphers)
    (settings : KeySettings) where
  active_key-SnapshotsValid :
      (account_id : ℕ) (passphrase : Option Text) (draws : Draws) (now : ℕ) (w : World)
      → SnapshotsValid w.working
      → SnapshotsValid (active_key ciphers settings account_id passphrase draws now w).1.working
  unfolding active_key
  active_key-SnapshotsValid account_id passphrase draws now w valid =
      elim (Option-cases
        (pick_latest (select (is_active account_id passphrase) w.working.encryption_keys))) [
          | inr (k, there) ↦ rw (active_key, there) valid
          | inl missing ↦
              elim (Result-cases (new_key ciphers settings account_id passphrase draws now)) [
                | inr (e, raised) ↦ rw (active_key, missing, raised) valid
                | inl (k, made) ↦
                    rw (active_key, missing, made) (insert_key-SnapshotsValid k w valid)
              ]
        ]

  module _ (passphrase : Option Text) (draws : Draws) (spec : SnapshotSpec) (now : ℕ) where
    seal_snapshot-SnapshotsValid :
        (head : Option DeviceSnapshot) (k : AccountEncryptionKey) (w : World)
        → SnapshotsValid w.working
        → SnapshotsValid
            (seal_snapshot env high ciphers settings passphrase draws spec now head k w).1.working
    unfolding seal_snapshot
    seal_snapshot-SnapshotsValid head k w (valid, unique) =
        elim (Result-cases (unwrap ciphers settings k passphrase)) [
          | inr (e, raised) ↦ rw (seal_snapshot, raised) (valid, unique)
          | inl (dek, known) ↦
              rw (seal_snapshot, known)
                (append_snapshot-HeadsValid env spec now (some k.kid)
                  (sealed env high ciphers settings spec _) head w valid unique)
        ]

    create_encrypted_snapshot-SnapshotsValid :
        (account_id : ℕ) (w : World)
        → SnapshotsValid w.working
        → SnapshotsValid
            (create_encrypted_snapshot env high ciphers settings account_id passphrase draws spec
              now w).1.working
    unfolding create_encrypted_snapshot
    create_encrypted_snapshot-SnapshotsValid account_id w valid =
        let kept = active_key-SnapshotsValid account_id passphrase draws now w valid in
        elim (Result-cases (active_key ciphers settings account_id passphrase draws now w).0) [
          | inr (e, raised) ↦ rw (create_encrypted_snapshot, raised) kept
          | inl (k, there) ↦
              rw (create_encrypted_snapshot, there)
                (seal_snapshot-SnapshotsValid (get_head spec.device_id w.working) k _ kept)
        ]

    -- `create_snapshot`, with encryption, with a passphrase or with neither, and whether it returns or
    -- raises, keeps the ids of the snapshots distinct and every HEAD at a snapshot of its device: the
    -- conditions under which the purge is safe.
    pub create_snapshot-HeadsValid :
        (encrypt : Bool) (w : World)
        → HeadsValid w.working
        → UniqueSnapshots w.working
        → HeadsValid
            (create_snapshot env high ciphers settings encrypt passphrase draws spec now
              w).1.working
          × UniqueSnapshots
              (create_snapshot env high ciphers settings encrypt passphrase draws spec now
                w).1.working
    unfolding create_snapshot
    create_snapshot-HeadsValid encrypt w valid unique =
        let raw = env.canonical_bytes spec.payload in
        elim (Bool-cases (encrypt || is_given passphrase)) [
          | inr plain ↦
              rw (create_snapshot, plain)
                (create_plain_snapshot-HeadsValid env spec now w valid unique)
          | inl secret ↦ elim (Option-cases spec.account_id) [
            | inr (id, known) ↦
                rw (create_snapshot, secret, known)
                  (create_encrypted_snapshot-SnapshotsValid id w (valid, unique))
            | inl nobody ↦
                elim (Option-cases (pack_from_raw env raw (env.sha256 raw) spec.payload none)) [
                  | inl large ↦ rw (create_snapshot, secret, nobody, large) (valid, unique)
                  | inr (packed, fits) ↦
                      rw (create_snapshot, secret, nobody, fits)
                        (append_snapshot-HeadsValid env spec now none packed
                          (get_head spec.device_id w.working) w valid unique)
                ]
          ]
        ]
