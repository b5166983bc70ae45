-- ===== src/Crypto.antt =====
-- app/crypto.py: keys that encrypt payloads, wrapped under the key of an account. AES-GCM, HKDF,
-- Argon2id and SHA-256 are parameters; the nonces and keys that the code draws are arguments.
pub mod Wrapping
use wdc_catalog_api.Base.{
  ℕ, ◌+◌, ◌≡◌, Bool, true, false, Option, none, some, List, [], ◌∷◌, ◌++◌, Text, codes, decimal,
  is_empty, if◌then◌else◌, ltb, length, take, drop,
}
use wdc_catalog_api.Session.{Result, ok, err, Exn, value_error, runtime_error, invalid_tag}

-- What the code relies on: AES-GCM decrypts what it encrypted, under the same key, nonce and
-- additional data. Decryption of anything else may raise, and so it is with a key of the wrong size.
pub record Ciphers : Type 0 where
  pub encrypt : Text → Text → Text → Text → Text
  pub decrypt : Text → Text → Text → Text → Option Text
  pub decrypt-encrypt :
      (key nonce aad plain : Text)
      → decrypt key nonce aad (encrypt key nonce aad plain) ≡ some plain
  pub hkdf : Text → Text → Text → Text
  pub argon2 : Text → Text → Text
  pub sha256 : Text → Text
  pub utf8 : Text → Text

-- The environment of the process, and the key that it draws when it first needs one in development.
pub record KeySettings : Type 0 where
  pub master_key : Option Text
  pub allow_weak : Bool
  pub dev : Bool
  pub ephemeral : Text

abbrev pub aes_key_bytes : ℕ
aes_key_bytes = 32

abbrev pub nonce_bytes : ℕ
nonce_bytes = 12

abbrev pub min_passphrase_chars : ℕ
min_passphrase_chars = 12

-- `_aad`
abbrev pub aad : ℕ → Text
aad account_id = codes "nks-wdc-account-" ++ decimal account_id

-- `validate_passphrase_for_encrypt`
unfoldable pub validate_passphrase_for_encrypt : Text → Result Unit
validate_passphrase_for_encrypt passphrase =
    if ltb (length passphrase) min_passphrase_chars then err value_error else ok tt

-- what `decrypt` of the library raises
abbrev pub or_invalid_tag : Option Text → Result Text
or_invalid_tag none = err invalid_tag
or_invalid_tag (some t) = ok t

-- the key of the development mode, if that is on
abbrev pub dev_key : KeySettings → Result Text
dev_key settings = if settings.dev then ok settings.ephemeral else err runtime_error

module _ (ciphers : Ciphers) where
  -- `master_key`
  unfoldable pub master_key : KeySettings → Result Text
  master_key settings = elim settings.master_key [
    | none ↦ dev_key settings
    | some text ↦
        let key = ciphers.utf8 text in
        if is_empty text
        then dev_key settings
        else if ltb (length key) aes_key_bytes
        then (if settings.allow_weak
            then ok (take aes_key_bytes (ciphers.sha256 key))
            else err runtime_error)
        else ok (take aes_key_bytes key)
  ]

  -- `_derive_kek`
  unfoldable pub derive_kek : KeySettings → ℕ → Text → Result Text
  derive_kek settings account_id salt = elim (master_key settings) [
    | err e ↦ err e
    | ok key ↦ ok (
        ciphers.hkdf key salt
          (codes "nks-wdc-catalog-kek/v1" ++ (codes "|account=" ++ decimal account_id)))
  ]

  -- `encrypt_payload`: the nonce, then the ciphertext
  unfoldable pub encrypt_payload : Text → Text → Text → Text → Text
  encrypt_payload nonce plaintext dek extra = nonce ++ ciphers.encrypt dek nonce extra plaintext

  -- `decrypt_payload`
  unfoldable pub decrypt_payload : Text → Text → Text → Result Text
  decrypt_payload ciphertext dek extra =
      or_invalid_tag
        (ciphers.decrypt dek (take nonce_bytes ciphertext) extra (drop nonce_bytes ciphertext))

  -- `wrap_dek_with_kek`
  unfoldable pub wrap_dek_with_kek : Text → Text → Text → ℕ → Text
  wrap_dek_with_kek nonce dek kek account_id =
      nonce ++ ciphers.encrypt kek nonce (aad account_id) dek

  -- `unwrap_dek_with_kek`
  unfoldable pub unwrap_dek_with_kek : Text → Text → ℕ → Result Text
  unwrap_dek_with_kek wrapped kek account_id =
      or_invalid_tag
        (ciphers.decrypt kek (take nonce_bytes wrapped) (aad account_id) (drop nonce_bytes wrapped))

  -- `wrap_dek`
  unfoldable pub wrap_dek : KeySettings → Text → Text → ℕ → Text → Result Text
  wrap_dek settings nonce dek account_id salt = elim (derive_kek settings account_id salt) [
    | err e ↦ err e
    | ok kek ↦ ok (nonce ++ ciphers.encrypt kek nonce (aad account_id) dek)
  ]

  -- `unwrap_dek`
  unfoldable pub unwrap_dek : KeySettings → Text → ℕ → Text → Result Text
  unwrap_dek settings wrapped account_id salt = elim (derive_kek settings account_id salt) [
    | err e ↦ err e
    | ok kek ↦
        or_invalid_tag (
          ciphers.decrypt kek (take nonce_bytes wrapped) (aad account_id)
            (drop nonce_bytes wrapped))
  ]

  -- `derive_key_from_passphrase`
  unfoldable pub derive_key_from_passphrase : Text → Text → Result Text
  derive_key_from_passphrase passphrase salt =
      if ltb (length passphrase) 8
      then err value_error
      else if ltb (length salt) 16
      then err value_error
      else ok (ciphers.argon2 (ciphers.utf8 passphrase) salt)
