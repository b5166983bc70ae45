-- ===== src/Crypto/Wrapping.antt =====
-- app/crypto.py: decryption against encryption, unwrapping against wrapping.
use wdc_catalog_api.Base.{
  ℕ, ◌≡◌, refl, ◌++◌, Text, length, take, drop, take-append_length, drop-append_length, inl, inr,
  subst, arith,
}
use wdc_catalog_api.Session.{ok, Result-cases}
use wdc_catalog_api.Crypto.{
  Ciphers, KeySettings, aad, nonce_bytes, or_invalid_tag, derive_kek, encrypt_payload,
  decrypt_payload, wrap_dek_with_kek, unwrap_dek_with_kek, wrap_dek, unwrap_dek,
}

module _ (ciphers : Ciphers) (nonce : Text) (size : length nonce ≡ nonce_bytes) where
  -- an envelope is opened under the key and the additional data that closed it
  envelope :
      (key extra plain : Text)
      → or_invalid_tag (
          ciphers.decrypt key
            (take nonce_bytes (nonce ++ ciphers.encrypt key nonce extra plain))
            extra
            (drop nonce_bytes (nonce ++ ciphers.encrypt key nonce extra plain)))
        ≡ ok plain
  envelope key extra plain =
      subst
        (λ n.
          or_invalid_tag (
            ciphers.decrypt key (take n (nonce ++ ciphers.encrypt key nonce extra plain)) extra
              (drop n (nonce ++ ciphers.encrypt key nonce extra plain)))
          ≡ ok plain)
        size
        (rw
          (
            take-append_length nonce (ciphers.encrypt key nonce extra plain),
            drop-append_length nonce (ciphers.encrypt key nonce extra plain),
            ciphers.decrypt-encrypt key nonce extra plain,
          )
          refl)

  pub decrypt_payload-encrypt_payload :
      (plain dek extra : Text)
      → decrypt_payload ciphers (encrypt_payload ciphers nonce plain dek extra) dek extra ≡ ok plain
  unfolding decrypt_payload encrypt_payload
  decrypt_payload-encrypt_payload plain dek extra = envelope dek extra plain

  pub unwrap_dek_with_kek-wrap_dek_with_kek :
      (dek kek : Text) (account_id : ℕ)
      → unwrap_dek_with_kek ciphers
          (wrap_dek_with_kek ciphers nonce dek kek account_id)
          kek
          account_id
        ≡ ok dek
  unfolding unwrap_dek_with_kek wrap_dek_with_kek
  unwrap_dek_with_kek-wrap_dek_with_kek dek kek account_id = envelope kek (aad account_id) dek

  pub unwrap_dek-wrap_dek :
      (settings : KeySettings) (dek salt wrapped : Text) (account_id : ℕ)
      → wrap_dek ciphers settings nonce dek account_id salt ≡ ok wrapped
      → unwrap_dek ciphers settings wrapped account_id salt ≡ ok dek
  unfolding wrap_dek unwrap_dek
  unwrap_dek-wrap_dek settings dek salt wrapped account_id h =
      elim (Result-cases (derive_kek ciphers settings account_id salt)) [
        | inr (e, missing) ↦ absurd (ground (arith, h, missing))
        | inl (kek, derived) ↦
            let one : nonce ++ ciphers.encrypt kek nonce (aad account_id) dek ≡ wrapped =
              ground (arith, h, derived) in
            rw (unwrap_dek, derived)
              (subst
                (λ t.
                  or_invalid_tag
                    (ciphers.decrypt kek (take nonce_bytes t) (aad account_id) (drop nonce_bytes t))
                  ≡ ok dek)
                one (envelope kek (aad account_id) dek))
      ]
