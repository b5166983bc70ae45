-- ===== src/Encryption/Keys.antt =====
-- app/snapshots.py: the binary form of a wrapped key, and the key of an account.
use wdc_catalog_api.Base.{
  ℕ, suc, ◌+◌, ◌*◌, ◌/◌, ◌%◌, ◌<◌, ◌≡◌, refl, inl, inr, Bool, true, false, Option, none, some, [],
  ◌∷◌, ◌++◌, Text, codes, text_eq, text_eq_refl, starts_with, if◌then◌else◌, ltb, ltb→lt, length,
  take, drop, take-append_length, drop-append_length, Bool-cases, arith, sym, ap, ◌∙◌,
}
use wdc_catalog_api.Schema.{AccountEncryptionKey}
use wdc_catalog_api.Session.{ok, Result-cases}
use wdc_catalog_api.Crypto.{
  Ciphers, KeySettings, nonce_bytes, validate_passphrase_for_encrypt, derive_key_from_passphrase,
  wrap_dek,
}
use wdc_catalog_api.Crypto.Wrapping.{unwrap_dek_with_kek-wrap_dek_with_kek, unwrap_dek-wrap_dek}
use wdc_catalog_api.Encryption.{
  uint32_be, pack_wrapped_dek, unpack_wrapped_dek, password_derived, Draws, key_row, new_key,
  unwrap, is_given,
}

four_bytes :
    (n : ℕ)
    → n < 4294967296
    → (((0 + n / 16777216) * 256 + n / 65536 % 256) * 256 + n / 256 % 256) * 256 + n % 256 ≡ n
four_bytes n h = omega arith

plus_four : (n : ℕ) → 4 + n ≡ suc (suc (suc (suc n)))
plus_four n = omega arith

split_after :
    (wrapped salt : Text) (a b c d n : ℕ)
    → n ≡ length wrapped
    → Path
        (Text × Text)
        (take n (wrapped ++ salt), drop (4 + n) (a ∷ b ∷ c ∷ d ∷ (wrapped ++ salt)))
        (wrapped, salt)
split_after wrapped salt a b c d n h =
    rw (plus_four n, h, take-append_length wrapped salt, drop-append_length wrapped salt) refl

uint32_be_inv :
    (n : ℕ) (size : Text)
    → uint32_be n ≡ ok size
    → (size ≡ n / 16777216 ∷ n / 65536 % 256 ∷ n / 256 % 256 ∷ n % 256 ∷ []) × (n < 4294967296)
unfolding uint32_be
uint32_be_inv n size h = elim (Bool-cases (ltb n 4294967296)) [
  | inl fits ↦ (ground (arith, h, fits), ltb→lt _ _ fits)
  | inr large ↦ absurd (ground (arith, h, large))
]

-- A wrapped key and its salt are read back from the bytes that they were packed into, whatever
-- bytes they have.
pub unpack_wrapped_dek-pack_wrapped_dek :
    (wrapped salt blob : Text)
    → pack_wrapped_dek wrapped salt ≡ ok blob
    → unpack_wrapped_dek blob ≡ (wrapped, salt)
unfolding pack_wrapped_dek unpack_wrapped_dek starts_with
unpack_wrapped_dek-pack_wrapped_dek wrapped salt blob h =
    elim (Result-cases (uint32_be (length wrapped))) [
      | inr (e, large) ↦ absurd (ground (arith, h, large))
      | inl (size, fits) ↦
          let (bytes, small) = uint32_be_inv (length wrapped) size fits in
          let whole : codes "v1" ++ (size ++ (wrapped ++ salt)) ≡ blob = ground (arith, h, fits) in
          rw (sym whole, bytes) (split_after wrapped salt _ _ _ _ _ (four_bytes _ small))
    ]

-- The two sources that need no passphrase are not the one that does.
master_source :
    (dev : Bool)
    → text_eq (if dev then codes "dev-ephemeral" else codes "master") password_derived ≡ false
unfolding text_eq
master_source true = refl
master_source false = refl

module _ (ciphers : Ciphers) (settings : KeySettings) (account_id : ℕ) (draws : Draws) (now : ℕ)
    (size : length draws.wrap_nonce ≡ nonce_bytes) where
  key_row_lem :
      (source wrapped : Text) (k : AccountEncryptionKey)
      → key_row account_id source draws now wrapped ≡ ok k
      → (unpack_wrapped_dek k.wrapped_dek ≡ (wrapped, draws.salt))
        × (k.kek_source ≡ source)
        × (k.account_id ≡ account_id)
        × (k.kid ≡ draws.kid)
  unfolding key_row
  key_row_lem source wrapped k h = elim (Result-cases (pack_wrapped_dek wrapped draws.salt)) [
    | inr (e, large) ↦ absurd (ground (arith, h, large))
    | inl (blob, packed) ↦ (
      unpack_wrapped_dek-pack_wrapped_dek wrapped draws.salt k.wrapped_dek
          (packed ∙ ap (λ b. ok b) (ground (arith, h, packed))),
      ground (arith, h, packed),
      ground (arith, h, packed),
      ground (arith, h, packed),
    )
  ]

  given : (p : Text) → validate_passphrase_for_encrypt p ≡ ok tt → is_given (some p) ≡ true
  unfolding validate_passphrase_for_encrypt
  given [] h = cc
  given (c ∷ p) h = refl

  -- A new key unwraps to the key that was drawn for it, with the passphrase it was made with or
  -- with the master key.
  pub unwrap-new_key :
      (passphrase : Option Text) (k : AccountEncryptionKey)
      → new_key ciphers settings account_id passphrase draws now ≡ ok k
      → unwrap ciphers settings k passphrase ≡ ok draws.dek
  unfolding new_key unwrap
  unwrap-new_key none k h =
      elim (Result-cases
        (wrap_dek ciphers settings draws.wrap_nonce draws.dek account_id draws.salt)) [
          | inr (e, missing) ↦ absurd (ground (arith, h, missing))
          | inl (wrapped, done) ↦
              let (parts, source, owner, kid) =
                key_row_lem (if settings.dev then codes "dev-ephemeral" else codes "master") wrapped
                  k (rw (new_key, done) at h) in
              rw (unwrap, parts, owner, source, master_source settings.dev)
                (unwrap_dek-wrap_dek ciphers draws.wrap_nonce size settings draws.dek draws.salt
                  wrapped account_id done)
        ]
  unwrap-new_key (some p) k h = elim (Result-cases (validate_passphrase_for_encrypt p)) [
    | inr (e, short) ↦ absurd (ground (arith, h, short))
    | inl (done, long) ↦ elim (Result-cases (derive_key_from_passphrase ciphers p draws.salt)) [
      | inr (e, bad) ↦ absurd (ground (arith, h, long, bad))
      | inl (kek, derived) ↦
          let (parts, source, owner, kid) =
            key_row_lem password_derived _ k (rw (new_key, long, derived) at h) in
          rw
            (
              unwrap,
              source,
              text_eq_refl password_derived,
              given p long,
              parts,
              derived,
              parts,
              owner,
            )
            (unwrap_dek_with_kek-wrap_dek_with_kek ciphers draws.wrap_nonce size draws.dek kek
              account_id)
    ]
  ]
