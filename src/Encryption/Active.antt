-- ===== src/Encryption/Active.antt =====
-- app/snapshots.py, `_active_key`: the key that a snapshot is encrypted under.
use wdc_catalog_api.Base.{
  ℕ, ◌≡◌, refl, inl, inr, true, Option, none, some, List, [], ◌∷◌, Text, text_eq, text_eq_refl,
  text_eq→eq, is_some, leb, ◌==◌, negb, ◌&&◌, and_true, find?, find?-append, find?_holds,
  find?-Elem, is_some-find?, select, select-Elem, Elem, Bool-cases, Option-cases, arith, sym, ap,
  ◌∙◌, subst,
}
use wdc_catalog_api.Schema.{Db, AccountEncryptionKey}
use wdc_catalog_api.Session.{World, ok, err, permission_error, Result-cases}
use wdc_catalog_api.Batches.{text_key, DistinctKeys}
use wdc_catalog_api.Batches.Equivalence.{DistinctKeys-Elem}
use wdc_catalog_api.Crypto.{Ciphers, KeySettings}
use wdc_catalog_api.Encryption.{
  is_active, password_derived, pick_latest, Draws, key_by_kid, new_key, key_row, insert_key,
  active_key, unwrap, decrypt_with_kid,
}

-- No two keys have the same kid.
abbrev pub UniqueKids : Db → Type 0
UniqueKids db = DistinctKeys text_key (λ (k : AccountEncryptionKey). k.kid) db.encryption_keys

pick_latest-Elem :
    (rows : List AccountEncryptionKey) (k : AccountEncryptionKey)
    → pick_latest rows ≡ some k
    → Elem k rows
unfolding pick_latest
pick_latest-Elem [] k h = cc
pick_latest-Elem (x ∷ rest) k h = elim (Option-cases (pick_latest rest)) [
  | inl alone ↦ inl (ground (arith, h, alone))
  | inr (other, later) ↦ elim (Bool-cases (leb other.created_at x.created_at)) [
    | inl newer ↦ inl (ground (arith, h, later, newer))
    | inr older ↦
        let same : other ≡ k = ground (arith, h, later, older) in
        inr (subst (λ y. Elem y rest) same (pick_latest-Elem rest other later))
  ]
]

-- A key of the table is found by its kid.
find?-kid :
    (db : Db) (k : AccountEncryptionKey)
    → UniqueKids db
    → Elem k db.encryption_keys
    → find? (key_by_kid k.kid) db.encryption_keys ≡ some k
find?-kid db k unique m = elim (Option-cases (find? (key_by_kid k.kid) db.encryption_keys)) [
  | inl missing ↦ absurd (
      ground (
        arith,
        missing,
        is_some-find? (key_by_kid k.kid) k db.encryption_keys m (text_eq_refl k.kid),
      ))
  | inr (other, there) ↦
      let same_kid =
        text_eq→eq other.kid k.kid
          (find?_holds (key_by_kid k.kid) db.encryption_keys other there) in
      let one =
        DistinctKeys-Elem text_key (λ (x : AccountEncryptionKey). x.kid) db.encryption_keys other k
          unique (find?-Elem (key_by_kid k.kid) db.encryption_keys other there) m same_kid in
      there ∙ ap (λ x. some x) one
]

module _ (ciphers : Ciphers) (settings : KeySettings) where
  -- the key that a snapshot gets is in the table, under its kid
  pub active_key-find? :
      (account_id now : ℕ) (passphrase : Option Text) (draws : Draws) (w : World)
      (k : AccountEncryptionKey)
      → UniqueKids w.working
      → (active_key ciphers settings account_id passphrase draws now w).0 ≡ ok k
      → find?
          (key_by_kid k.kid)
          (active_key ciphers settings account_id passphrase draws now w).1.working.encryption_keys
        ≡ some k
  unfolding active_key insert_key find?
  active_key-find? account_id now passphrase draws w k unique h =
      elim (Option-cases
        (pick_latest (select (is_active account_id passphrase) w.working.encryption_keys))) [
          | inr (old, there) ↦
              let same : old ≡ k = ground (arith, h, there) in
              let (m, _) =
                select-Elem (is_active account_id passphrase) old w.working.encryption_keys
                  (pick_latest-Elem _ old there) in
              rw (active_key, there)
                (find?-kid w.working k unique
                  (subst (λ x. Elem x w.working.encryption_keys) same m))
          | inl missing ↦
              elim (Result-cases (new_key ciphers settings account_id passphrase draws now)) [
                | inr (e, refused) ↦ absurd (ground (arith, h, missing, refused))
                | inl (made, drawn) ↦
                    elim (Option-cases (find? (key_by_kid made.kid) w.working.encryption_keys)) [
                      | inr (other, taken) ↦ absurd (ground (arith, h, missing, drawn, taken))
                      | inl free ↦
                          let same : made ≡ k = ground (arith, h, missing, drawn, free) in
                          let new =
                            subst
                              (λ (x : AccountEncryptionKey).
                                find? (key_by_kid x.kid) w.working.encryption_keys ≡ none)
                              same free in
                          rw (active_key, missing, drawn, same, insert_key, new)
                            (rw
                              (
                                find?-append (key_by_kid k.kid) w.working.encryption_keys (k ∷ []),
                                new,
                                text_eq_refl k.kid,
                              )
                              refl)
                    ]
              ]
        ]

  new_key-source :
      (account_id now : ℕ) (p : Text) (draws : Draws) (k : AccountEncryptionKey)
      → new_key ciphers settings account_id (some p) draws now ≡ ok k
      → k.kek_source ≡ password_derived
  unfolding new_key key_row
  new_key-source account_id now p draws k h = ground (arith, h)

  -- a key that is made or found for a passphrase is derived from one
  pub active_key-source :
      (account_id now : ℕ) (passphrase : Option Text) (draws : Draws) (w : World)
      (k : AccountEncryptionKey)
      → is_some passphrase ≡ true
      → (active_key ciphers settings account_id passphrase draws now w).0 ≡ ok k
      → text_eq k.kek_source password_derived ≡ true
  unfolding active_key insert_key
  active_key-source account_id now none draws w k given h = cc
  active_key-source account_id now (some p) draws w k given h =
      elim (Option-cases
        (pick_latest (select (is_active account_id (some p)) w.working.encryption_keys))) [
          | inr (old, there) ↦
              let same : old ≡ k = ground (arith, h, there) in
              let (_, hit) =
                select-Elem (is_active account_id (some p)) old w.working.encryption_keys
                  (pick_latest-Elem _ old there) in
              rw same at
                (and_true (old.account_id == account_id && negb (is_some old.retired_at)) _ hit).1
          | inl missing ↦
              elim (Result-cases (new_key ciphers settings account_id (some p) draws now)) [
                | inr (e, refused) ↦ absurd (ground (arith, h, missing, refused))
                | inl (made, drawn) ↦
                    let same : made ≡ k = ground (arith, h, missing, drawn) in
                    rw (sym same, new_key-source account_id now p draws made drawn)
                      (text_eq_refl password_derived)
              ]
        ]

  pub shut_without :
      (k : AccountEncryptionKey) (db : Db) (ciphertext : Text) (account_id : Option ℕ)
      → find? (key_by_kid k.kid) db.encryption_keys ≡ some k
      → text_eq k.kek_source password_derived ≡ true
      → decrypt_with_kid ciphers settings k.kid account_id ciphertext none db ≡ err permission_error
  unfolding decrypt_with_kid unwrap
  shut_without k db ciphertext account_id there source =
      rw (decrypt_with_kid, there, unwrap, source) refl
