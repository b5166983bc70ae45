-- ===== src/Pats/Lifecycle.antt =====
-- app/pats.py: authentication after `issue` and after `revoke`.
use wdc_catalog_api.Base.{
  ℕ, ◌≡◌, refl, ◌≢◌, true, false, none, some, [], ◌∷◌, ◌++◌, Text, text_eq_refl, is_some, ◌==◌, ◌⊎◌,
  take, starts_with, starts_with-append, find?, select, select-append, update_where_lem, Elem, All,
  All-Elem, UniqueKeys, find?-unique, Option-cases, inl, inr, arith, subst,
}
use wdc_catalog_api.Schema.{Db, Account, PersonalAccessToken}
use wdc_catalog_api.Session.{Request, World, ok}
use wdc_catalog_api.Passwords.{Bcrypt, verify-hash_password}
use wdc_catalog_api.Pats.{
  token_prefix, prefix_persisted_len, generate_token, pat_by_id, expired_at, PatSpec, new_pat,
  issue, first_match, is_candidate, stamp, resolve_match, try_authenticate_pat, mark_revoked,
  revoke,
}
use wdc_catalog_api.Pats.Lookup.{first_match-append, try_authenticate_pat_sound}

module _ (bcrypt : Bcrypt) where
  pub new_pat-is_candidate :
      (secret salt : Text) (spec : PatSpec) (db : Db)
      → is_candidate bcrypt
          (take prefix_persisted_len (generate_token secret))
          (new_pat bcrypt secret salt spec db)
        ≡ true
  new_pat-is_candidate secret salt spec db =
      rw (text_eq_refl (take prefix_persisted_len (generate_token secret)))

  module _ (secret salt : Text) (spec : PatSpec) (request : Request) (w : World) where
    abbrev bearer : Text
    bearer = generate_token secret

    has_prefix : starts_with token_prefix bearer ≡ true
    unfolding generate_token
    has_prefix = starts_with-append token_prefix secret

    abbrev row : PersonalAccessToken
    row = new_pat bcrypt secret salt spec w.working

    first_match-new :
        expired_at request.now spec.expires_at ≡ false
        → first_match bcrypt request.now bearer
            (select (is_candidate bcrypt (take prefix_persisted_len bearer)) w.working.pats)
          ≡ none
        → first_match bcrypt request.now bearer (
            select
              (is_candidate bcrypt (take prefix_persisted_len bearer))
              (w.working.pats ++ row ∷ []))
          ≡ some row
    unfolding select first_match
    first_match-new fresh others = rw select-append (
        rw (first_match-append bcrypt request.now bearer _ _ others) (
          ground (
            arith,
            text_eq_refl (take prefix_persisted_len bearer),
            verify-hash_password bcrypt salt bearer,
          )))

    -- A token that was just issued, and whose expiry is not reached, authenticates the account that
    -- it was issued for, if that account is there and not suspended and no older token with the
    -- same stored prefix checks against the new value.
    pub try_authenticate_pat-issue :
        {account : Account}
        → find? (λ (a : Account). a.id == spec.account_id) w.working.accounts ≡ some account
        → account.suspended_at ≡ none
        → expired_at request.now spec.expires_at ≡ false
        → first_match bcrypt request.now (generate_token secret) (
            select
              (is_candidate bcrypt (take prefix_persisted_len (generate_token secret)))
              w.working.pats)
          ≡ none
        → (try_authenticate_pat bcrypt
            (generate_token secret)
            request
            (issue bcrypt secret salt spec w).1).0
          ≡ ok (some (account, stamp bcrypt request (new_pat bcrypt secret salt spec w.working)))
    unfolding try_authenticate_pat issue resolve_match
    try_authenticate_pat-issue known active fresh others =
        ground (arith, first_match-new fresh others, has_prefix)

  -- `revoke` returns true for a token of the caller, which is then revoked, now or before.
  revoke_inv :
      (now account_id token_id : ℕ) (w : World)
      → (revoke now account_id token_id w).0 ≡ ok true
      → (row : PersonalAccessToken) × (find? (pat_by_id token_id) w.working.pats ≡ some row)
        × ((is_some row.revoked_at ≡ true) × ((revoke now account_id token_id w).1 ≡ w)
            ⊎ ((revoke now account_id token_id w).1.working ≡ mark_revoked now token_id w.working))
  unfolding revoke
  revoke_inv now account_id token_id w h =
      elim (Option-cases (find? (pat_by_id token_id) w.working.pats)) [
        | inl missing ↦ absurd (ground arith)
        | inr (row, found) ↦ (row, found, ground arith)
      ]

  abbrev DeadAt : ℕ → PersonalAccessToken → Type 0
  DeadAt token_id row = row.id ≡ token_id → is_some row.revoked_at ≡ true

  mark_revoked-DeadAt :
      (now token_id : ℕ) (db : Db) → All (DeadAt token_id) (mark_revoked now token_id db).pats
  mark_revoked-DeadAt now token_id db =
      update_where_lem (DeadAt token_id) (pat_by_id token_id) _ (λ x h e. refl)
        (λ x h e. absurd (ground arith)) db.pats

  -- Once `revoke` has returned true for a token, no bearer value authenticates as that token, at
  -- whatever instant, in a table where no two tokens share an id.
  pub revoke-dead :
      (now account_id token_id : ℕ) (w : World) (bearer : Text) (request : Request)
      (account : Account) (row : PersonalAccessToken)
      → UniqueKeys (λ (r : PersonalAccessToken). r.id) w.working.pats
      → (revoke now account_id token_id w).0 ≡ ok true
      → (try_authenticate_pat bcrypt bearer request (revoke now account_id token_id w).1).0
        ≡ ok (some (account, row))
      → row.id ≢ token_id
  revoke-dead now account_id token_id w bearer request account row unique revoked auth same =
      let (dead, found, how) = revoke_inv now account_id token_id w revoked in
      let w' = (revoke now account_id token_id w).1 in
      let (live, there, matches, _, stamped, _, _) =
        try_authenticate_pat_sound bcrypt bearer request w' account row auth in
      let same_id : live.id ≡ token_id = ground arith in
      elim how [
        | inl (was, unchanged) ↦
            let one : live ≡ dead =
              find?-unique _ token_id dead live w.working.pats unique found
                (subst (λ (v : World). Elem live v.working.pats) unchanged there) same_id in
            ground (arith, matches.not_revoked)
        | inr marked ↦
            let gone =
              All-Elem (DeadAt token_id) live _ (mark_revoked-DeadAt now token_id w.working)
                (subst (λ (db : Db). Elem live db.pats) marked there) same_id in
            ground (arith, matches.not_revoked)
      ]
