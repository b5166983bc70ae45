-- ===== src/Login/Sessions.antt =====
-- app/devices.py, `logout`, and the requests that come after it on the same process.
use wdc_catalog_api.Base.{
  ℕ, ◌≡◌, ◌++◌, if◌then◌else◌, true, false, none, some, [], ◌∷◌, Text, text_eq_refl, is_some,
  is_empty, starts_with, find?, find?-append, arith, Option-cases, inl, inr,
}
use wdc_catalog_api.Schema.{Db, RevokedToken}
use wdc_catalog_api.Cache.{get, invalidate, entry_of, entry_of-pop_entry}
use wdc_catalog_api.Session.{Request, World, ok, err, http, run_request}
use wdc_catalog_api.Session.Transaction.{result-run_request}
use wdc_catalog_api.Passwords.{Bcrypt}
use wdc_catalog_api.Pats.{token_prefix}
use wdc_catalog_api.IpRanges.{IpLibrary}
use wdc_catalog_api.Auth.{
  Claims, JwtCodec, token_by_jti, is_revoked, jti_revoked, jwt_account, get_current_account,
}
use wdc_catalog_api.Login.{logout, revocation}

-- what a logout leaves of the tables
abbrev add_revoked : RevokedToken → Db → Db
add_revoked row db =
    if is_some (find? (token_by_jti row.jti) db.revoked_tokens)
    then db
    else record db { revoked_tokens = db.revoked_tokens ++ row ∷ [] }

add_revoked_lem :
    (row : RevokedToken) (db : Db)
    → is_some (find? (token_by_jti row.jti) (add_revoked row db).revoked_tokens) ≡ true
unfolding find?
add_revoked_lem row db = elim (Option-cases (find? (token_by_jti row.jti) db.revoked_tokens)) [
  | inl new ↦ rw new (rw (find?-append, new) (rw (text_eq_refl row.jti)))
  | inr (old, there) ↦ rw there (rw there)
]

module _ (bcrypt : Bcrypt) (jwt : JwtCodec) (ips : IpLibrary) where
  logout_lem :
      (request : Request) (w : World) (bearer : Text) {claims : Claims} {id : ℕ}
      → jwt.decode request.now bearer ≡ some claims
      → claims.sub ≡ some id
      → is_empty claims.jti ≡ false
      → run_request (logout jwt (some bearer) request) w ≡ (
        ok true,
        record w {
          committed = add_revoked (revocation claims id) w.committed;
          working = add_revoked (revocation claims id) w.committed;
          revoked_cache = invalidate (some claims.jti) w.revoked_cache;
        },
      )
  unfolding run_request logout
  logout_lem request w bearer {claims} {id} decoded named nonempty =
      elim (Option-cases (find? (token_by_jti claims.jti) w.committed.revoked_tokens)) [
        | inl new ↦ ground (arith, new, named)
        | inr (old, there) ↦ ground (arith, there)
      ]

  -- A denied jti counts as revoked where the cache has no answer.
  jti_revoked_miss :
      (now : ℕ) (jti : Text) (w : World)
      → is_empty jti ≡ false
      → entry_of jti w.revoked_cache.store ≡ none
      → is_some (find? (token_by_jti jti) w.working.revoked_tokens) ≡ true
      → (jti_revoked now jti w).0 ≡ ok true
  unfolding is_revoked get
  jti_revoked_miss now [] w nonempty miss there = cc
  jti_revoked_miss now (c ∷ jti) w nonempty miss there = ground arith

  revoked_refused :
      (request : Request) (w : World) (bearer : Text) {claims : Claims} {id : ℕ}
      → starts_with token_prefix bearer ≡ false
      → jwt.decode request.now bearer ≡ some claims
      → claims.sub ≡ some id
      → (jti_revoked request.now claims.jti w).0 ≡ ok true
      → (get_current_account bcrypt jwt ips (some bearer) request w).0
        ≡ err (http 401 "Token has been revoked")
  unfolding get_current_account jwt_account
  revoked_refused request w bearer plain decoded named revoked = ground arith

  cache_miss :
      (jti : Text) (w : World) → entry_of jti (invalidate (some jti) w.revoked_cache).store ≡ none
  unfolding invalidate
  cache_miss jti w = rw entry_of-pop_entry (rw text_eq_refl)

  -- After a logout, the next request that brings the same token to the process, at any instant at
  -- which it still decodes to the same claims, is refused with 401.
  pub get_current_account-logout :
      (request later : Request) (w : World) (bearer : Text) {claims : Claims} {id : ℕ}
      → starts_with token_prefix bearer ≡ false
      → jwt.decode request.now bearer ≡ some claims
      → jwt.decode later.now bearer ≡ some claims
      → claims.sub ≡ some id
      → is_empty claims.jti ≡ false
      → (run_request
          (get_current_account bcrypt jwt ips (some bearer) later)
          (run_request (logout jwt (some bearer) request) w).1).0
        ≡ err (http 401 "Token has been revoked")
  get_current_account-logout request later w bearer {claims} {id} plain decoded again named
        nonempty =
      rw (logout_lem request w bearer decoded named nonempty) (
        rw result-run_request (
          revoked_refused later _ bearer plain again named (
            jti_revoked_miss later.now claims.jti _ nonempty (cache_miss claims.jti w)
              (add_revoked_lem (revocation claims id) w.committed))))
