-- ===== src/Auth/Soundness.antt =====
-- app/devices.py, `get_current_account`: which credentials are accepted.
use wdc_catalog_api.Base.{
  ℕ, ◌+◌, ◌<◌, ◌≡◌, ◌≢◌, true, false, none, some, [], Text, get_or, is_empty, ◌||◌, starts_with,
  find?, arith, Option-cases, inl, inr, ◌⊎◌,
}
use wdc_catalog_api.Schema.{Account, PersonalAccessToken}
use wdc_catalog_api.Session.{Request, World, ok, err, http, Result-cases}
use wdc_catalog_api.Passwords.{Bcrypt}
use wdc_catalog_api.Pats.{token_prefix, try_authenticate_pat}
use wdc_catalog_api.IpRanges.{IpLibrary, host_allowed}
use wdc_catalog_api.Auth.{
  Claims, JwtCodec, account_by_id, jti_revoked, is_revoked, jwt_account, check_pat,
  get_current_account, create_token, token_claims, jwt_expire_seconds, is_write_method,
}

module _ (bcrypt : Bcrypt) (jwt : JwtCodec) (ips : IpLibrary) (request : Request) (w : World) where
  -- A JWT is accepted only if it decodes at the request's instant, its subject is an account of the
  -- database, its token version (1 if it has none) is the account's, and its jti does not count as
  -- revoked. The account that comes back is the subject's.
  pub jwt_account_sound :
      (bearer : Text) (account : Account)
      → starts_with token_prefix bearer ≡ false
      → (get_current_account bcrypt jwt ips (some bearer) request w).0 ≡ ok account
      → (id : ℕ) × (claims : Claims) × (jwt.decode request.now bearer ≡ some claims)
        × (claims.sub ≡ some id)
        × (find? (account_by_id id) w.working.accounts ≡ some account)
        × (get_or claims.tv 1 ≡ account.token_version)
        × ((jti_revoked request.now claims.jti w).0 ≡ ok false)
  unfolding get_current_account jwt_account is_revoked
  jwt_account_sound bearer account plain h = elim (Option-cases (jwt.decode request.now bearer)) [
    | inl bad ↦ absurd (ground arith)
    | inr (claims, decoded) ↦ elim (Option-cases claims.sub) [
      | inl nobody ↦ absurd (ground arith)
      | inr (id, named) ↦ (id, claims, decoded, named, ground arith, ground arith, ground arith)
    ]
  ]

  -- A JWT whose version is not the account's is refused with 401, whatever else holds of it.
  pub stale_token_refused :
      (bearer : Text) {claims : Claims} {id : ℕ} {account : Account}
      → starts_with token_prefix bearer ≡ false
      → jwt.decode request.now bearer ≡ some claims
      → claims.sub ≡ some id
      → find? (account_by_id id) w.working.accounts ≡ some account
      → get_or claims.tv 1 ≢ account.token_version
      → (get_current_account bcrypt jwt ips (some bearer) request w).0
        ≡ err (http 401 "Token has been revoked")
  unfolding get_current_account jwt_account is_revoked
  stale_token_refused bearer plain decoded named known stale = ground arith

  -- A token that `create_token` minted for an account authenticates that account for thirty days, as
  -- long as the account keeps its version and the jti does not count as revoked.
  pub get_current_account-create_token :
      (jti : Text) (minted : ℕ) {account : Account}
      → let bearer = create_token jwt jti minted account.id account.email account.token_version in
        starts_with token_prefix bearer ≡ false
        → find? (account_by_id account.id) w.working.accounts ≡ some account
        → request.now < minted + jwt_expire_seconds
        → (jti_revoked request.now jti w).0 ≡ ok false
        → (get_current_account bcrypt jwt ips
            (some (create_token jwt jti minted account.id account.email account.token_version))
            request
            w).0
          ≡ ok account
  unfolding get_current_account jwt_account is_revoked create_token
  get_current_account-create_token jti minted {account} plain known soon live = ground (
    arith,
    jwt.decode-encode request.now
        (token_claims jti minted account.id account.email account.token_version),
  )

  -- A personal access token is accepted only if `try_authenticate_pat` matches it, a read-only one only
  -- for a method that does not write, and one with a nonempty allowlist only from an allowed host.
  pub pat_account_sound :
      (bearer : Text) (account : Account)
      → starts_with token_prefix bearer ≡ true
      → (get_current_account bcrypt jwt ips (some bearer) request w).0 ≡ ok account
      → (pat : PersonalAccessToken) × ((try_authenticate_pat bcrypt bearer request w).0
          ≡ ok (some (account, pat)))
        × ((pat.read_only ≡ false) ⊎ (is_write_method request.method ≡ false))
        × (is_empty (get_or pat.ip_allowlist [])
              || host_allowed ips (get_or pat.ip_allowlist []) request.ip
            ≡ true)
  unfolding get_current_account check_pat
  pat_account_sound bearer account is_pat h =
      elim (Result-cases (try_authenticate_pat bcrypt bearer request w).0) [
        | inr (e, raised) ↦ absurd (ground arith)
        | inl (none, missing) ↦ absurd (ground arith)
        | inl (some (a, pat), matched) ↦ (pat, ground arith, ground arith, ground arith)
      ]
