-- ===== src/Auth.antt =====
-- app/devices.py, the bearer tokens: minting and decoding a JWT, the revocation check with its cache,
-- and the dependencies that turn a request's credentials into an account. PyJWT is a parameter.
pub mod Equivalence
pub mod Soundness
use wdc_catalog_api.Base.{
  ℕ, ◌+◌, ◌*◌, ◌≡◌, Bool, true, false, Option, none, some, List, [], ◌∷◌, Text, codes, text_eq,
  is_some, is_empty, if◌then◌else◌, ltb, ◌==◌, negb, ◌&&◌, ◌||◌, get_or, starts_with, find?,
}
use wdc_catalog_api.Schema.{Db, Account, RevokedToken, PersonalAccessToken}
use wdc_catalog_api.Cache.{TtlCache, get, set, invalidate}
use wdc_catalog_api.Session.{
  Request, Exec, World, Result, ok, err, Exn, http, pure, raise, query, write, or_raise, raise_if,
  ◌>>=◌, ◌>>◌,
}
use wdc_catalog_api.Passwords.{Bcrypt}
use wdc_catalog_api.Pats.{token_prefix, try_authenticate_pat}
use wdc_catalog_api.IpRanges.{IpLibrary, host_allowed}

-- The claims that the code reads; `sub` is the number that `int(payload["sub"])` gives, if any.
pub record Claims : Type 0 where
  pub sub : Option ℕ
  pub email : Text
  pub exp : ℕ
  pub jti : Text
  pub tv : Option ℕ

-- What the code relies on of PyJWT: a token that it signed decodes to its claims until it expires.
pub record JwtCodec : Type 0 where
  pub encode : Claims → Text
  pub decode : ℕ → Text → Option Claims
  pub decode-encode :
      (now : ℕ) (c : Claims) → decode now (encode c) ≡ (if ltb now c.exp then some c else none)

abbrev pub jwt_expire_seconds : ℕ
jwt_expire_seconds = 30 * 86400

abbrev pub account_by_id : ℕ → Account → Bool
account_by_id id a = a.id == id

abbrev pub token_by_jti : Text → RevokedToken → Bool
token_by_jti jti r = text_eq r.jti jti

-- the claims of `create_token`, with the jti that `uuid4` drew
abbrev pub token_claims : Text → ℕ → ℕ → Text → ℕ → Claims
token_claims jti now account_id email token_version = record {
  sub = some account_id;
  email = email;
  exp = now + jwt_expire_seconds;
  jti = jti;
  tv = some token_version;
}

unfoldable pub create_token : JwtCodec → Text → ℕ → ℕ → Text → ℕ → Text
create_token jwt jti now account_id email token_version =
    jwt.encode (token_claims jti now account_id email token_version)

-- `_is_revoked`: the cached answer if there is a live one, else the table's, which is cached
unfoldable pub is_revoked : ℕ → Text → Exec Bool
is_revoked now jti w = elim (get now jti w.revoked_cache) [
  | some hit ↦ (ok hit, w)
  | none ↦
      let revoked = is_some (find? (token_by_jti jti) w.working.revoked_tokens) in
      (ok revoked, record w { revoked_cache = set now jti revoked none w.revoked_cache })
]

-- `_WRITE_METHODS`
unfoldable pub is_write_method : Text → Bool
is_write_method m =
    text_eq m (codes "POST")
    || text_eq m (codes "PUT")
    || text_eq m (codes "PATCH")
    || text_eq m (codes "DELETE")

-- `payload["sub"]` as a number
abbrev pub subject : Option Claims → Option (ℕ × Claims)
subject none = none
subject (some c) = elim c.sub [ none ↦ none | some id ↦ some (id, c) ]

-- `jti and _is_revoked(db, jti)`
abbrev pub jti_revoked : ℕ → Text → Exec Bool
jti_revoked now [] w = (ok false, w)
jti_revoked now (c ∷ jti) w = is_revoked now (c ∷ jti) w

module _ (bcrypt : Bcrypt) (jwt : JwtCodec) (ips : IpLibrary) where
  -- the checks on a token that authenticated
  unfoldable pub check_pat : Request → Account × PersonalAccessToken → Exec Account
  check_pat request (account, pat) w =
      if pat.read_only && is_write_method request.method
      then (err (http 403 "Read-only PAT cannot perform write operations"), w)
      else elim pat.ip_allowlist [
        | none ↦ (ok account, w)
        | some allowlist ↦
            if is_empty allowlist || host_allowed ips allowlist request.ip
            then (ok account, w)
            else (err (http 401 "Invalid token"), w)
      ]

  -- the branch for a bearer value that is no personal access token
  unfoldable pub jwt_account : Text → Request → Exec Account
  jwt_account bearer request = do
    (id, claims) ← or_raise (subject (jwt.decode request.now bearer)) (http 401 "Invalid token")
    revoked ← jti_revoked request.now claims.jti
    raise_if revoked (http 401 "Token has been revoked")
    found ← query (λ db. find? (account_by_id id) db.accounts)
    account ← or_raise found (http 401 "Account not found")
    raise_if (negb (get_or claims.tv 1 == account.token_version))
        (http 401 "Token has been revoked")
    pure account

  unfoldable pub get_current_account : Option Text → Request → Exec Account
  get_current_account none request w = (err (http 401 "Authentication required"), w)
  get_current_account (some bearer) request w =
      if starts_with token_prefix bearer
      then (do
        matched ← try_authenticate_pat bcrypt bearer request
        pair ← or_raise matched (http 401 "Invalid token")
        check_pat request pair)
          w
      else jwt_account bearer request w

  -- `optional_account`: the same checks on a JWT, with `None` in place of an exception
  unfoldable pub optional_account : Option Text → Request → Exec (Option Account)
  optional_account none request w = (ok none, w)
  optional_account (some bearer) request w = elim (subject (jwt.decode request.now bearer)) [
    | none ↦ (ok none, w)
    | some (id, claims) ↦
        (do
          revoked ← jti_revoked request.now claims.jti
          found ← query (λ db. find? (account_by_id id) db.accounts)
          pure (
              if revoked then none else elim found [
                | none ↦ none
                | some account ↦
                    if get_or claims.tv 1 == account.token_version then some account else none
              ]))
          w
  ]
