-- ===== src/Tests/TokenRuns.antt =====
-- Tokens: issue, revoke, rotate, and the credentials of a request.
use wdc_catalog_api.Base.{
  ℕ, ◌≡◌, refl, ◌≢◌, true, false, none, some, [], ◌∷◌, Text, codes, Elem, starts_with, take, find?,
  text_eq, get_or, ◌==◌, select, update_where,
}
use wdc_catalog_api.Schema.{Account, PersonalAccessToken}
use wdc_catalog_api.Cache
use wdc_catalog_api.Session.{World, ok, initial_world}
use wdc_catalog_api.Passwords.{verify_password}
use wdc_catalog_api.Pats.{
  prefix_persisted_len, generate_token, PatSpec, first_match, stamp, resolve_match,
  try_authenticate_pat, revoke, rotate,
}
use wdc_catalog_api.Pats.Lookup.{Matches, try_authenticate_pat_sound}
use wdc_catalog_api.Pats.Lifecycle.{revoke-dead}
use wdc_catalog_api.Pats.Rotation.{try_authenticate_pat-rotate}
use wdc_catalog_api.Auth.{
  Claims, account_by_id, token_claims, create_token, is_revoked, jti_revoked, jwt_account,
  get_current_account,
}
use wdc_catalog_api.Auth.Soundness.{jwt_account_sound}
use wdc_catalog_api.Tests.Fixtures.{
  plain_bcrypt, open_jwt, length_ips, ann, bob, request_at, token_7, two_accounts, world,
}

abbrev spec : PatSpec
spec = record {
  account_id = 1;
  name = codes "ci";
  expires_at = none;
  read_only = true;
  ip_allowlist = none;
}

abbrev bearer_7 : Text
bearer_7 = codes "nks_pat_Abcdef"

try_authenticate_pat_sound_example :
    (row : PersonalAccessToken) × Elem row (token_7 ∷ [])
    × Matches plain_bcrypt 100 bearer_7 row
    × (text_eq row.token_prefix (take prefix_persisted_len bearer_7) ≡ true)
    × (stamp plain_bcrypt (request_at 100) token_7 ≡ stamp plain_bcrypt (request_at 100) row)
    × (find? (λ (a : Account). a.id == row.account_id) (ann ∷ bob ∷ []) ≡ some ann)
    × (ann.suspended_at ≡ none)
unfolding find? first_match generate_token select text_eq try_authenticate_pat starts_with
    resolve_match verify_password
try_authenticate_pat_sound_example =
    try_authenticate_pat_sound plain_bcrypt bearer_7 (request_at 100) world ann
      (stamp plain_bcrypt (request_at 100) token_7) refl

abbrev token_8 : PersonalAccessToken
token_8 = record token_7 { id = 8; token_hash = codes "nks_pat_Ab8" }

abbrev two_tokens : World
two_tokens = initial_world (record two_accounts { pats = token_7 ∷ token_8 ∷ [] })

revoke-dead_example : token_8.id ≢ 7
unfolding find? first_match generate_token select text_eq try_authenticate_pat starts_with
    resolve_match verify_password revoke update_where
revoke-dead_example =
    revoke-dead plain_bcrypt 50 1 7 two_tokens (codes "nks_pat_Ab8") (request_at 100) ann
      (stamp plain_bcrypt (request_at 100) token_8) (refl, (refl, tt)) refl refl

abbrev rotated : World
rotated = (rotate plain_bcrypt (codes "New") [] 900 1 7 world).1

try_authenticate_pat-rotate_example :
    (new : PersonalAccessToken) × ((rotate plain_bcrypt (codes "New") [] 900 1 7 world).0
      ≡ ok (some (7, new, generate_token (codes "New"))))
    × ((try_authenticate_pat plain_bcrypt
          (generate_token (codes "New"))
          (request_at 2000)
          rotated).0
        ≡ ok (some (ann, stamp plain_bcrypt (request_at 2000) new)))
unfolding find? generate_token verify_password text_eq
try_authenticate_pat-rotate_example =
    try_authenticate_pat-rotate plain_bcrypt (codes "New") [] 900 1 7 world rotated token_7 ann
      (request_at 2000) refl refl refl refl (refl, tt) refl

abbrev jwt_of_ann : Text
jwt_of_ann = create_token open_jwt (codes "j1") 100 1 (codes "a@b.cz") 1

abbrev claims_of_ann : Claims
claims_of_ann = token_claims (codes "j1") 100 1 (codes "a@b.cz") 1

jwt_account_sound_example :
    (id : ℕ) × (claims : Claims) × (open_jwt.decode 200 jwt_of_ann ≡ some claims)
    × (claims.sub ≡ some id)
    × (find? (account_by_id id) (ann ∷ bob ∷ []) ≡ some ann)
    × (get_or claims.tv 1 ≡ 1)
    × ((jti_revoked 200 claims.jti world).0 ≡ ok false)
unfolding find? create_token starts_with is_revoked Cache.get Cache.entry_of get_current_account
    jwt_account
jwt_account_sound_example =
    jwt_account_sound plain_bcrypt open_jwt length_ips (request_at 200) world jwt_of_ann ann refl
      refl

abbrev ann_2 : Account
ann_2 = record ann { token_version = 2 }

abbrev newer_ann : World
newer_ann = initial_world (record two_accounts { accounts = ann_2 ∷ [] })
