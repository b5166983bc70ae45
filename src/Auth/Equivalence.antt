-- ===== src/Auth/Equivalence.antt =====
-- app/devices.py: `optional_account` against `get_current_account`.
use wdc_catalog_api.Base.{◌≡◌, false, Option, none, some, Text, starts_with, arith}
use wdc_catalog_api.Schema.{Account}
use wdc_catalog_api.Session.{Request, World, Result, ok, err}
use wdc_catalog_api.Passwords.{Bcrypt}
use wdc_catalog_api.Pats.{token_prefix}
use wdc_catalog_api.IpRanges.{IpLibrary}
use wdc_catalog_api.Auth.{JwtCodec, is_revoked, jwt_account, get_current_account, optional_account}

-- The account that a result carries, if any.
abbrev pub account_of : Result Account → Option Account
account_of (ok a) = some a
account_of (err e) = none

module _ (bcrypt : Bcrypt) (jwt : JwtCodec) (ips : IpLibrary) where
  -- For a bearer value that does not look like a personal access token, `optional_account` never
  -- raises: it returns the account that `get_current_account` returns, and `None` where that raises,
  -- and both leave the process in the same state.
  pub optional_account-eq-get_current_account :
      (bearer : Text) (request : Request) (w : World)
      → starts_with token_prefix bearer ≡ false
      → optional_account bcrypt jwt ips (some bearer) request w ≡ (
        ok (account_of (get_current_account bcrypt jwt ips (some bearer) request w).0),
        (get_current_account bcrypt jwt ips (some bearer) request w).1,
      )
  unfolding optional_account get_current_account jwt_account is_revoked
  optional_account-eq-get_current_account bearer request w plain = ground arith
