-- ===== src/Schema/Accounts.antt =====
-- app/db.py: accounts, admin users, tokens, invites, sessions and idempotency records.
use wdc_catalog_api.Base.{ℕ, Bool, List, Option, Text}

pub record User : Type 0 where
  pub id : ℕ
  pub username : Text
  pub password_hash : Text

pub record Account : Type 0 where
  pub id : ℕ
  pub email : Text
  pub password_hash : Text
  pub role : Text
  pub suspended_at : Option ℕ
  pub token_version : ℕ
  pub last_login_at : Option ℕ
  pub failed_login_count : ℕ
  pub locked_until : Option ℕ
  pub totp_enabled : Bool
  pub totp_secret : Option Text
  pub totp_recovery_hashes : Option Text

pub record RevokedToken : Type 0 where
  pub jti : Text
  pub account_id : Option ℕ
  pub reason : Option Text
  pub expires_at : Option ℕ

pub record PersonalAccessToken : Type 0 where
  pub id : ℕ
  pub account_id : ℕ
  pub name : Text
  pub token_hash : Text
  pub token_prefix : Text
  pub last_used_at : Option ℕ
  pub last_used_ip : Option Text
  pub last_used_ua : Option Text
  pub revoked_at : Option ℕ
  pub expires_at : Option ℕ
  pub read_only : Bool
  pub ip_allowlist : Option (List Text)

pub record ConsumedInvite : Type 0 where
  pub nonce : Text
  pub email : Text
  pub account_id : Option ℕ

pub record IdempotencyRecord : Type 0 where
  pub key_hash : Text
  pub account_id : Option ℕ
  pub method : Text
  pub path : Text
  pub body_hash : Option Text
  pub status_code : ℕ
  pub response_body : Text
  pub content_type : Text
  pub expires_at : ℕ

pub record AdminSession : Type 0 where
  pub id : ℕ
  pub user_id : ℕ
  pub fingerprint : Text
  pub ip : Option Text
  pub user_agent : Option Text
  pub last_seen_at : ℕ
  pub revoked_at : Option ℕ
