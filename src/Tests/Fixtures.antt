-- ===== src/Tests/Fixtures.antt =====
-- Concrete libraries, accounts and requests that the tests share.
use wdc_catalog_api.Base.{
  ℕ, zero, suc, ◌≡◌, refl, false, Option, none, some, [], ◌∷◌, ◌++◌, Text, codes, text_eq,
  text_eq_refl, if◌then◌else◌, ltb, String, length, take, drop, take-append_length,
  drop-append_length,
}
use wdc_catalog_api.Schema.{Db, Account, PersonalAccessToken, empty_db}
use wdc_catalog_api.Session.{Request, World, initial_world}
use wdc_catalog_api.Passwords.{Bcrypt}
use wdc_catalog_api.IpRanges.{IpLibrary}
use wdc_catalog_api.Auth.{Claims, JwtCodec}

-- A hash that is the password itself.
abbrev pub plain_bcrypt : Bcrypt
plain_bcrypt = record {
  hashpw = λ salt plain. plain;
  checkpw = λ plain hashed. some (text_eq plain hashed);
  checkpw-hashpw = λ salt plain. rw (text_eq_refl plain) refl;
}

abbrev pub number_of : Option ℕ → ℕ
number_of none = 0
number_of (some n) = suc n

abbrev pub option_of : ℕ → Option ℕ
option_of zero = none
option_of (suc n) = some n

pub option_of-number_of : (o : Option ℕ) → option_of (number_of o) ≡ o
option_of-number_of none = refl
option_of-number_of (some n) = refl

-- Claims written out one after the other, the address behind its length, without a signature.
abbrev pub write_claims : Claims → Text
write_claims c = c.exp ∷ number_of c.sub ∷ number_of c.tv ∷ length c.email ∷ c.email ++ c.jti

abbrev pub read_claims : ℕ → Text → Option Claims
read_claims now (exp ∷ sub ∷ tv ∷ n ∷ rest) =
    if ltb now exp
    then some (record {
      sub = option_of sub;
      email = take n rest;
      exp = exp;
      jti = drop n rest;
      tv = option_of tv;
    })
    else none
read_claims now _ = none

abbrev pub open_jwt : JwtCodec
open_jwt = record {
  encode = write_claims;
  decode = read_claims;
  decode-encode = λ now c.
      rw
        (
          option_of-number_of c.sub,
          option_of-number_of c.tv,
          take-append_length,
          drop-append_length,
        )
        refl;
}

-- Every text is the address that is its length, and every text the network of that address.
abbrev pub length_ips : IpLibrary
length_ips = record {
  ip_address = λ t. some (length t);
  ip_network = λ t. some (λ n. text_eq (n ∷ []) (length t ∷ []));
}

abbrev pub account_with : ℕ → String → Account
account_with id role = record {
  id = id;
  email = codes "a@b.cz";
  password_hash = codes "secret";
  role = codes role;
  suspended_at = none;
  token_version = 1;
  last_login_at = none;
  failed_login_count = 4;
  locked_until = none;
  totp_enabled = false;
  totp_secret = none;
  totp_recovery_hashes = none;
}

abbrev pub ann : Account
ann = account_with 1 "owner"

abbrev pub bob : Account
bob = record (account_with 2 "user") { email = codes "bob@b.cz" }

abbrev pub request_at : ℕ → Request
request_at now = record {
  method = codes "POST";
  path = codes "/api/v1/x";
  ip = codes "10.0.0.1";
  user_agent = none;
  idempotency_key = none;
  now = now;
}

abbrev pub token_7 : PersonalAccessToken
token_7 = record {
  id = 7;
  account_id = 1;
  name = codes "ci";
  token_hash = codes "nks_pat_Abcdef";
  token_prefix = codes "nks_pat_Ab";
  last_used_at = none;
  last_used_ip = none;
  last_used_ua = none;
  revoked_at = none;
  expires_at = some 500;
  read_only = false;
  ip_allowlist = none;
}

abbrev pub two_accounts : Db
two_accounts = record empty_db { accounts = ann ∷ bob ∷ []; pats = token_7 ∷ [] }

abbrev pub world : World
world = initial_world two_accounts
