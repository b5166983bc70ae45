-- ===== src/Tests/AdminLoginRuns.antt =====
-- Signing in to the admin pages.
use wdc_catalog_api.Base.{
  ℕ, ◌+◌, ◌/◌, ◌≤◌, ◌≡◌, refl, ◌⊎◌, true, false, Option, none, some, [], ◌∷◌, ◌++◌, Text, codes,
  text_eq, strip, strip_left, find?, remove_char, fresh_id, arith,
}
use wdc_catalog_api.Schema.{Db, User, Account}
use wdc_catalog_api.Session.{World, ok, initial_world}
use wdc_catalog_api.Passwords.{verify_password}
use wdc_catalog_api.Login.{TokenResponse, register}
use wdc_catalog_api.Audit.{emit}
use wdc_catalog_api.Auth.{create_token}
use wdc_catalog_api.Totp.{
  TotpLibrary, totp_step, all_digits, decode_secret, equals_signs, hotp, verify_totp, without_marks,
  normalize_recovery_code,
}
use wdc_catalog_api.Totp.Codes.{verify_totp_lem}
use wdc_catalog_api.AdminAccounts.{any_suffix, like, paired_account}
use wdc_catalog_api.AdminSessions.{user_by_name, session_cookie, issue_session}
use wdc_catalog_api.AdminLogin.{
  Base64, invalid, signed_in, secret_of, by_code, by_recovery, split_lines, stripped_lines,
  matching_hash, check_factor, read_pending, sign_in, login_submit, finish_factor, login_2fa_submit,
}
use wdc_catalog_api.AdminLogin.Sound.{login_submit_sound, login_2fa_submit_sound}
use wdc_catalog_api.AdminLogin.Recovery.{recovery_code_once}
use wdc_catalog_api.AdminLogin.Bypass.{has_no_percent, login_submit-register}
use wdc_catalog_api.Tests.Fixtures.{plain_bcrypt, open_jwt, account_with, request_at, two_accounts}
use wdc_catalog_api.Tests.AdminSessionRuns.{signer, times, plain_hash}

-- A digest of zeros, and secrets in the clear.
abbrev pub library : TotpLibrary
library = record { hmac_sha1 = λ key message. 0 ∷ 0 ∷ 0 ∷ 0 ∷ 0 ∷ []; b32decode = λ t. some t }

abbrev pub base64 : Base64
base64 = record { encode = λ t. t; decode = λ t. some t; decode-encode = λ t. refl }

abbrev pub secret : Text
secret = codes "ABCDEFGH"

verify_totp_lem_example :
    ((counter : ℕ)
      → counter ≤ 3000 / totp_step + 1
      → 3000 / totp_step ≤ counter + 1
      → verify_totp library secret (hotp library secret counter) 3000 ≡ ok true)
    × ((code : Text)
        → verify_totp library secret code 3000 ≡ ok true
        → (counter : ℕ) × (strip (without_marks code) ≡ hotp library secret counter)
          × (counter ≤ 3000 / totp_step + 1)
          × (3000 / totp_step ≤ counter + 1))
unfolding decode_secret strip strip_left remove_char equals_signs
verify_totp_lem_example = verify_totp_lem library secret secret 3000 refl refl refl

abbrev pub root : User
root = record { id = 5; username = codes "root"; password_hash = codes "secret" }

abbrev pub behind : Account
behind = record (account_with 3 "owner") {
  email = codes "root@admin.local";
  totp_enabled = true;
  totp_secret = some secret;
  totp_recovery_hashes = some (codes "abcde" ++ (10 ∷ codes "fghij"));
}

abbrev db : Db
db = record two_accounts { users = root ∷ []; accounts = behind ∷ [] }

abbrev world : World
world = initial_world db

abbrev open_world : World
open_world = initial_world (record db { accounts = record behind { totp_enabled = false } ∷ [] })

login_submit_sound_example :
    (user : User) × (find? (user_by_name (strip (codes "root"))) open_world.working.users
      ≡ some user)
    × (verify_password plain_bcrypt (codes "secret") user.password_hash ≡ true)
    × (secret_of (paired_account user.username open_world.working) ≡ none)
    × (session_cookie signer plain_hash times (codes "root") (codes "s1") 100
        ≡ session_cookie signer plain_hash times user.username (codes "s1") 100)
unfolding login_submit sign_in issue_session paired_account like any_suffix find? text_eq strip
    strip_left verify_password
login_submit_sound_example =
    login_submit_sound plain_bcrypt library base64 signer signer plain_hash times (codes "root")
      (codes "secret") (codes "s1")
      (session_cookie signer plain_hash times (codes "root") (codes "s1") 100) (request_at 100)
      open_world refl

abbrev pending_cookie : Option Text
pending_cookie = some (90 ∷ codes "root")

login_2fa_submit_sound_example :
    (user : User) × (a : Account) × (s : Text) × (read_pending plain_bcrypt library base64 signer
        signer plain_hash times pending_cookie 100
      ≡ some user.username)
    × (find? (user_by_name user.username) world.working.users ≡ some user)
    × (paired_account user.username world.working ≡ some a)
    × (secret_of (some a) ≡ some s)
    × ((check_factor plain_bcrypt library s a (codes "ABC-DE") 100 ≡ ok by_code)
        ⊎ ((used : Text) × (check_factor plain_bcrypt library s a (codes "ABC-DE") 100
              ≡ ok (by_recovery used))))
    × (session_cookie signer plain_hash times (codes "root") (codes "s1") 100
        ≡ session_cookie signer plain_hash times user.username (codes "s1") 100)
unfolding login_2fa_submit finish_factor sign_in issue_session emit read_pending check_factor
    matching_hash normalize_recovery_code split_lines stripped_lines all_digits remove_char
    paired_account like any_suffix find? text_eq strip strip_left
login_2fa_submit_sound_example =
    login_2fa_submit_sound plain_bcrypt library base64 signer signer plain_hash times
      (codes "ABC-DE") (codes "s1")
      (session_cookie signer plain_hash times (codes "root") (codes "s1") 100) pending_cookie
      (request_at 100) world refl

abbrev used_up : World
used_up =
    (login_2fa_submit plain_bcrypt library base64 signer signer plain_hash times (codes "ABC-DE")
      pending_cookie (codes "s1") (request_at 100) world).1

recovery_code_once_example :
    ((login_2fa_submit plain_bcrypt library base64 signer signer plain_hash times
        (codes "ABC-DE")
        pending_cookie
        (codes "s1")
        (request_at 100)
        world).0
      ≡ ok (signed_in (session_cookie signer plain_hash times (codes "root") (codes "s1") 100)))
    × ((login_2fa_submit plain_bcrypt library base64 signer signer plain_hash times
          (codes "ABC-DE")
          pending_cookie
          (codes "s2")
          (request_at 120)
          used_up).0
        ≡ ok invalid)
unfolding read_pending check_factor matching_hash normalize_recovery_code split_lines stripped_lines
    all_digits remove_char paired_account like any_suffix find? text_eq strip strip_left
recovery_code_once_example =
    recovery_code_once plain_bcrypt library base64 signer signer plain_hash times (codes "root")
      (codes "ABC-DE") (codes "s1") (codes "s2") (codes "abcde") secret pending_cookie
      pending_cookie root behind (request_at 100) (request_at 120) world used_up refl refl refl refl
      refl ((λ h. refl), ((λ h. ground (arith, h)), tt)) refl refl

abbrev token : TokenResponse
token = record {
  token = create_token open_jwt (codes "j") 50 4 (codes "root@evil.cz") 1;
  email = codes "root@evil.cz";
}

login_submit-register_example :
    (login_submit plain_bcrypt library base64 signer signer plain_hash times
      (codes "root")
      (codes "secret")
      (codes "s1")
      (request_at 100)
      (register plain_bcrypt open_jwt
        (codes "j")
        (codes "s")
        (codes "root@evil.cz")
        (codes "password")
        (request_at 50)
        world).1).0
    ≡ signed_in (session_cookie signer plain_hash times (codes "root") (codes "s1") 100)
unfolding has_no_percent register like any_suffix find? text_eq strip strip_left verify_password
    emit fresh_id
login_submit-register_example =
    login_submit-register plain_bcrypt open_jwt library base64 signer signer plain_hash times
      (codes "j") (codes "s") (codes "root@evil.cz") (codes "password") (codes "evil.cz")
      (codes "secret") (codes "s1") (request_at 50) (request_at 100) world token root refl refl refl
      refl refl refl refl
