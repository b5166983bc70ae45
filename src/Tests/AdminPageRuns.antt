-- ===== src/Tests/AdminPageRuns.antt =====
-- The forms of the admin pages.
use wdc_catalog_api.Base.{
  ◌≡◌, refl, ◌⊎◌, true, false, some, List, [], ◌∷◌, Text, codes, text_eq, text_eq→eq, strip,
  strip_left, remove_char, find?, update_where, count_where, arith,
}
use wdc_catalog_api.Session.{World, ok, initial_world, run_request}
use wdc_catalog_api.Passwords.{hash_password, verify_password}
use wdc_catalog_api.Roles.{user, value, parse_role}
use wdc_catalog_api.Auth.{account_by_id}
use wdc_catalog_api.AdminUsers.{has_owner_role}
use wdc_catalog_api.Audit.{emit}
use wdc_catalog_api.Login.{write_account}
use wdc_catalog_api.Totp.{
  verify_totp, decode_secret, equals_signs, all_digits, hotp, in_window, last_byte, big_endian,
  six_digits,
}
use wdc_catalog_api.AdminAccounts.{any_suffix, like, paired_account, admin_account}
use wdc_catalog_api.AdminLogin.{
  denied, join_lines, check_factor, second_factor, secret_of, by_code, by_recovery, issue_pending,
  login_submit,
}
use wdc_catalog_api.AdminPages.{admin_change_role}
use wdc_catalog_api.AdminPages.Unguarded.{admin_change_role-last_owner}
use wdc_catalog_api.AdminSelf.{
  Draw, disabled, enrolled, code_hashes, drawn_codes, enrol, confirm_of, check_own_factor,
  totp_confirm, totp_disable,
}
use wdc_catalog_api.AdminSelf.Unusable.{check_factor-enrolled}
use wdc_catalog_api.AdminLogin.Lines.{is_one_line}
use wdc_catalog_api.AdminSelf.Enrolment.{login_submit-totp_confirm, totp_disable_sound}
use wdc_catalog_api.Tests.Fixtures.{plain_bcrypt, ann, request_at, two_accounts, world}
use wdc_catalog_api.Tests.AdminSessionRuns.{signer, times, plain_hash}
use wdc_catalog_api.Tests.AdminLoginRuns.{library, base64, secret, root, behind}

admin_change_role-last_owner_example :
    count_where has_owner_role
      (run_request (admin_change_role 1 (codes "user")) world).1.committed.accounts
    ≡ 0
unfolding find? count_where text_eq value parse_role
admin_change_role-last_owner_example =
    admin_change_role-last_owner 1 (codes "user") user ann world
      (record { unique = (refl, (refl, tt)); owned = omega arith }) refl refl refl refl refl

abbrev pending : World
pending = initial_world (record two_accounts {
  users = root ∷ [];
  accounts = record behind { totp_enabled = false } ∷ [];
})

abbrev drawn : List Draw
drawn = record { salt = codes "s1"; first = codes "abcde"; second = codes "fghij" } ∷ []

abbrev enrolled_world : World
enrolled_world =
    (totp_confirm plain_bcrypt library (codes "s") drawn (codes "root") (codes "000 000")
      (request_at 3000) pending).1

login_submit-totp_confirm_example :
    (s : Text) × (some secret ≡ some s)
    × (verify_totp library s (codes "000 000") 3000 ≡ ok true)
    × ((login_submit plain_bcrypt library base64 signer signer plain_hash times
          (codes "root ")
          (codes "secret")
          (codes "s1")
          (request_at 3100)
          enrolled_world).0
        ≡ second_factor (
            issue_pending plain_bcrypt library base64 signer signer plain_hash times
              (codes "root")
              3100))
unfolding find? text_eq strip strip_left verify_password paired_account like any_suffix totp_confirm
    admin_account confirm_of enrol verify_totp remove_char all_digits decode_secret equals_signs
    in_window hotp last_byte big_endian six_digits drawn_codes code_hashes emit write_account
login_submit-totp_confirm_example =
    login_submit-totp_confirm plain_bcrypt library base64 signer signer plain_hash times (codes "s")
      (codes "000 000") (codes "secret") (codes "root ") (codes "s1") drawn
      (codes "abcde-fghij" ∷ []) root (record behind { totp_enabled = false }) (request_at 3000)
      (request_at 3100) pending enrolled_world refl refl refl refl refl

abbrev guarded : World
guarded = initial_world (record two_accounts { users = root ∷ []; accounts = behind ∷ [] })

totp_disable_sound_example :
    ((totp_disable plain_bcrypt library
        (codes "s")
        (codes "root")
        (codes "abc de")
        (request_at 100)
        guarded).1.working.accounts
      ≡ behind ∷ [])
    ⊎ ((s : Text) × (secret_of (some behind) ≡ some s)
        × ((totp_disable plain_bcrypt library
              (codes "s")
              (codes "root")
              (codes "abc de")
              (request_at 100)
              guarded).1.working.accounts
            ≡ update_where (account_by_id 3) disabled (behind ∷ []))
        × ((check_own_factor plain_bcrypt library s behind (codes "abc de") 100 ≡ ok by_code)
            ⊎ ((used : Text) × (check_own_factor plain_bcrypt library s behind (codes "abc de") 100
                  ≡ ok (by_recovery used)))))
unfolding paired_account like any_suffix find? text_eq
totp_disable_sound_example =
    totp_disable_sound plain_bcrypt library (codes "s") (codes "root") (codes "abc de") behind
      (request_at 100) guarded refl

check_factor-enrolled_example :
    check_factor plain_bcrypt library secret
      (enrolled (join_lines (code_hashes plain_bcrypt drawn)) behind)
      (codes "abcde-fghij")
      3100
    ≡ ok denied
unfolding text_eq code_hashes is_one_line strip strip_left remove_char all_digits hash_password
check_factor-enrolled_example =
    check_factor-enrolled plain_bcrypt library drawn secret (codes "abcde-fghij") behind 3100
      (λ salt plain other short checked. text_eq→eq plain other (ground (arith, checked)))
      ((refl, refl), tt) ((refl, refl, refl), tt) refl
