-- ===== src/AdminLogin.antt =====
-- app/api_auth_ui.py: signing in to the admin pages with a password and, where the account asks for
-- it, a second factor. itsdangerous, base64, bcrypt and the parameters of app/totp.py are parameters;
-- the rate limiter and the pages are not modelled. A text has lines where it has newlines.
pub mod Sound
pub mod Lines
pub mod Recovery
pub mod Bypass
use wdc_catalog_api.Base.{
  ℕ, ◌*◌, ◌≡◌, Bool, true, false, Option, none, some, List, [], ◌∷◌, ◌++◌, Text, codes, text_eq,
  is_empty, if◌then◌else◌, ◌==◌, negb, ◌&&◌, get_or, length, strip, find?, delete_where, select,
  update_where,
}
use wdc_catalog_api.Schema.{Db, User, Account, numbered}
use wdc_catalog_api.Session.{Request, World, Exec, Result, ok, err, Exn}
use wdc_catalog_api.Passwords.{Bcrypt, verify_password, check_or_false}
use wdc_catalog_api.Audit.{emit}
use wdc_catalog_api.Auth.{account_by_id}
use wdc_catalog_api.Totp.{
  TotpLibrary, totp_digits, is_digits, without_marks, verify_totp, normalize_recovery_code,
}
use wdc_catalog_api.AdminAccounts.{paired_account}
use wdc_catalog_api.AdminSessions.{
  Signer, SessionTimes, user_by_name, session_cookie, issue_session,
}

-- What the code relies on of base64: what was encoded is decoded, the padding filled in.
pub record Base64 : Type 0 where
  pub encode : Text → Text
  pub decode : Text → Option Text
  pub decode-encode : (t : Text) → decode (encode t) ≡ some t

abbrev pub pending_max_age : ℕ
pending_max_age = 5 * 60

-- What a form is answered with: the page again with 401, the form of the second factor with its
-- cookie, the login form, or the admin pages with a session cookie.
pub data LoginAnswer : Type 0 where
  invalid to_form : LoginAnswer
  second_factor signed_in : Text → LoginAnswer

-- `acct is not None and acct.totp_enabled and acct.totp_secret`
abbrev pub secret_of : Option Account → Option Text
secret_of none = none
secret_of (some a) =
    if a.totp_enabled
    then elim a.totp_secret [ none ↦ none | some s ↦ if is_empty s then none else some s ]
    else none

-- `text.splitlines()`
unfoldable pub split_lines : Text → List Text
split_lines [] = []
split_lines (c ∷ s) =
    if c == 10
    then [] ∷ split_lines s
    else elim (split_lines s) [ [] ↦ (c ∷ []) ∷ [] | line ∷ rest ↦ (c ∷ line) ∷ rest ]

-- the lines without their white space, the empty ones passed over
unfoldable pub stripped_lines : List Text → List Text
stripped_lines [] = []
stripped_lines (line ∷ rest) =
    let others = stripped_lines rest in
    if is_empty (strip line) then others else strip line ∷ others

-- `"\n".join(lines)`
unfoldable pub join_lines : List Text → Text
join_lines [] = []
join_lines (line ∷ []) = line
join_lines (line ∷ next ∷ rest) = line ++ (10 ∷ join_lines (next ∷ rest))

abbrev pub recovery_lines : Account → List Text
recovery_lines a = stripped_lines (split_lines (get_or a.totp_recovery_hashes []))

-- How a code was taken, if it was.
pub data Factor : Type 0 where
  denied by_code : Factor
  by_recovery : Text → Factor

-- the hashes without the one that was used
abbrev pub without_hash : Text → Account → Account
without_hash used a = record a {
  totp_recovery_hashes = some (join_lines (delete_where (text_eq used) (recovery_lines a)));
}

abbrev pub write_hashes : Account → Factor → Db → Db
write_hashes a factor db = elim factor [
  | by_recovery used ↦ record db {
    accounts = update_where (account_by_id a.id) (without_hash used) db.accounts;
  }
  | _ ↦ db
]

module _ (bcrypt : Bcrypt) where
  -- the first stored hash that the recovery code checks against
  unfoldable pub matching_hash : Text → List Text → Option Text
  matching_hash code [] = none
  matching_hash code (line ∷ rest) =
      if check_or_false (bcrypt.checkpw code line) then some line else matching_hash code rest

  module _ (library : TotpLibrary) where
    abbrev pub factor_of : Result Bool → Result Factor
    factor_of (err e) = err e
    factor_of (ok taken) = ok (if taken then by_code else denied)

    abbrev pub recovery_factor : Option Text → Factor
    recovery_factor none = denied
    recovery_factor (some line) = by_recovery line

    -- six digits are a one-time code, anything else a recovery code
    unfoldable pub check_factor : Text → Account → Text → ℕ → Result Factor
    check_factor secret a raw_code now =
        let code = strip raw_code in
        if is_digits (without_marks code) && length (without_marks code) == totp_digits
        then factor_of (verify_totp library secret code now)
        else ok (recovery_factor (matching_hash (normalize_recovery_code code) (recovery_lines a)))

  module _ (library : TotpLibrary) (base64 : Base64) (signer pending : Signer)
      (sha256 : Text → Text) (times : SessionTimes) where
    -- `_issue_pending`
    unfoldable pub issue_pending : Text → ℕ → Text
    issue_pending username now = base64.encode (pending.sign now username)

    -- `_read_pending`
    unfoldable pub read_pending : Option Text → ℕ → Option Text
    read_pending none now = none
    read_pending (some cookie) now = if is_empty cookie then none else elim (base64.decode cookie) [
      | none ↦ none
      | some signed ↦ pending.unsign now (some pending_max_age) signed
    ]

    -- a session and its cookie
    unfoldable pub sign_in : User → Text → Request → World → LoginAnswer × World
    sign_in user id request w =
        let (cookie, w') = issue_session signer sha256 times user.username id request w in
        elim cookie [ err e ↦ (invalid, w') | ok c ↦ (signed_in c, w') ]

    -- `login_submit`
    unfoldable pub login_submit : Text → Text → Text → Request → World → LoginAnswer × World
    login_submit username password id request w =
        elim (find? (user_by_name (strip username)) w.working.users) [
          | none ↦ (invalid, w)
          | some user ↦
              if verify_password bcrypt password user.password_hash
              then elim (secret_of (paired_account user.username w.working)) [
                | some secret ↦ (second_factor (issue_pending user.username request.now), w)
                | none ↦ sign_in user id request w
              ]
              else (invalid, w)
        ]

    -- the event of a code that was refused, or of one that was taken, with what follows
    unfoldable pub finish_factor :
        User → Account → Text → Request → Result Factor → World → Result LoginAnswer × World
    finish_factor user a id request (err e) w = (err e, w)
    finish_factor user a id request (ok factor) w = elim factor [
      | denied ↦ (
        ok invalid,
        (emit request (some a) (codes "totp.login_failed") (some (codes "account"))
            (some (numbered a.id)) w).1,
      )
      | taken ↦
          let burnt = record w { working = write_hashes a taken w.working } in
          let noted =
            (emit request (some a) (codes "totp.login_ok") (some (codes "account"))
              (some (numbered a.id)) burnt).1 in
          let (answer, w') = sign_in user id request noted in (ok answer, w')
    ]

    -- `login_2fa_submit`
    unfoldable pub login_2fa_submit : Text → Option Text → Text → Request → Exec LoginAnswer
    login_2fa_submit code cookie id request w = elim (read_pending cookie request.now) [
      | none ↦ (ok to_form, w)
      | some username ↦ elim (find? (user_by_name username) w.working.users) [
        | none ↦ (ok to_form, w)
        | some user ↦ elim (paired_account username w.working) [
          | none ↦ (ok to_form, w)
          | some a ↦ elim (secret_of (some a)) [
            | none ↦ (ok to_form, w)
            | some secret ↦
                finish_factor user a id request (check_factor library secret a code request.now) w
          ]
        ]
      ]
    ]
