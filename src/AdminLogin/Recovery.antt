-- ===== src/AdminLogin/Recovery.antt =====
-- app/api_auth_ui.py, `login_2fa_submit`: a recovery code after it was used.
use wdc_catalog_api.Base.{
  ℕ, ◌≡◌, refl, inl, inr, true, false, Option, none, some, List, [], ◌∷◌, Text, text_eq, strip,
  ◌==◌, ◌&&◌, length, find?, update_where, delete_where, All, Bool-cases, get_or, arith, ap, ◌∙◌,
}
use wdc_catalog_api.Schema.{Db, User, Account}
use wdc_catalog_api.Session.{Request, World, ok}
use wdc_catalog_api.Passwords.{Bcrypt, check_or_false}
use wdc_catalog_api.Audit.{emit}
use wdc_catalog_api.Auth.{account_by_id}
use wdc_catalog_api.Totp.{
  TotpLibrary, totp_digits, is_digits, without_marks, normalize_recovery_code,
}
use wdc_catalog_api.AdminAccounts.{paired_account}
use wdc_catalog_api.AdminAccounts.Updates.{paired_account-update_where}
use wdc_catalog_api.AdminSessions.{
  Signer, SessionTimes, user_by_name, session_cookie, issue_session, track_session,
}
use wdc_catalog_api.AdminLogin.{
  Base64, invalid, signed_in, secret_of, denied, by_recovery, recovery_lines, without_hash,
  matching_hash, check_factor, read_pending, sign_in, finish_factor, login_2fa_submit,
}
use wdc_catalog_api.AdminLogin.Lines.{stripped_lines-join_lines}

recovery_lines-without_hash :
    (used : Text) (a : Account)
    → recovery_lines (without_hash used a) ≡ delete_where (text_eq used) (recovery_lines a)
recovery_lines-without_hash used a =
    stripped_lines-join_lines (text_eq used) (get_or a.totp_recovery_hashes [])

module _ (bcrypt : Bcrypt) (library : TotpLibrary) where
  -- Without the one hash that a code checks against, it checks against none.
  matching_hash-delete_where :
      (code used : Text) (lines : List Text)
      → All (λ l. (check_or_false (bcrypt.checkpw code l) ≡ true) → text_eq used l ≡ true) lines
      → matching_hash bcrypt code (delete_where (text_eq used) lines) ≡ none
  unfolding matching_hash delete_where
  matching_hash-delete_where code used [] h = refl
  matching_hash-delete_where code used (l ∷ ls) (only, hs) = elim (Bool-cases (text_eq used l)) [
    | inl gone ↦ rw gone (matching_hash-delete_where code used ls hs)
    | inr kept ↦ elim (Bool-cases (check_or_false (bcrypt.checkpw code l))) [
      | inl match ↦ absurd (ground (arith, kept, only match))
      | inr other ↦ rw (kept, other) (matching_hash-delete_where code used ls hs)
    ]
  ]

  -- The hash is the only one of the account that the code checks against.
  abbrev pub OnlyHash : Text → Text → Account → Type 0
  OnlyHash code used a =
      All
        (λ l.
          (check_or_false (bcrypt.checkpw (normalize_recovery_code (strip code)) l) ≡ true)
          → text_eq used l ≡ true)
        (recovery_lines a)

  -- a code that was taken as a recovery code is not a one-time code
  not_digits :
      (secret code used : Text) (a : Account) (now : ℕ)
      → check_factor bcrypt library secret a code now ≡ ok (by_recovery used)
      → is_digits (without_marks (strip code)) && length (without_marks (strip code)) == totp_digits
        ≡ false
  unfolding check_factor
  not_digits secret code used a now h =
      elim (Bool-cases (
        is_digits (without_marks (strip code))
        && length (without_marks (strip code)) == totp_digits)) [
          | inr other ↦ other
          | inl digits ↦ absurd (ground (arith, h, digits))
        ]

  check_factor_burnt :
      (secret secret' code used : Text) (a : Account) (now later : ℕ)
      → check_factor bcrypt library secret a code now ≡ ok (by_recovery used)
      → OnlyHash code used a
      → check_factor bcrypt library secret' (without_hash used a) code later ≡ ok denied
  unfolding check_factor
  check_factor_burnt secret secret' code used a now later h only =
      rw
        (
          check_factor,
          not_digits secret code used a now h,
          recovery_lines-without_hash used a,
          matching_hash-delete_where (normalize_recovery_code (strip code)) used (recovery_lines a)
              only,
        )
        refl

  module _ (base64 : Base64) (signer pending : Signer) (sha256 : Text → Text)
      (times : SessionTimes) where
    sign_in_frame :
        (user : User) (id : Text) (request : Request) (w : World)
        → ((sign_in bcrypt library base64 signer pending sha256 times user id request
              w).1.working.accounts
            ≡ w.working.accounts)
          × ((sign_in bcrypt library base64 signer pending sha256 times user id request
                w).1.working.users
              ≡ w.working.users)
    unfolding sign_in issue_session track_session
    sign_in_frame user id request w = (ground arith, ground arith)

    finish_factor_burns :
        (user : User) (a : Account) (id used : Text) (request : Request) (w : World)
        → let w' =
            (finish_factor bcrypt library base64 signer pending sha256 times user a id request
              (ok (by_recovery used))
              w).1 in
          (w'.working.accounts
            ≡ update_where (account_by_id a.id) (without_hash used) w.working.accounts)
          × (w'.working.users ≡ w.working.users)
    unfolding finish_factor emit
    finish_factor_burns user a id used request w = sign_in_frame user id request _

    signed :
        (user : User) (a : Account) (id used : Text) (request : Request) (w : World)
        → (finish_factor bcrypt library base64 signer pending sha256 times user a id request
            (ok (by_recovery used))
            w).0
          ≡ ok (signed_in (session_cookie signer sha256 times user.username id request.now))
    unfolding finish_factor sign_in issue_session
    signed user a id used request w = refl

    refused :
        (user : User) (a : Account) (id : Text) (request : Request) (w : World)
        → (finish_factor bcrypt library base64 signer pending sha256 times user a id request
            (ok denied)
            w).0
          ≡ ok invalid
    unfolding finish_factor
    refused user a id request w = refl

    -- A recovery code signs in once: after it was taken, and as long as nothing else changes the
    -- accounts and the users, the same code with a fresh cookie of the same user is refused, when the
    -- hash that it was taken by is the only one that it checks against.
    pub recovery_code_once :
        (username code id id' used secret : Text) (sent sent' : Option Text) (user : User)
        (a : Account) (request later : Request) (w w' : World)
        → read_pending bcrypt library base64 signer pending sha256 times sent request.now
          ≡ some username
        → find? (user_by_name username) w.working.users ≡ some user
        → paired_account username w.working ≡ some a
        → secret_of (some a) ≡ some secret
        → check_factor bcrypt library secret a code request.now ≡ ok (by_recovery used)
        → OnlyHash code used a
        → w'.working
          ≡ (login_2fa_submit bcrypt library base64 signer pending sha256 times code sent id request
              w).1.working
        → read_pending bcrypt library base64 signer pending sha256 times sent' later.now
          ≡ some username
        → ((login_2fa_submit bcrypt library base64 signer pending sha256 times code sent id request
              w).0
            ≡ ok (signed_in (session_cookie signer sha256 times user.username id request.now)))
          × ((login_2fa_submit bcrypt library base64 signer pending sha256 times code sent' id'
                later w').0
              ≡ ok invalid)
    unfolding login_2fa_submit
    recovery_code_once username code id id' used secret sent sent' user a request later w w' read
          known paired asked taken only kept read' =
        let first : login_2fa_submit bcrypt library base64 signer pending sha256 times code sent id
              request w
            ≡ finish_factor bcrypt library base64 signer pending sha256 times user a id request
                (ok (by_recovery used)) w =
          rw (login_2fa_submit, read, known, paired, asked, taken) refl in
        let (accounts, users) = finish_factor_burns user a id used request w in
        let state = kept ∙ ap (λ r. r.1.working) first in
        let known' : find? (user_by_name username) w'.working.users ≡ some user =
          rw (state, users) known in
        let paired' =
          paired_account-update_where (without_hash used) (λ x. refl) username a w.working
            w'.working paired (ap (λ (db : Db). db.accounts) state ∙ accounts) in
        let asked' : secret_of (some (without_hash used a)) ≡ some secret = asked in
        (
          ap (λ r. r.0) first ∙ signed user a id used request w,
          rw
              (
                login_2fa_submit,
                read',
                known',
                paired',
                asked',
                check_factor_burnt secret secret code used a request.now later.now taken only,
              )
              (refused user (without_hash used a) id' later w'),
        )
