-- ===== src/AdminSelf/Enrolment.antt =====
-- app/admin_ui.py, `admin_totp_confirm` and `admin_totp_disable`, with the login that follows.
use wdc_catalog_api.Base.{
  ◌≡◌, refl, ◌⊎◌, inl, inr, true, false, some, List, Text, strip, is_empty, find?, update_where,
  Bool-cases, Option-cases, arith,
}
use wdc_catalog_api.Schema.{User, Account}
use wdc_catalog_api.Session.{Request, World, Result, ok, err, Result-cases}
use wdc_catalog_api.Passwords.{Bcrypt, verify_password}
use wdc_catalog_api.Audit.{emit}
use wdc_catalog_api.Auth.{account_by_id}
use wdc_catalog_api.Login.{write_account}
use wdc_catalog_api.Totp.{TotpLibrary, verify_totp}
use wdc_catalog_api.AdminAccounts.{paired_account, admin_account}
use wdc_catalog_api.AdminAccounts.Updates.{paired_account-update_where}
use wdc_catalog_api.AdminSessions.{Signer, SessionTimes, user_by_name}
use wdc_catalog_api.AdminLogin.{
  Base64, second_factor, secret_of, join_lines, Factor, denied, by_code, by_recovery, issue_pending,
  login_submit,
}
use wdc_catalog_api.AdminSelf.{
  Draw, new_codes, enrolled, code_hashes, enrol, confirm_of, totp_confirm, disabled,
  check_own_factor, disable_of, disable_with, totp_disable,
}

module _ (bcrypt : Bcrypt) (library : TotpLibrary) where
  abbrev hashes_of : List Draw → Text
  hashes_of drawn = join_lines (code_hashes bcrypt drawn)

  -- What a confirmation that hands out recovery codes has checked and written.
  confirm_of_ok :
      (drawn : List Draw) (code : Text) (given : List Text) (a : Account) (request : Request)
      (w : World)
      → (confirm_of bcrypt library drawn code a request w).0 ≡ ok (new_codes given)
      → (s : Text) × (a.totp_secret ≡ some s)
        × (is_empty s ≡ false)
        × (verify_totp library s code request.now ≡ ok true)
        × ((confirm_of bcrypt library drawn code a request w).1.working.accounts
            ≡ update_where (account_by_id a.id) (enrolled (hashes_of drawn)) w.working.accounts)
        × ((confirm_of bcrypt library drawn code a request w).1.working.users ≡ w.working.users)
  unfolding confirm_of enrol write_account emit
  confirm_of_ok drawn code given a request w h = elim (Bool-cases a.totp_enabled) [
    | inl on ↦ absurd (ground (arith, h, on))
    | inr off ↦ elim (Option-cases a.totp_secret) [
      | inl missing ↦ absurd (ground (arith, h, off, missing))
      | inr (s, there) ↦ elim (Bool-cases (is_empty s)) [
        | inl empty ↦ absurd (ground (arith, h, off, there, empty))
        | inr full ↦ elim (Result-cases (verify_totp library s code request.now)) [
          | inr (e, raised) ↦ absurd (ground (arith, h, off, there, full, raised))
          | inl (taken, checked) ↦ elim (Bool-cases taken) [
            | inr wrong ↦ absurd (ground (arith, h, off, there, full, checked, wrong))
            | inl right ↦ (
              s,
              there,
              full,
              rw right at checked,
              ground (arith, off, there, full, checked, right),
              ground (arith, off, there, full, checked, right),
            )
          ]
        ]
      ]
    ]
  ]

  totp_confirm_paired :
      (salt username code : Text) (drawn : List Draw) (a : Account) (request : Request) (w : World)
      → paired_account username w.working ≡ some a
      → totp_confirm bcrypt library salt drawn username code request w
        ≡ confirm_of bcrypt library drawn code a request w
  unfolding totp_confirm admin_account
  totp_confirm_paired salt username code drawn a request w paired = ground (arith, paired)

  disable_of_lem :
      (a : Account) (request : Request) (r : Result Factor) (w : World)
      → ((disable_of bcrypt library a request r w).1.working.accounts ≡ w.working.accounts)
        ⊎ (((disable_of bcrypt library a request r w).1.working.accounts
              ≡ update_where (account_by_id a.id) disabled w.working.accounts)
            × ((r ≡ ok by_code) ⊎ ((used : Text) × (r ≡ ok (by_recovery used)))))
  unfolding disable_of write_account emit
  disable_of_lem a request (err e) w = inl refl
  disable_of_lem a request (ok denied) w = inl refl
  disable_of_lem a request (ok by_code) w = inr (refl, inl refl)
  disable_of_lem a request (ok (by_recovery used)) w = inr (refl, inr (used, refl))

  totp_disable_paired :
      (salt username code : Text) (a : Account) (request : Request) (w : World)
      → paired_account username w.working ≡ some a
      → totp_disable bcrypt library salt username code request w
        ≡ disable_with bcrypt library code a request w
  unfolding totp_disable admin_account
  totp_disable_paired salt username code a request w paired = ground (arith, paired)

  -- The second factor is given up only for a code. A request of its user leaves the accounts as they
  -- are, or it switches the factor off, and then the account had it on and the code was taken, as a
  -- one-time code of the secret or as a recovery code.
  pub totp_disable_sound :
      (salt username code : Text) (a : Account) (request : Request) (w : World)
      → paired_account username w.working ≡ some a
      → ((totp_disable bcrypt library salt username code request w).1.working.accounts
          ≡ w.working.accounts)
        ⊎ ((s : Text) × (secret_of (some a) ≡ some s)
            × ((totp_disable bcrypt library salt username code request w).1.working.accounts
                ≡ update_where (account_by_id a.id) disabled w.working.accounts)
            × ((check_own_factor bcrypt library s a code request.now ≡ ok by_code)
                ⊎ ((used : Text) × (check_own_factor bcrypt library s a code request.now
                      ≡ ok (by_recovery used)))))
  unfolding disable_with
  totp_disable_sound salt username code a request w paired =
      let same = totp_disable_paired salt username code a request w paired in
      elim (Option-cases (secret_of (some a))) [
        | inl off ↦ inl (rw (same, disable_with, off) refl)
        | inr (s, on) ↦
            elim (disable_of_lem a request (check_own_factor bcrypt library s a code request.now)
              w) [
                | inl kept ↦ inl (rw (same, disable_with, on) kept)
                | inr (gone, taken) ↦ inr (s, on, rw (same, disable_with, on) gone, taken)
              ]
      ]

  module _ (base64 : Base64) (signer pending : Signer) (sha256 : Text → Text)
      (times : SessionTimes) where
    -- Once the second factor was confirmed, which takes a valid code of the pending secret, the
    -- password alone signs its user in no more: as long as nothing else changes the accounts and the
    -- users, a login with the right password is answered with the form of the second factor.
    pub login_submit-totp_confirm :
        (salt code password name id : Text) (drawn : List Draw) (given : List Text) (user : User)
        (a : Account) (request later : Request) (w w' : World)
        → find? (user_by_name (strip name)) w.working.users ≡ some user
        → verify_password bcrypt password user.password_hash ≡ true
        → paired_account user.username w.working ≡ some a
        → (totp_confirm bcrypt library salt drawn user.username code request w).0
          ≡ ok (new_codes given)
        → w'.working
          ≡ (totp_confirm bcrypt library salt drawn user.username code request w).1.working
        → (s : Text) × (a.totp_secret ≡ some s)
          × (verify_totp library s code request.now ≡ ok true)
          × ((login_submit bcrypt library base64 signer pending sha256 times name password id later
                w').0
              ≡ second_factor (
                  issue_pending bcrypt library base64 signer pending sha256 times user.username
                    later.now))
    unfolding login_submit
    login_submit-totp_confirm salt code password name id drawn given user a request later w w' known
          right paired done same =
        let confirmed = totp_confirm_paired salt user.username code drawn a request w paired in
        let (s, there, full, checked, accounts, users) =
          confirm_of_ok drawn code given a request w (rw confirmed at done) in
        let now_paired =
          paired_account-update_where (enrolled (hashes_of drawn)) (λ x. refl) user.username a
            w.working w'.working paired (ground (arith, same, confirmed, accounts)) in
        let same_users : w'.working.users ≡ w.working.users =
          ground (arith, same, confirmed, users) in
        (
          s,
          there,
          checked,
          rw (login_submit, same_users, known, right, now_paired, there, full) refl,
        )
