-- ===== src/AdminLogin/Sound.antt =====
-- app/api_auth_ui.py: who is signed in.
use wdc_catalog_api.Base.{
  ◌≡◌, refl, ◌⊎◌, inl, inr, true, Option, none, some, Text, strip, find?, find?_holds, text_eq→eq,
  Bool-cases, Option-cases, arith, sym, ap, ◌∙◌,
}
use wdc_catalog_api.Schema.{User, Account}
use wdc_catalog_api.Session.{Request, World, Result, ok, err}
use wdc_catalog_api.Passwords.{Bcrypt, verify_password}
use wdc_catalog_api.Totp.{TotpLibrary}
use wdc_catalog_api.AdminAccounts.{paired_account}
use wdc_catalog_api.AdminSessions.{
  Signer, SessionTimes, user_by_name, session_cookie, issue_session,
}
use wdc_catalog_api.AdminLogin.{
  Base64, signed_in, secret_of, Factor, denied, by_code, by_recovery, check_factor, read_pending,
  sign_in, login_submit, finish_factor, login_2fa_submit,
}

module _ (bcrypt : Bcrypt) (library : TotpLibrary) (base64 : Base64) (signer pending : Signer)
    (sha256 : Text → Text) (times : SessionTimes) where
  -- Who is signed in by a password gave the right one of an admin user, and the account behind that
  -- user asks for no second factor; the cookie is that of the user.
  pub login_submit_sound :
      (username password id cookie : Text) (request : Request) (w : World)
      → (login_submit bcrypt library base64 signer pending sha256 times username password id request
          w).0
        ≡ signed_in cookie
      → (user : User) × (find? (user_by_name (strip username)) w.working.users ≡ some user)
        × (verify_password bcrypt password user.password_hash ≡ true)
        × (secret_of (paired_account user.username w.working) ≡ none)
        × (cookie ≡ session_cookie signer sha256 times user.username id request.now)
  unfolding login_submit sign_in issue_session
  login_submit_sound username password id cookie request w h =
      elim (Option-cases (find? (user_by_name (strip username)) w.working.users)) [
        | inl unknown ↦ absurd (ground (arith, h, unknown))
        | inr (user, known) ↦
            elim (Bool-cases (verify_password bcrypt password user.password_hash)) [
              | inr wrong ↦ absurd (ground (arith, h, known, wrong))
              | inl right ↦
                  elim (Option-cases (secret_of (paired_account user.username w.working))) [
                    | inr (secret, asked) ↦ absurd (ground (arith, h, known, right, asked))
                    | inl single ↦
                        (user, known, right, single, ground (arith, h, known, right, single))
                  ]
            ]
      ]

  finish_factor_ok :
      (user : User) (a : Account) (id cookie : Text) (request : Request) (r : Result Factor)
      (w : World)
      → (finish_factor bcrypt library base64 signer pending sha256 times user a id request r w).0
        ≡ ok (signed_in cookie)
      → ((r ≡ ok by_code) ⊎ ((used : Text) × (r ≡ ok (by_recovery used))))
        × (cookie ≡ session_cookie signer sha256 times user.username id request.now)
  unfolding finish_factor sign_in issue_session
  finish_factor_ok user a id cookie request (err e) w h = cc
  finish_factor_ok user a id cookie request (ok denied) w h = cc
  finish_factor_ok user a id cookie request (ok by_code) w h = (inl refl, ground (arith, h))
  finish_factor_ok user a id cookie request (ok (by_recovery used)) w h =
      (inr (used, refl), ground (arith, h))

  -- Who is signed in by a second factor sent a pending cookie that is read as the name of a user who is
  -- in the table, and a code that the account behind that user, which asks for a second factor, takes as a one-time code
  -- of its secret or as a recovery code. The cookie that is given is that of the user.
  pub login_2fa_submit_sound :
      (code id cookie : Text) (sent : Option Text) (request : Request) (w : World)
      → (login_2fa_submit bcrypt library base64 signer pending sha256 times code sent id request
          w).0
        ≡ ok (signed_in cookie)
      → (user : User) × (a : Account) × (secret : Text) × (read_pending bcrypt library base64 signer
            pending sha256 times sent request.now
          ≡ some user.username)
        × (find? (user_by_name user.username) w.working.users ≡ some user)
        × (paired_account user.username w.working ≡ some a)
        × (secret_of (some a) ≡ some secret)
        × ((check_factor bcrypt library secret a code request.now ≡ ok by_code)
            ⊎ ((used : Text) × (check_factor bcrypt library secret a code request.now
                  ≡ ok (by_recovery used))))
        × (cookie ≡ session_cookie signer sha256 times user.username id request.now)
  unfolding login_2fa_submit
  login_2fa_submit_sound code id cookie sent request w h =
      elim (Option-cases
        (read_pending bcrypt library base64 signer pending sha256 times sent request.now)) [
          | inl unread ↦ absurd (ground (arith, h, unread))
          | inr (username, read) ↦
              elim (Option-cases (find? (user_by_name username) w.working.users)) [
                | inl unknown ↦ absurd (ground (arith, h, read, unknown))
                | inr (user, known) ↦
                    let name =
                      text_eq→eq user.username username
                        (find?_holds (user_by_name username) w.working.users user known) in
                    elim (Option-cases (paired_account username w.working)) [
                      | inl alone ↦ absurd (ground (arith, h, read, known, alone))
                      | inr (a, paired) ↦ elim (Option-cases (secret_of (some a))) [
                        | inl single ↦ absurd (ground (arith, h, read, known, paired, single))
                        | inr (secret, asked) ↦
                            let (taken, same) =
                              finish_factor_ok user a id cookie request _ w
                                (rw (login_2fa_submit, read, known, paired, asked) at h) in
                            (
                              user,
                              a,
                              secret,
                              read ∙ ap (λ n. some n) (sym name),
                              ap (λ n. find? (user_by_name n) w.working.users) name ∙ known,
                              ap (λ n. paired_account n w.working) name ∙ paired,
                              asked,
                              taken,
                              same,
                            )
                      ]
                    ]
              ]
        ]
