-- ===== src/AdminLogin/Bypass.antt =====
-- app/api_auth_ui.py, `_paired_account`, together with the open registration of app/devices.py.
use wdc_catalog_api.Base.{
  ◌≡◌, refl, inl, inr, Bool, true, false, none, some, [], ◌∷◌, ◌++◌, Text, codes, text_eq, strip,
  lower, find?, find?-append, Bool-cases, is_some, ◌==◌, ==_refl, negb, ◌&&◌, and_true, arith,
}
use wdc_catalog_api.Schema.{User}
use wdc_catalog_api.Session.{Request, World, ok}
use wdc_catalog_api.Passwords.{Bcrypt, hash_password, verify_password}
use wdc_catalog_api.Audit.{emit}
use wdc_catalog_api.Auth.{JwtCodec}
use wdc_catalog_api.Login.{TokenResponse, account_by_email, new_account, register}
use wdc_catalog_api.Totp.{TotpLibrary}
use wdc_catalog_api.AdminAccounts.{any_suffix, like, legacy_email, is_paired, paired_account}
use wdc_catalog_api.AdminSessions.{
  Signer, SessionTimes, user_by_name, session_cookie, issue_session,
}
use wdc_catalog_api.AdminLogin.{Base64, signed_in, sign_in, login_submit}

-- The name has no `%`.
unfoldable pub has_no_percent : Text → Bool
has_no_percent [] = true
has_no_percent (c ∷ s) = negb (c == 37) && has_no_percent s

like_anything : (s : Text) → any_suffix (like []) s ≡ true
unfolding any_suffix like
like_anything [] = refl
like_anything (c ∷ s) = like_anything s

-- An address at whatever domain matches the pattern of its local part.
like-own :
    (name domain : Text)
    → has_no_percent name ≡ true
    → like (name ++ codes "@%") (name ++ (64 ∷ domain)) ≡ true
unfolding like has_no_percent
like-own [] domain h = like_anything domain
like-own (c ∷ name) domain h =
    let (here, rest) = and_true (negb (c == 37)) (has_no_percent name) h in
    ground (arith, here, ==_refl c, like-own name domain rest)

module _ (bcrypt : Bcrypt) (jwt : JwtCodec) where
  register_ok :
      (jti salt raw_email password : Text) (request : Request) (w : World) (r : TokenResponse)
      → (register bcrypt jwt jti salt raw_email password request w).0 ≡ ok r
      → ((register bcrypt jwt jti salt raw_email password request w).1.working.accounts
          ≡ w.working.accounts
            ++ new_account
                (lower (strip raw_email))
                (hash_password bcrypt salt password)
                (codes "user")
                w.working
              ∷ [])
        × ((register bcrypt jwt jti salt raw_email password request w).1.working.users
            ≡ w.working.users)
  unfolding register emit
  register_ok jti salt raw_email password request w r h =
      elim (Bool-cases
        (is_some (find? (account_by_email (lower (strip raw_email))) w.working.accounts))) [
          | inl taken ↦ absurd (ground (arith, h, taken))
          | inr free ↦ rw (register, free) (refl, refl)
        ]

  -- An admin user whose account is the one at admin.local, and may ask for a second factor, is signed
  -- in by the password alone once anybody has registered an address with the user's name as its local
  -- part: the lookup then finds that new account, which asks for none.
  pub login_submit-register :
      (library : TotpLibrary) (base64 : Base64) (signer pending : Signer) (sha256 : Text → Text)
      (times : SessionTimes) (jti salt raw_email chosen domain password id : Text)
      (request later : Request) (w : World) (r : TokenResponse) (user : User)
      → has_no_percent user.username ≡ true
      → find? (user_by_name (strip user.username)) w.working.users ≡ some user
      → verify_password bcrypt password user.password_hash ≡ true
      → find? (is_paired user.username) w.working.accounts ≡ none
      → lower (strip raw_email) ≡ user.username ++ (64 ∷ domain)
      → text_eq (user.username ++ (64 ∷ domain)) (legacy_email user.username) ≡ false
      → (register bcrypt jwt jti salt raw_email chosen request w).0 ≡ ok r
      → (login_submit bcrypt library base64 signer pending sha256 times user.username password id
          later
          (register bcrypt jwt jti salt raw_email chosen request w).1).0
        ≡ signed_in (session_cookie signer sha256 times user.username id later.now)
  unfolding login_submit sign_in issue_session paired_account find?
  login_submit-register library base64 signer pending sha256 times jti salt raw_email chosen domain
        password id request later w r user plain known right alone address elsewhere h =
      let w' = (register bcrypt jwt jti salt raw_email chosen request w).1 in
      let account =
        new_account (lower (strip raw_email)) (hash_password bcrypt salt chosen) (codes "user")
          w.working in
      let (accounts, users) = register_ok jti salt raw_email chosen request w r h in
      let hit : is_paired user.username account ≡ true =
        rw (address, like-own user.username domain plain, elsewhere) refl in
      let paired : paired_account user.username w'.working ≡ some account =
        rw (paired_account, accounts)
          (rw (find?-append (is_paired user.username) w.working.accounts (account ∷ []), alone)
            (rw (find?, hit) refl)) in
      rw (login_submit, users, known, right, paired) refl
