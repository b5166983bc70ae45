-- ===== src/Invites.antt =====
-- app/admin_invites.py: an admin mints a signed invite, and whoever holds it opens an account with it.
-- itsdangerous, bcrypt, PyJWT and `json` are parameters; the rate limiter is not modelled.
pub mod Single
pub mod Journey
use wdc_catalog_api.Base.{
  ℕ, ◌+◌, ◌*◌, ◌≤◌, ◌≡◌, Bool, true, false, Option, none, some, List, [], ◌∷◌, ◌++◌, Text, codes,
  text_eq, is_some, is_empty, if◌then◌else◌, ltb, leb, ◌==◌, negb, ◌&&◌, ◌||◌, get_or, length,
  strip, lower, find?,
}
use wdc_catalog_api.Schema.{Db, Account, ConsumedInvite, AuditEvent, named, numbered}
use wdc_catalog_api.Session.{Request, Exec, World, Result, ok, err, Exn, http}
use wdc_catalog_api.Roles.{Role, owner, value, parse_role}
use wdc_catalog_api.Passwords.{Bcrypt, hash_password}
use wdc_catalog_api.Audit.{emit, audit_event}
use wdc_catalog_api.Auth.{JwtCodec, create_token}
use wdc_catalog_api.Login.{account_by_email, new_account}
use wdc_catalog_api.Idempotency.{Response, replay_if_present, persist}

-- The payload of an invite; `exp` is the number that `int(exp)` gives.
pub record InvitePayload : Type 0 where
  pub email : Option Text
  pub role : Option Text
  pub nonce : Option Text
  pub exp : Option ℕ

-- What reading a signed token gives: `SignatureExpired`, `BadSignature` or the payload.
pub data Loaded : Type 0 where
  expired bad : Loaded
  loaded : InvitePayload → Loaded

-- What the code relies on of itsdangerous: what it signed is read back until it is too old.
pub record InviteCodec : Type 0 where
  pub dumps : ℕ → InvitePayload → Text
  pub loads : ℕ → ℕ → Text → Loaded
  pub loads-dumps :
      (max_age issued now : ℕ) (p : InvitePayload)
      → issued ≤ now
      → loads max_age now (dumps issued p)
        ≡ (if ltb (issued + max_age) now then expired else loaded p)

-- `max_age` of `accept_invite`
abbrev pub max_invite_age : ℕ
max_invite_age = 168 * 3600

-- `c in s`
unfoldable pub has_char : ℕ → Text → Bool
has_char c [] = false
has_char c (d ∷ s) = c == d || has_char c s

abbrev pub is_email : Text → Bool
is_email email = negb (is_empty email) && (has_char 64 email && leb 5 (length email))

pub record CreateInviteResponse : Type 0 where
  pub token : Text
  pub email : Text
  pub role : Text
  pub expires_at : ℕ

pub record AcceptInviteResponse : Type 0 where
  pub token : Text
  pub email : Text
  pub role : Text

abbrev pub nonce_by_text : Text → ConsumedInvite → Bool
nonce_by_text nonce row = text_eq row.nonce nonce

-- `nonce and db.get(ConsumedInvite, nonce) is not None`
abbrev pub is_consumed : Option Text → Db → Bool
is_consumed none db = false
is_consumed (some nonce) db =
    negb (is_empty nonce) && is_some (find? (nonce_by_text nonce) db.invites)

-- `exp_dt <= now`
abbrev pub is_over : ℕ → Option ℕ → Bool
is_over now none = false
is_over now (some exp) = leb exp now

-- `if nonce: db.add(ConsumedInvite(…))`
abbrev pub consume : Option Text → Text → ℕ → List ConsumedInvite → List ConsumedInvite
consume none email account_id rows = rows
consume (some nonce) email account_id rows =
    if is_empty nonce
    then rows
    else rows ++ record { nonce = nonce; email = email; account_id = some account_id } ∷ []

module _ (codec : InviteCodec) where
  abbrev pub invite_payload : Text → Role → Text → ℕ → InvitePayload
  invite_payload email role nonce exp = record {
    email = some email;
    role = some (value role);
    nonce = some nonce;
    exp = some exp;
  }

  -- the checks of `create_invite` and the token it signs, between the two calls of idempotency
  unfoldable pub mint_invite :
      Text → Role → ℕ → Text → Account → Request → Exec CreateInviteResponse
  mint_invite raw_email role ttl_hours nonce caller request w =
      let email = lower (strip raw_email) in
      let exp = request.now + ttl_hours * 3600 in
      if negb (is_email email)
      then (err (http 400 "Invalid email"), w)
      else if text_eq (value role) (value owner) && negb (text_eq caller.role (value owner))
      then (err (http 403 "Only owners can invite a new owner"), w)
      else if is_some (find? (account_by_email email) w.working.accounts)
      then (err (http 409 "An account with that email already exists"), w)
      else (
        ok (record {
          token = codec.dumps request.now (invite_payload email role nonce exp);
          email = email;
          role = value role;
          expires_at = exp;
        }),
        (emit request (some caller) (codes "invite.created") (some (codes "invite"))
            (some (named email)) w).1,
      )

  module _ (sha256 : Text → Text) (json : CreateInviteResponse → Text) where
    abbrev pub invite_response : CreateInviteResponse → Response
    invite_response r = record {
      content = json r;
      status_code = 200;
      media_type = codes "application/json";
    }

    -- `wrap_json` of what was minted
    unfoldable pub wrap_invite :
        Option Text
        → Account
        → Request
        → Result CreateInviteResponse × World
        → Result Response × World
    wrap_invite body caller request (err e, w) = (err e, w)
    wrap_invite body caller request (ok r, w) = (
      ok (invite_response r),
      (persist sha256 request (some caller) (invite_response r) body w).1,
    )

    -- `create_invite`, for a caller that the role guard let through; `body` is the canonical text of
    -- the request's body
    unfoldable pub create_invite :
        Option Text → Text → Role → ℕ → Text → Account → Request → Exec Response
    create_invite body raw_email role ttl_hours nonce caller request w =
        let (cached, w') = replay_if_present sha256 request (some caller) body w in
        elim cached [
          | err e ↦ (err e, w')
          | ok answer ↦ elim answer [
            | some response ↦ (ok response, w')
            | none ↦
                wrap_invite body caller request
                  (mint_invite raw_email role ttl_hours nonce caller request w')
          ]
        ]

  module _ (bcrypt : Bcrypt) (jwt : JwtCodec) where
    abbrev pub invited_account : Text → Text → Role → ℕ → Db → Account
    invited_account email password_hash role now db =
        record (new_account email password_hash (value role) db) { last_login_at = some now }

    -- the account, the record of the invite, the event and the token
    unfoldable pub open_account :
        Text → Text → Option Text → Text → Role → Text → Request → Exec AcceptInviteResponse
    open_account salt jti ticket email role password request w =
        let db = w.working in
        let account =
          invited_account email (hash_password bcrypt salt password) role request.now db in
        let opened = record w {
          working = record db {
            accounts = db.accounts ++ account ∷ [];
            invites = consume ticket email account.id db.invites;
          };
        } in
        (
          ok (record {
            token = create_token jwt jti request.now account.id email account.token_version;
            email = email;
            role = value role;
          }),
          (emit request none (codes "invite.accepted") (some (codes "account"))
              (some (numbered account.id)) opened).1,
        )

    -- `accept_invite` of a payload whose signature is good
    unfoldable pub accept_payload :
        Text → Text → InvitePayload → Text → Request → Exec AcceptInviteResponse
    accept_payload salt jti p password request w =
        let email = lower (strip (get_or p.email [])) in
        if is_over request.now p.exp
        then (err (http 400 "Invite has expired"), w)
        else if is_consumed p.nonce w.working
        then (err (http 409 "Invite has already been used"), w)
        else elim (parse_role (get_or p.role (codes "user"))) [
          | none ↦ (err (http 400 "Invite has unknown role"), w)
          | some role ↦
              if is_some (find? (account_by_email email) w.working.accounts)
              then (err (http 409 "Account already exists — log in instead"), w)
              else open_account salt jti p.nonce email role password request w
        ]

    unfoldable pub accept_invite : Text → Text → Text → Text → Request → Exec AcceptInviteResponse
    accept_invite salt jti token password request w =
        elim (codec.loads max_invite_age request.now token) [
          | expired ↦ (err (http 400 "Invite has expired"), w)
          | bad ↦ (err (http 400 "Invite is invalid"), w)
          | loaded p ↦ accept_payload salt jti p password request w
        ]
