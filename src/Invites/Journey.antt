-- ===== src/Invites/Journey.antt =====
-- app/admin_invites.py: from the minting of an invite to the account.
use wdc_catalog_api.Base.{
  ℕ, ◌+◌, ◌*◌, ◌≤◌, ◌<◌, ◌≡◌, refl, inl, inr, true, false, Option, none, some, [], ◌∷◌, Text,
  text_eq, text_eq_refl, text_eq→eq, text_eq_of, is_some, ltb, leb, negb, ◌&&◌, strip, lower,
  lower-strip_idem, find?, find?-append, fresh_id, Bool-cases, arith,
}
use wdc_catalog_api.Schema.{Account}
use wdc_catalog_api.Session.{Request, World, ok}
use wdc_catalog_api.Roles.{Role, owner, value}
use wdc_catalog_api.Roles.Order.{parse_role-value}
use wdc_catalog_api.Passwords.{Bcrypt, hash_password}
use wdc_catalog_api.Audit.{emit}
use wdc_catalog_api.Auth.{JwtCodec, create_token}
use wdc_catalog_api.Login.{account_by_email}
use wdc_catalog_api.Invites.{
  InviteCodec, max_invite_age, CreateInviteResponse, AcceptInviteResponse, is_consumed, is_email,
  invite_payload, mint_invite, invited_account, open_account, accept_payload, accept_invite,
}

module _ (codec : InviteCodec) where
  abbrev pub minted : Text → Role → ℕ → Text → Request → CreateInviteResponse
  minted raw_email role ttl_hours nonce request =
      let email = lower (strip raw_email) in
      let exp = request.now + ttl_hours * 3600 in
      record {
        token = codec.dumps request.now (invite_payload codec email role nonce exp);
        email = email;
        role = value role;
        expires_at = exp;
      }

  -- what the checks of `create_invite` let through
  mint_invite_inv :
      (raw_email nonce : Text) (role : Role) (ttl_hours : ℕ) (caller : Account) (request : Request)
      (w : World) (r : CreateInviteResponse)
      → (mint_invite codec raw_email role ttl_hours nonce caller request w).0 ≡ ok r
      → (r ≡ minted raw_email role ttl_hours nonce request)
        × (text_eq (value role) (value owner) && negb (text_eq caller.role (value owner)) ≡ false)
  unfolding mint_invite
  mint_invite_inv raw_email nonce role ttl_hours caller request w r h =
      elim (Bool-cases (negb (is_email (lower (strip raw_email))))) [
        | inl odd ↦ absurd (ground (arith, h, odd))
        | inr email ↦
            elim (Bool-cases
              (text_eq (value role) (value owner) && negb (text_eq caller.role (value owner)))) [
                | inl refused ↦ absurd (ground (arith, h, email, refused))
                | inr allowed ↦
                    elim (Bool-cases (
                      is_some
                        (find? (account_by_email (lower (strip raw_email))) w.working.accounts))) [
                          | inl taken ↦ absurd (ground (arith, h, email, allowed, taken))
                          | inr free ↦ (ground (arith, h, email, allowed, free), allowed)
                        ]
              ]
      ]

  -- An invite to become an owner is minted only for an owner.
  pub mint_invite-owner :
      (raw_email nonce : Text) (role : Role) (ttl_hours : ℕ) (caller : Account) (request : Request)
      (w : World) (r : CreateInviteResponse)
      → (mint_invite codec raw_email role ttl_hours nonce caller request w).0 ≡ ok r
      → r.role ≡ value owner
      → caller.role ≡ value owner
  mint_invite-owner raw_email nonce role ttl_hours caller request w r h asked =
      let (same, allowed) = mint_invite_inv raw_email nonce role ttl_hours caller request w r h in
      let role_owner : value role ≡ value owner = rw same at asked in
      let asks : text_eq (value role) (value owner) ≡ true =
        text_eq_of (value role) (value owner) role_owner in
      text_eq→eq caller.role (value owner) (ground (arith, allowed, asks))

  module _ (bcrypt : Bcrypt) (jwt : JwtCodec) where
    abbrev pub opened_answer : Text → Text → Role → Request → World → AcceptInviteResponse
    opened_answer jti email role request w = record {
      token =
          create_token jwt jti request.now (fresh_id (λ (a : Account). a.id) w.working.accounts)
            email 1;
      email = email;
      role = value role;
    }

    open_account_lem :
        (salt jti email password : Text) (ticket : Option Text) (role : Role) (request : Request)
        (w : World)
        → find? (account_by_email email) w.working.accounts ≡ none
        → find?
            (account_by_email email)
            (open_account codec bcrypt jwt salt jti ticket email role password request
              w).1.working.accounts
          ≡ some (
              invited_account codec bcrypt jwt email
                (hash_password bcrypt salt password)
                role
                request.now
                w.working)
    unfolding open_account emit find?
    open_account_lem salt jti email password ticket role request w free =
        let account =
          invited_account codec bcrypt jwt email (hash_password bcrypt salt password) role
            request.now w.working in
        ground (
          arith,
          free,
          find?-append (account_by_email email) w.working.accounts (account ∷ []),
          text_eq_refl email,
        )

    -- a minted token that is young enough is accepted
    accept_minted :
        (raw_email nonce salt jti password : Text) (role : Role) (ttl_hours issued : ℕ)
        (later : Request) (w : World)
        → issued ≤ later.now
        → ltb (issued + max_invite_age) later.now ≡ false
        → leb (issued + ttl_hours * 3600) later.now ≡ false
        → is_consumed (some nonce) w.working ≡ false
        → find? (account_by_email (lower (strip raw_email))) w.working.accounts ≡ none
        → accept_invite codec bcrypt jwt salt jti
            (codec.dumps issued (
              invite_payload codec
                (lower (strip raw_email))
                role
                nonce
                (issued + ttl_hours * 3600)))
            password
            later
            w
          ≡ open_account codec bcrypt jwt salt jti
              (some nonce)
              (lower (strip raw_email))
              role
              password
              later
              w
    unfolding accept_invite accept_payload
    accept_minted raw_email nonce salt jti password role ttl_hours issued later w after young live
          unused free =
        let p =
          invite_payload codec (lower (strip raw_email)) role nonce (issued + ttl_hours * 3600) in
        rw
          (
            accept_invite,
            codec.loads-dumps max_invite_age issued later.now p after,
            young,
            accept_payload,
            live,
            unused,
            parse_role-value role,
            lower-strip_idem raw_email,
            free,
          )
          refl

    -- An invite that was minted, and is accepted before it is over by someone who has no account yet,
    -- opens one: with the address and the role of the invite and the hash of the password that was
    -- chosen.
    pub accept_invite-mint_invite :
        (raw_email nonce salt jti password : Text) (role : Role) (ttl_hours : ℕ) (caller : Account)
        (request later : Request) (w w' : World) (r : CreateInviteResponse)
        → (mint_invite codec raw_email role ttl_hours nonce caller request w).0 ≡ ok r
        → ttl_hours ≤ 168
        → request.now ≤ later.now
        → later.now < r.expires_at
        → is_consumed (some nonce) w'.working ≡ false
        → find? (account_by_email r.email) w'.working.accounts ≡ none
        → (answer : AcceptInviteResponse) × ((accept_invite codec bcrypt jwt salt jti r.token
              password later w').0
            ≡ ok answer)
          × (answer.email ≡ r.email)
          × (answer.role ≡ value role)
          × (find?
                (account_by_email r.email)
                (accept_invite codec bcrypt jwt salt jti r.token password later
                  w').1.working.accounts
              ≡ some (
                  invited_account codec bcrypt jwt r.email
                    (hash_password bcrypt salt password)
                    role
                    later.now
                    w'.working))
    unfolding open_account
    accept_invite-mint_invite raw_email nonce salt jti password role ttl_hours caller request later
          w w' r h short after before unused free =
        let (same, allowed) = mint_invite_inv raw_email nonce role ttl_hours caller request w r h in
        let email = lower (strip raw_email) in
        let none_yet : find? (account_by_email email) w'.working.accounts ≡ none =
          rw same at free in
        let live : later.now < request.now + ttl_hours * 3600 = rw same at before in
        let accepted =
          accept_minted raw_email nonce salt jti password role ttl_hours request.now later w' after
            (ground (arith, live, short)) (ground (arith, live)) unused none_yet in
        let opened = open_account_lem salt jti email password (some nonce) role later w' none_yet in
        rw (same, accepted) (opened_answer jti email role later w', refl, refl, refl, opened)
