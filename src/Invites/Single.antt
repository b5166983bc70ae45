-- ===== src/Invites/Single.antt =====
-- app/admin_invites.py, `accept_invite`: an invite after it was accepted.
use wdc_catalog_api.Base.{
  ℕ, ◌+◌, ◌≤◌, ◌≡◌, refl, inl, inr, true, false, some, List, [], ◌∷◌, Text, codes, text_eq_refl,
  is_some, is_empty, ltb, get_or, strip, lower, find?, find?-append, Bool-cases, Option-cases,
  arith,
}
use wdc_catalog_api.Schema.{ConsumedInvite}
use wdc_catalog_api.Session.{Request, World, ok, err, Exn, http}
use wdc_catalog_api.Roles.{Role, parse_role}
use wdc_catalog_api.Passwords.{Bcrypt}
use wdc_catalog_api.Audit.{emit}
use wdc_catalog_api.Auth.{JwtCodec}
use wdc_catalog_api.Login.{account_by_email}
use wdc_catalog_api.Invites.{
  InvitePayload, InviteCodec, loaded, max_invite_age, AcceptInviteResponse, nonce_by_text,
  is_consumed, is_over, consume, open_account, accept_payload, accept_invite,
}

is_consumed-consume :
    (nonce email : Text) (account_id : ℕ) (rows : List ConsumedInvite)
    → is_empty nonce ≡ false
    → is_some (find? (nonce_by_text nonce) (consume (some nonce) email account_id rows)) ≡ true
unfolding find?
is_consumed-consume nonce email account_id rows h =
    let row : ConsumedInvite = record {
      nonce = nonce;
      email = email;
      account_id = some account_id;
    } in
    ground (arith, h, find?-append (nonce_by_text nonce) rows (row ∷ []), text_eq_refl nonce)

module _ (codec : InviteCodec) (bcrypt : Bcrypt) (jwt : JwtCodec) where
  open_account-consumes :
      (salt jti nonce email password : Text) (role : Role) (request : Request) (w : World)
      → is_empty nonce ≡ false
      → is_some (
          find?
            (nonce_by_text nonce)
            (open_account codec bcrypt jwt salt jti
              (some nonce)
              email
              role
              password
              request
              w).1.working.invites)
        ≡ true
  unfolding open_account emit
  open_account-consumes salt jti nonce email password role request w h =
      is_consumed-consume nonce email _ w.working.invites h

  accept_payload-consumes :
      (salt jti nonce password : Text) (p : InvitePayload) (request : Request) (w : World)
      (answer : AcceptInviteResponse)
      → p.nonce ≡ some nonce
      → is_empty nonce ≡ false
      → (accept_payload codec bcrypt jwt salt jti p password request w).0 ≡ ok answer
      → is_some (
          find?
            (nonce_by_text nonce)
            (accept_payload codec bcrypt jwt salt jti p password request w).1.working.invites)
        ≡ true
  unfolding accept_payload
  accept_payload-consumes salt jti nonce password p request w answer named full h =
      elim (Bool-cases (is_over request.now p.exp)) [
        | inl over ↦ absurd (ground (arith, h, over))
        | inr live ↦ elim (Bool-cases (is_consumed p.nonce w.working)) [
          | inl used ↦ absurd (ground (arith, h, live, used))
          | inr fresh ↦ elim (Option-cases (parse_role (get_or p.role (codes "user")))) [
            | inl unknown ↦ absurd (ground (arith, h, live, fresh, unknown))
            | inr (role, known) ↦
                elim (Bool-cases (
                  is_some (
                    find? (account_by_email (lower (strip (get_or p.email []))))
                      w.working.accounts))) [
                        | inl taken ↦ absurd (ground (arith, h, live, fresh, known, taken))
                        | inr free ↦
                            rw (accept_payload, live, fresh, known, free, named)
                              (open_account-consumes salt jti nonce _ password role request w full)
                      ]
          ]
        ]
      ]

  -- a payload whose nonce is consumed is refused
  accept_payload_used :
      (salt jti nonce password : Text) (p : InvitePayload) (request : Request) (w : World)
      → p.nonce ≡ some nonce
      → is_empty nonce ≡ false
      → is_some (find? (nonce_by_text nonce) w.working.invites) ≡ true
      → (e : Exn) × (accept_payload codec bcrypt jwt salt jti p password request w ≡ (err e, w))
  unfolding accept_payload
  accept_payload_used salt jti nonce password p request w named full used =
      elim (Bool-cases (is_over request.now p.exp)) [
        | inl over ↦ (http 400 "Invite has expired", rw (accept_payload, over) refl)
        | inr live ↦ (
          http 409 "Invite has already been used",
          rw (accept_payload, live, named, full, used) refl,
        )
      ]

  -- An invite with a nonce, once it was accepted, is refused forever after: to whatever password and
  -- whatever else has happened to the database, as long as the record of used invites stays, a
  -- second use raises and changes nothing.
  pub accept_invite_once :
      (issued : ℕ) (p : InvitePayload) (nonce salt jti password salt' jti' password' : Text)
      (request later : Request) (w w' : World) (answer : AcceptInviteResponse)
      → p.nonce ≡ some nonce
      → is_empty nonce ≡ false
      → issued ≤ request.now
      → issued ≤ later.now
      → (accept_invite codec bcrypt jwt salt jti (codec.dumps issued p) password request w).0
        ≡ ok answer
      → w'.working.invites
        ≡ (accept_invite codec bcrypt jwt salt jti
            (codec.dumps issued p)
            password
            request
            w).1.working.invites
      → (e : Exn) × (accept_invite codec bcrypt jwt salt' jti'
            (codec.dumps issued p)
            password'
            later
            w'
          ≡ (err e, w'))
  unfolding accept_invite
  accept_invite_once issued p nonce salt jti password salt' jti' password' request later w w' answer
        named full before before' h kept =
      let first = codec.loads-dumps max_invite_age issued request.now p before in
      let second = codec.loads-dumps max_invite_age issued later.now p before' in
      elim (Bool-cases (ltb (issued + max_invite_age) request.now)) [
        | inl old ↦ absurd (ground (arith, h, first, old))
        | inr young ↦
            let read : codec.loads max_invite_age request.now (codec.dumps issued p) ≡ loaded p =
              ground (arith, first, young) in
            let used =
              accept_payload-consumes salt jti nonce password p request w answer named full
                (rw (accept_invite, read) at h) in
            let there : is_some (find? (nonce_by_text nonce) w'.working.invites) ≡ true =
              rw (kept, accept_invite, read) used in
            elim (Bool-cases (ltb (issued + max_invite_age) later.now)) [
              | inl old' ↦ (http 400 "Invite has expired", rw (accept_invite, second, old') refl)
              | inr young' ↦
                  let (e, refused) =
                    accept_payload_used salt' jti' nonce password' p later w' named full there in
                  (e, rw (accept_invite, second, young') refused)
            ]
      ]
