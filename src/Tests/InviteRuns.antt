-- ===== src/Tests/InviteRuns.antt =====
-- Invites.
use wdc_catalog_api.Base.{
  ℕ, zero, suc, ◌+◌, ◌≡◌, refl, Option, none, some, [], ◌∷◌, ◌++◌, Text, codes, text_eq,
  if◌then◌else◌, ltb, length, take, drop, take-append_length, drop-append_length, find?, strip,
  fresh_id, arith,
}
use wdc_catalog_api.Session.{World, ok, err, Exn}
use wdc_catalog_api.Roles.{operator, value, parse_role}
use wdc_catalog_api.Passwords.{hash_password}
use wdc_catalog_api.Audit.{emit}
use wdc_catalog_api.Login.{account_by_email}
use wdc_catalog_api.Invites.{
  InvitePayload, InviteCodec, Loaded, expired, bad, loaded, CreateInviteResponse,
  AcceptInviteResponse, has_char, invite_payload, mint_invite, invited_account, open_account,
  accept_payload, accept_invite,
}
use wdc_catalog_api.Invites.Single.{accept_invite_once}
use wdc_catalog_api.Invites.Journey.{accept_invite-mint_invite, minted, opened_answer}
use wdc_catalog_api.Tests.Fixtures.{
  plain_bcrypt, open_jwt, ann, request_at, world, number_of, option_of, option_of-number_of,
}

-- A payload written out, each text behind one more than its length, without a signature.
abbrev write_part : Option Text → Text
write_part none = 0 ∷ []
write_part (some t) = suc (length t) ∷ t

abbrev read_part : Text → Option Text × Text
read_part [] = (none, [])
read_part (zero ∷ rest) = (none, rest)
read_part (suc n ∷ rest) = (some (take n rest), drop n rest)

read_part-write_part :
    (o : Option Text) (rest : Text) → read_part (write_part o ++ rest) ≡ (o, rest)
read_part-write_part none rest = refl
read_part-write_part (some t) rest = rw (take-append_length t rest, drop-append_length t rest) refl

abbrev dumps : ℕ → InvitePayload → Text
dumps issued p =
    issued ∷ number_of p.exp ∷ write_part p.email
    ++ (write_part p.role ++ (write_part p.nonce ++ []))

abbrev read_payload : ℕ → Text → InvitePayload
read_payload exp rest =
    let (email, rest1) = read_part rest in
    let (role, rest2) = read_part rest1 in
    let (nonce, rest3) = read_part rest2 in
    record { email = email; role = role; nonce = nonce; exp = option_of exp }

abbrev loads : ℕ → ℕ → Text → Loaded
loads max_age now (issued ∷ exp ∷ rest) =
    if ltb (issued + max_age) now then expired else loaded (read_payload exp rest)
loads max_age now _ = bad

abbrev codec : InviteCodec
codec = record {
  dumps = dumps;
  loads = loads;
  loads-dumps = λ max_age issued now p h.
      rw
        (
          option_of-number_of p.exp,
          read_part-write_part p.email,
          read_part-write_part p.role,
          read_part-write_part p.nonce,
        )
        refl;
}

abbrev invite : InvitePayload
invite = invite_payload codec (codes "new@b.cz") operator (codes "n1") 3700

abbrev answer : AcceptInviteResponse
answer =
    opened_answer codec plain_bcrypt open_jwt (codes "j1") (codes "new@b.cz") operator
      (request_at 200) world

abbrev after : World
after =
    (accept_invite codec plain_bcrypt open_jwt (codes "s1") (codes "j1") (dumps 100 invite)
      (codes "password") (request_at 200) world).1

accept_invite_once_example :
    (e : Exn) × (accept_invite codec plain_bcrypt open_jwt
        (codes "s2")
        (codes "j2")
        (dumps 100 invite)
        (codes "password2")
        (request_at 300)
        after
      ≡ (err e, after))
unfolding accept_invite accept_payload open_account emit find? text_eq strip parse_role fresh_id
accept_invite_once_example =
    accept_invite_once codec plain_bcrypt open_jwt 100 invite (codes "n1") (codes "s1") (codes "j1")
      (codes "password") (codes "s2") (codes "j2") (codes "password2") (request_at 200)
      (request_at 300) world after answer refl refl (omega arith) (omega arith) refl refl

abbrev minted_invite : CreateInviteResponse
minted_invite = minted codec (codes " New@b.cz") operator 1 (codes "n1") (request_at 100)

accept_invite-mint_invite_example :
    (a : AcceptInviteResponse) × ((accept_invite codec plain_bcrypt open_jwt
        (codes "s1")
        (codes "j1")
        minted_invite.token
        (codes "password")
        (request_at 200)
        world).0
      ≡ ok a)
    × (a.email ≡ codes "new@b.cz")
    × (a.role ≡ codes "operator")
    × (find?
          (account_by_email (codes "new@b.cz"))
          (accept_invite codec plain_bcrypt open_jwt
            (codes "s1")
            (codes "j1")
            minted_invite.token
            (codes "password")
            (request_at 200)
            world).1.working.accounts
        ≡ some (
            invited_account codec plain_bcrypt open_jwt
              (codes "new@b.cz")
              (hash_password plain_bcrypt (codes "s1") (codes "password"))
              operator
              200
              world.working))
unfolding mint_invite emit find? text_eq strip has_char value
accept_invite-mint_invite_example =
    accept_invite-mint_invite codec plain_bcrypt open_jwt (codes " New@b.cz") (codes "n1")
      (codes "s1") (codes "j1") (codes "password") operator 1 ann (request_at 100) (request_at 200)
      world world minted_invite refl (omega arith) (omega arith) (omega arith) refl refl
