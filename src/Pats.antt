-- ===== src/Pats.antt =====
-- app/pats.py: personal access tokens. The random part of a token and the bcrypt salt are arguments.
pub mod Lookup
pub mod Lifecycle
pub mod Rotation
use wdc_catalog_api.Base.{
  ℕ, ◌+◌, Bool, true, false, Option, none, some, List, [], ◌∷◌, ◌++◌, Text, codes, text_eq, is_some,
  is_empty, if◌then◌else◌, leb, ltb, ◌==◌, negb, ◌&&◌, ◌||◌, take, strip, starts_with, find?,
  select, update_where, fresh_id,
}
use wdc_catalog_api.Schema.{Db, Account, PersonalAccessToken}
use wdc_catalog_api.Session.{Request, Exec, World, Result, ok, pure, query, write, ◌>>=◌, ◌>>◌}
use wdc_catalog_api.Passwords.{Bcrypt, hash_password, verify_password}

abbrev pub token_prefix : Text
token_prefix = codes "nks_pat_"

abbrev pub prefix_persisted_len : ℕ
prefix_persisted_len = 10

-- `generate_token`, from what `secrets.token_urlsafe` returned
unfoldable pub generate_token : Text → Text
generate_token secret = token_prefix ++ secret

abbrev pub pat_by_id : ℕ → PersonalAccessToken → Bool
pat_by_id id row = row.id == id

-- `name.strip()[:128] or "unnamed"`
unfoldable pub pat_name : Text → Text
pat_name name = let cut = take 128 (strip name) in if is_empty cut then codes "unnamed" else cut

-- `ip_allowlist if ip_allowlist else None`
abbrev pub nonempty_allowlist : Option (List Text) → Option (List Text)
nonempty_allowlist none = none
nonempty_allowlist (some l) = if is_empty l then none else some l

-- what `bool(expires_at is not None and expires_at > now)` keeps of an expiry
abbrev pub still_ahead : ℕ → Option ℕ → Option ℕ
still_ahead now none = none
still_ahead now (some e) = if ltb now e then some e else none

-- `row.expires_at is not None and row.expires_at <= now`
abbrev pub expired_at : ℕ → Option ℕ → Bool
expired_at now none = false
expired_at now (some e) = leb e now

-- What a caller chooses of a new token.
pub record PatSpec : Type 0 where
  pub account_id : ℕ
  pub name : Text
  pub expires_at : Option ℕ
  pub read_only : Bool
  pub ip_allowlist : Option (List Text)

module _ (bcrypt : Bcrypt) where
  abbrev pub new_pat : Text → Text → PatSpec → Db → PersonalAccessToken
  new_pat secret salt spec db = record {
    id = fresh_id (λ (row : PersonalAccessToken). row.id) db.pats;
    account_id = spec.account_id;
    name = pat_name spec.name;
    token_hash = hash_password bcrypt salt (generate_token secret);
    token_prefix = take prefix_persisted_len (generate_token secret);
    last_used_at = none;
    last_used_ip = none;
    last_used_ua = none;
    revoked_at = none;
    expires_at = spec.expires_at;
    read_only = spec.read_only;
    ip_allowlist = nonempty_allowlist spec.ip_allowlist;
  }

  unfoldable pub issue : Text → Text → PatSpec → Exec (PersonalAccessToken × Text)
  issue secret salt spec = do
    row ← query (new_pat secret salt spec)
    write (λ db. record db { pats = db.pats ++ row ∷ [] })
    pure (row, generate_token secret)

  -- The candidates in turn: an expired row and one whose check fails or raises are passed over.
  unfoldable pub first_match : ℕ → Text → List PersonalAccessToken → Option PersonalAccessToken
  first_match now bearer [] = none
  first_match now bearer (row ∷ rest) =
      let next = first_match now bearer rest in
      if expired_at now row.expires_at
      then next
      else if verify_password bcrypt bearer row.token_hash
      then some row
      else next

  -- `PersonalAccessToken.token_prefix == prefix, revoked_at IS NULL`
  abbrev pub is_candidate : Text → PersonalAccessToken → Bool
  is_candidate prefix row = text_eq row.token_prefix prefix && negb (is_some row.revoked_at)

  abbrev pub stamp : Request → PersonalAccessToken → PersonalAccessToken
  stamp request row = record row {
    last_used_at = some request.now;
    last_used_ip = some request.ip;
    last_used_ua = elim request.user_agent [
      | none ↦ none
      | some ua ↦ if is_empty ua then none else some (take 256 ua)
    ];
  }

  -- what follows a match: the account, and the stamp of the last use
  unfoldable pub resolve_match :
      Request → PersonalAccessToken → Exec (Option (Account × PersonalAccessToken))
  resolve_match request row w =
      elim (find? (λ (a : Account). a.id == row.account_id) w.working.accounts) [
        | none ↦ (ok none, w)
        | some account ↦
            if is_some account.suspended_at
            then (ok none, w)
            else let db = w.working in
              (
                ok (some (account, stamp request row)),
                record w {
                  working = record db {
                    pats = update_where (pat_by_id row.id) (stamp request) db.pats;
                  };
                },
              )
      ]

  unfoldable pub try_authenticate_pat :
      Text → Request → Exec (Option (Account × PersonalAccessToken))
  try_authenticate_pat bearer request w =
      if negb (starts_with token_prefix bearer)
      then (ok none, w)
      else elim (first_match request.now bearer
          (select (is_candidate (take prefix_persisted_len bearer)) w.working.pats)) [
            | none ↦ (ok none, w)
            | some row ↦ resolve_match request row w
          ]

-- `row is None or row.account_id != account_id`
abbrev pub owned_pat : ℕ → ℕ → Db → Option PersonalAccessToken
owned_pat account_id token_id db = elim (find? (pat_by_id token_id) db.pats) [
  | none ↦ none
  | some row ↦ if row.account_id == account_id then some row else none
]

-- `row.revoked_at = now`
abbrev pub mark_revoked : ℕ → ℕ → Db → Db
mark_revoked now token_id db = record db {
  pats =
      update_where (pat_by_id token_id)
        (λ (row : PersonalAccessToken). record row { revoked_at = some now }) db.pats;
}

unfoldable pub revoke : ℕ → ℕ → ℕ → Exec Bool
revoke now account_id token_id w = elim (owned_pat account_id token_id w.working) [
  | none ↦ (ok false, w)
  | some row ↦
      if is_some row.revoked_at
      then (ok true, w)
      else (ok true, record w { working = mark_revoked now token_id w.working })
]

module _ (bcrypt : Bcrypt) where
  -- the replacement that `rotate` asks `issue` for
  abbrev pub successor : ℕ → ℕ → PersonalAccessToken → PatSpec
  successor now account_id old = record {
    account_id = account_id;
    name = old.name;
    expires_at = still_ahead now old.expires_at;
    read_only = old.read_only;
    ip_allowlist = nonempty_allowlist old.ip_allowlist;
  }

  unfoldable pub rotate : Text → Text → ℕ → ℕ → ℕ → Exec (Option (ℕ × PersonalAccessToken × Text))
  rotate secret salt now account_id token_id w = elim (owned_pat account_id token_id w.working) [
    | none ↦ (ok none, w)
    | some old ↦
        if is_some old.revoked_at
        then (ok none, w)
        else (do
          write (mark_revoked now token_id)
          issued ← issue bcrypt secret salt (successor now account_id old)
          pure (some (old.id, issued.0, issued.1)))
            w
  ]
