-- ===== src/Pats/Lookup.antt =====
-- app/pats.py, `try_authenticate_pat`: which rows a bearer value stands for.
use wdc_catalog_api.Base.{
  ℕ, ◌≡◌, refl, true, false, none, some, List, [], ◌∷◌, ◌++◌, Text, text_eq, is_some, ◌==◌, ◌⊎◌,
  take, find?, select, Elem, select-Elem, Option-cases, inl, inr, arith, and_true,
}
use wdc_catalog_api.Schema.{Account, PersonalAccessToken}
use wdc_catalog_api.Session.{Request, World, ok}
use wdc_catalog_api.Passwords.{Bcrypt, verify_password}
use wdc_catalog_api.Pats.{
  prefix_persisted_len, expired_at, first_match, is_candidate, stamp, resolve_match,
  try_authenticate_pat,
}

module _ (bcrypt : Bcrypt) where
  -- What makes a row the one that a bearer value stands for at an instant.
  pub record Matches (now : ℕ) (bearer : Text) (row : PersonalAccessToken) : Type 0 where
    pub not_revoked : is_some row.revoked_at ≡ false
    pub not_expired : expired_at now row.expires_at ≡ false
    pub verified : verify_password bcrypt bearer row.token_hash ≡ true

  first_match-step :
      (now : ℕ) (bearer : Text) (x row : PersonalAccessToken) (rows : List PersonalAccessToken)
      → first_match bcrypt now bearer (x ∷ rows) ≡ some row
      → ((row ≡ x)
          × (expired_at now x.expires_at ≡ false)
          × (verify_password bcrypt bearer x.token_hash ≡ true))
        ⊎ (first_match bcrypt now bearer rows ≡ some row)
  unfolding first_match
  first_match-step now bearer x row rows h = ground arith

  first_match-Elem :
      (now : ℕ) (bearer : Text) (rows : List PersonalAccessToken) (row : PersonalAccessToken)
      → first_match bcrypt now bearer rows ≡ some row
      → Elem row rows
        × (expired_at now row.expires_at ≡ false)
        × (verify_password bcrypt bearer row.token_hash ≡ true)
  first_match-Elem now bearer [] row h = unfold first_match in cc
  first_match-Elem now bearer (x ∷ rows) row h = elim (first_match-step now bearer x row rows h) [
    | inl (same, fresh, hit) ↦ (inl same, rw same fresh, rw same hit)
    | inr k ↦ let (m, e, v) = first_match-Elem now bearer rows row k in (inr m, e, v)
  ]

  resolve_match-ok :
      (row : PersonalAccessToken) (request : Request) (w : World) (account : Account)
      (stamped : PersonalAccessToken)
      → (resolve_match bcrypt request row w).0 ≡ ok (some (account, stamped))
      → (find? (λ (a : Account). a.id == row.account_id) w.working.accounts ≡ some account)
        × (account.suspended_at ≡ none)
        × (stamped ≡ stamp bcrypt request row)
  unfolding resolve_match
  resolve_match-ok row request w account stamped h =
      elim (Option-cases (find? (λ (a : Account). a.id == row.account_id) w.working.accounts)) [
        | inl missing ↦ absurd (ground arith)
        | inr (a, known) ↦ (ground arith, ground arith, ground arith)
      ]

  authenticate_inv :
      (bearer : Text) (request : Request) (w : World) (account : Account)
      (stamped : PersonalAccessToken)
      → (try_authenticate_pat bcrypt bearer request w).0 ≡ ok (some (account, stamped))
      → (row : PersonalAccessToken) × (first_match bcrypt request.now bearer
            (select (is_candidate bcrypt (take prefix_persisted_len bearer)) w.working.pats)
          ≡ some row)
        × ((resolve_match bcrypt request row w).0 ≡ ok (some (account, stamped)))
  unfolding try_authenticate_pat
  authenticate_inv bearer request w account stamped h =
      elim (Option-cases (
        first_match bcrypt request.now bearer
          (select (is_candidate bcrypt (take prefix_persisted_len bearer)) w.working.pats))) [
            | inl missing ↦ absurd (ground arith)
            | inr (row, found) ↦ (row, found, ground arith)
          ]

  -- Whatever bearer value authenticates, it stands for a row of the table: the row is not revoked
  -- and not expired, its bcrypt hash checks, its prefix is that of the value, and the account that
  -- comes back is the row's, present and not suspended.
  pub try_authenticate_pat_sound :
      (bearer : Text) (request : Request) (w : World) (account : Account)
      (stamped : PersonalAccessToken)
      → (try_authenticate_pat bcrypt bearer request w).0 ≡ ok (some (account, stamped))
      → (row : PersonalAccessToken) × Elem row w.working.pats
        × Matches request.now bearer row
        × (text_eq row.token_prefix (take prefix_persisted_len bearer) ≡ true)
        × (stamped ≡ stamp bcrypt request row)
        × (find? (λ (a : Account). a.id == row.account_id) w.working.accounts ≡ some account)
        × (account.suspended_at ≡ none)
  try_authenticate_pat_sound bearer request w account stamped h =
      let (row, found, resolved) = authenticate_inv bearer request w account stamped h in
      let (m, fresh, hit) = first_match-Elem request.now bearer _ row found in
      let (there, candidate) = select-Elem _ row w.working.pats m in
      let (same_prefix, live) = and_true _ _ candidate in
      let (known, active, marked) = resolve_match-ok row request w account stamped resolved in
      (
        row,
        there,
        record { not_revoked = ground arith; not_expired = fresh; verified = hit },
        same_prefix,
        marked,
        known,
        active,
      )

  pub first_match-append :
      (now : ℕ) (bearer : Text) (rows more : List PersonalAccessToken)
      → first_match bcrypt now bearer rows ≡ none
      → first_match bcrypt now bearer (rows ++ more) ≡ first_match bcrypt now bearer more
  unfolding first_match
  first_match-append now bearer [] more h = refl
  first_match-append now bearer (x ∷ rows) more h =
      ground (arith, first_match-append now bearer rows more)
