-- ===== src/Pats/Rotation.antt =====
-- app/pats.py, `rotate`: the old token and the new one.
use wdc_catalog_api.Base.{
  ℕ, ◌≡◌, refl, Bool, true, false, Option, none, some, List, [], ◌∷◌, ◌++◌, Text, text_eq_refl,
  is_some, if◌then◌else◌, leb, ltb, ◌==◌, negb, ◌||◌, take, find?, select, select-append,
  select-Elem, starts_with, starts_with-append, All, All-intro, All-Elem, All-update_where,
  Option-cases, inl, inr, ◌⊎◌, ◌↔◌, arith, ap, ◌∙◌,
}
use wdc_catalog_api.Schema.{Db, Account, PersonalAccessToken}
use wdc_catalog_api.Session.{Request, World, ok}
use wdc_catalog_api.Passwords.{Bcrypt, verify_password, verify-hash_password}
use wdc_catalog_api.Pats.{
  token_prefix, prefix_persisted_len, pat_by_id, PatSpec, expired_at, first_match, is_candidate,
  stamp, resolve_match, try_authenticate_pat, generate_token, new_pat, issue, owned_pat,
  mark_revoked, rotate, successor, still_ahead,
}
use wdc_catalog_api.Pats.Lookup.{first_match-append}

module _ (bcrypt : Bcrypt) (secret salt : Text) (now account_id token_id : ℕ) (w : World) where
  -- `rotate` answers `None` and changes nothing exactly when the caller has no such token or the
  -- token is already revoked.
  pub rotate-none : (rotate bcrypt secret salt now account_id token_id w ≡ (ok none, w)) ↔ (
      (owned_pat account_id token_id w.working ≡ none)
      ⊎ ((old : PersonalAccessToken) × (owned_pat account_id token_id w.working ≡ some old)
          × (is_some old.revoked_at ≡ true)))
  unfolding rotate issue
  rotate-none = (
    λ h. elim (Option-cases (owned_pat account_id token_id w.working)) [
      | inl missing ↦ inl missing
      | inr (old, owned) ↦ inr (old, owned, ground arith)
    ],
    λ h. elim h [ inl missing ↦ ground arith | inr (old, owned, dead) ↦ ground arith ],
  )

  -- Rotating a live token of the caller revokes it and appends one token: for the same account,
  -- with the old name normalised again, the same read-only flag and allowlist, no use yet, and the
  -- old expiry if that is still ahead, else none at all. No other token changes.
  pub rotate-some :
      (old : PersonalAccessToken)
      → owned_pat account_id token_id w.working ≡ some old
      → old.revoked_at ≡ none
      → let marked = mark_revoked now token_id w.working in
        let new = new_pat bcrypt secret salt (successor bcrypt now account_id old) marked in
        let (r, w') = rotate bcrypt secret salt now account_id token_id w in
        (r ≡ ok (some (old.id, new, generate_token secret)))
        × (w'.working.pats ≡ marked.pats ++ new ∷ [])
        × (new.read_only ≡ old.read_only)
        × (new.expires_at ≡ still_ahead now old.expires_at)
        × (w'.committed ≡ w.committed)
  unfolding rotate issue
  rotate-some old owned live = ground arith

  rotate_frame :
      (old : PersonalAccessToken)
      → owned_pat account_id token_id w.working ≡ some old
      → old.revoked_at ≡ none
      → (rotate bcrypt secret salt now account_id token_id w).1.working.accounts
        ≡ w.working.accounts
  unfolding rotate issue
  rotate_frame old owned live = ground arith

-- Whether the replacement that is made at an instant is taken at a later one, by the expiry of the
-- token that it replaces.
abbrev pub lasts : ℕ → ℕ → Option ℕ → Bool
lasts now at none = true
lasts now at (some expiry) = leb expiry now || ltb at expiry

lasts-still_ahead :
    (now at : ℕ) (expiry : Option ℕ)
    → expired_at at (still_ahead now expiry) ≡ negb (lasts now at expiry)
lasts-still_ahead now at none = refl
lasts-still_ahead now at (some e) = ground arith

module _ (bcrypt : Bcrypt) (secret salt : Text) where
  -- The text is not the value of the token.
  abbrev pub Differs : PersonalAccessToken → Type 0
  Differs row = verify_password bcrypt (generate_token secret) row.token_hash ≡ false

  first_match_misses :
      (at : ℕ) (rows : List PersonalAccessToken)
      → All Differs rows
      → first_match bcrypt at (generate_token secret) rows ≡ none
  unfolding first_match
  first_match_misses at [] h = refl
  first_match_misses at (row ∷ rest) (h, hs) = ground (arith, h, first_match_misses at rest hs)

  first_match-issued :
      (at : ℕ) (spec : PatSpec) (db : Db)
      → All Differs db.pats
      → first_match bcrypt at (generate_token secret) (
          select
            (is_candidate bcrypt (take prefix_persisted_len (generate_token secret)))
            (db.pats ++ new_pat bcrypt secret salt spec db ∷ []))
        ≡ (if expired_at at spec.expires_at
            then none
            else some (new_pat bcrypt secret salt spec db))
  unfolding select first_match
  first_match-issued at spec db differ =
      let prefix = take prefix_persisted_len (generate_token secret) in
      let others = first_match_misses at (select (is_candidate bcrypt prefix) db.pats) (
        All-intro Differs _ (λ r m.
          All-Elem Differs r db.pats differ
            (select-Elem (is_candidate bcrypt prefix) r db.pats m).0)) in
      rw select-append (
        rw (first_match-append bcrypt at (generate_token secret) _ _ others) (
          ground
            (arith, text_eq_refl prefix, verify-hash_password bcrypt salt (generate_token secret))))

  has_prefix : starts_with token_prefix (generate_token secret) ≡ true
  unfolding generate_token
  has_prefix = starts_with-append token_prefix secret

  -- the answer for the value of the token, by its one possible match
  answer_of_match :
      (request : Request) (v : World) (row : PersonalAccessToken) (account : Account) (over : Bool)
      → find? (λ (a : Account). a.id == row.account_id) v.working.accounts ≡ some account
      → account.suspended_at ≡ none
      → first_match bcrypt request.now (generate_token secret) (
          select
            (is_candidate bcrypt (take prefix_persisted_len (generate_token secret)))
            v.working.pats)
        ≡ (if over then none else some row)
      → (try_authenticate_pat bcrypt (generate_token secret) request v).0
        ≡ ok (if over then none else some (account, stamp bcrypt request row))
  unfolding try_authenticate_pat resolve_match
  answer_of_match request v row account true known active found = ground (arith, has_prefix, found)
  answer_of_match request v row account false known active found =
      ground (arith, has_prefix, found, known, active)

  module _ (now account_id token_id : ℕ) (w v : World) where
    -- The replacement of a live token of an account that is not suspended keeps the expiry of the token
    -- only while that is ahead: it is taken at every instant if the token had no expiry or one that
    -- had passed when it was rotated, so that rotating an expired token extends its access for ever, and
    -- otherwise before the expiry and not from then on. Until the accounts and tokens change, and when
    -- the new value checks against no hash that was stored before.
    pub try_authenticate_pat-rotate :
        (old : PersonalAccessToken) (account : Account) (request : Request)
        → owned_pat account_id token_id w.working ≡ some old
        → old.revoked_at ≡ none
        → find? (λ (a : Account). a.id == account_id) w.working.accounts ≡ some account
        → account.suspended_at ≡ none
        → All Differs w.working.pats
        → v.working ≡ (rotate bcrypt secret salt now account_id token_id w).1.working
        → (new : PersonalAccessToken) × ((rotate bcrypt secret salt now account_id token_id w).0
            ≡ ok (some (old.id, new, generate_token secret)))
          × ((try_authenticate_pat bcrypt (generate_token secret) request v).0
              ≡ ok (
                  if lasts now request.now old.expires_at
                  then some (account, stamp bcrypt request new)
                  else none))
    try_authenticate_pat-rotate old account request owned live known active differ same =
        let marked = mark_revoked now token_id w.working in
        let (answer, pats, _, _, _) =
          rotate-some bcrypt secret salt now account_id token_id w old owned live in
        let accounts = rotate_frame bcrypt secret salt now account_id token_id w old owned live in
        let apart =
          All-update_where Differs (pat_by_id token_id)
            (λ (row : PersonalAccessToken). record row { revoked_at = some now }) (λ x h e. h)
            w.working.pats differ in
        let found =
          first_match-issued request.now (successor bcrypt now account_id old) marked apart in
        let stored = ap (λ (db : Db). db.pats) same ∙ pats in
        let there : find? (λ (a : Account). a.id == account_id) v.working.accounts ≡ some account =
          rw (ap (λ (db : Db). db.accounts) same ∙ accounts) known in
        let over = expired_at request.now (still_ahead now old.expires_at) in
        let taken =
          answer_of_match request v
            (new_pat bcrypt secret salt (successor bcrypt now account_id old) marked) account over
            there active (rw stored found) in
        (_, answer, ground (arith, taken, lasts-still_ahead now request.now old.expires_at))
