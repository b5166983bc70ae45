-- ===== src/AdminSessions/Cookies.antt =====
-- app/auth.py: the session cookie and `current_user`.
use wdc_catalog_api.Base.{
  ℕ, ◌+◌, ◌≤◌, ◌≡◌, refl, inl, inr, Bool, true, false, Option, none, some, [], ◌∷◌, ◌++◌, Text,
  codes, text_eq_refl, is_some, is_empty, ltb, ◌==◌, negb, ◌&&◌, and_true, ◌||◌, min, find?,
  find?-append, Bool-cases, Option-cases, arith, ◌∙◌,
}
use wdc_catalog_api.Schema.{Db, AdminSession}
use wdc_catalog_api.Session.{Request, World, ok, Result-cases}
use wdc_catalog_api.IpRanges.{IpLibrary, host_allowed}
use wdc_catalog_api.AdminSessions.{
  Signer, SessionTimes, split_session_payload, session_by_fingerprint, user_by_name, new_session,
  admin_allowlist, track_session, session_id, fingerprint, read_session, session_cookie,
  issue_session, check_session, check_address, current_user,
}

-- The name has no `|`.
unfoldable pub is_plain : Text → Bool
is_plain [] = true
is_plain (c ∷ s) = negb (c == 124) && is_plain s

split_session_payload_plain :
    (username id : Text)
    → is_plain username ≡ true
    → is_empty id ≡ false
    → split_session_payload (username ++ (codes "|" ++ id)) ≡ (username, some id)
unfolding split_session_payload is_plain
split_session_payload_plain [] id h full = ground (arith, full)
split_session_payload_plain (c ∷ s) id h full =
    let (here, rest) = and_true (negb (c == 124)) (is_plain s) h in
    rw (split_session_payload_plain s id rest full) (rw (negb_true (c == 124) here) refl)
  where
    negb_true : (b : Bool) → negb b ≡ true → b ≡ false
    negb_true b k = ground (arith, k)

module _ (signer : Signer) (sha256 : Text → Text) (times : SessionTimes) where
  track_session-allowlist :
      (username fp : Text) (request : Request) (w : World)
      → (track_session username fp request w).working.global_policy ≡ w.working.global_policy
  unfolding track_session
  track_session-allowlist username fp request w = ground arith

  check_session-policy :
      (username cookie : Text) (request : Request) (w : World)
      → (check_session signer sha256 times username cookie request w).1.working.global_policy
        ≡ w.working.global_policy
  unfolding check_session track_session
  check_session-policy username cookie request w =
      elim (Option-cases (
        find? (session_by_fingerprint (fingerprint signer sha256 times request.now cookie))
          w.working.admin_sessions)) [
            | inl new ↦
                rw (check_session, new)
                  (track_session-allowlist username
                    (fingerprint signer sha256 times request.now cookie) request w)
            | inr (row, there) ↦ elim (Bool-cases (is_some row.revoked_at)) [
              | inl dead ↦ rw (check_session, there, dead) refl
              | inr live ↦ rw (check_session, there, live) refl
            ]
          ]

  check_session_ok :
      (username cookie : Text) (request : Request) (w : World) (row : AdminSession)
      → (check_session signer sha256 times username cookie request w).0 ≡ ok tt
      → find?
          (session_by_fingerprint (fingerprint signer sha256 times request.now cookie))
          w.working.admin_sessions
        ≡ some row
      → row.revoked_at ≡ none
  unfolding check_session
  check_session_ok username cookie request w row h there = ground (arith, h, there)

  check_address_ok :
      (ips : IpLibrary) (name username : Text) (request : Request) (w : World)
      → (check_address signer sha256 times ips name request w).0 ≡ ok username
      → (name ≡ username)
        × (is_empty (admin_allowlist w.working)
              || host_allowed ips (admin_allowlist w.working) request.ip
            ≡ true)
  unfolding check_address
  check_address_ok ips name username request w h = (ground (arith, h), ground (arith, h))

  check_address_allowed :
      (ips : IpLibrary) (name : Text) (request : Request) (w : World)
      → is_empty (admin_allowlist w.working)
          || host_allowed ips (admin_allowlist w.working) request.ip
        ≡ true
      → (check_address signer sha256 times ips name request w).0 ≡ ok name
  unfolding check_address
  check_address_allowed ips name request w h = ground (arith, h)

  admin_allowlist_same :
      (db db' : Db)
      → db'.global_policy ≡ db.global_policy
      → admin_allowlist db' ≡ admin_allowlist db
  admin_allowlist_same db db' same = rw same refl

  -- Who gets past `current_user` sent a cookie that was signed not longer ago than the shorter of the
  -- two session times, and is the user whose name it carries; no row of that session is revoked, and
  -- the address is one that the global policy allows, if it has a list.
  pub current_user_sound :
      (ips : IpLibrary) (cookie : Option Text) (request : Request) (w : World) (username : Text)
      → (current_user signer sha256 times ips cookie request w).0 ≡ ok username
      → (c : Text) × (raw : Text) × (cookie ≡ some c)
        × (signer.unsign request.now (some (min times.max_age times.idle_timeout)) c ≡ some raw)
        × ((split_session_payload raw).0 ≡ username)
        × ((row : AdminSession)
            → find?
                (session_by_fingerprint (fingerprint signer sha256 times request.now c))
                w.working.admin_sessions
              ≡ some row
            → row.revoked_at ≡ none)
        × (is_empty (admin_allowlist w.working)
              || host_allowed ips (admin_allowlist w.working) request.ip
            ≡ true)
  unfolding current_user read_session check_address
  current_user_sound ips none request w username h = cc
  current_user_sound ips (some c) request w username h = elim (Bool-cases (is_empty c)) [
    | inl bare ↦ absurd (ground (arith, h, bare))
    | inr full ↦
        elim (Option-cases
          (signer.unsign request.now (some (min times.max_age times.idle_timeout)) c)) [
            | inl old ↦ absurd (ground (arith, h, full, old))
            | inr (raw, signed) ↦
                let name = (split_session_payload raw).0 in
                elim (Result-cases (check_session signer sha256 times name c request w).0) [
                  | inr (e, dead) ↦ absurd (ground (arith, h, full, signed, dead))
                  | inl (unit, live) ↦
                      let after = (check_session signer sha256 times name c request w).1 in
                      let list =
                        admin_allowlist_same w.working after.working
                          (check_session-policy name c request w) in
                      let (same, allowed) =
                        check_address_ok ips name username request after
                          (rw (current_user, read_session, full, signed, live) at h) in
                      (
                        c,
                        raw,
                        refl,
                        signed,
                        same,
                        λ row there. check_session_ok name c request w row live there,
                        rw list at allowed,
                      )
                ]
          ]
  ]

  module _ (username id : Text) (request later : Request) (w : World)
      (plain : is_plain username ≡ true) (drawn : is_empty id ≡ false)
      (after : request.now ≤ later.now) where
    abbrev cookie : Text
    cookie = session_cookie signer sha256 times username id request.now

    young :
        later.now ≤ request.now + min times.max_age times.idle_timeout
        → ltb (request.now + min times.max_age times.idle_timeout) later.now ≡ false
    young soon = ground (arith, soon)

    read_session-cookie :
        later.now ≤ request.now + min times.max_age times.idle_timeout
        → is_empty cookie ≡ false
        → read_session signer sha256 times later.now (some cookie) ≡ some username
    unfolding read_session
    read_session-cookie soon full =
        rw
          (
            read_session,
            full,
            signer.unsign-sign later.now request.now (min times.max_age times.idle_timeout)
                (username ++ (codes "|" ++ id)) after,
            young soon,
            split_session_payload_plain username id plain drawn,
          )
          refl

    fingerprint-cookie :
        (now : ℕ) → is_empty cookie ≡ false → fingerprint signer sha256 times now cookie ≡ sha256 id
    unfolding fingerprint session_id
    fingerprint-cookie now full =
        rw
          (
            fingerprint,
            session_id,
            full,
            signer.unsign-sign_ageless now request.now (username ++ (codes "|" ++ id)),
            split_session_payload_plain username id plain drawn,
          )
          refl

    -- the row of the session, where there is one after the login
    track_session_row :
        (row : AdminSession)
        → find? (session_by_fingerprint (sha256 id)) w.working.admin_sessions ≡ none
        → find?
            (session_by_fingerprint (sha256 id))
            (track_session username (sha256 id) request w).working.admin_sessions
          ≡ some row
        → row.revoked_at ≡ none
    unfolding track_session find?
    track_session_row row new there =
        elim (Option-cases (find? (user_by_name username) w.working.users)) [
          | inl unknown ↦ absurd (ground (arith, new, rw (track_session, unknown) at there))
          | inr (user, known) ↦ ground (
            arith,
            new,
            known,
            there,
            text_eq_refl (sha256 id),
            find?-append (session_by_fingerprint (sha256 id)) w.working.admin_sessions
                (new_session user (sha256 id) request w.working ∷ []),
          )
        ]

    check_session_live :
        (fp : Text) (w' : World)
        → fingerprint signer sha256 times later.now cookie ≡ fp
        → ((row : AdminSession)
            → find? (session_by_fingerprint fp) w'.working.admin_sessions ≡ some row
            → row.revoked_at ≡ none)
        → (check_session signer sha256 times username cookie later w').0 ≡ ok tt
    unfolding check_session
    check_session_live fp w' its live =
        elim (Option-cases (find? (session_by_fingerprint fp) w'.working.admin_sessions)) [
          | inl new ↦ rw (check_session, its, new) refl
          | inr (row, there) ↦ rw (check_session, its, there, live row there) refl
        ]

    issued :
        is_empty cookie ≡ false
        → issue_session signer sha256 times username id request w
          ≡ (ok cookie, track_session username (sha256 id) request w)
    unfolding issue_session
    issued full = rw (issue_session, fingerprint-cookie request.now full) refl

    current_user_live :
        (ips : IpLibrary) (w' : World)
        → later.now ≤ request.now + min times.max_age times.idle_timeout
        → is_empty cookie ≡ false
        → (check_session signer sha256 times username cookie later w').0 ≡ ok tt
        → let after = (check_session signer sha256 times username cookie later w').1 in
          is_empty (admin_allowlist after.working)
              || host_allowed ips (admin_allowlist after.working) later.ip
            ≡ true
          → (current_user signer sha256 times ips (some cookie) later w').0 ≡ ok username
    unfolding current_user
    current_user_live ips w' soon full live allowed =
        rw (current_user, read_session-cookie soon full, live)
          (check_address_allowed ips username later _ allowed)

    -- The cookie that a login issues for a name without `|`, when its fingerprint is new: until the
    -- shorter of the two session times is over, `current_user` answers the name from every address
    -- that the global policy allows.
    pub current_user-issue_session :
        (ips : IpLibrary)
        → later.now ≤ request.now + min times.max_age times.idle_timeout
        → is_empty cookie ≡ false
        → find? (session_by_fingerprint (sha256 id)) w.working.admin_sessions ≡ none
        → is_empty (admin_allowlist w.working)
            || host_allowed ips (admin_allowlist w.working) later.ip
          ≡ true
        → ((issue_session signer sha256 times username id request w).0 ≡ ok cookie)
          × ((current_user signer sha256 times ips
                (some cookie)
                later
                (issue_session signer sha256 times username id request w).1).0
              ≡ ok username)
    current_user-issue_session ips soon full new allowed =
        let w' = track_session username (sha256 id) request w in
        let list =
          admin_allowlist_same w.working
            (check_session signer sha256 times username cookie later w').1.working
            (check_session-policy username cookie later w'
              ∙ track_session-allowlist username (sha256 id) request w) in
        rw (issued full) (
          refl,
          current_user_live ips w' soon full
              (check_session_live (sha256 id) w' (fingerprint-cookie later.now full)
                (λ row there. track_session_row row new there))
              (rw list allowed),
        )
