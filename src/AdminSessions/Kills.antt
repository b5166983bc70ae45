-- ===== src/AdminSessions/Kills.antt =====
-- app/admin_ui.py: sessions and tokens after they were revoked.
use wdc_catalog_api.Base.{
  ℕ, ◌≡◌, ◌≢◌, refl, ◌⊎◌, inl, inr, Bool, true, false, Option, none, some, Text, codes, text_eq,
  is_some, negb, ◌&&◌, get_or, starts_with, find?, find?_holds, find?-append, find?-update_where,
  update_where, update_where_lem, All, Bool-cases, Option-cases, arith, ◌∙◌,
}
use wdc_catalog_api.Schema.{Account, AdminSession, ResourceId, numbered}
use wdc_catalog_api.Session.{Request, World, ok, err, Exn, http}
use wdc_catalog_api.Passwords.{Bcrypt}
use wdc_catalog_api.IpRanges.{IpLibrary}
use wdc_catalog_api.Audit.{emit}
use wdc_catalog_api.Pats.{token_prefix}
use wdc_catalog_api.Auth.{Claims, JwtCodec, account_by_id, get_current_account}
use wdc_catalog_api.Auth.Soundness.{stale_token_refused}
use wdc_catalog_api.AdminAccounts.{paired_account, admin_account}
use wdc_catalog_api.AdminSessions.{
  Signer, SessionTimes, session_by_fingerprint, session_by_id, user_by_name, to_login, fingerprint,
  read_session, check_session, current_user, is_own, killed_at, is_foreign, bumped, with_sessions,
  kill_everything, report_kill, kill_session, kill_all_sessions,
}

killed : (now : ℕ) (o : Option ℕ) → is_some (elim o [ none ↦ some now | some t ↦ some t ]) ≡ true
killed now none = refl
killed now (some t) = refl

spared : (a b : Bool) → negb a && negb b ≡ false → (a ≡ true) ⊎ (b ≡ true)
spared true b h = inl refl
spared false true h = inr refl
spared false false h = cc

module _ (bcrypt : Bcrypt) (salt username : Text) (request : Request) where
  -- the report of what was killed leaves the sessions and the accounts that are there
  report_kill_frame :
      (action : Text) (id : Option ResourceId) (w : World)
      → ((report_kill bcrypt salt username action id request w).working.admin_sessions
          ≡ w.working.admin_sessions)
        × ((n : ℕ) (a : Account)
            → find? (account_by_id n) w.working.accounts ≡ some a
            → find?
                (account_by_id n)
                (report_kill bcrypt salt username action id request w).working.accounts
              ≡ some a)
  unfolding report_kill admin_account emit
  report_kill_frame action id w = elim (Option-cases (paired_account username w.working)) [
    | inr (a, paired) ↦
        rw (report_kill, admin_account, paired, admin_account, paired) (refl, λ n b known. known)
    | inl alone ↦
        rw (report_kill, admin_account, alone, admin_account, alone)
          (refl, λ n b known. rw (find?-append (account_by_id n) w.working.accounts _, known) refl)
  ]

module _ (signer : Signer) (sha256 : Text → Text) (times : SessionTimes) where
  -- a cookie whose session is revoked gets nobody in
  current_user_revoked :
      (ips : IpLibrary) (cookie : Text) (later : Request) (w : World) (row : AdminSession)
      → find?
          (session_by_fingerprint (fingerprint signer sha256 times later.now cookie))
          w.working.admin_sessions
        ≡ some row
      → is_some row.revoked_at ≡ true
      → (e : Exn) × ((current_user signer sha256 times ips (some cookie) later w).0 ≡ err e)
  unfolding current_user check_session
  current_user_revoked ips cookie later w row there dead =
      elim (Option-cases (read_session signer sha256 times later.now (some cookie))) [
        | inl unread ↦ (to_login, rw (current_user, unread) refl)
        | inr (username, read) ↦
            (http 302 "Session revoked", rw (current_user, read, check_session, there, dead) refl)
      ]

  -- After a user killed one of their sessions, its cookie, whatever its signature, gets nobody past
  -- `current_user`, as long as the table of sessions stays.
  pub kill_session-dead :
      (bcrypt : Bcrypt) (salt username cookie : Text) (id : ℕ) (ips : IpLibrary)
      (request later : Request) (w w' : World) (row : AdminSession)
      → (kill_session bcrypt salt id username request w).0 ≡ ok true
      → find? (session_by_id id) w.working.admin_sessions ≡ some row
      → find? (session_by_fingerprint row.fingerprint) w.working.admin_sessions ≡ some row
      → fingerprint signer sha256 times later.now cookie ≡ row.fingerprint
      → w'.working.admin_sessions
        ≡ (kill_session bcrypt salt id username request w).1.working.admin_sessions
      → (e : Exn) × ((current_user signer sha256 times ips (some cookie) later w').0 ≡ err e)
  unfolding kill_session
  kill_session-dead bcrypt salt username cookie id ips request later w w' row h known only its
        kept =
      elim (Bool-cases (is_own (find? (user_by_name username) w.working.users) row)) [
        | inr stranger ↦ absurd (ground (arith, h, known, stranger))
        | inl own ↦
            let hit = find?_holds (session_by_id id) w.working.admin_sessions row known in
            let (sessions, _) =
              report_kill_frame bcrypt salt username request (codes "session.killed")
                (some (numbered id))
                (with_sessions (update_where (session_by_id id) (killed_at request.now)) w) in
            let after : w'.working.admin_sessions
                ≡ update_where (session_by_id id) (killed_at request.now) w.working.admin_sessions =
              kept ∙ rw (kill_session, known, own) sessions in
            let there : find? (session_by_fingerprint row.fingerprint) w'.working.admin_sessions
                ≡ some (killed_at request.now row) =
              rw
                (
                  after,
                  find?-update_where (session_by_fingerprint row.fingerprint) (session_by_id id)
                      (killed_at request.now) (λ x. refl) w.working.admin_sessions,
                  only,
                  hit,
                )
                refl in
            current_user_revoked ips cookie later w' (killed_at request.now row) (rw its there)
              (killed request.now row.revoked_at)
      ]

  -- the accounts and the sessions after the emergency switch
  kill_all_frame :
      (bcrypt : Bcrypt) (salt username cookie : Text) (request : Request) (w : World)
      → let w' =
          (kill_all_sessions signer sha256 times bcrypt salt
            (codes "KILL-ALL")
            cookie
            username
            request
            w).1 in
        (w'.working.admin_sessions
          ≡ update_where
              (is_foreign (fingerprint signer sha256 times request.now cookie))
              (killed_at request.now)
              w.working.admin_sessions)
        × ((n : ℕ) (a : Account)
            → find? (account_by_id n) w.working.accounts ≡ some a
            → a.suspended_at ≡ none
            → find? (account_by_id n) w'.working.accounts ≡ some (bumped a))
  unfolding kill_all_sessions text_eq
  kill_all_frame bcrypt salt username cookie request w =
      let current = fingerprint signer sha256 times request.now cookie in
      let killed = record w { working = kill_everything current request.now w.working } in
      let (sessions, accounts) =
        report_kill_frame bcrypt salt username request (codes "admin.global_session_kill") none
          killed in
      (
        sessions,
        λ n a known active. accounts n (bumped a) (
            rw
              (
                find?-update_where (account_by_id n)
                    (λ (x : Account). negb (is_some x.suspended_at)) bumped (λ x. refl)
                    w.working.accounts,
                known,
                active,
              )
              refl),
      )

  -- The emergency switch, with the right phrase, leaves no session alive but the caller's own, and
  -- every JWT that an active account holds with its current version is refused from then on with
  -- 401.
  pub kill_all_sessions-dead :
      (bcrypt : Bcrypt) (jwt : JwtCodec) (ips : IpLibrary) (salt username cookie bearer : Text)
      (request later : Request) (w : World) (account : Account) {claims : Claims}
      → find? (account_by_id account.id) w.working.accounts ≡ some account
      → account.suspended_at ≡ none
      → starts_with token_prefix bearer ≡ false
      → jwt.decode later.now bearer ≡ some claims
      → claims.sub ≡ some account.id
      → get_or claims.tv 1 ≡ account.token_version
      → let w' =
          (kill_all_sessions signer sha256 times bcrypt salt
            (codes "KILL-ALL")
            cookie
            username
            request
            w).1 in
        All
          (λ (s : AdminSession).
            (is_some s.revoked_at ≡ true)
            ⊎ (text_eq s.fingerprint (fingerprint signer sha256 times request.now cookie) ≡ true))
          w'.working.admin_sessions
        × ((get_current_account bcrypt jwt ips (some bearer) later w').0
            ≡ err (http 401 "Token has been revoked"))
  kill_all_sessions-dead bcrypt jwt ips salt username cookie bearer request later w account {claims}
        known active plain decoded named version =
      let (sessions, accounts) = kill_all_frame bcrypt salt username cookie request w in
      let stale : get_or claims.tv 1 ≢ (bumped account).token_version =
        λ e. absurd (omega (arith, e, version)) in
      (
        rw sessions (
            update_where_lem _ (is_foreign (fingerprint signer sha256 times request.now cookie))
              (killed_at request.now) (λ s hit. inl (killed request.now s.revoked_at))
              (λ s miss. spared (is_some s.revoked_at) _ miss) w.working.admin_sessions),
        stale_token_refused bcrypt jwt ips later _ bearer plain decoded named
            (accounts account.id account known active) stale,
      )
