-- ===== src/Tests/AdminSessionRuns.antt =====
-- The sessions of the admin pages.
use wdc_catalog_api.Base.{
  ℕ, ◌+◌, ◌≡◌, refl, ◌⊎◌, true, Option, none, some, [], ◌∷◌, Text, codes, text_eq, is_some,
  is_empty, if◌then◌else◌, ltb, ◌||◌, min, All, find?, starts_with, arith,
}
use wdc_catalog_api.Schema.{Db, User, AdminSession}
use wdc_catalog_api.Session.{World, ok, err, Exn, http, initial_world}
use wdc_catalog_api.IpRanges.{host_allowed}
use wdc_catalog_api.Auth.{create_token, get_current_account}
use wdc_catalog_api.AdminSessions.{
  Signer, SessionTimes, split_session_payload, session_by_fingerprint, session_id, fingerprint,
  read_session, session_cookie, issue_session, check_session, check_address, current_user,
  kill_session, kill_all_sessions, admin_allowlist,
}
use wdc_catalog_api.AdminSessions.Cookies.{is_plain, current_user_sound, current_user-issue_session}
use wdc_catalog_api.AdminSessions.Kills.{kill_session-dead, kill_all_sessions-dead}
use wdc_catalog_api.Tests.Fixtures.{
  plain_bcrypt, open_jwt, length_ips, ann, request_at, two_accounts,
}

-- A cookie that is the text behind the instant it was signed, without a signature.
abbrev fresh_enough : ℕ → ℕ → Option ℕ → Text → Option Text
fresh_enough now issued none t = some t
fresh_enough now issued (some age) t = if ltb (issued + age) now then none else some t

abbrev unsign : ℕ → Option ℕ → Text → Option Text
unsign now age [] = none
unsign now age (issued ∷ t) = fresh_enough now issued age t

abbrev pub signer : Signer
signer = record {
  sign = λ issued t. issued ∷ t;
  unsign = unsign;
  unsign-sign = λ now issued age t h. refl;
  unsign-sign_ageless = λ now issued t. refl;
}

abbrev pub times : SessionTimes
times = record { max_age = 86400; idle_timeout = 7200 }

abbrev pub plain_hash : Text → Text
plain_hash t = t

abbrev admin_user : User
admin_user = record { id = 5; username = codes "admin"; password_hash = codes "secret" }

abbrev pub db : Db
db = record two_accounts { users = admin_user ∷ [] }

abbrev pub world : World
world = initial_world db

abbrev sid : Text
sid = codes "sid"

abbrev cookie : Text
cookie = session_cookie signer plain_hash times (codes "admin") sid 100

abbrev logged_in : World
logged_in = (issue_session signer plain_hash times (codes "admin") sid (request_at 100) world).1

abbrev row : AdminSession
row = record {
  id = 1;
  user_id = 5;
  fingerprint = sid;
  ip = some (codes "10.0.0.1");
  user_agent = none;
  last_seen_at = 100;
  revoked_at = none;
}

abbrev seen : World
seen = initial_world (record db { admin_sessions = row ∷ [] })

current_user-issue_session_example :
    ((issue_session signer plain_hash times (codes "admin") sid (request_at 100) world).0
      ≡ ok cookie)
    × ((current_user signer plain_hash times length_ips (some cookie) (request_at 200) logged_in).0
        ≡ ok (codes "admin"))
unfolding is_plain find?
current_user-issue_session_example =
    current_user-issue_session signer plain_hash times (codes "admin") sid (request_at 100)
      (request_at 200) world refl refl (omega arith) length_ips (omega arith) refl refl refl

current_user_sound_example :
    (c : Text) × (raw : Text) × (some cookie ≡ some c)
    × (signer.unsign 200 (some (min times.max_age times.idle_timeout)) c ≡ some raw)
    × ((split_session_payload raw).0 ≡ codes "admin")
    × ((r : AdminSession)
        → find?
            (session_by_fingerprint (fingerprint signer plain_hash times 200 c))
            seen.working.admin_sessions
          ≡ some r
        → r.revoked_at ≡ none)
    × (is_empty (admin_allowlist seen.working)
          || host_allowed length_ips (admin_allowlist seen.working) (codes "10.0.0.1")
        ≡ true)
unfolding current_user read_session check_session check_address fingerprint session_id
    split_session_payload find? text_eq
current_user_sound_example =
    current_user_sound signer plain_hash times length_ips (some cookie) (request_at 200) seen
      (codes "admin") refl

abbrev killed : World
killed = (kill_session plain_bcrypt (codes "s") 1 (codes "admin") (request_at 200) seen).1

kill_session-dead_example :
    (e : Exn) × ((current_user signer plain_hash times length_ips
        (some cookie)
        (request_at 300)
        killed).0
      ≡ err e)
unfolding kill_session find? text_eq fingerprint session_id split_session_payload
kill_session-dead_example =
    kill_session-dead signer plain_hash times plain_bcrypt (codes "s") (codes "admin") cookie 1
      length_ips (request_at 200) (request_at 300) seen killed row refl refl refl refl refl

abbrev bearer : Text
bearer = create_token open_jwt (codes "j1") 150 1 ann.email 1

kill_all_sessions-dead_example :
    let w' =
      (kill_all_sessions signer plain_hash times plain_bcrypt
        (codes "s")
        (codes "KILL-ALL")
        cookie
        (codes "admin")
        (request_at 200)
        seen).1 in
    All
      (λ (s : AdminSession).
        (is_some s.revoked_at ≡ true)
        ⊎ (text_eq s.fingerprint (fingerprint signer plain_hash times 200 cookie) ≡ true))
      w'.working.admin_sessions
    × ((get_current_account plain_bcrypt open_jwt length_ips (some bearer) (request_at 300) w').0
        ≡ err (http 401 "Token has been revoked"))
unfolding find? starts_with create_token
kill_all_sessions-dead_example =
    kill_all_sessions-dead signer plain_hash times plain_bcrypt open_jwt length_ips (codes "s")
      (codes "admin") cookie bearer (request_at 200) (request_at 300) seen ann refl refl refl refl
      refl refl
