-- ===== src/Csrf.antt =====
-- app/csrf.py: the double-submit cookie in front of the forms.
use wdc_catalog_api.Base.{
  ◌≡◌, refl, inl, inr, Bool, true, false, Option, none, some, Text, codes, text_eq, text_eq→eq,
  is_empty, if◌then◌else◌, leb, ◌&&◌, ◌||◌, negb, length, upper, Bool-cases, arith,
}
use wdc_catalog_api.Session.{Request, Exec, World, ok, err, http}

abbrev pub is_safe_method : Text → Bool
is_safe_method method =
    text_eq (upper method) (codes "GET")
    || text_eq (upper method) (codes "HEAD")
    || text_eq (upper method) (codes "OPTIONS")

-- `cookie and token and secrets.compare_digest(cookie, token)`
abbrev pub tokens_match : Option Text → Option Text → Bool
tokens_match none token = false
tokens_match (some cookie) none = false
tokens_match (some cookie) (some token) =
    negb (is_empty cookie) && (negb (is_empty token) && text_eq cookie token)

-- `require_csrf`
unfoldable pub require_csrf : Option Text → Option Text → Request → Exec Unit
require_csrf token cookie request w =
    if is_safe_method request.method
    then (ok tt, w)
    else if tokens_match cookie token
    then (ok tt, w)
    else (err (http 403 "CSRF token invalid"), w)

-- `ensure_csrf_cookie`: the token, with the one that `token_urlsafe` drew
unfoldable pub ensure_csrf_cookie : Option Text → Text → Text
ensure_csrf_cookie none drawn = drawn
ensure_csrf_cookie (some existing) drawn = if leb 32 (length existing) then existing else drawn

tokens_match_inv :
    (cookie token : Option Text)
    → tokens_match cookie token ≡ true
    → (t : Text) × (cookie ≡ some t) × (token ≡ some t) × (is_empty t ≡ false)
tokens_match_inv none token h = cc
tokens_match_inv (some cookie) none h = cc
tokens_match_inv (some cookie) (some token) h =
    let same = text_eq→eq cookie token (ground (arith, h)) in
    (cookie, refl, rw same refl, ground (arith, h))

-- A request that may change something gets past the check only when its form repeats the token of its
-- cookie, and that is not empty.
pub require_csrf_sound :
    (token cookie : Option Text) (request : Request) (w : World)
    → is_safe_method request.method ≡ false
    → (require_csrf token cookie request w).0 ≡ ok tt
    → (t : Text) × (cookie ≡ some t) × (token ≡ some t) × (is_empty t ≡ false)
unfolding require_csrf
require_csrf_sound token cookie request w unsafe h = elim (Bool-cases (tokens_match cookie token)) [
  | inl same ↦ tokens_match_inv cookie token same
  | inr differ ↦ absurd (ground (arith, h, unsafe, differ))
]
