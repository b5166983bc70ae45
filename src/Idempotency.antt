-- ===== src/Idempotency.antt =====
-- app/idempotency.py: replaying the answer to a repeated request. SHA-256 is a parameter, and the
-- body of a request is its canonical JSON text, `none` where the handler passes no body.
pub mod Replay
use wdc_catalog_api.Base.{
  ℕ, zero, suc, ◌+◌, ◌*◌, ◌/◌, ◌%◌, ◌≡◌, Bool, true, false, Option, none, some, List, [], ◌∷◌, ◌++◌,
  Text, codes, text_eq, is_some, is_empty, if◌then◌else◌, ltb, leb, ◌==◌, negb, ◌||◌, length, upper,
  find?, delete_where,
}
use wdc_catalog_api.Schema.{Db, Account, IdempotencyRecord}
use wdc_catalog_api.Session.{Request, Exec, World, Result, ok, err, Exn, http}

abbrev pub idempotency_ttl_seconds : ℕ
idempotency_ttl_seconds = 24 * 3600

-- `str(n)`, with a bound on the number of digits
unfoldable pub digits : ℕ → ℕ → Text
digits zero n = []
digits (suc fuel) n =
    let rest = digits fuel (n / 10) in
    if ltb n 10 then (48 + n) ∷ [] else rest ++ (48 + n % 10) ∷ []

-- `account_id or 'anon'`
abbrev pub account_part : Option ℕ → Text
account_part none = codes "anon"
account_part (some id) = if id == 0 then codes "anon" else digits (suc id) id

-- What the stored answer is replayed as.
pub record Response : Type 0 where
  pub content : Text
  pub status_code : ℕ
  pub media_type : Text

abbrev pub id_of_account : Option Account → Option ℕ
id_of_account none = none
id_of_account (some a) = some a.id

abbrev pub record_by_hash : Text → IdempotencyRecord → Bool
record_by_hash h r = text_eq r.key_hash h

module _ (sha256 : Text → Text) where
  -- `_hash_key`
  unfoldable pub hash_key : Option ℕ → Text → Text → Text → Text
  hash_key account_id method path key = sha256 (
      account_part account_id ++ codes "|" ++ upper method ++ codes "|" ++ path ++ codes "|" ++ key)

  abbrev pub request_hash : Request → Option Account → Text → Text
  request_hash request account key =
      hash_key (id_of_account account) request.method request.path key

  abbrev pub hash_of_body : Option Text → Option Text
  hash_of_body none = none
  hash_of_body (some body) = some (sha256 body)

  -- both hashes are there and differ
  abbrev pub body_differs : Option Text → Option Text → Bool
  body_differs none stored = false
  body_differs (some body) none = false
  body_differs (some body) (some stored) = negb (text_eq (sha256 body) stored)

  abbrev pub stored_response : IdempotencyRecord → Response
  stored_response row = record {
    content = row.response_body;
    status_code = row.status_code;
    media_type = row.content_type;
  }

  -- the lookup, for a key of an allowed length
  unfoldable pub replay_row : ℕ → Text → Option Text → Exec (Option Response)
  replay_row now key_hash body w =
      let db = w.working in
      elim (find? (record_by_hash key_hash) db.idempotency) [
        | none ↦ (ok none, w)
        | some row ↦
            if leb row.expires_at now
            then (
              ok none,
              record w {
                working = record db {
                  idempotency = delete_where (record_by_hash key_hash) db.idempotency;
                };
              },
            )
            else if body_differs body row.body_hash
            then (err (http 422 "Idempotency-Key reused with a different request body"), w)
            else (ok (some (stored_response row)), w)
      ]

  -- `replay_if_present`
  unfoldable pub replay_if_present : Request → Option Account → Option Text → Exec (Option Response)
  replay_if_present request account body w = elim request.idempotency_key [
    | none ↦ (ok none, w)
    | some key ↦
        if is_empty key
        then (ok none, w)
        else if ltb (length key) 4 || ltb 128 (length key)
        then (err (http 400 "Idempotency-Key must be 4–128 characters"), w)
        else replay_row request.now (request_hash request account key) body w
  ]

  abbrev pub new_record :
      Request → Option Account → Text → Response → Option Text → IdempotencyRecord
  new_record request account key response body = record {
    key_hash = request_hash request account key;
    account_id = id_of_account account;
    method = upper request.method;
    path = request.path;
    body_hash = hash_of_body body;
    status_code = response.status_code;
    response_body = response.content;
    content_type = response.media_type;
    expires_at = request.now + idempotency_ttl_seconds;
  }

  -- `persist`: a row with the same key is there first, and then the new one is dropped
  unfoldable pub persist : Request → Option Account → Response → Option Text → Exec Unit
  persist request account response body w = elim request.idempotency_key [
    | none ↦ (ok tt, w)
    | some key ↦
        let db = w.working in
        if is_empty key
          || is_some (find? (record_by_hash (request_hash request account key)) db.idempotency)
        then (ok tt, w)
        else (
          ok tt,
          record w {
            working = record db {
              idempotency = db.idempotency ++ new_record request account key response body ∷ [];
            };
          },
        )
  ]
