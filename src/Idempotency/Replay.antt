-- ===== src/Idempotency/Replay.antt =====
-- app/idempotency.py: `persist` against the requests that come after it.
use wdc_catalog_api.Base.{
  ◌+◌, ◌≤◌, ◌<◌, ◌≡◌, refl, false, Option, none, some, [], ◌∷◌, Text, text_eq_refl, is_empty,
  if◌then◌else◌, length, find?, find?-append, arith, Option-cases, inl, inr,
}
use wdc_catalog_api.Schema.{Account}
use wdc_catalog_api.Session.{Request, World, ok, err, http}
use wdc_catalog_api.Idempotency.{
  idempotency_ttl_seconds, Response, record_by_hash, request_hash, hash_of_body, body_differs,
  replay_row, replay_if_present, new_record, persist,
}

-- The same method, path and key.
pub record SameCall (first again : Request) (key : Text) : Type 0 where
  pub method : again.method ≡ first.method
  pub path : again.path ≡ first.path
  pub first_key : first.idempotency_key ≡ some key
  pub again_key : again.idempotency_key ≡ some key
  pub long_enough : 4 ≤ length key
  pub short_enough : length key ≤ 128

nonempty_key : (key : Text) → 4 ≤ length key → is_empty key ≡ false
nonempty_key [] h = absurd (omega (arith, h))
nonempty_key (c ∷ key) h = refl

module _ (sha256 : Text → Text) (first again : Request) (account : Option Account)
    (response : Response) (body : Option Text) (w : World) where
  -- the row that a first `persist` leaves for its key
  found-persist :
      (key : Text)
      → first.idempotency_key ≡ some key
      → is_empty key ≡ false
      → find? (record_by_hash (request_hash sha256 first account key)) w.working.idempotency ≡ none
      → find?
          (record_by_hash (request_hash sha256 first account key))
          (persist sha256 first account response body w).1.working.idempotency
        ≡ some (new_record sha256 first account key response body)
  unfolding persist find?
  found-persist key keyed nonempty new = ground (
    arith,
    keyed,
    nonempty,
    new,
    find?-append (record_by_hash (request_hash sha256 first account key)) w.working.idempotency
        (new_record sha256 first account key response body ∷ []),
    text_eq_refl (request_hash sha256 first account key),
  )

  -- For a day after an answer was persisted under a key that had none, a call with the same method,
  -- path, key and account gets that answer again and changes nothing, if it passes no body or the one
  -- that was persisted; with a body of another hash it gets 422.
  pub replay_if_present-persist :
      (key : Text) (again_body : Option Text)
      → SameCall first again key
      → find? (record_by_hash (request_hash sha256 first account key)) w.working.idempotency ≡ none
      → again.now < first.now + idempotency_ttl_seconds
      → replay_if_present sha256 again account again_body
          (persist sha256 first account response body w).1
        ≡ (
          (if body_differs sha256 again_body (hash_of_body sha256 body)
              then err (http 422 "Idempotency-Key reused with a different request body")
              else ok (some response)),
          (persist sha256 first account response body w).1,
        )
  unfolding replay_if_present replay_row
  replay_if_present-persist key again_body same new soon =
      let nonempty : is_empty key ≡ false = nonempty_key key same.long_enough in
      let found = found-persist key same.first_key nonempty new in
      let one : request_hash sha256 again account key ≡ request_hash sha256 first account key =
        rw (same.method, same.path) refl in
      ground
        (arith, found, nonempty, one, soon, same.again_key, same.long_enough, same.short_enough)

  -- The first answer stays: persisting another under the same key changes nothing.
  pub persist-persist :
      (key : Text) (other : Response) (other_body : Option Text)
      → SameCall first again key
      → (persist sha256 again account other other_body
          (persist sha256 first account response body w).1).1
        ≡ (persist sha256 first account response body w).1
  unfolding persist find?
  persist-persist key other other_body same =
      let nonempty : is_empty key ≡ false = nonempty_key key same.long_enough in
      let one : request_hash sha256 again account key ≡ request_hash sha256 first account key =
        rw (same.method, same.path) refl in
      elim (Option-cases
        (find? (record_by_hash (request_hash sha256 first account key)) w.working.idempotency)) [
          | inl new ↦ ground (
            arith,
            found-persist key same.first_key nonempty new,
            new,
            nonempty,
            one,
            same.first_key,
            same.again_key,
          )
          | inr (row, there) ↦ ground (arith, there, nonempty, one, same.first_key, same.again_key)
        ]
