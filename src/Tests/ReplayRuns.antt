-- ===== src/Tests/ReplayRuns.antt =====
-- Idempotency keys.
use wdc_catalog_api.Base.{ℕ, ◌≡◌, refl, some, Text, codes, text_eq, find?, arith}
use wdc_catalog_api.Session.{Request, ok}
use wdc_catalog_api.Idempotency.{Response, replay_if_present, persist}
use wdc_catalog_api.Idempotency.Replay.{SameCall, replay_if_present-persist}
use wdc_catalog_api.Tests.Fixtures.{ann, request_at, world}

abbrev keyed_at : ℕ → Request
keyed_at now = record (request_at now) { idempotency_key = some (codes "key1") }

abbrev answer : Response
answer = record { content = codes "{}"; status_code = 201; media_type = codes "application/json" }

abbrev plain : Text → Text
plain t = t

retry : SameCall (keyed_at 10) (keyed_at 20) (codes "key1")
retry = record {
  method = refl;
  path = refl;
  first_key = refl;
  again_key = refl;
  long_enough = omega arith;
  short_enough = omega arith;
}

replay_if_present-persist_example :
    replay_if_present plain
      (keyed_at 20)
      (some ann)
      (some (codes "b"))
      (persist plain (keyed_at 10) (some ann) answer (some (codes "b")) world).1
    ≡ (ok (some answer), (persist plain (keyed_at 10) (some ann) answer (some (codes "b")) world).1)
unfolding find? text_eq
replay_if_present-persist_example =
    replay_if_present-persist plain (keyed_at 10) (keyed_at 20) (some ann) answer (some (codes "b"))
      world (codes "key1") (some (codes "b")) retry refl (omega arith)
