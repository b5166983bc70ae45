-- ===== src/Session.antt =====
-- The life of a request: app/db.py (`get_session`) gives the handler one transaction, which is
-- committed when the handler returns and rolled back when it raises. A handler is an action on the
-- process's state that may raise; what it did before a raise stays in the state it leaves.
pub mod Transaction
use wdc_catalog_api.Base.{
  ℕ, Bool, true, false, Option, none, some, List, Text, String, [], ◌≡◌, refl, ◌⊎◌, inl, inr,
}
use wdc_catalog_api.Schema.{Db, AuditEvent, empty_db}
use wdc_catalog_api.Cache.{TtlCache}

-- What a handler reads of the request: `ip` is what `client_ip(request)` gives, `now` is the instant
-- of every `datetime.now` and clock reading of the request.
pub record Request : Type 0 where
  pub method : Text
  pub path : Text
  pub ip : Text
  pub user_agent : Option Text
  pub idempotency_key : Option Text
  pub now : ℕ

-- The exceptions: an `HTTPException` with its status and the fixed part of its detail, and the
-- exceptions of Python and of the database that the code lets through.
pub data Exn : Type 0 where
  http : ℕ → String → Exn
  value_error : Exn
  runtime_error : Exn
  permission_error : Exn
  integrity_error : Exn
  payload_too_large : Exn
  invalid_tag : Exn
  overflow_error : Exn

pub data Result (A : Type 0) : Type 0 where
  ok : A → Result A
  err : Exn → Result A

-- The state of the process: what the database holds durably, what the open transaction sees, the
-- events that were handed to the live subscribers and to the webhooks, and the cache of revocations.
pub record World : Type 0 where
  pub committed : Db
  pub working : Db
  pub published : List AuditEvent
  pub revoked_cache : TtlCache Bool

abbrev pub initial_world : Db → World
initial_world db = record {
  committed = db;
  working = db;
  published = [];
  revoked_cache = record { ttl = 30; store = [] };
}

abbrev pub Exec : Type 0 → Type 0
Exec A = World → Result A × World

module _ {A : Type 0} where
  abbrev pub pure : A → Exec A
  pure a w = (ok a, w)

  abbrev pub raise : Exn → Exec A
  raise e w = (err e, w)

  -- a read of the open transaction
  abbrev pub query : (Db → A) → Exec A
  query f w = (ok (f w.working), w)

  -- an `Option` that must be there
  abbrev pub or_raise : Option A → Exn → Exec A
  or_raise none e w = (err e, w)
  or_raise (some a) e w = (ok a, w)

infixl 5 ◌>>=◌ ◌>>◌
abbrev pub ◌>>=◌ : {A B : Type 0} → Exec A → (A → Exec B) → Exec B
◌>>=◌ m f w = let (r, w') = m w in elim r [ ok a ↦ f a w' | err e ↦ (err e, w') ]

abbrev pub ◌>>◌ : {A B : Type 0} → Exec A → Exec B → Exec B
m >> k = m >>= λ _. k

-- `if c: raise e`
abbrev pub raise_if : Bool → Exn → Exec Unit
raise_if true e w = (err e, w)
raise_if false e w = (ok tt, w)

-- writes that are flushed to the open transaction
abbrev pub write : (Db → Db) → Exec Unit
write f w = (ok tt, record w { working = f w.working })

-- `db.commit()` and `db.rollback()`
abbrev pub commit : Exec Unit
commit w = (ok tt, record w { committed = w.working })

abbrev pub rollback : Exec Unit
rollback w = (ok tt, record w { working = w.committed })

-- `get_session`: what follows the handler
abbrev close_session : {A : Type 0} → Result A × World → Result A × World
close_session (ok a, w) = (ok a, record w { committed = w.working })
close_session (err e, w) = (err e, record w { working = w.committed })

-- One request: a fresh transaction, the handler, then commit or rollback.
unfoldable pub run_request : {A : Type 0} → Exec A → World → Result A × World
run_request handler w = close_session (handler (record w { working = w.committed }))

pub Result-cases : {A : Type 0} (r : Result A) → ((a : A) × (r ≡ ok a)) ⊎ ((e : Exn) × (r ≡ err e))
Result-cases (ok a) = inl (a, refl)
Result-cases (err e) = inr (e, refl)
