-- ===== src/Session/Transaction.antt =====
-- app/db.py, `get_session`: a request against the action of its handler.
use wdc_catalog_api.Base.{◌≡◌, arith, inl, inr}
use wdc_catalog_api.Session.{Exec, World, ok, err, Exn, run_request, Result-cases}

-- what the handler starts from
abbrev pub begun : World → World
begun w = record w { working = w.committed }

module _ {A : Type 0} (m : Exec A) (w : World) where
  -- A request answers what its handler returns or raises.
  pub result-run_request : (run_request m w).0 ≡ (m (begun w)).0
  unfolding run_request
  result-run_request = elim (Result-cases (m (begun w)).0) [
    | inl (a, e) ↦ ground arith
    | inr (x, e) ↦ ground arith
  ]

  -- A handler that returns has its transaction committed.
  pub committed-run_request_ok :
      (a : A) → (m (begun w)).0 ≡ ok a → (run_request m w).1.committed ≡ (m (begun w)).1.working
  unfolding run_request
  committed-run_request_ok a h = ground arith

  -- A handler that raises leaves durable what it committed itself, and nothing else.
  pub committed-run_request_err :
      (e : Exn)
      → (m (begun w)).0 ≡ err e
      → ((run_request m w).1.committed ≡ (m (begun w)).1.committed)
        × ((run_request m w).1.working ≡ (m (begun w)).1.committed)
  unfolding run_request
  committed-run_request_err e h = ground arith
