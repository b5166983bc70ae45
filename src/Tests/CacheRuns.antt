-- ===== src/Tests/CacheRuns.antt =====
-- The cache with a time to live.
use wdc_catalog_api.Base.{ℕ, ◌≡◌, none, some, List, [], ◌∷◌, codes}
use wdc_catalog_api.Cache.{TtlCache, live_value, get}
use wdc_catalog_api.Cache.History.{
  CacheCall, set_call, invalidate_call, run_calls, last_write, get-run_calls,
}

abbrev calls : List (CacheCall ℕ)
calls =
    set_call 12 (codes "k") 5 (some 4) ∷ invalidate_call none ∷ set_call 10 (codes "k") 4 none ∷ []

get-run_calls_example :
    get 15 (codes "k") (run_calls 30 calls) ≡ live_value 15 (last_write 30 (codes "k") calls)
get-run_calls_example = get-run_calls 30 15 (codes "k") calls

abbrev empty_cache : TtlCache ℕ
empty_cache = record { ttl = 30; store = [] }
