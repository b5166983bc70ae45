-- ===== src/Cache/History.antt =====
-- app/_cache.py: a read of the cache against the history of the calls on it.
use wdc_catalog_api.Base.{
  ℕ, ◌+◌, ◌≡◌, refl, Option, none, some, List, [], ◌∷◌, Text, text_eq, ltb, if◌then◌else◌, get_or,
  arith,
}
use wdc_catalog_api.Cache.{
  TtlEntry, TtlCache, entry_of, live_value, get, set, get_or_compute, invalidate,
  entry_of-put_entry, entry_of-pop_entry,
}

-- A mutating call, with its reading of the clock.
pub data CacheCall (V : Type 0) : Type 0 where
  set_call : ℕ → Text → V → Option ℕ → CacheCall V
  invalidate_call : Option Text → CacheCall V

module _ {V : Type 0} where
  pub apply_call : CacheCall V → TtlCache V → TtlCache V
  unfolding set invalidate
  apply_call (set_call now k v ttl) c = set now k v ttl c
  apply_call (invalidate_call k) c = invalidate k c

  -- The calls, the latest first.
  pub run_calls : ℕ → List (CacheCall V) → TtlCache V
  unfolding apply_call
  run_calls ttl [] = record { ttl = ttl; store = [] }
  run_calls ttl (call ∷ before) = apply_call call (run_calls ttl before)

  -- The specification: the latest call that concerns the key decides.
  pub last_write : ℕ → Text → List (CacheCall V) → Option (TtlEntry V)
  last_write ttl k [] = none
  last_write ttl k (set_call now j v life ∷ before) =
      if text_eq k j
      then some (record { value = v; expires = now + get_or life ttl })
      else last_write ttl k before
  last_write ttl k (invalidate_call none ∷ before) = none
  last_write ttl k (invalidate_call (some j) ∷ before) =
      if text_eq k j then none else last_write ttl k before

  ttl-run_calls : (ttl : ℕ) (calls : List (CacheCall V)) → (run_calls ttl calls).ttl ≡ ttl
  unfolding run_calls apply_call set invalidate
  ttl-run_calls ttl [] = refl
  ttl-run_calls ttl (set_call now j v life ∷ before) = ttl-run_calls ttl before
  ttl-run_calls ttl (invalidate_call none ∷ before) = ttl-run_calls ttl before
  ttl-run_calls ttl (invalidate_call (some j) ∷ before) = ttl-run_calls ttl before

  entry_of-run_calls :
      (ttl : ℕ) (k : Text) (calls : List (CacheCall V))
      → entry_of k (run_calls ttl calls).store ≡ last_write ttl k calls
  unfolding run_calls apply_call last_write set invalidate entry_of
  entry_of-run_calls ttl k [] = refl
  entry_of-run_calls ttl k (set_call now j v life ∷ before) =
      rw (entry_of-put_entry, ttl-run_calls, entry_of-run_calls ttl k before)
  entry_of-run_calls ttl k (invalidate_call none ∷ before) = refl
  entry_of-run_calls ttl k (invalidate_call (some j) ∷ before) =
      rw (entry_of-pop_entry, entry_of-run_calls ttl k before)

  -- After any calls, a read of a key at any instant returns the value of the last write of that key,
  -- unless an invalidation of the key or of everything came after it or its time to live is over.
  pub get-run_calls :
      (ttl now : ℕ) (k : Text) (calls : List (CacheCall V))
      → get now k (run_calls ttl calls) ≡ live_value now (last_write ttl k calls)
  unfolding get
  get-run_calls ttl now k calls = rw entry_of-run_calls

  -- When a key has no live entry, `get_or_compute` returns the computed value. From then on a read
  -- of that key returns it exactly while the time to live, counted from the second clock reading,
  -- is not over, and a read of any other key returns what it returned before.
  pub get-get_or_compute :
      (now later at : ℕ) (k j : Text) (v : V) (c : TtlCache V)
      → get now k c ≡ none
      → ((get_or_compute now later k v c).0 ≡ v)
        × (get at j (get_or_compute now later k v c).1 ≡ (
            if text_eq j k then (if ltb at (later + c.ttl) then some v else none) else get at j c))
  unfolding get_or_compute get set
  get-get_or_compute now later at k j v c miss =
      ground (arith, entry_of-put_entry k j (record { value = v; expires = later + c.ttl }) c.store)
