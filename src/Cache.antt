-- ===== src/Cache.antt =====
-- app/_cache.py: the in-process cache with a time to live, as an association list from keys to
-- entries. Each operation takes the reading of the monotonic clock that it makes.
pub mod History
use wdc_catalog_api.Base.{
  ℕ, ◌+◌, ◌<◌, ◌≤◌, ◌≡◌, refl, Bool, true, false, Option, none, some, List, [], ◌∷◌, Text, text_eq,
  text_eq_refl, text_eq→eq, ltb, leb, if◌then◌else◌, get_or, arith,
}

-- `_TTLEntry`
pub record TtlEntry (V : Type 0) : Type 0 where
  pub value : V
  pub expires : ℕ

-- `TTLCache`
pub record TtlCache (V : Type 0) : Type 0 where
  pub ttl : ℕ
  pub store : List (Text × TtlEntry V)

module _ {V : Type 0} where
  -- the dict behind it: `d.get(k)`, `d[k] = e`, `d.pop(k, None)`
  unfoldable pub entry_of : Text → List (Text × TtlEntry V) → Option (TtlEntry V)
  entry_of k [] = none
  entry_of k ((j, e) ∷ d) = if text_eq k j then some e else entry_of k d

  unfoldable pub put_entry : Text → TtlEntry V → List (Text × TtlEntry V) → List (Text × TtlEntry V)
  put_entry k e [] = (k, e) ∷ []
  put_entry k e ((j, x) ∷ d) = if text_eq k j then (k, e) ∷ d else (j, x) ∷ put_entry k e d

  unfoldable pub pop_entry : Text → List (Text × TtlEntry V) → List (Text × TtlEntry V)
  pop_entry k [] = []
  pop_entry k ((j, x) ∷ d) = let rest = pop_entry k d in if text_eq k j then rest else (j, x) ∷ rest

  -- `entry is None or entry.expires <= now`
  abbrev pub live_value : ℕ → Option (TtlEntry V) → Option V
  live_value now none = none
  live_value now (some e) = if leb e.expires now then none else some e.value

  unfoldable pub get : ℕ → Text → TtlCache V → Option V
  get now key c = live_value now (entry_of key c.store)

  unfoldable pub set : ℕ → Text → V → Option ℕ → TtlCache V → TtlCache V
  set now key value ttl c =
      let life = get_or ttl c.ttl in
      record c { store = put_entry key (record { value = value; expires = now + life }) c.store }

  -- `compute` runs between the two readings of the clock.
  unfoldable pub get_or_compute : ℕ → ℕ → Text → V → TtlCache V → V × TtlCache V
  unfolding get set
  get_or_compute now later key computed c = elim (get now key c) [
    | some hit ↦ (hit, c)
    | none ↦ (computed, set later key computed none c)
  ]

  unfoldable pub invalidate : Option Text → TtlCache V → TtlCache V
  invalidate none c = record c { store = [] }
  invalidate (some key) c = record c { store = pop_entry key c.store }

  pub entry_of-put_entry :
      (k j : Text) (e : TtlEntry V) (d : List (Text × TtlEntry V))
      → entry_of j (put_entry k e d) ≡ (if text_eq j k then some e else entry_of j d)
  unfolding entry_of put_entry
  entry_of-put_entry k j e [] = refl
  entry_of-put_entry k j e ((i, x) ∷ d) = ground (
    arith,
    entry_of-put_entry k j e d,
    text_eq→eq k i,
    text_eq→eq j k,
    text_eq→eq j i,
    text_eq_refl k,
    text_eq_refl j,
  )

  pub entry_of-pop_entry :
      (k j : Text) (d : List (Text × TtlEntry V))
      → entry_of j (pop_entry k d) ≡ (if text_eq j k then none else entry_of j d)
  unfolding entry_of pop_entry
  entry_of-pop_entry k j [] = ground arith
  entry_of-pop_entry k j ((i, x) ∷ d) = ground (
    arith,
    entry_of-pop_entry k j d,
    text_eq→eq k i,
    text_eq→eq j k,
    text_eq→eq j i,
    text_eq_refl k,
    text_eq_refl j,
  )
