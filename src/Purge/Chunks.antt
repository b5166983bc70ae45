-- ===== src/Purge/Chunks.antt =====
-- app/snapshots.py, `purge_auto_older_than`: the DELETE in chunks.
use wdc_catalog_api.Base.{
  ℕ, zero, suc, ◌+◌, ◌≤◌, ◌≡◌, refl, Bool, false, Option, none, some, List, [], ◌∷◌, Text,
  if◌then◌else◌, ==→eq, ◌||◌, length, take, drop, find?, delete_where, count_where, All,
  find?-update_where, find?-delete_where, find?-delete_where_ne, find?-none, Bool-cases, inl, inr,
  arith, length-drop, ◌∙◌, ap,
}
use wdc_catalog_api.Schema.{Db, DeviceSnapshot, DeviceHead}
use wdc_catalog_api.Session.{World, ok}
use wdc_catalog_api.Batches.{one_of}
use wdc_catalog_api.Purge.{
  PurgeRule, snapshot_by_id, one_of_ids, orphaned, without_parent, delete_rows, delete_ids,
  delete_chunks,
}

-- The device of the snapshot with an id, if there is one.
abbrev pub device_of : ℕ → List DeviceSnapshot → Option Text
device_of id rows = elim (find? (snapshot_by_id id) rows) [
  | none ↦ none
  | some s ↦ some s.device_id
]

-- Every HEAD points at a snapshot of its device.
abbrev pub HeadsValid : Db → Type 0
HeadsValid db =
    All (λ (h : DeviceHead). device_of h.current_snapshot_id db.snapshots ≡ some h.device_id)
      db.heads

-- None of the ids is that of a HEAD.
abbrev pub Unheld : List ℕ → List DeviceHead → Type 0
Unheld ids heads = All (λ (h : DeviceHead). one_of_ids ids h.current_snapshot_id ≡ false) heads

pub one_of_take-drop :
    (n : ℕ) (ids : List ℕ) (k : ℕ)
    → one_of_ids (take n ids) k || one_of_ids (drop n ids) k ≡ one_of_ids ids k
unfolding one_of
one_of_take-drop zero ids k = refl
one_of_take-drop (suc n) [] k = refl
one_of_take-drop (suc n) (x ∷ ids) k = ground (arith, one_of_take-drop n ids k)

one_of_parts :
    (n : ℕ) (ids : List ℕ) (k : ℕ)
    → one_of_ids ids k ≡ false
    → (one_of_ids (take n ids) k ≡ false) × (one_of_ids (drop n ids) k ≡ false)
one_of_parts n ids k h =
    let parts = one_of_take-drop n ids k in (ground (arith, h, parts), ground (arith, h, parts))

Unheld-take :
    (n : ℕ) (ids : List ℕ) (heads : List DeviceHead)
    → Unheld ids heads
    → Unheld (take n ids) heads × Unheld (drop n ids) heads
Unheld-take n ids [] h = (tt, tt)
Unheld-take n ids (x ∷ heads) (h, hs) =
    let (a, b) = one_of_parts n ids x.current_snapshot_id h in
    let (taken, dropped) = Unheld-take n ids heads hs in ((a, taken), (b, dropped))

two_steps :
    {A : Type 0} (a b c : Bool) (o : Option A)
    → a || b ≡ c
    → (if b then none else (if a then none else o)) ≡ (if c then none else o)
two_steps a b c o h = ground (arith, h)

module _ (ties : ℕ → ℕ → Bool) (rule : PurgeRule) (now : ℕ) where
  pub device_of-delete_rows :
      (ids : List ℕ) (id : ℕ) (rows : List DeviceSnapshot)
      → device_of id (delete_rows ties rule now ids rows)
        ≡ (if one_of_ids ids id then none else device_of id rows)
  device_of-delete_rows ids id rows =
      let kept = delete_where (λ (s : DeviceSnapshot). one_of_ids ids s.id) rows in
      let updated =
        find?-update_where (snapshot_by_id id) (orphaned ties rule now ids)
          (without_parent ties rule now) (λ x. refl) kept in
      elim (Bool-cases (one_of_ids ids id)) [
        | inl hit ↦ ground (
          arith,
          hit,
          updated,
          find?-delete_where (snapshot_by_id id) (λ (s : DeviceSnapshot). one_of_ids ids s.id)
              (λ x e. rw (==→eq x.id id e) hit) rows,
        )
        | inr miss ↦ ground (
          arith,
          miss,
          updated,
          find?-delete_where_ne (snapshot_by_id id) (λ (s : DeviceSnapshot). one_of_ids ids s.id)
              (λ x e. rw (==→eq x.id id e) miss) rows,
        )
      ]

  delete_ids_lem :
      (ids : List ℕ) (w : World)
      → Unheld ids w.working.heads
      → (n : ℕ) × ((delete_ids ties rule now ids w).0 ≡ ok n)
        × ((delete_ids ties rule now ids w).1.working
            ≡ record w.working { snapshots = delete_rows ties rule now ids w.working.snapshots })
        × ((delete_ids ties rule now ids w).1.committed ≡ w.committed)
  unfolding delete_ids
  delete_ids_lem ids w free =
      let no =
        find?-none (λ (h : DeviceHead). one_of_ids ids h.current_snapshot_id) w.working.heads
          free in
      (
        count_where (λ (s : DeviceSnapshot). one_of_ids ids s.id) w.working.snapshots,
        ground (arith, no),
        ground (arith, no),
        ground (arith, no),
      )

  pub delete_chunks_lem :
      (fuel : ℕ) (ids : List ℕ) (w : World)
      → length ids ≤ fuel
      → Unheld ids w.working.heads
      → (n : ℕ) × ((delete_chunks ties rule now fuel ids w).0 ≡ ok n)
        × ((delete_chunks ties rule now fuel ids w).1.working.heads ≡ w.working.heads)
        × ((id : ℕ)
            → device_of id (delete_chunks ties rule now fuel ids w).1.working.snapshots
              ≡ (if one_of_ids ids id then none else device_of id w.working.snapshots))
        × ((delete_chunks ties rule now fuel ids w).1.committed ≡ w.committed)
  unfolding delete_chunks one_of
  delete_chunks_lem zero [] w enough free = (0, refl, refl, λ id. refl, refl)
  delete_chunks_lem zero (x ∷ ids) w enough free = absurd (omega (arith, enough))
  delete_chunks_lem (suc fuel) [] w enough free = (0, refl, refl, λ id. refl, refl)
  delete_chunks_lem (suc fuel) (x ∷ ids) w enough free =
      let (free_now, free_later) = Unheld-take 500 (x ∷ ids) w.working.heads free in
      let (n, done, made, durable) = delete_ids_lem (take 500 (x ∷ ids)) w free_now in
      let w' = (delete_ids ties rule now (take 500 (x ∷ ids)) w).1 in
      let heads' : w'.working.heads ≡ w.working.heads = ap (λ (db : Db). db.heads) made in
      let (m, done', heads'', devices, durable') =
        delete_chunks_lem fuel (drop 500 (x ∷ ids)) w'
          (omega (arith, enough, length-drop 500 (x ∷ ids))) (rw heads' free_later) in
      (
        n + m,
        rw (done, done') refl,
        rw (done, done') (heads'' ∙ heads'),
        λ id.
            rw (done, done')
              (devices id
                ∙ rw (ap (λ (db : Db). db.snapshots) made, device_of-delete_rows)
                    (two_steps _ _ _ (device_of id w.working.snapshots)
                      (one_of_take-drop 500 (x ∷ ids) id))),
        rw (done, done') (durable' ∙ durable),
      )
