-- ===== src/Snapshots/Moves.antt =====
-- app/snapshots.py, `create_snapshot` and the HEAD pointers.
use wdc_catalog_api.Base.{
  ℕ, ◌≡◌, refl, Option, none, some, [], ◌∷◌, ◌++◌, Text, text_eq→eq, text_eq_refl, ◌==◌, ==_refl,
  find?, find?-append, find?-update_where, find?-fresh_id, find?_holds, All-intro, All-Elem,
  fresh_id, All, All-append, All-update_where, UniqueKeys-append, Option-cases, Bool-cases, inl,
  inr, ◌⊎◌, arith, ◌∙◌, ap,
}
use wdc_catalog_api.Schema.{Db, DeviceSnapshot, DeviceHead}
use wdc_catalog_api.Session.{World, ok, err, Exn, payload_too_large, Result-cases}
use wdc_catalog_api.Purge.Chunks.{device_of, HeadsValid}
use wdc_catalog_api.Purge.Frame.{UniqueSnapshots}
use wdc_catalog_api.Snapshots.{
  PackEnv, PackedPayload, SnapshotSpec, head_by_device, get_head, set_head, moved_head, new_head,
  pack_from_raw, new_snapshot, insertable, id_of, append_snapshot, duplicate_of,
  create_plain_snapshot,
}

abbrev added : DeviceSnapshot → Db → Db
added snap db = record db { snapshots = db.snapshots ++ snap ∷ [] }

-- A snapshot whose id is new, put at the end of the table, is found and hides no other.
module _ (db : Db) (snap : DeviceSnapshot)
    (new : find? (λ (s : DeviceSnapshot). s.id == snap.id) db.snapshots ≡ none) where
  device_of-added :
      (id : ℕ) (d : Text)
      → device_of id db.snapshots ≡ some d
      → device_of id (added snap db).snapshots ≡ some d
  device_of-added id d h =
      ground (arith, h, find?-append (λ (s : DeviceSnapshot). s.id == id) db.snapshots (snap ∷ []))

  find?-added :
      find? (λ (s : DeviceSnapshot). s.id == snap.id) (added snap db).snapshots ≡ some snap
  unfolding find?
  find?-added = ground (
    arith,
    new,
    ==_refl snap.id,
    find?-append (λ (s : DeviceSnapshot). s.id == snap.id) db.snapshots (snap ∷ []),
  )

  get_head-set_head :
      (kind : Text)
      → get_head snap.device_id (set_head snap.device_id snap.id kind (added snap db)) ≡ some snap
  unfolding get_head set_head find?
  get_head-set_head kind = elim (Option-cases (find? (head_by_device snap.device_id) db.heads)) [
    | inl missing ↦ ground (
      arith,
      missing,
      find?-append (head_by_device snap.device_id) db.heads
          (new_head snap.device_id snap.id kind ∷ []),
      text_eq_refl snap.device_id,
      find?-added,
    )
    | inr (h, there) ↦ ground (
      arith,
      there,
      find?-update_where (head_by_device snap.device_id) (head_by_device snap.device_id)
          (moved_head snap.id kind) (λ x. refl) db.heads,
      find?_holds (head_by_device snap.device_id) db.heads h there,
      find?-added,
    )
  ]

  abbrev PointsWell : Db → DeviceHead → Type 0
  PointsWell base h = device_of h.current_snapshot_id (added snap base).snapshots ≡ some h.device_id

  device_of_new : device_of snap.id (added snap db).snapshots ≡ some snap.device_id
  device_of_new = ground (arith, find?-added)

  heads_kept : HeadsValid db → All (PointsWell db) db.heads
  heads_kept valid =
      All-intro (PointsWell db) db.heads
        (λ h m. device_of-added h.current_snapshot_id h.device_id (All-Elem _ h db.heads valid m))

  HeadsValid-set_head :
      (kind : Text)
      → HeadsValid db
      → HeadsValid (set_head snap.device_id snap.id kind (added snap db))
  unfolding set_head
  HeadsValid-set_head kind valid =
      elim (Option-cases (find? (head_by_device snap.device_id) db.heads)) [
        | inl missing ↦
            rw (set_head, missing)
              (All-append (PointsWell db) db.heads _ (heads_kept valid) (device_of_new, tt))
        | inr (h, there) ↦
            rw (set_head, there)
              (All-update_where (PointsWell db) (head_by_device snap.device_id)
                (moved_head snap.id kind)
                (λ x well hit. rw (text_eq→eq x.device_id snap.device_id hit) device_of_new)
                db.heads (heads_kept valid))
      ]

module _ (env : PackEnv) (spec : SnapshotSpec) (now : ℕ) where
  pub append_snapshot_lem :
      (kid : Option Text) (packed : PackedPayload) (head : Option DeviceSnapshot) (w : World)
      (snap : DeviceSnapshot)
      → (append_snapshot env spec kid now packed head w).0 ≡ ok snap
      → (get_head spec.device_id (append_snapshot env spec kid now packed head w).1.working
          ≡ some snap)
        × (HeadsValid w.working
            → HeadsValid (append_snapshot env spec kid now packed head w).1.working)
        × (UniqueSnapshots w.working
            → UniqueSnapshots (append_snapshot env spec kid now packed head w).1.working)
  unfolding append_snapshot
  append_snapshot_lem kid packed head w snap h =
      let id = fresh_id (λ (s : DeviceSnapshot). s.id) w.working.snapshots in
      let row = new_snapshot env spec kid id packed (id_of env head) now in
      let new = find?-fresh_id (λ (s : DeviceSnapshot). s.id) w.working.snapshots in
      elim (Bool-cases (insertable env spec w.working)) [
        | inr bad ↦ absurd (ground (arith, h, bad))
        | inl good ↦
            let same : row ≡ snap = ground (arith, h, good) in
            (
              rw good (get_head-set_head w.working row new spec.kind ∙ ap (λ s. some s) same),
              λ valid. rw good (HeadsValid-set_head w.working row new spec.kind valid),
              λ unique. rw good (
                  unfold set_head in
                  UniqueKeys-append (λ (s : DeviceSnapshot). s.id) w.working.snapshots row unique
                    new),
            )
      ]

  pub append_snapshot_err :
      (kid : Option Text) (packed : PackedPayload) (head : Option DeviceSnapshot) (w : World)
      (e : Exn)
      → (append_snapshot env spec kid now packed head w).0 ≡ err e
      → (append_snapshot env spec kid now packed head w).1 ≡ w
  unfolding append_snapshot
  append_snapshot_err kid packed head w e h = elim (Bool-cases (insertable env spec w.working)) [
    | inl good ↦ absurd (ground (arith, h, good))
    | inr bad ↦ ground (arith, bad)
  ]

  duplicate_of_lem :
      (head : Option DeviceSnapshot) (s : DeviceSnapshot)
      → duplicate_of env spec head ≡ some s
      → head ≡ some s
  duplicate_of_lem none s h = absurd (ground (arith, h))
  duplicate_of_lem (some t) s h = ground (arith, h)

  abbrev head_now : World → Option DeviceSnapshot
  head_now w = get_head spec.device_id w.working

  abbrev packed_now : Option PackedPayload
  packed_now =
      let raw = env.canonical_bytes spec.payload in
      pack_from_raw env raw (env.sha256 raw) spec.payload spec.account_id

  create_plain_snapshot-cases :
      (w : World)
      → ((s : DeviceSnapshot) × (head_now w ≡ some s)
          × (create_plain_snapshot env spec now w ≡ (ok s, w)))
        ⊎ ((create_plain_snapshot env spec now w ≡ (err payload_too_large, w))
            ⊎ ((packed : PackedPayload) × (create_plain_snapshot env spec now w
                  ≡ append_snapshot env spec none now packed (head_now w) w)))
  unfolding create_plain_snapshot
  create_plain_snapshot-cases w = elim (Option-cases (duplicate_of env spec (head_now w))) [
    | inr (s, same) ↦
        inl (s, duplicate_of_lem (head_now w) s same, rw (create_plain_snapshot, same) refl)
    | inl differs ↦ elim (Option-cases packed_now) [
      | inl large ↦ inr (inl (rw (create_plain_snapshot, differs, large) refl))
      | inr (packed, fits) ↦ inr (inr (packed, rw (create_plain_snapshot, differs, fits) refl))
    ]
  ]

  -- After `create_snapshot` returned without encryption, the HEAD of the device is the snapshot that it returned,
  -- whether it is a new row or the HEAD from before.
  pub get_head-create_plain_snapshot :
      (w : World) (snap : DeviceSnapshot)
      → (create_plain_snapshot env spec now w).0 ≡ ok snap
      → get_head spec.device_id (create_plain_snapshot env spec now w).1.working ≡ some snap
  get_head-create_plain_snapshot w snap h = elim (create_plain_snapshot-cases w) [
    | inl (s, head, same) ↦
        let one : s ≡ snap = ground (arith, h, same) in rw same (head ∙ ap (λ t. some t) one)
    | inr (inl large) ↦ absurd (ground (arith, h, large))
    | inr (inr (packed, made)) ↦
        rw made (append_snapshot_lem none packed (head_now w) w snap (rw made at h)).0
  ]

  pub append_snapshot-HeadsValid :
      (kid : Option Text) (packed : PackedPayload) (head : Option DeviceSnapshot) (w : World)
      → HeadsValid w.working
      → UniqueSnapshots w.working
      → HeadsValid (append_snapshot env spec kid now packed head w).1.working
        × UniqueSnapshots (append_snapshot env spec kid now packed head w).1.working
  append_snapshot-HeadsValid kid packed head w valid unique =
      elim (Result-cases (append_snapshot env spec kid now packed head w).0) [
        | inl (snap, done) ↦
            let (_, keeps, distinct) = append_snapshot_lem kid packed head w snap done in
            (keeps valid, distinct unique)
        | inr (e, raised) ↦ rw (append_snapshot_err kid packed head w e raised) (valid, unique)
      ]

  -- Without encryption, whether it returns or raises, `create_snapshot` keeps the ids of the snapshots
  -- distinct and every HEAD at a snapshot of its device.
  pub create_plain_snapshot-HeadsValid :
      (w : World)
      → HeadsValid w.working
      → UniqueSnapshots w.working
      → HeadsValid (create_plain_snapshot env spec now w).1.working
        × UniqueSnapshots (create_plain_snapshot env spec now w).1.working
  create_plain_snapshot-HeadsValid w valid unique = elim (create_plain_snapshot-cases w) [
    | inl (s, head, same) ↦ rw same (valid, unique)
    | inr (inl large) ↦ rw large (valid, unique)
    | inr (inr (packed, made)) ↦
        rw made (append_snapshot-HeadsValid none packed (head_now w) w valid unique)
  ]

  append_snapshot_frame :
      (kid : Option Text) (packed : PackedPayload) (head : Option DeviceSnapshot) (w : World)
      → ((append_snapshot env spec kid now packed head w).1.working.devices ≡ w.working.devices)
        × ((append_snapshot env spec kid now packed head w).1.working.sync_snapshots
            ≡ w.working.sync_snapshots)
  unfolding append_snapshot set_head
  append_snapshot_frame kid packed head w = elim (Bool-cases (insertable env spec w.working)) [
    | inl good ↦ (ground (arith, good), ground (arith, good))
    | inr bad ↦ (ground (arith, bad), ground (arith, bad))
  ]

  -- Without encryption `create_snapshot` touches neither the devices nor the rows that a push keeps.
  pub create_plain_snapshot_frame :
      (w : World)
      → ((create_plain_snapshot env spec now w).1.working.devices ≡ w.working.devices)
        × ((create_plain_snapshot env spec now w).1.working.sync_snapshots
            ≡ w.working.sync_snapshots)
  create_plain_snapshot_frame w = elim (create_plain_snapshot-cases w) [
    | inl (s, head, same) ↦ rw same (refl, refl)
    | inr (inl large) ↦ rw large (refl, refl)
    | inr (inr (packed, made)) ↦ rw made (append_snapshot_frame none packed (head_now w) w)
  ]
