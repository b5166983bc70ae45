-- ===== src/Purge/Heads.antt =====
-- app/snapshots.py, `purge_auto_older_than` and the HEAD pointers.
use wdc_catalog_api.Base.{
  ℕ, ◌≡◌, refl, Bool, true, false, none, some, List, Text, text_eq, text_eq_refl, if◌then◌else◌,
  ◌==◌, ==_refl, ◌&&◌, linked_to, length, find?, select, Elem, All-Elem, All-intro, is_some-find?,
  select-Elem, find?-unique, find?-none-Elem, UniqueKeys, Option-cases, Bool-cases, inl, inr, arith,
  sym, ◌∙◌,
}
use wdc_catalog_api.Schema.{Db, DeviceSnapshot, DeviceHead}
use wdc_catalog_api.Session.{World, Result, ok}
use wdc_catalog_api.Batches.{number_key}
use wdc_catalog_api.Batches.Equivalence.{one_of_inv, one_of-Elem, Elem-select, length-keys_of}
use wdc_catalog_api.Purge.{
  PurgeRule, snapshot_by_id, one_of_ids, snapshot_ids, is_purgeable, heads_account, is_head,
  is_doomed, delete_chunks, blob_uris, purge_auto_older_than,
}
use wdc_catalog_api.Purge.Chunks.{device_of, HeadsValid, Unheld, delete_chunks_lem}

module _ (ties : ℕ → ℕ → Bool) (rule : PurgeRule) (now : ℕ) where
  device_of-Elem :
      (rows : List DeviceSnapshot) (s : DeviceSnapshot)
      → UniqueKeys (λ (s : DeviceSnapshot). s.id) rows
      → Elem s rows
      → device_of s.id rows ≡ some s.device_id
  device_of-Elem rows s unique m = elim (Option-cases (find? (snapshot_by_id s.id) rows)) [
    | inl missing ↦
        absurd
          (ground (arith, ==_refl s.id, find?-none-Elem (snapshot_by_id s.id) s rows missing m))
    | inr (t, found) ↦
        let one : s ≡ t = find?-unique _ s.id t s rows unique found m refl in
        ground (arith, found, one)
  ]

  same_id_lem :
      (rows : List DeviceSnapshot) (a b : DeviceSnapshot)
      → UniqueKeys (λ (s : DeviceSnapshot). s.id) rows
      → Elem a rows
      → Elem b rows
      → a.id ≡ b.id
      → a ≡ b
  same_id_lem rows a b unique m n e = elim (Option-cases (find? (snapshot_by_id b.id) rows)) [
    | inl missing ↦
        absurd
          (ground (arith, ==_refl b.id, find?-none-Elem (snapshot_by_id b.id) b rows missing n))
    | inr (t, found) ↦
        find?-unique _ b.id t a rows unique found m e
        ∙ sym (find?-unique _ b.id t b rows unique found n refl)
  ]

  abbrev doomed_ids : Db → List ℕ
  doomed_ids db = snapshot_ids (select (is_doomed ties rule now db) db.snapshots)

  one_of_doomed :
      (db : Db) (s : DeviceSnapshot)
      → UniqueKeys (λ (s : DeviceSnapshot). s.id) db.snapshots
      → Elem s db.snapshots
      → one_of_ids (doomed_ids db) s.id ≡ is_doomed ties rule now db s
  one_of_doomed db s unique m = elim (Bool-cases (is_doomed ties rule now db s)) [
    | inl doomed ↦
        one_of-Elem number_key (λ (s : DeviceSnapshot). s.id) _ s
          (Elem-select _ s db.snapshots m doomed)
        ∙ sym doomed
    | inr kept ↦ elim (Bool-cases (one_of_ids (doomed_ids db) s.id)) [
      | inr out ↦ out ∙ sym kept
      | inl hit ↦
          let (t, there, same) = one_of_inv number_key (λ (s : DeviceSnapshot). s.id) _ s.id hit in
          let (row, doomed) = select-Elem _ t db.snapshots there in
          let named = same_id_lem db.snapshots t s unique row m same in
          absurd (ground (arith, named, doomed, kept))
    ]
  ]

  doomed_parts :
      (db : Db) (s : DeviceSnapshot)
      → is_doomed ties rule now db s ≡ true
      → (linked_to rule.account_id s.account_id ≡ true) × (is_head ties rule now db s.id ≡ false)
  unfolding is_doomed is_purgeable
  doomed_parts db s h = (ground (arith, h), ground (arith, h))

  doomed_head :
      (db : Db)
      → UniqueKeys (λ (s : DeviceSnapshot). s.id) db.snapshots
      → (h : DeviceHead) → Elem h db.heads
      → device_of h.current_snapshot_id db.snapshots ≡ some h.device_id
      → one_of_ids (doomed_ids db) h.current_snapshot_id ≡ true
      → ⊥
  unfolding is_head heads_account
  doomed_head db unique h m valid hit =
      elim (Option-cases (find? (snapshot_by_id h.current_snapshot_id) db.snapshots)) [
        | inl missing ↦ cc
        | inr (t, found) ↦
            let (s, there, same) =
              one_of_inv number_key (λ (s : DeviceSnapshot). s.id) _ h.current_snapshot_id hit in
            let (row, doomed) = select-Elem _ s db.snapshots there in
            let one : s ≡ t =
              find?-unique _ h.current_snapshot_id t s db.snapshots unique found row same in
            let (owned, loose) = doomed_parts db s doomed in
            let its_device : s.device_id ≡ h.device_id = ground (arith, valid, found, one) in
            let counted =
              is_some-find?
                (λ (s : DeviceSnapshot).
                  text_eq s.device_id h.device_id && linked_to rule.account_id s.account_id)
                s db.snapshots row (rw (its_device, text_eq_refl h.device_id) owned) in
            let held =
              is_some-find?
                (λ (g : DeviceHead).
                  g.current_snapshot_id == s.id && heads_account ties rule now db g)
                h db.heads m (rw (same, ==_refl h.current_snapshot_id) counted) in
            ground (arith, loose, held)
      ]

  doomed-Unheld :
      (db : Db)
      → UniqueKeys (λ (s : DeviceSnapshot). s.id) db.snapshots
      → HeadsValid db
      → Unheld (snapshot_ids (select (is_doomed ties rule now db) db.snapshots)) db.heads
  doomed-Unheld db unique valid = All-intro _ db.heads (λ h m.
      elim (Bool-cases (one_of_ids (doomed_ids db) h.current_snapshot_id)) [
        | inr free ↦ free
        | inl hit ↦ absurd (doomed_head db unique h m (All-Elem _ h db.heads valid m) hit)
      ])

  abbrev chunks : World → Result ℕ × World
  chunks w =
      let candidates = select (is_doomed ties rule now w.working) w.working.snapshots in
      delete_chunks ties rule now (length candidates) (snapshot_ids candidates) w

  purge_step :
      (w : World) (n : ℕ)
      → (chunks w).0 ≡ ok n
      → purge_auto_older_than ties rule now w ≡ (
        ok (
          n,
          blob_uris ties rule now (select (is_doomed ties rule now w.working) w.working.snapshots),
        ),
        (chunks w).1,
      )
  unfolding purge_auto_older_than
  purge_step w n done = ground (arith, done)

  purge_lem :
      (w : World)
      → UniqueKeys (λ (s : DeviceSnapshot). s.id) w.working.snapshots
      → HeadsValid w.working
      → (answer : ℕ × List Text) × ((purge_auto_older_than ties rule now w).0 ≡ ok answer)
        × ((purge_auto_older_than ties rule now w).1.working.heads ≡ w.working.heads)
        × ((id : ℕ)
            → device_of id (purge_auto_older_than ties rule now w).1.working.snapshots ≡ (
                if one_of_ids (doomed_ids w.working) id
                then none
                else device_of id w.working.snapshots))
        × ((purge_auto_older_than ties rule now w).1.committed ≡ w.committed)
  purge_lem w unique valid =
      let candidates = select (is_doomed ties rule now w.working) w.working.snapshots in
      let (n, done, heads, devices, durable) =
        delete_chunks_lem ties rule now (length candidates) (doomed_ids w.working) w
          (rw (length-keys_of number_key (λ (s : DeviceSnapshot). s.id) candidates) (omega arith))
          (doomed-Unheld w.working unique valid) in
      let step = purge_step w n done in
      (
        (n, blob_uris ties rule now candidates),
        rw step refl,
        rw step heads,
        λ id. rw step (devices id),
        rw step durable,
      )

  -- If every HEAD points at a snapshot of its device, and no two snapshots share an id, then the
  -- purge returns without an exception, moves no HEAD, and every HEAD still points at a snapshot of
  -- its device. It commits nothing by itself.
  pub purge-HeadsValid :
      (w : World)
      → UniqueKeys (λ (s : DeviceSnapshot). s.id) w.working.snapshots
      → HeadsValid w.working
      → (answer : ℕ × List Text) × ((purge_auto_older_than ties rule now w).0 ≡ ok answer)
        × ((purge_auto_older_than ties rule now w).1.working.heads ≡ w.working.heads)
        × HeadsValid (purge_auto_older_than ties rule now w).1.working
        × ((purge_auto_older_than ties rule now w).1.committed ≡ w.committed)
  purge-HeadsValid w unique valid =
      let (answer, done, heads, devices, durable) = purge_lem w unique valid in
      let free = doomed-Unheld w.working unique valid in
      (
        answer,
        done,
        heads,
        rw heads (
            All-intro _ w.working.heads (λ h m. ground (
              arith,
              devices h.current_snapshot_id,
              All-Elem _ h w.working.heads free m,
              All-Elem _ h w.working.heads valid m,
            ))),
        durable,
      )

  -- The purge removes a snapshot exactly if the statement selects it: it is an automatic one of the
  -- account, without a label where labels are kept, beyond the newest of its device that are to be
  -- kept or older than the expiry, and no HEAD. This holds under the conditions of the HEADs and ids.
  pub purge_survivors :
      (w : World) (s : DeviceSnapshot)
      → UniqueKeys (λ (s : DeviceSnapshot). s.id) w.working.snapshots
      → HeadsValid w.working
      → Elem s w.working.snapshots
      → device_of s.id (purge_auto_older_than ties rule now w).1.working.snapshots
        ≡ (if is_doomed ties rule now w.working s then none else some s.device_id)
  purge_survivors w s unique valid m =
      let (answer, done, heads, devices, durable) = purge_lem w unique valid in
      let hit = device_of-Elem w.working.snapshots s unique m in
      let same = one_of_doomed w.working s unique m in devices s.id ∙ rw (same, hit) refl
