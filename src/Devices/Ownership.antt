-- ===== src/Devices/Ownership.antt =====
-- app/devices.py, the endpoints on one device: whose devices they touch, what a push leaves.
use wdc_catalog_api.Base.{
  ℕ, ◌≡◌, refl, true, false, Option, some, Text, text_eq, text_eq→eq, linked_to, find?, find?_holds,
  find?-update_where, Option-cases, Bool-cases, inl, inr, arith, ◌∙◌, sym,
}
use wdc_catalog_api.Schema.{Db, Account, DeviceConfig, Fields}
use wdc_catalog_api.Session.{World, ok}
use wdc_catalog_api.Devices.{
  device_by_id, owned_device, write_device, update_device, DeviceConfigDetail, get_device_config,
  with_payload, push_config_to_device,
}

-- One request to the endpoints on devices, by an account.
pub data DeviceStep (account : Account) : World → World → Type 0 where
  update_step :
      (id : Text) (name : Option Text) (w : World)
      → DeviceStep account w (update_device id name account w).1
  get_step : (id : Text) (w : World) → DeviceStep account w (get_device_config id account w).1
  push_step :
      (id source : Text) (now : ℕ) (w : World)
      → DeviceStep account w (push_config_to_device id source now account w).1

module _ (account : Account) where
  owned_device_inv :
      (id : Text) (db : Db) (d : DeviceConfig)
      → owned_device account id db ≡ some d
      → (find? (device_by_id id) db.devices ≡ some d) × (linked_to account.id d.user_id ≡ true)
  unfolding owned_device
  owned_device_inv id db d h = (ground (arith, h), ground (arith, h))

  write_device_lem :
      (id other : Text) (f : DeviceConfig → DeviceConfig) (w : World) (owner : DeviceConfig)
      (d : DeviceConfig)
      → ((x : DeviceConfig) → (f x).device_id ≡ x.device_id)
      → find? (device_by_id id) w.working.devices ≡ some owner
      → linked_to account.id owner.user_id ≡ true
      → find? (device_by_id other) w.working.devices ≡ some d
      → linked_to account.id d.user_id ≡ false
      → find? (device_by_id other) (write_device id f w).working.devices ≡ some d
  write_device_lem id other f w owner d same found owned known foreign =
      elim (Bool-cases (text_eq d.device_id id)) [
        | inl hit ↦
            let its_id =
              text_eq→eq d.device_id other (find?_holds (device_by_id other) _ d known) in
            let one : other ≡ id = sym its_id ∙ text_eq→eq d.device_id id hit in
            let also : find? (device_by_id id) w.working.devices ≡ some d = rw one at known in
            absurd (ground (arith, also, found, owned, foreign))
        | inr miss ↦ ground (
          arith,
          miss,
          known,
          find?-update_where (device_by_id other) (device_by_id id) f (λ x. rw (same x) refl)
              w.working.devices,
        )
      ]

  -- No request of an account, whether it succeeds or fails, changes a device that is not linked to
  -- that account.
  pub DeviceStep-find? :
      {w w' : World} (other : Text) (d : DeviceConfig)
      → DeviceStep account w w'
      → find? (device_by_id other) w.working.devices ≡ some d
      → linked_to account.id d.user_id ≡ false
      → find? (device_by_id other) w'.working.devices ≡ some d
  unfolding update_device get_device_config push_config_to_device
  DeviceStep-find? other d (update_step id name w) known foreign =
      elim (Option-cases (owned_device account id w.working)) [
        | inl missing ↦ ground (arith, missing, known)
        | inr (owner, mine) ↦
            let (found, owned) = owned_device_inv id w.working owner mine in
            elim (Option-cases name) [
              | inl same ↦ ground (arith, mine, same, known)
              | inr (n, renamed) ↦
                  rw (update_device, mine, renamed)
                    (write_device_lem id other (λ x. record x { name = some n }) w owner d
                      (λ x. refl) found owned known foreign)
            ]
      ]
  DeviceStep-find? other d (get_step id w) known foreign =
      elim (Option-cases (owned_device account id w.working)) [
        | inl missing ↦ rw (get_device_config, missing) known
        | inr (owner, mine) ↦ rw (get_device_config, mine) known
      ]
  DeviceStep-find? other d (push_step id source now w) known foreign =
      elim (Option-cases (owned_device account source w.working)) [
        | inl missing ↦ rw (push_config_to_device, missing) known
        | inr (src, from) ↦ elim (Option-cases (owned_device account id w.working)) [
          | inl missing ↦ rw (push_config_to_device, from, missing) known
          | inr (owner, mine) ↦
              let (found, owned) = owned_device_inv id w.working owner mine in
              rw (push_config_to_device, from, mine)
                (write_device_lem id other (with_payload src.payload now) w owner d (λ x. refl)
                  found owned known foreign)
        ]
      ]

  owned_after :
      (id : Text) (payload : Fields) (now : ℕ) (w : World) (owner : DeviceConfig)
      → owned_device account id w.working ≡ some owner
      → owned_device account id (write_device id (with_payload payload now) w).working
        ≡ some (with_payload payload now owner)
  unfolding owned_device
  owned_after id payload now w owner mine =
      let (found, owned) = owned_device_inv id w.working owner mine in
      ground (
        arith,
        found,
        owned,
        find?_holds (device_by_id id) w.working.devices owner found,
        find?-update_where (device_by_id id) (device_by_id id) (with_payload payload now)
            (λ x. refl) w.working.devices,
      )

  -- After a push that returned, the target has the payload that the source had, and its time of
  -- change is that of the push.
  pub get_device_config-push_config_to_device :
      (id source : Text) (now : ℕ) (w : World) (answer : Text × Text) (before : DeviceConfigDetail)
      → (push_config_to_device id source now account w).0 ≡ ok answer
      → (get_device_config source account w).0 ≡ ok before
      → (after : DeviceConfigDetail) × ((get_device_config id account
            (push_config_to_device id source now account w).1).0
          ≡ ok after)
        × (after.payload ≡ before.payload)
        × (after.updated_at ≡ now)
  unfolding get_device_config push_config_to_device
  get_device_config-push_config_to_device id source now w answer before pushed known =
      elim (Option-cases (owned_device account source w.working)) [
        | inl missing ↦ absurd (ground (arith, missing, pushed))
        | inr (src, from) ↦ elim (Option-cases (owned_device account id w.working)) [
          | inl missing ↦ absurd (ground (arith, missing, from, pushed))
          | inr (owner, mine) ↦
              let written = owned_after id src.payload now w owner mine in
              (
                record {
                  device_id = owner.device_id;
                  name = owner.name;
                  payload = src.payload;
                  updated_at = now;
                },
                rw (push_config_to_device, from, mine) (rw (get_device_config, written) refl),
                ground (arith, from, known),
                refl,
              )
        ]
      ]
