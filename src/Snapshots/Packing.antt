-- ===== src/Snapshots/Packing.antt =====
-- app/snapshots.py: packing against unpacking, and the storage columns.
use wdc_catalog_api.Base.{
  ℕ, ◌+◌, ◌≤◌, ◌≡◌, Option, none, some, Text, text_eq, is_some, if◌then◌else◌, leb, length, bit,
  ◌⊎◌, arith,
}
use wdc_catalog_api.Snapshots.{
  PackEnv, PackedPayload, SnapshotSpec, pack_from_raw, unpack_payload, new_snapshot,
}

module _ (env : PackEnv) (spec : SnapshotSpec) where
  -- A snapshot whose payload was packed unpacks to that payload, whatever lane it went to; through
  -- the compressed lanes its keys come back sorted.
  pub unpack_payload-new_snapshot :
      (id now : ℕ) (parent : Option ℕ) (checksum : Text) (packed : PackedPayload)
      → pack_from_raw env (env.canonical_bytes spec.payload) checksum spec.payload spec.account_id
        ≡ some packed
      → unpack_payload env (new_snapshot env spec none id packed parent now)
        ≡ some (
            if leb (length (env.canonical_bytes spec.payload)) env.inline_threshold
            then spec.payload
            else env.sorted spec.payload)
  unfolding pack_from_raw unpack_payload text_eq
  unpack_payload-new_snapshot id now parent checksum packed h = ground (
    arith,
    h,
    env.decompress-compress (env.canonical_bytes spec.payload),
    env.download-upload spec.account_id (env.compress (env.canonical_bytes spec.payload)),
    env.loads-canonical_bytes spec.payload,
  )

  -- A packed payload fills exactly one of the three storage columns, as the table demands, and one
  -- that stays in the database is within the bound of its column.
  pub pack_from_raw_lane :
      (raw checksum : Text) (packed : PackedPayload)
      → pack_from_raw env raw checksum spec.payload spec.account_id ≡ some packed
      → (bit (is_some packed.json_value)
            + bit (is_some packed.blob_value)
            + bit (is_some packed.uri_value)
          ≡ 1)
        × ((packed.json_value ≡ none) ⊎ (packed.size_bytes ≤ env.inline_threshold))
        × ((packed.blob_value ≡ none) ⊎ (packed.size_bytes ≤ env.blob_threshold))
  unfolding pack_from_raw
  pack_from_raw_lane raw checksum packed h =
      (ground (arith, h), ground (arith, h), ground (arith, h))
