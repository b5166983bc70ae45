-- ===== src/DeviceIds.antt =====
-- app/device_ids.py: the normal form of a device id that a client sends.
pub mod Normal
use wdc_catalog_api.Base.{
  ℕ, Bool, true, false, List, [], ◌∷◌, Text, is_empty, if◌then◌else◌, leb, ◌==◌, ◌&&◌, ◌||◌, length,
  strip, lower,
}
use wdc_catalog_api.Session.{Result, ok, err, Exn, http}

-- `[a-z0-9]` and `[a-z0-9-]`
abbrev pub is_alphanumeric : ℕ → Bool
is_alphanumeric c = (leb 97 c && leb c 122) || (leb 48 c && leb c 57)

abbrev pub is_id_char : ℕ → Bool
is_id_char c = is_alphanumeric c || c == 45

unfoldable pub all_id_chars : Text → Bool
all_id_chars [] = true
all_id_chars (c ∷ s) = is_id_char c && all_id_chars s

-- `_DEVICE_ID_RE`; a stripped text has no newline for its `$` to pass over
unfoldable pub is_device_id : Text → Bool
is_device_id [] = false
is_device_id (c ∷ s) =
    is_alphanumeric c && (all_id_chars s && (leb 2 (length s) && leb (length s) 63))

-- `normalize_device_id`
unfoldable pub normalize_device_id : Text → Result Text
normalize_device_id raw =
    let normalized = lower (strip raw) in
    if is_empty normalized
    then err (http 400 "device_id is required")
    else if is_device_id normalized
    then ok normalized
    else err (http 400 "device_id must be 3–64 chars, lowercase alphanumeric + dashes")
