-- ===== src/DeviceIds/Normal.antt =====
-- app/device_ids.py: normalizing twice.
use mathlib.Core.List.{reverse, reverse-cons, reverse-reverse}
use wdc_catalog_api.Base.{
  ◌≤◌, ◌≡◌, refl, true, false, [], ◌∷◌, ◌++◌, Text, is_empty, length, strip, strip_left, lower,
  arith,
}
use wdc_catalog_api.Session.{ok}
use wdc_catalog_api.DeviceIds.{all_id_chars, is_device_id, normalize_device_id}

lower-all_id_chars : (s : Text) → all_id_chars s ≡ true → lower s ≡ s
unfolding all_id_chars
lower-all_id_chars [] h = refl
lower-all_id_chars (c ∷ s) h = ground (arith, h, lower-all_id_chars s)

strip_left-all_id_chars : (s : Text) → all_id_chars s ≡ true → strip_left s ≡ s
unfolding all_id_chars strip_left
strip_left-all_id_chars [] h = refl
strip_left-all_id_chars (c ∷ s) h = ground (arith, h)

all_id_chars-append :
    (s t : Text) → all_id_chars s ≡ true → all_id_chars t ≡ true → all_id_chars (s ++ t) ≡ true
unfolding all_id_chars
all_id_chars-append [] t h k = k
all_id_chars-append (c ∷ s) t h k = ground (arith, h, k, all_id_chars-append s t)

all_id_chars-reverse : (s : Text) → all_id_chars s ≡ true → all_id_chars (reverse s) ≡ true
unfolding all_id_chars
all_id_chars-reverse [] h = refl
all_id_chars-reverse (c ∷ s) h = rw (reverse-cons c s) (
    all_id_chars-append (reverse s) (c ∷ []) (all_id_chars-reverse s (ground (arith, h)))
      (ground (arith, h)))

strip-all_id_chars : (s : Text) → all_id_chars s ≡ true → strip s ≡ s
unfolding strip
strip-all_id_chars s h =
    rw (strip_left-all_id_chars s h, strip_left-all_id_chars (reverse s) (all_id_chars-reverse s h))
      (reverse-reverse s)

is_device_id_parts :
    (s : Text)
    → is_device_id s ≡ true
    → (all_id_chars s ≡ true) × (is_empty s ≡ false) × (3 ≤ length s) × (length s ≤ 64)
unfolding is_device_id all_id_chars
is_device_id_parts [] h = cc
is_device_id_parts (c ∷ s) h = (ground (arith, h), refl, ground (arith, h), ground (arith, h))

normalize_device_id_ok :
    (raw n : Text)
    → normalize_device_id raw ≡ ok n
    → (is_device_id n ≡ true) × (n ≡ lower (strip raw))
unfolding normalize_device_id
normalize_device_id_ok raw n h = (ground (arith, h), ground (arith, h))

-- An accepted device id has 3 to 64 characters, all of them lowercase letters, digits or dashes, and
-- it normalizes to itself: every route that normalizes again finds the same device.
pub normalize_device_id-normalize_device_id :
    (raw n : Text)
    → normalize_device_id raw ≡ ok n
    → (normalize_device_id n ≡ ok n) × (all_id_chars n ≡ true) × (3 ≤ length n) × (length n ≤ 64)
unfolding normalize_device_id
normalize_device_id-normalize_device_id raw n h =
    let (good, _) = normalize_device_id_ok raw n h in
    let (chars, nonempty, low, high) = is_device_id_parts n good in
    (
      rw
          (
            normalize_device_id,
            strip-all_id_chars n chars,
            lower-all_id_chars n chars,
            nonempty,
            good,
          )
          refl,
      chars,
      low,
      high,
    )
