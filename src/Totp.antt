-- ===== src/Totp.antt =====
-- app/totp.py: time-based one-time codes and recovery codes. HMAC-SHA1 and base32 are parameters.
pub mod Codes
use wdc_catalog_api.Base.{
  ℕ, zero, suc, ◌+◌, ◌-◌, ◌*◌, ◌/◌, ◌%◌, ◌^◌, Bool, true, false, Option, none, some, List, [], ◌∷◌,
  ◌++◌, Text, text_eq, is_empty, if◌then◌else◌, leb, ◌==◌, negb, ◌&&◌, ◌||◌, length, take, drop,
  strip, lower, upper, remove_char,
}
use wdc_catalog_api.Session.{Result, ok, err, Exn, value_error}

-- `hmac.new(key, message, sha1).digest()` and `base64.b32decode`; `none` is the exception of the latter.
pub record TotpLibrary : Type 0 where
  pub hmac_sha1 : Text → Text → Text
  pub b32decode : Text → Option Text

abbrev pub totp_step : ℕ
totp_step = 30

abbrev pub totp_digits : ℕ
totp_digits = 6

-- `s.isdigit()` of ASCII
unfoldable pub all_digits : Text → Bool
all_digits [] = true
all_digits (c ∷ s) = (leb 48 c && leb c 57) && all_digits s

abbrev pub is_digits : Text → Bool
is_digits s = negb (is_empty s) && all_digits s

-- `code.replace(" ", "").replace("-", "")`
abbrev pub without_marks : Text → Text
without_marks code = remove_char 45 (remove_char 32 code)

-- six digits of a number, zeros in front
unfoldable pub six_digits : ℕ → Text
six_digits n =
    (48 + n / 100000 % 10)
    ∷ (48 + n / 10000 % 10)
    ∷ (48 + n / 1000 % 10)
    ∷ (48 + n / 100 % 10)
    ∷ (48 + n / 10 % 10)
    ∷ (48 + n % 10)
    ∷ []

-- `struct.pack(">Q", n)`
abbrev pub eight_bytes : ℕ → Text
eight_bytes n =
    (n / 2 ^ 56 % 256)
    ∷ (n / 2 ^ 48 % 256)
    ∷ (n / 2 ^ 40 % 256)
    ∷ (n / 2 ^ 32 % 256)
    ∷ (n / 16777216 % 256)
    ∷ (n / 65536 % 256)
    ∷ (n / 256 % 256)
    ∷ (n % 256)
    ∷ []

unfoldable pub last_byte : Text → ℕ
last_byte [] = 0
last_byte (b ∷ []) = b
last_byte (b ∷ c ∷ rest) = last_byte (c ∷ rest)

unfoldable pub big_endian : ℕ → Text → ℕ
big_endian acc [] = acc
big_endian acc (b ∷ rest) = big_endian (acc * 256 + b) rest

-- the padding of `_decode` to a multiple of eight
unfoldable pub equals_signs : ℕ → Text
equals_signs zero = []
equals_signs (suc n) = 61 ∷ equals_signs n

module _ (library : TotpLibrary) where
  -- `_decode`
  unfoldable pub decode_secret : Text → Option Text
  decode_secret secret =
      let s = upper (remove_char 32 (strip secret)) in
      library.b32decode (s ++ equals_signs ((8 - length s % 8) % 8))

  -- `_hotp`
  unfoldable pub hotp : Text → ℕ → Text
  hotp key counter =
      let mac = library.hmac_sha1 key (eight_bytes counter) in
      let offset = last_byte mac % 16 in
      let word = big_endian 0 (take 4 (drop offset mac)) % 2147483648 in six_digits (word % 1000000)

  -- the loop over the windows before, at and after the counter
  unfoldable pub in_window : Text → ℕ → Text → Bool
  in_window key counter code =
      text_eq (hotp key (counter - 1)) code
      || text_eq (hotp key counter) code
      || text_eq (hotp key (counter + 1)) code

  -- `verify` at an instant; before the second step of the epoch the window before has no counter, and
  -- `struct.pack` raises
  unfoldable pub verify_totp : Text → Text → ℕ → Result Bool
  verify_totp secret raw_code now =
      let code = strip (without_marks raw_code) in
      if negb (is_digits code && length code == totp_digits)
      then ok false
      else elim (decode_secret secret) [
        | none ↦ ok false
        | some key ↦
            if is_empty key
            then ok false
            else if now / totp_step == 0
            then err value_error
            else ok (in_window key (now / totp_step) code)
      ]

-- `normalize_recovery_code`
unfoldable pub normalize_recovery_code : Text → Text
normalize_recovery_code raw = without_marks (lower (strip raw))

abbrev pub recovery_group_len : ℕ
recovery_group_len = 5

-- one code of `generate_recovery_codes`, of the two groups that were drawn
abbrev pub recovery_code : Text → Text → Text
recovery_code first second = first ++ (45 ∷ second)
