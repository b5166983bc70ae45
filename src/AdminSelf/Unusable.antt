-- ===== src/AdminSelf/Unusable.antt =====
-- app/admin_ui.py, `admin_totp_confirm`, with app/totp.py: the recovery codes that it hands out, at the
-- login of app/api_auth_ui.py.
use wdc_catalog_api.Base.{
  ℕ, ◌≤◌, length-append, ◌≡◌, refl, inl, inr, true, false, none, some, List, [], ◌∷◌, Text, strip,
  remove_char, ◌==◌, ◌&&◌, length, All, Bool-cases, Option-cases, arith, ap,
}
use wdc_catalog_api.Schema.{Account}
use wdc_catalog_api.Session.{ok}
use wdc_catalog_api.Passwords.{Bcrypt, hash_password, check_or_false}
use wdc_catalog_api.Totp.{
  TotpLibrary, totp_digits, recovery_group_len, is_digits, without_marks, normalize_recovery_code,
  recovery_code,
}
use wdc_catalog_api.Invites.{has_char}
use wdc_catalog_api.AdminLogin.{denied, join_lines, matching_hash, check_factor}
use wdc_catalog_api.AdminLogin.Lines.{IsLine, stripped_lines-join_lines-IsLine}
use wdc_catalog_api.AdminSelf.{Draw, code_hashes, enrolled}

has_char-remove_char : (c : ℕ) (s : Text) → has_char c (remove_char c s) ≡ false
unfolding has_char remove_char
has_char-remove_char c [] = refl
has_char-remove_char c (d ∷ s) = ground (arith, has_char-remove_char c s)

has_char-recovery_code : (first second : Text) → has_char 45 (recovery_code first second) ≡ true
unfolding has_char
has_char-recovery_code [] second = refl
has_char-recovery_code (c ∷ first) second = ground (arith, has_char-recovery_code first second)

normalized_has_no_dash : (code : Text) → has_char 45 (normalize_recovery_code code) ≡ false
unfolding normalize_recovery_code
normalized_has_no_dash code = has_char-remove_char 45 _

-- The groups have the length that the code draws.
abbrev pub HasGroups : Draw → Type 0
HasGroups d = (length d.first ≡ recovery_group_len) × (length d.second ≡ recovery_group_len)

short_code : (d : Draw) → HasGroups d → length (recovery_code d.first d.second) ≤ 71
short_code d (five, five') = omega (arith, five, five', length-append d.first (45 ∷ d.second))

module _ (bcrypt : Bcrypt) where
  -- What bcrypt promises of different passwords: the hash of one that it does not cut short checks
  -- against no other.
  abbrev pub Separates : Type 0
  Separates =
      (salt plain other : Text)
      → length other ≤ 71
      → bcrypt.checkpw plain (bcrypt.hashpw salt other) ≡ some true
      → plain ≡ other

  mismatch :
      (code : Text) (d : Draw)
      → Separates
      → HasGroups d
      → check_or_false (
          bcrypt.checkpw
            (normalize_recovery_code code)
            (hash_password bcrypt d.salt (recovery_code d.first d.second)))
        ≡ false
  unfolding hash_password
  mismatch code d apart groups =
      elim (Option-cases (
        bcrypt.checkpw (normalize_recovery_code code)
          (bcrypt.hashpw d.salt (recovery_code d.first d.second)))) [
            | inl raised ↦ rw raised refl
            | inr (b, checked) ↦ elim (Bool-cases b) [
              | inr wrong ↦ rw (checked, wrong) refl
              | inl right ↦
                  let same =
                    apart d.salt (normalize_recovery_code code) (recovery_code d.first d.second)
                      (short_code d groups) (rw right at checked) in
                  absurd (
                    ground (
                      arith,
                      ap (has_char 45) same,
                      normalized_has_no_dash code,
                      has_char-recovery_code d.first d.second,
                    ))
            ]
          ]

  never_matches :
      (code : Text) (drawn : List Draw)
      → Separates
      → All HasGroups drawn
      → matching_hash bcrypt (normalize_recovery_code code) (code_hashes bcrypt drawn) ≡ none
  unfolding matching_hash code_hashes
  never_matches code [] apart h = refl
  never_matches code (d ∷ rest) apart (groups, h) =
      rw (mismatch code d apart groups) (never_matches code rest apart h)

  -- The recovery codes are of no use: after an enrolment, the login takes none of them, nor anything
  -- else that is not six digits. The stored hashes are of codes with a dash, and a code that is typed
  -- loses its dash before it is checked.
  pub check_factor-enrolled :
      (library : TotpLibrary) (drawn : List Draw) (secret code : Text) (a : Account) (now : ℕ)
      → Separates
      → All HasGroups drawn
      → All IsLine (code_hashes bcrypt drawn)
      → is_digits (without_marks (strip code)) && length (without_marks (strip code)) == totp_digits
        ≡ false
      → check_factor bcrypt library secret
          (enrolled (join_lines (code_hashes bcrypt drawn)) a)
          code
          now
        ≡ ok denied
  unfolding check_factor
  check_factor-enrolled library drawn secret code a now apart groups lines other =
      rw
        (
          check_factor,
          other,
          stripped_lines-join_lines-IsLine (code_hashes bcrypt drawn) lines,
          never_matches (strip code) drawn apart groups,
        )
        refl
