-- ===== src/Totp/Codes.antt =====
-- app/totp.py, `verify`: the codes that it takes.
use mathlib.Core.List.{reverse, reverse_aux, reverse-reverse}
use wdc_catalog_api.Base.{
  ℕ, ◌+◌, ◌-◌, ◌/◌, ◌%◌, ◌≤◌, ◌<◌, ◌≡◌, refl, inl, inr, true, false, some, [], ◌∷◌, Text, text_eq,
  text_eq→eq, text_eq_of, ==→eq, is_empty, leb, ◌==◌, negb, ◌&&◌, length, strip, strip_left,
  remove_char, arith, Bool-cases, sym, ap, ◌∙◌,
}
use wdc_catalog_api.Session.{ok}
use wdc_catalog_api.Totp.{
  TotpLibrary, totp_step, totp_digits, all_digits, is_digits, without_marks, six_digits,
  decode_secret, hotp, in_window, verify_totp,
}

remove_char-digits :
    (mark : ℕ) (s : Text) → mark < 48 → all_digits s ≡ true → remove_char mark s ≡ s
unfolding remove_char all_digits
remove_char-digits mark [] h k = refl
remove_char-digits mark (c ∷ s) h k = ground (arith, k, remove_char-digits mark s h)

strip_left-digits : (s : Text) → all_digits s ≡ true → strip_left s ≡ s
unfolding strip_left all_digits
strip_left-digits [] k = refl
strip_left-digits (c ∷ s) k = ground (arith, k)

digits-reverse_aux :
    (s t : Text) → all_digits s ≡ true → all_digits t ≡ true → all_digits (reverse_aux s t) ≡ true
unfolding all_digits
digits-reverse_aux [] t h k = k
digits-reverse_aux (c ∷ s) t h k =
    digits-reverse_aux s (c ∷ t) (ground (arith, h)) (ground (arith, h, k))

strip-digits : (s : Text) → all_digits s ≡ true → strip s ≡ s
unfolding strip all_digits
strip-digits s h =
    ap (λ t. reverse (strip_left (reverse t))) (strip_left-digits s h)
    ∙ (ap (λ t. reverse t) (strip_left-digits (reverse s) (digits-reverse_aux s [] h refl))
        ∙ reverse-reverse s)

digit : (d : ℕ) → leb 48 (48 + d % 10) && leb (48 + d % 10) 57 ≡ true
digit d = ground arith

six_digits-digits : (n : ℕ) → all_digits (six_digits n) ≡ true
unfolding six_digits all_digits
six_digits-digits n =
    rw
      (
        digit (n / 100000),
        digit (n / 10000),
        digit (n / 1000),
        digit (n / 100),
        digit (n / 10),
        digit n,
      )
      refl

six_digits_shape :
    (n : ℕ) → negb (is_digits (six_digits n) && length (six_digits n) == totp_digits) ≡ false
unfolding six_digits
six_digits_shape n = rw (six_digits-digits n) refl

-- A code in digits is its own normal form.
clean-digits : (s : Text) → all_digits s ≡ true → strip (without_marks s) ≡ s
clean-digits s h =
    let spaces = remove_char-digits 32 s (omega arith) h in
    let dashes = remove_char-digits 45 s (omega arith) h in rw (spaces, dashes) (strip-digits s h)

module _ (library : TotpLibrary) (secret key : Text) (now : ℕ)
    (decoded : decode_secret library secret ≡ some key) (full : is_empty key ≡ false)
    (late : now / totp_step == 0 ≡ false) where
  in_window-hotp :
      (counter at : ℕ)
      → at ≤ counter + 1
      → counter ≤ at + 1
      → in_window library key at (hotp library key counter) ≡ true
  unfolding in_window
  in_window-hotp counter at h k =
      let same : (n : ℕ)
          → n ≡ counter
          → text_eq (hotp library key n) (hotp library key counter) ≡ true =
        λ n e.
          text_eq_of (hotp library key n) (hotp library key counter) (ap (hotp library key) e) in
      elim (Bool-cases (at == counter)) [
        | inl now_step ↦ ground (arith, same at (==→eq at counter now_step))
        | inr other ↦ elim (Bool-cases (at + 1 == counter)) [
          | inl next ↦ ground (arith, same (at + 1) (==→eq (at + 1) counter next))
          | inr before ↦ ground (arith, same (at - 1) (ground (arith, h, k, other, before)))
        ]
      ]

  in_window_inv :
      (at : ℕ) (code : Text)
      → at == 0 ≡ false
      → in_window library key at code ≡ true
      → (counter : ℕ) × (code ≡ hotp library key counter) × (counter ≤ at + 1) × (at ≤ counter + 1)
  unfolding in_window
  in_window_inv at code some_step h = elim (Bool-cases (text_eq (hotp library key (at - 1)) code)) [
    | inl before ↦
        (at - 1, sym (text_eq→eq (hotp library key (at - 1)) code before), omega arith, omega arith)
    | inr miss ↦ elim (Bool-cases (text_eq (hotp library key at) code)) [
      | inl current ↦
          (at, sym (text_eq→eq (hotp library key at) code current), omega arith, omega arith)
      | inr neither ↦ (
        at + 1,
        sym (text_eq→eq (hotp library key (at + 1)) code (ground (arith, h, miss, neither))),
        omega arith,
        omega arith,
      )
    ]
  ]

  hotp-digits :
      (counter : ℕ)
      → (all_digits (hotp library key counter) ≡ true)
        × (negb (
              is_digits (hotp library key counter)
              && length (hotp library key counter) == totp_digits)
            ≡ false)
  unfolding hotp
  hotp-digits counter = (six_digits-digits _, six_digits_shape _)

  taken :
      (code : Text)
      → verify_totp library secret code now ≡ ok true
      → in_window library key (now / totp_step) (strip (without_marks code)) ≡ true
  unfolding verify_totp
  taken code h =
      elim (Bool-cases (
        negb (
          is_digits (strip (without_marks code))
          && length (strip (without_marks code)) == totp_digits))) [
            | inl odd ↦ absurd (ground (arith, h, odd))
            | inr shape ↦ ground (arith, rw (verify_totp, shape, decoded, full, late) at h)
          ]

  -- `verify` takes the code of every step that is not more than one step of thirty seconds away, and
  -- what it takes is such a code.
  pub verify_totp_lem :
      ((counter : ℕ)
        → counter ≤ now / totp_step + 1
        → now / totp_step ≤ counter + 1
        → verify_totp library secret (hotp library key counter) now ≡ ok true)
      × ((code : Text)
          → verify_totp library secret code now ≡ ok true
          → (counter : ℕ) × (strip (without_marks code) ≡ hotp library key counter)
            × (counter ≤ now / totp_step + 1)
            × (now / totp_step ≤ counter + 1))
  unfolding verify_totp
  verify_totp_lem = (
    λ counter h k.
        let (digits, shape) = hotp-digits counter in
        rw
          (
            verify_totp,
            clean-digits (hotp library key counter) digits,
            shape,
            decoded,
            full,
            late,
            clean-digits (hotp library key counter) digits,
            in_window-hotp counter (now / totp_step) k h,
          )
          refl,
    λ code h. in_window_inv (now / totp_step) (strip (without_marks code)) late (taken code h),
  )
