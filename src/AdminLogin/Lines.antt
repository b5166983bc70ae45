-- ===== src/AdminLogin/Lines.antt =====
-- app/api_auth_ui.py: the stored hashes of recovery codes as lines of a text.
use mathlib.Core.List.{reverse, reverse_aux}
use wdc_catalog_api.Base.{
  ℕ, ◌≡◌, refl, inl, inr, Bool, true, false, List, [], ◌∷◌, ◌++◌, Text, is_empty, ◌==◌, negb, ◌&&◌,
  strip, strip_left, strip-strip, delete_where, All, All-delete_where, Bool-cases, arith, ap, ◌∙◌,
}
use wdc_catalog_api.AdminLogin.{split_lines, stripped_lines, join_lines}

-- No character of the text is a newline.
unfoldable pub is_one_line : Text → Bool
is_one_line [] = true
is_one_line (c ∷ s) = negb (c == 10) && is_one_line s

one_line-strip_left : (s : Text) → is_one_line s ≡ true → is_one_line (strip_left s) ≡ true
unfolding is_one_line strip_left
one_line-strip_left [] h = refl
one_line-strip_left (c ∷ s) h = ground (arith, h, one_line-strip_left s)

one_line-reverse_aux :
    (s t : Text)
    → is_one_line s ≡ true
    → is_one_line t ≡ true
    → is_one_line (reverse_aux s t) ≡ true
unfolding is_one_line
one_line-reverse_aux [] t h k = k
one_line-reverse_aux (c ∷ s) t h k =
    one_line-reverse_aux s (c ∷ t) (ground (arith, h)) (ground (arith, h, k))

one_line-strip : (s : Text) → is_one_line s ≡ true → is_one_line (strip s) ≡ true
unfolding strip is_one_line
one_line-strip s h =
    one_line-reverse_aux (strip_left (reverse (strip_left s))) []
      (one_line-strip_left (reverse (strip_left s))
        (one_line-reverse_aux (strip_left s) [] (one_line-strip_left s h) refl))
      refl

-- A line as the code keeps it.
abbrev pub IsLine : Text → Type 0
IsLine l = (is_one_line l ≡ true) × (strip l ≡ l) × (is_empty l ≡ false)

split_lines_one : (s : Text) → All (λ l. is_one_line l ≡ true) (split_lines s)
unfolding split_lines is_one_line
split_lines_one [] = tt
split_lines_one (c ∷ s) = elim (Bool-cases (c == 10)) [
  | inl newline ↦ rw newline (refl, split_lines_one s)
  | inr other ↦ rw other (grow c other (split_lines s) (split_lines_one s))
]
  where
    grow :
        (d : ℕ)
        → d == 10 ≡ false
        → (ls : List Text) → All (λ l. is_one_line l ≡ true) ls
        → All
            (λ l. is_one_line l ≡ true)
            (elim ls [ [] ↦ (d ∷ []) ∷ [] | l ∷ rest ↦ (d ∷ l) ∷ rest ])
    grow d other [] h = (rw other refl, tt)
    grow d other (l ∷ rest) (h, hs) = (rw other h, hs)

stripped_lines_lem :
    (ls : List Text) → All (λ l. is_one_line l ≡ true) ls → All IsLine (stripped_lines ls)
unfolding stripped_lines
stripped_lines_lem [] h = tt
stripped_lines_lem (l ∷ ls) (h, hs) = elim (Bool-cases (is_empty (strip l))) [
  | inl bare ↦ rw bare (stripped_lines_lem ls hs)
  | inr full ↦ rw full ((one_line-strip l h, strip-strip l, full), stripped_lines_lem ls hs)
]

split_lines-newline :
    (l s : Text) → is_one_line l ≡ true → split_lines (l ++ (10 ∷ s)) ≡ l ∷ split_lines s
unfolding split_lines is_one_line
split_lines-newline [] s h = refl
split_lines-newline (c ∷ l) s h = ground (arith, h, split_lines-newline l s)

split_lines-last : (l : Text) → is_one_line l ≡ true → is_empty l ≡ false → split_lines l ≡ l ∷ []
unfolding split_lines is_one_line
split_lines-last [] h k = cc
split_lines-last (c ∷ []) h k = ground (arith, h)
split_lines-last (c ∷ d ∷ l) h k = ground (arith, h, split_lines-last (d ∷ l))

split_lines-join_lines : (ls : List Text) → All IsLine ls → split_lines (join_lines ls) ≡ ls
unfolding join_lines
split_lines-join_lines [] h = unfold split_lines in refl
split_lines-join_lines (l ∷ []) ((one, same, full), hs) = split_lines-last l one full
split_lines-join_lines (l ∷ m ∷ ls) ((one, same, full), hs) =
    split_lines-newline l (join_lines (m ∷ ls)) one
    ∙ ap (λ r. l ∷ r) (split_lines-join_lines (m ∷ ls) hs)

stripped_lines-lines : (ls : List Text) → All IsLine ls → stripped_lines ls ≡ ls
unfolding stripped_lines
stripped_lines-lines [] h = refl
stripped_lines-lines (l ∷ ls) ((one, same, full), hs) =
    rw (same, full) (ap (λ r. l ∷ r) (stripped_lines-lines ls hs))

pub stripped_lines-join_lines-IsLine :
    (ls : List Text) → All IsLine ls → stripped_lines (split_lines (join_lines ls)) ≡ ls
stripped_lines-join_lines-IsLine ls h =
    ap stripped_lines (split_lines-join_lines ls h) ∙ stripped_lines-lines ls h

-- What is joined again after some lines went is read as the lines that stayed.
pub stripped_lines-join_lines :
    (p : Text → Bool) (text : Text)
    → stripped_lines (split_lines (join_lines (delete_where p (stripped_lines (split_lines text)))))
      ≡ delete_where p (stripped_lines (split_lines text))
stripped_lines-join_lines p text =
    let lines = stripped_lines_lem (split_lines text) (split_lines_one text) in
    let left = All-delete_where IsLine p (stripped_lines (split_lines text)) lines in
    stripped_lines-join_lines-IsLine _ left
