-- ===== src/Batches/Equivalence.antt =====
-- app/retention.py: `_batched_delete` against one DELETE.
use wdc_catalog_api.Base.{
  ℕ, zero, suc, ◌+◌, ◌≤◌, ◌<◌, ◌≡◌, refl, ◌⊎◌, inl, inr, Bool, true, false, none, some, List, [],
  ◌∷◌, ltb, length, take, select, find?, delete_where, count_where, Elem, arith, Bool-cases,
  select-Elem, find?-none-Elem, length-delete_where, sym, ap, ◌∙◌, ◌≢◌, ltb→lt, subst,
}
use wdc_catalog_api.Batches.{KeyEq, one_of, keys_of, DistinctKeys, batched_delete, delete_batched}

take-Elem : {A : Type 0} (n : ℕ) (a : A) (xs : List A) → Elem a (take n xs) → Elem a xs
take-Elem zero a xs h = elim h [ ]
take-Elem (suc n) a [] h = elim h [ ]
take-Elem (suc n) a (x ∷ xs) h = elim h [
  | inl same ↦ inl same
  | inr later ↦ inr (take-Elem n a xs later)
]

take_short : {A : Type 0} (n : ℕ) (xs : List A) → length (take n xs) < n → take n xs ≡ xs
take_short zero xs h = absurd (omega (arith, h))
take_short (suc n) [] h = refl
take_short (suc n) (x ∷ xs) h = ap (λ r. x ∷ r) (take_short n xs (omega (arith, h)))

pub Elem-select :
    {A : Type 0} (p : A → Bool) (a : A) (xs : List A)
    → Elem a xs
    → p a ≡ true
    → Elem a (select p xs)
unfolding select
Elem-select p a [] m h = elim m [ ]
Elem-select p a (x ∷ xs) (inl same) h = rw (sym same, h) (inl refl)
Elem-select p a (x ∷ xs) (inr later) h = elim (Bool-cases (p x)) [
  | inl hit ↦ rw hit (inr (Elem-select p a xs later h))
  | inr miss ↦ rw miss (Elem-select p a xs later h)
]

count_where-Elem :
    {A : Type 0} (p : A → Bool) (a : A) (xs : List A)
    → Elem a xs
    → p a ≡ true
    → 1 ≤ count_where p xs
unfolding count_where
count_where-Elem p a [] m h = elim m [ ]
count_where-Elem p a (x ∷ xs) (inl same) h = ground (arith, same, h)
count_where-Elem p a (x ∷ xs) (inr later) h = omega (arith, count_where-Elem p a xs later h)

-- A first DELETE that hits nothing else leaves the second to finish the work.
module _ {A : Type 0} (q p : A → Bool) where
  delete_where-twice :
      (rows : List A)
      → ((r : A) → Elem r rows → q r ≡ true → p r ≡ true)
      → (delete_where p (delete_where q rows) ≡ delete_where p rows)
        × (count_where q rows + count_where p (delete_where q rows) ≡ count_where p rows)
  unfolding delete_where count_where
  delete_where-twice [] h = (refl, refl)
  delete_where-twice (x ∷ xs) h =
      let (same, total) = delete_where-twice xs (λ r m. h r (inr m)) in
      (ground (arith, same, h x (inl refl)), ground (arith, total, h x (inl refl)))

  delete_where_cong :
      (rows : List A)
      → ((r : A) → Elem r rows → q r ≡ p r)
      → (delete_where q rows ≡ delete_where p rows) × (count_where q rows ≡ count_where p rows)
  unfolding delete_where count_where
  delete_where_cong [] h = (refl, refl)
  delete_where_cong (x ∷ xs) h =
      let (same, total) = delete_where_cong xs (λ r m. h r (inr m)) in
      (ground (arith, same, h x (inl refl)), ground (arith, total, h x (inl refl)))

delete_where-false :
    {A : Type 0} (rows : List A)
    → (delete_where (λ r. false) rows ≡ rows) × (count_where (λ r. false) rows ≡ 0)
unfolding delete_where count_where
delete_where-false [] = (refl, refl)
delete_where-false (x ∷ xs) =
    let (same, total) = delete_where-false xs in (ap (λ r. x ∷ r) same, omega (arith, total))

List-cases : {A : Type 0} (xs : List A) → (xs ≡ []) ⊎ ((x : A) × (rest : List A) × (xs ≡ x ∷ rest))
List-cases [] = inl refl
List-cases (x ∷ xs) = inr (x, xs, refl)

module _ {A K : Type 0} (keys : KeyEq K) (key : A → K) where
  pub one_of_inv :
      (page : List A) (k : K)
      → one_of keys key (keys_of keys key page) k ≡ true
      → (s : A) × Elem s page × (key s ≡ k)
  unfolding one_of keys_of
  one_of_inv [] k h = cc
  one_of_inv (x ∷ page) k h = elim (Bool-cases (keys.same (key x) k)) [
    | inl hit ↦ (x, inl refl, keys.same→eq _ _ hit)
    | inr miss ↦ let (s, m, e) = one_of_inv page k (ground arith) in (s, inr m, e)
  ]

  pub one_of-Elem :
      (page : List A) (s : A) → Elem s page → one_of keys key (keys_of keys key page) (key s) ≡ true
  unfolding one_of keys_of
  one_of-Elem [] s m = elim m [ ]
  one_of-Elem (x ∷ page) s m = elim m [
    | inl same ↦ rw (same, keys.same_refl (key x)) refl
    | inr later ↦ ground (arith, one_of-Elem page s later)
  ]

  apart :
      (x b : A) (xs : List A)
      → find? (λ other. keys.same (key other) (key x)) xs ≡ none
      → Elem b xs
      → key b ≢ key x
  apart x b xs new m e =
      let no = find?-none-Elem (λ other. keys.same (key other) (key x)) b xs new m in
      let yes : keys.same (key b) (key x) ≡ true = rw e (keys.same_refl (key x)) in
      ground (arith, no, yes)

  pub DistinctKeys-Elem :
      (rows : List A) (a b : A)
      → DistinctKeys keys key rows
      → Elem a rows
      → Elem b rows
      → key a ≡ key b
      → a ≡ b
  DistinctKeys-Elem [] a b u m n e = elim m [ ]
  DistinctKeys-Elem (x ∷ xs) a b (new, u) (inl s) (inl t) e = s ∙ sym t
  DistinctKeys-Elem (x ∷ xs) a b (new, u) (inl s) (inr t) e =
      absurd (apart x b xs new t (sym e ∙ ap key s))
  DistinctKeys-Elem (x ∷ xs) a b (new, u) (inr s) (inl t) e =
      absurd (apart x a xs new s (e ∙ ap key t))
  DistinctKeys-Elem (x ∷ xs) a b (new, u) (inr s) (inr t) e = DistinctKeys-Elem xs a b u s t e

  pub length-keys_of : (page : List A) → length (keys_of keys key page) ≡ length page
  unfolding keys_of
  length-keys_of [] = refl
  length-keys_of (x ∷ page) = omega (arith, length-keys_of page)

  pub find?-none-delete_where :
      (f q : A → Bool) (xs : List A) → find? f xs ≡ none → find? f (delete_where q xs) ≡ none
  unfolding find? delete_where
  find?-none-delete_where f q [] h = refl
  find?-none-delete_where f q (x ∷ xs) h = ground (arith, find?-none-delete_where f q xs)

  DistinctKeys-delete_where :
      (q : A → Bool) (rows : List A)
      → DistinctKeys keys key rows
      → DistinctKeys keys key (delete_where q rows)
  unfolding delete_where
  DistinctKeys-delete_where q [] u = tt
  DistinctKeys-delete_where q (x ∷ xs) (new, u) = elim (Bool-cases (q x)) [
    | inl hit ↦ rw hit (DistinctKeys-delete_where q xs u)
    | inr miss ↦ rw miss (find?-none-delete_where _ q xs new, DistinctKeys-delete_where q xs u)
  ]

  module _ (batch : ℕ) (filter : A → Bool) (rows : List A)
      (distinct : DistinctKeys keys key rows) where
    abbrev page : List A
    page = take batch (select filter rows)

    abbrev in_page : A → Bool
    in_page row = one_of keys key (keys_of keys key page) (key row)

    in_page-filter : (r : A) → Elem r rows → in_page r ≡ true → filter r ≡ true
    in_page-filter r m h =
        let (s, there, same) = one_of_inv page (key r) h in
        let (row, kept) = select-Elem filter s rows (take-Elem batch s _ there) in
        let one : s ≡ r = DistinctKeys-Elem rows s r distinct row m same in
        sym (ap filter one) ∙ kept

    -- a page that is not full has every row that the filter hits
    last_page : length page < batch → (r : A) → Elem r rows → in_page r ≡ filter r
    last_page short r m = elim (Bool-cases (filter r)) [
      | inl hit ↦
          let m' = Elem-select filter r rows m hit in
          let there : Elem r page = rw (take_short batch (select filter rows) short) m' in
          one_of-Elem page r there ∙ sym hit
      | inr miss ↦ ground (arith, miss, in_page-filter r m)
    ]

    page_progress : {s : A} {others : List A} → page ≡ s ∷ others → 1 ≤ count_where in_page rows
    page_progress {s} {others} e =
        let m : Elem s page = rw e (inl refl) in
        count_where-Elem in_page s rows (select-Elem filter s rows (take-Elem batch s _ m)).0
          (one_of-Elem page s m)

    page_empty :
        1 ≤ batch → page ≡ [] → (count_where filter rows ≡ 0) × (delete_where filter rows ≡ rows)
    unfolding one_of keys_of
    page_empty some_rows e =
        let none_left : (r : A) → Elem r rows → false ≡ filter r = λ r m.
          subst (λ pg. one_of keys key (keys_of keys key pg) (key r) ≡ filter r) e
            (last_page (rw e (omega (arith, some_rows))) r m) in
        let (same, total) = delete_where_cong (λ r. false) filter rows none_left in
        let (all, zero_rows) = delete_where-false rows in (sym total ∙ zero_rows, sym same ∙ all)

  batched_delete_lem :
      (fuel batch : ℕ) (filter : A → Bool) (rows : List A)
      → 1 ≤ batch
      → DistinctKeys keys key rows
      → length rows < fuel
      → batched_delete keys key fuel batch filter rows
        ≡ some (count_where filter rows, delete_where filter rows)
  unfolding batched_delete keys_of
  batched_delete_lem zero batch filter rows some_rows distinct enough =
      absurd (omega (arith, enough))
  batched_delete_lem (suc fuel) batch filter rows some_rows distinct enough =
      elim (List-cases (page batch filter rows distinct)) [
        | inl empty ↦
            let (none_hit, all) = page_empty batch filter rows distinct some_rows empty in
            rw empty (rw (none_hit, all) refl)
        | inr (s, others, full) ↦
            let progress = page_progress batch filter rows distinct full in
            let smaller = length-delete_where (in_page batch filter rows distinct) rows in
            let (same, total) =
              delete_where-twice (in_page batch filter rows distinct) filter rows
                (in_page-filter batch filter rows distinct) in
            let rest =
              batched_delete_lem fuel batch filter
                (delete_where (in_page batch filter rows distinct) rows) some_rows
                (DistinctKeys-delete_where _ rows distinct)
                (omega (arith, progress, smaller, enough)) in
            let size = length-keys_of (page batch filter rows distinct) in
            elim (Bool-cases (ltb (length (page batch filter rows distinct)) batch)) [
              | inl short ↦
                  let (all, count) =
                    delete_where_cong (in_page batch filter rows distinct) filter rows
                      (last_page batch filter rows distinct (ltb→lt _ _ short)) in
                  ground (arith, full, size, all, count, short)
              | inr long ↦ ground (arith, full, size, rest, same, total, long)
            ]
      ]

  -- With pages of at least one row, the loop of `_batched_delete` ends, and it deletes and counts
  -- exactly the rows that one DELETE with the same filter would, in a table whose primary keys are
  -- distinct.
  pub delete_batched_lem :
      (batch : ℕ) (filter : A → Bool) (rows : List A)
      → 1 ≤ batch
      → DistinctKeys keys key rows
      → delete_batched keys key batch filter rows
        ≡ some (count_where filter rows, delete_where filter rows)
  unfolding delete_batched
  delete_batched_lem batch filter rows some_rows distinct =
      batched_delete_lem (suc (length rows)) batch filter rows some_rows distinct (omega arith)
