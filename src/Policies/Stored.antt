-- ===== src/Policies/Stored.antt =====
-- app/retention_policies.py: the rows of a table of policies after one was stored.
use wdc_catalog_api.Base.{
  ℕ, ◌≡◌, refl, inl, inr, true, false, Option, none, some, List, [], ◌∷◌, Text, ◌==◌, text_eq_refl,
  ==_refl, find?, find?-append, UniqueKeys, find?-unique, find?-Elem, is_some-find?, find?_holds,
  Elem, ==→eq, find?-update_where, Bool-cases, Option-cases, arith, sym, ◌∙◌,
}
use wdc_catalog_api.Schema.{Db, SnapshotRetentionPolicy}
use wdc_catalog_api.Retention.{is_account_wide}
use wdc_catalog_api.Policies.{
  PolicyUpsert, in_scope, new_policy, rewritten, policy_row, policy_by_id, stored_policies,
}

-- rows with one id are one row
same_key :
    (a b : SnapshotRetentionPolicy) (xs : List SnapshotRetentionPolicy)
    → UniqueKeys (λ (p : SnapshotRetentionPolicy). p.id) xs
    → Elem a xs
    → Elem b xs
    → a.id ≡ b.id
    → a ≡ b
same_key a b xs unique m n e = elim (Option-cases (find? (policy_by_id b.id) xs)) [
  | inl missing ↦
      absurd (ground (arith, missing, is_some-find? (policy_by_id b.id) b xs n (==_refl b.id)))
  | inr (c, found) ↦
      find?-unique (λ (p : SnapshotRetentionPolicy). p.id) b.id c a xs unique found m e
      ∙ sym (find?-unique (λ (p : SnapshotRetentionPolicy). p.id) b.id c b xs unique found n refl)
]

-- no row is both without a device and for one
apart_scopes :
    (account_id k : ℕ) (scope : Text) (p row : SnapshotRetentionPolicy)
    → p ≡ row
    → is_account_wide k p ≡ true
    → in_scope account_id (some scope) row ≡ true
    → true ≡ false
apart_scopes account_id k scope p row one wide own = elim (Option-cases row.device_id) [
  | inl bare ↦ absurd (ground (arith, own, bare))
  | inr (d, there) ↦ absurd (ground (arith, rw one at wide, there))
]

-- a body for a device leaves the rows without a device alone
pub other_scope-stored_policies :
    (account_id k : ℕ) (scope : Text) (body : PolicyUpsert) (db : Db)
    (o : Option SnapshotRetentionPolicy)
    → UniqueKeys (λ (p : SnapshotRetentionPolicy). p.id) db.policies
    → find? (in_scope account_id (some scope)) db.policies ≡ o
    → find? (is_account_wide k) (stored_policies account_id (some scope) body db o)
      ≡ find? (is_account_wide k) db.policies
unfolding find?
other_scope-stored_policies account_id k scope body db none unique h =
    let not_wide : is_account_wide k (new_policy account_id (some scope) body db) ≡ false =
      ground arith in
    elim (Option-cases (find? (is_account_wide k) db.policies)) [
      | inl missing ↦
          rw
            (
              find?-append (is_account_wide k) db.policies
                  (new_policy account_id (some scope) body db ∷ []),
              missing,
            )
            (rw (find?, not_wide) refl)
      | inr (p, found) ↦
          rw
            (
              find?-append (is_account_wide k) db.policies
                  (new_policy account_id (some scope) body db ∷ []),
              found,
            )
            refl
    ]
other_scope-stored_policies account_id k scope body db (some row) unique h =
    elim (Option-cases (find? (is_account_wide k) db.policies)) [
      | inl missing ↦
          rw
            (
              find?-update_where (is_account_wide k) (policy_by_id row.id) (rewritten body)
                  (λ x. refl) db.policies,
              missing,
            )
            refl
      | inr (p, found) ↦ elim (Bool-cases (p.id == row.id)) [
        | inr other ↦
            rw
              (
                find?-update_where (is_account_wide k) (policy_by_id row.id) (rewritten body)
                    (λ x. refl) db.policies,
                found,
                other,
              )
              refl
        | inl same ↦
            let one =
              same_key p row db.policies unique (find?-Elem (is_account_wide k) db.policies p found)
                (find?-Elem (in_scope account_id (some scope)) db.policies row h)
                (==→eq p.id row.id same) in
            absurd (
              ground (
                arith,
                apart_scopes account_id k scope p row one
                    (find?_holds (is_account_wide k) db.policies p found)
                    (find?_holds (in_scope account_id (some scope)) db.policies row h),
              ))
      ]
    ]

-- What a body says of a policy is what the row says.
abbrev pub HoldsBody : PolicyUpsert → SnapshotRetentionPolicy → Type 0
HoldsBody body p =
    (p.keep_last_n_auto ≡ body.keep_last_n_auto)
    × (p.auto_expire_days ≡ body.auto_expire_days)
    × (p.keep_labeled_forever ≡ body.keep_labeled_forever)
    × (p.max_total_bytes ≡ body.max_total_bytes)

pub policy_row-HoldsBody :
    (account_id : ℕ) (scope : Option Text) (body : PolicyUpsert) (db : Db)
    (o : Option SnapshotRetentionPolicy)
    → HoldsBody body (policy_row account_id scope body db o)
policy_row-HoldsBody account_id scope body db none = (refl, refl, refl, refl)
policy_row-HoldsBody account_id scope body db (some row) = (refl, refl, refl, refl)

in_scope-rewritten :
    (account_id : ℕ) (scope : Option Text) (body : PolicyUpsert) (p : SnapshotRetentionPolicy)
    → in_scope account_id scope (rewritten body p) ≡ in_scope account_id scope p
in_scope-rewritten account_id none body p = refl
in_scope-rewritten account_id (some d) body p = refl

in_scope-new_policy :
    (account_id : ℕ) (scope : Option Text) (body : PolicyUpsert) (db : Db)
    → in_scope account_id scope (new_policy account_id scope body db) ≡ true
in_scope-new_policy account_id none body db = rw (==_refl account_id) refl
in_scope-new_policy account_id (some d) body db = rw (==_refl account_id, text_eq_refl d) refl

-- the row of the scope after a body was stored
pub policy_in-stored_policies :
    (account_id : ℕ) (scope : Option Text) (body : PolicyUpsert) (db : Db)
    (o : Option SnapshotRetentionPolicy)
    → find? (in_scope account_id scope) db.policies ≡ o
    → find? (in_scope account_id scope) (stored_policies account_id scope body db o)
      ≡ some (policy_row account_id scope body db o)
unfolding find?
policy_in-stored_policies account_id scope body db none h =
    let new = new_policy account_id scope body db in
    rw (find?-append (in_scope account_id scope) db.policies (new ∷ []), h)
      (rw (find?, in_scope-new_policy account_id scope body db) refl)
policy_in-stored_policies account_id scope body db (some row) h =
    rw
      (
        find?-update_where (in_scope account_id scope) (policy_by_id row.id) (rewritten body)
            (in_scope-rewritten account_id scope body) db.policies,
        h,
        ==_refl row.id,
      )
      refl
