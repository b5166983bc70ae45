-- ===== src/AdminAccounts/Updates.antt =====
-- app/api_auth_ui.py, `_paired_account`: the account of an admin user after an update of it.
use wdc_catalog_api.Base.{
  ◌≡◌, refl, inl, inr, some, Text, ==_refl, find?, find?-update_where, update_where, Option-cases,
  arith,
}
use wdc_catalog_api.Schema.{Db, Account}
use wdc_catalog_api.Auth.{account_by_id}
use wdc_catalog_api.Login.{account_by_email}
use wdc_catalog_api.AdminAccounts.{is_paired, legacy_email, paired_account}

module _ (f : Account → Account) (kept : (x : Account) → (f x).email ≡ x.email) where
  -- An update that leaves the addresses alone leaves the account paired.
  pub paired_account-update_where :
      (username : Text) (a : Account) (db db' : Db)
      → paired_account username db ≡ some a
      → db'.accounts ≡ update_where (account_by_id a.id) f db.accounts
      → paired_account username db' ≡ some (f a)
  unfolding paired_account
  paired_account-update_where username a db db' paired updated =
      let real =
        find?-update_where (is_paired username) (account_by_id a.id) f (λ x. rw (kept x) refl)
          db.accounts in
      let legacy =
        find?-update_where (account_by_email (legacy_email username)) (account_by_id a.id) f
          (λ x. rw (kept x) refl) db.accounts in
      elim (Option-cases (find? (is_paired username) db.accounts)) [
        | inr (b, found) ↦
            let one : b ≡ a = ground (arith, paired, found) in
            rw (paired_account, updated, real, found, one, ==_refl a.id) refl
        | inl missing ↦
            let there = rw (paired_account, missing) at paired in
            rw (paired_account, updated, real, missing, updated, legacy, there, ==_refl a.id) refl
      ]
