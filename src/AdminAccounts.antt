-- ===== src/AdminAccounts.antt =====
-- The account behind a user of the admin pages: `_paired_account` of app/api_auth_ui.py and
-- `_admin_account` of app/admin_ui.py. LIKE compares as PostgreSQL does, case included.
pub mod Updates
use wdc_catalog_api.Base.{
  Bool, true, false, Option, none, some, [], ◌∷◌, ◌++◌, Text, codes, text_eq, if◌then◌else◌, ◌==◌,
  negb, ◌&&◌, ◌||◌, find?,
}
use wdc_catalog_api.Schema.{Db, Account}
use wdc_catalog_api.Session.{Exec, ok}
use wdc_catalog_api.Passwords.{Bcrypt, hash_password}
use wdc_catalog_api.Login.{account_by_email, new_account}

-- Whether a test holds of the text or of what is left of it after some characters.
unfoldable pub any_suffix : (Text → Bool) → Text → Bool
any_suffix f [] = f []
any_suffix f (c ∷ s) = f (c ∷ s) || any_suffix f s

-- `s LIKE p`: `%` stands for any text, `_` for any character
unfoldable pub like : Text → Text → Bool
like [] [] = true
like [] (d ∷ s) = false
like (c ∷ p) s =
    if c == 37
    then any_suffix (like p) s
    else elim s [ [] ↦ false | d ∷ rest ↦ (c == 95 || c == d) && like p rest ]

abbrev pub legacy_email : Text → Text
legacy_email username = username ++ codes "@admin.local"

abbrev pub is_paired : Text → Account → Bool
is_paired username a =
    like (username ++ codes "@%") a.email && negb (text_eq a.email (legacy_email username))

-- `_paired_account`
unfoldable pub paired_account : Text → Db → Option Account
paired_account username db = elim (find? (is_paired username) db.accounts) [
  | some a ↦ some a
  | none ↦ find? (account_by_email (legacy_email username)) db.accounts
]

-- `_admin_account`: the paired account, or a new one of an owner
unfoldable pub admin_account : Bcrypt → Text → Text → Exec Account
admin_account bcrypt salt username w = elim (paired_account username w.working) [
  | some a ↦ (ok a, w)
  | none ↦
      let db = w.working in
      let account =
        new_account (legacy_email username)
          (hash_password bcrypt salt (codes "unused-session-only")) (codes "owner") db in
      (ok account, record w { working = record db { accounts = db.accounts ++ account ∷ [] } })
]
