-- ===== src/Passwords.antt =====
-- app/auth.py: password hashing. bcrypt itself is a parameter.
use wdc_catalog_api.Base.{Bool, true, false, Option, none, some, Text, ◌≡◌}

-- What the code relies on of bcrypt: a hash made with any salt checks against its password. A check
-- that raises (on a malformed hash) is `none`.
pub record Bcrypt : Type 0 where
  pub hashpw : Text → Text → Text
  pub checkpw : Text → Text → Option Bool
  pub checkpw-hashpw : (salt plain : Text) → checkpw plain (hashpw salt plain) ≡ some true

-- `try: return bcrypt.checkpw(…) except Exception: return False`
abbrev pub check_or_false : Option Bool → Bool
check_or_false none = false
check_or_false (some b) = b

module _ (bcrypt : Bcrypt) where
  -- `hash_password`, with the salt that `gensalt` draws
  unfoldable pub hash_password : Text → Text → Text
  hash_password salt plain = bcrypt.hashpw salt plain

  unfoldable pub verify_password : Text → Text → Bool
  verify_password plain hashed = check_or_false (bcrypt.checkpw plain hashed)

  -- A password verifies against its own hash.
  pub verify-hash_password :
      (salt plain : Text) → verify_password plain (hash_password salt plain) ≡ true
  unfolding verify_password hash_password
  verify-hash_password salt plain = rw (bcrypt.checkpw-hashpw)
