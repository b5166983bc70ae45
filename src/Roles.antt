-- ===== src/Roles.antt =====
-- app/roles.py: the six roles, their ranks, and the strings that stand for them in the database.
pub mod Order
use wdc_catalog_api.Base.{
  ℕ, ◌≤◌, ◌≡◌, refl, Bool, true, false, Option, none, some, Text, codes, text_eq, text_eq→eq,
  text_eq_refl, leb, if◌then◌else◌, arith,
}

pub data Role : Type 0 where
  readonly user support operator admin owner : Role

-- `_ROLE_RANK`
unfoldable pub rank : Role → ℕ
rank readonly = 0
rank user = 10
rank support = 20
rank operator = 30
rank admin = 40
rank owner = 50

-- `Role.implies`
unfoldable pub implies : Role → Role → Bool
unfolding rank
implies r other = leb (rank other) (rank r)

-- `Role.value`
unfoldable pub value : Role → Text
value readonly = codes "readonly"
value user = codes "user"
value support = codes "support"
value operator = codes "operator"
value admin = codes "admin"
value owner = codes "owner"

-- `Role(text)`; `none` is its `ValueError`.
unfoldable pub parse_role : Text → Option Role
unfolding value
parse_role t =
    if text_eq t (value readonly)
    then some readonly
    else if text_eq t (value user)
    then some user
    else if text_eq t (value support)
    then some support
    else if text_eq t (value operator)
    then some operator
    else if text_eq t (value admin)
    then some admin
    else if text_eq t (value owner)
    then some owner
    else none
