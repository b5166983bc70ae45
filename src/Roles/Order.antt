-- ===== src/Roles/Order.antt =====
-- app/roles.py: the order of the roles and their strings.
use wdc_catalog_api.Base.{◌≡◌, refl, true, some, Text, text_eq, text_eq→eq, arith}
use wdc_catalog_api.Roles.{
  Role, readonly, user, support, operator, admin, owner, rank, implies, value, parse_role,
}

pub implies_refl : (r : Role) → implies r r ≡ true
unfolding implies
implies_refl r = ground arith

pub implies_trans : (a b c : Role) → implies a b ≡ true → implies b c ≡ true → implies a c ≡ true
unfolding implies
implies_trans a b c h k = ground arith

rank_injective : (a b : Role) → rank a ≡ rank b → a ≡ b
unfolding rank
rank_injective readonly b h = ground arith
rank_injective user b h = ground arith
rank_injective support b h = ground arith
rank_injective operator b h = ground arith
rank_injective admin b h = ground arith
rank_injective owner b h = ground arith

pub implies_antisym : (a b : Role) → implies a b ≡ true → implies b a ≡ true → a ≡ b
unfolding implies
implies_antisym a b h k = rank_injective a b (unfold rank in ground arith)

-- The string that stands for a role reads back as that role.
pub parse_role-value : (r : Role) → parse_role (value r) ≡ some r
unfolding parse_role text_eq
parse_role-value readonly = refl
parse_role-value user = refl
parse_role-value support = refl
parse_role-value operator = refl
parse_role-value admin = refl
parse_role-value owner = refl

-- A string that reads as a role is the string of that role.
pub parse_role_inv : (t : Text) (r : Role) → parse_role t ≡ some r → t ≡ value r
unfolding parse_role
parse_role_inv t r h = ground (
  arith,
  text_eq→eq t (value readonly),
  text_eq→eq t (value user),
  text_eq→eq t (value support),
  text_eq→eq t (value operator),
  text_eq→eq t (value admin),
  text_eq→eq t (value owner),
)
