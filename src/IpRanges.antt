-- ===== src/IpRanges.antt =====
-- The IP allowlists of app/devices.py and app/auth.py. Reading an address or a network
-- (`ipaddress`, for IPv4 and IPv6) is a parameter.
use wdc_catalog_api.Base.{ℕ, Bool, false, Option, none, some, List, [], ◌∷◌, Text, ◌||◌}

-- `none` stands for the `ValueError` of a text that is no address or no network.
pub record IpLibrary : Type 0 where
  pub ip_address : Text → Option ℕ
  pub ip_network : Text → Option (ℕ → Bool)

module _ (ips : IpLibrary) where
  abbrev in_network : ℕ → Option (ℕ → Bool) → Bool
  in_network addr none = false
  in_network addr (some contains) = contains addr

  -- the loop over the allowlist: a bad entry is passed over, the first hit ends it
  unfoldable pub in_any_range : ℕ → List Text → Bool
  in_any_range addr [] = false
  in_any_range addr (cidr ∷ rest) = in_network addr (ips.ip_network cidr) || in_any_range addr rest

  abbrev in_ranges : List Text → Option ℕ → Bool
  in_ranges allowlist none = false
  in_ranges allowlist (some addr) = in_any_range addr allowlist

  -- Whether a host passes a nonempty allowlist: an empty host and one that is no address do not.
  unfoldable pub host_allowed : List Text → Text → Bool
  host_allowed allowlist [] = false
  host_allowed allowlist (c ∷ host) = in_ranges allowlist (ips.ip_address (c ∷ host))
