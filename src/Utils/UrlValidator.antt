-- ===== src/Utils/UrlValidator.antt =====
-- app/utils/url_validator.py. `urlparse` and `ipaddress.ip_address` are parameters; membership in a
-- network is written out.
pub mod Networks
use fastapi_url_shortener.Base.{
  ℕ, ◌+◌, ◌-◌, ◌*◌, ◌/◌, ◌^◌, String, Bool, true, false, not, ◌&&◌, ◌||◌, Option, none, some, List,
  [], ◌∷◌, ◌==◌, nat_eq, string_eq, if◌then◌else◌, any, contains,
}

-- What the program reads of `urlparse(url)`.
pub record ParsedUrl : Type 0 where
  pub scheme : String
  pub hostname : Option String

pub data IpAddress : Type 0 where
  ipv4 ipv6 : ℕ → IpAddress

-- `ip_network`: the address of the network, and the length of its prefix.
pub data IpNetwork : Type 0 where
  network4 network6 : ℕ → ℕ → IpNetwork

pub record UrlParsers : Type 0 where
  -- none where `urlparse` raises
  pub urlparse : String → Option ParsedUrl
  -- none where `ip_address` raises ValueError
  pub ip_address : String → Option IpAddress

abbrev pub blocked_hosts : List String
blocked_hosts =
    "localhost" ∷ "127.0.0.1" ∷ "0.0.0.0" ∷ "::1" ∷ "169.254.169.254" ∷ "metadata.google.internal"
    ∷ []

-- The number of the address a.b.c.d.
abbrev pub dotted : ℕ → ℕ → ℕ → ℕ → ℕ
dotted a b c d = ((a * 256 + b) * 256 + c) * 256 + d

abbrev pub private_networks : List IpNetwork
private_networks =
    network4 (dotted 10 0 0 0) 8
    ∷ network4 (dotted 172 16 0 0) 12
    ∷ network4 (dotted 192 168 0 0) 16
    ∷ network4 (dotted 127 0 0 0) 8
    ∷ network4 (dotted 169 254 0 0) 16
    ∷ network6 1 128
    ∷ network6 (0xfc00 * 2 ^ 112) 7
    ∷ []

abbrev pub allowed_schemes : List String
allowed_schemes = "http" ∷ "https" ∷ []

-- `addr in net`: the first `prefix` bits agree; never, for two versions of IP.
unfoldable pub in_network : IpAddress → IpNetwork → Bool
in_network (ipv4 a) (network4 n prefix) = a / 2 ^ (32 - prefix) == n / 2 ^ (32 - prefix)
in_network (ipv6 a) (network6 n prefix) = a / 2 ^ (128 - prefix) == n / 2 ^ (128 - prefix)
in_network _ _ = false

unfoldable pub is_private : Option IpAddress → Bool
unfolding in_network
is_private none = false
is_private (some a) = any (in_network a) private_networks

-- `parsed.hostname or ""`
abbrev pub host_of : ParsedUrl → String
host_of p = elim p.hostname [ none ↦ "" | some h ↦ h ]

module _ ⦃u : UrlParsers⦄ where
  unfoldable pub is_safe_parsed : ParsedUrl → Bool
  unfolding is_private
  is_safe_parsed parsed =
      if not (contains allowed_schemes parsed.scheme)
      then false
      else if host_of parsed == ""
      then false
      else if contains blocked_hosts (host_of parsed)
      then false
      else not (is_private (u.ip_address (host_of parsed)))

  unfoldable pub is_safe_url : String → Bool
  is_safe_url url = elim (u.urlparse url) [ none ↦ false | some parsed ↦ is_safe_parsed parsed ]
