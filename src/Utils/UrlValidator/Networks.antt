-- ===== src/Utils/UrlValidator/Networks.antt =====
-- The networks of app/utils/url_validator.py, as ranges of addresses.
use fastapi_url_shortener.Base.{
  inr, inl, Option-cases, ap, ℕ, ◌+◌, ◌*◌, ◌^◌, ◌≤◌, ◌<◌, String, ◌≡◌, ◌⊎◌, true, false, Option,
  some, arith, ◌==◌, string_eq, contains,
}
use fastapi_url_shortener.Utils.UrlValidator.{
  ParsedUrl, IpAddress, ipv4, ipv6, UrlParsers, dotted, is_private, is_safe_url, is_safe_parsed,
  host_of, allowed_schemes, blocked_hosts,
}

-- RFC 1918, loopback and link-local.
abbrev pub IsPrivate4 : ℕ → Type 0
IsPrivate4 a =
    ((dotted 10 0 0 0 ≤ a) × (a ≤ dotted 10 255 255 255))
    ⊎ ((dotted 172 16 0 0 ≤ a) × (a ≤ dotted 172 31 255 255))
    ⊎ ((dotted 192 168 0 0 ≤ a) × (a ≤ dotted 192 168 255 255))
    ⊎ ((dotted 127 0 0 0 ≤ a) × (a ≤ dotted 127 255 255 255))
    ⊎ ((dotted 169 254 0 0 ≤ a) × (a ≤ dotted 169 254 255 255))

is_private-ipv4 : (a : ℕ) → is_private (some (ipv4 a)) ≡ true → IsPrivate4 a
unfolding is_private
is_private-ipv4 a h = ground arith

ipv4-is_private : (a : ℕ) → IsPrivate4 a → is_private (some (ipv4 a)) ≡ true
unfolding is_private
ipv4-is_private a h = ground arith

not-IsPrivate4 :
    (o : Option IpAddress) (a : ℕ) → is_private o ≡ false → o ≡ some (ipv4 a) → ¬ IsPrivate4 a
not-IsPrivate4 o a h e = λ private. cc (h, ap is_private e, ipv4-is_private a private)

mapped-public : (a : ℕ) → a < 2 ^ 32 → is_private (some (ipv6 (0xffff * 2 ^ 32 + a))) ≡ false
unfolding is_private
mapped-public a h = ground arith

module _ ⦃u : UrlParsers⦄ where
  -- The four tests.
  abbrev Passes : ParsedUrl → Type 0
  Passes p =
      (contains allowed_schemes p.scheme ≡ true)
      × ((host_of p == "") ≡ false)
      × (contains blocked_hosts (host_of p) ≡ false)
      × (is_private (u.ip_address (host_of p)) ≡ false)

  is_safe_parsed-Passes : (p : ParsedUrl) → is_safe_parsed p ≡ true → Passes p
  unfolding is_safe_parsed
  is_safe_parsed-Passes p h = ground arith

  Passes-is_safe_parsed : (p : ParsedUrl) → Passes p → is_safe_parsed p ≡ true
  unfolding is_safe_parsed
  Passes-is_safe_parsed p h = ground arith

module _ ⦃u : UrlParsers⦄ (url : String) where
  -- What `is_safe_url` promises of a URL that it accepts: it parses with the scheme http or https,
  -- to a host that is there, that is not on the list of blocked hosts, and that is no IPv4 address
  -- of a private, loopback or link-local range.
  pub is_safe_url_sound :
      is_safe_url url ≡ true
      → (p : ParsedUrl) × (u.urlparse url ≡ some p)
        × (contains allowed_schemes p.scheme ≡ true)
        × ((host_of p == "") ≡ false)
        × (contains blocked_hosts (host_of p) ≡ false)
        × ((a : ℕ) → u.ip_address (host_of p) ≡ some (ipv4 a) → ¬ IsPrivate4 a)
  unfolding is_safe_url
  is_safe_url_sound h = elim (Option-cases (u.urlparse url)) [
    | inl refused ↦ cc (rw (refused, is_safe_url) at h)
    | inr (p, parsed) ↦
        let passes = is_safe_parsed-Passes p (rw (parsed, is_safe_url) at h) in
        (
          p,
          parsed,
          passes.0,
          passes.1,
          passes.2,
          λ a address. not-IsPrivate4 (u.ip_address (host_of p)) a passes.3 address,
        )
  ]

  -- A host that is an IPv4-mapped IPv6 address is accepted whatever IPv4 address it stands for, a
  -- private one too.
  pub mapped_ipv4_accepted :
      (p : ParsedUrl) (a : ℕ)
      → u.urlparse url ≡ some p
      → contains allowed_schemes p.scheme ≡ true
      → (host_of p == "") ≡ false
      → contains blocked_hosts (host_of p) ≡ false
      → u.ip_address (host_of p) ≡ some (ipv6 (0xffff * 2 ^ 32 + a))
      → a < 2 ^ 32
      → is_safe_url url ≡ true
  unfolding is_safe_url
  mapped_ipv4_accepted p a parsed scheme host open_host address h =
      rw (parsed, is_safe_url)
        (Passes-is_safe_parsed p (scheme, host, open_host, rw address (mapped-public a h)))
