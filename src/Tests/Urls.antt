-- ===== src/Tests/Urls.antt =====
-- The validator of URLs and the generator of codes at concrete inputs.
use Prim.Native.String.{count}
use fastapi_url_shortener.Base.{
  ℕ, String, ◌≡◌, ◌≢◌, refl, arith, none, some, true, false, ◌==◌, string_eq, contains,
}
use fastapi_url_shortener.Utils.UrlValidator.{
  ParsedUrl, ipv4, allowed_schemes, blocked_hosts, host_of, is_safe_url, is_safe_parsed,
}
use fastapi_url_shortener.Utils.UrlValidator.Networks.{
  IsPrivate4, is_safe_url_sound, mapped_ipv4_accepted,
}
use fastapi_url_shortener.Utils.ShortCode.{
  AllChars, is_alphanumeric, generate_short_code, generate_short_code_lem,
}
use fastapi_url_shortener.Cache.UrlCache.{key, hot_key}
use fastapi_url_shortener.Cache.UrlCache.Keys.{key-ne-hot_key}
use fastapi_url_shortener.Tests.Data.{two_urls}

abbrev plain_url : String
plain_url = "https://example.com/a"

plain_url-safe : is_safe_url plain_url ≡ true
unfolding is_safe_url is_safe_parsed
plain_url-safe = refl

is_safe_url_sound_example :
    (p : ParsedUrl) × (two_urls.urlparse plain_url ≡ some p)
    × (contains allowed_schemes p.scheme ≡ true)
    × ((host_of p == "") ≡ false)
    × (contains blocked_hosts (host_of p) ≡ false)
    × ((a : ℕ) → two_urls.ip_address (host_of p) ≡ some (ipv4 a) → ¬ IsPrivate4 a)
is_safe_url_sound_example = is_safe_url_sound plain_url plain_url-safe

-- The host stands for 10.0.0.1.
abbrev mapped_host : ParsedUrl
mapped_host = record { scheme = "http"; hostname = some "::ffff:10.0.0.1" }

mapped_ipv4_accepted_example : is_safe_url "http://[::ffff:10.0.0.1]/" ≡ true
mapped_ipv4_accepted_example =
    mapped_ipv4_accepted "http://[::ffff:10.0.0.1]/" mapped_host 0x0a000001 refl refl refl refl refl
      (omega arith)

abbrev draws : ℕ → ℕ
draws i = 61

generate_short_code_lem_example :
    (count (generate_short_code none 7 draws) ≡ 7)
    × AllChars is_alphanumeric (generate_short_code none 7 draws)
generate_short_code_lem_example = generate_short_code_lem none 7 draws (λ k. omega arith)

key-ne-hot_key_example : key "abc" ≢ hot_key "abc"
key-ne-hot_key_example = key-ne-hot_key "abc" "abc"
