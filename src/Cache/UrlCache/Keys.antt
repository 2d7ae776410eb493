-- ===== src/Cache/UrlCache/Keys.antt =====
-- The keys of app/cache/url_cache.py.
use text.Mathlib.TextLemmas.{append_cancel_left, append_inj}
use fastapi_url_shortener.Base.{String, ◌≡◌, ◌≢◌, arith, eq_iff, refl}
use fastapi_url_shortener.Cache.UrlCache.{key, hot_key}

pub key-injective : (c d : String) → key c ≡ key d → c ≡ d
unfolding key
key-injective c d h = append_cancel_left "url:" c d h

abbrev url_prefix : String
url_prefix = "url:"

abbrev hot_prefix : String
hot_prefix = "hot:"

prefixes_differ : url_prefix ≢ hot_prefix
prefixes_differ = ground (arith, eq_iff url_prefix hot_prefix)

-- No counter's key is the key of a cached link.
pub key-ne-hot_key : (c d : String) → key c ≢ hot_key d
unfolding key hot_key
key-ne-hot_key c d h =
    prefixes_differ (append_inj {s₁ = url_prefix} {s₂ = hot_prefix} {t₁ = c} {t₂ = d} h refl).0
