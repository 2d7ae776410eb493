-- ===== src/Cache/Prefixes.antt =====
-- The first letters of the keys of app/cache.
use Prim.Native.Char.{Char, code}
use Prim.Native.String.{◌++◌}
use text.Mathlib.TextLemmas.{cons-append}
use fastapi_url_shortener.Base.{ℕ, String, ◌≡◌, ap}
use fastapi_url_shortener.Cache.UrlCache.{key}

abbrev pub initial : String → ℕ
initial String.[] = 0
initial (String.◌∷◌ c s) = code c

pub initial-append : (c : Char) (s t : String) → initial (String.◌∷◌ c s ++ t) ≡ code c
initial-append c s t = ap initial (cons-append c s t)

-- The key of a cached link begins with this letter.
pub initial-key : (c : String) → initial (key c) ≡ code "u"
unfolding key
initial-key c = initial-append "u" "rl:" c
