-- ===== src/Cache/UrlCache.antt =====
-- app/cache/url_cache.py
pub mod Keys
use Prim.Native.String.{◌++◌}
use fastapi_url_shortener.Base.{
  ℕ, zero, suc, ◌*◌, String, Option, none, some, List, [], ◌∷◌, map, leb, if◌then◌else◌,
}
use mathlib.Core.List.{◌++◌ as append}
use fastapi_url_shortener.Core.Errors.{Error, value_error}
use fastapi_url_shortener.Core.Action.{Result, ok, err, Action, reads, modify}
use fastapi_url_shortener.Core.Settings.{Settings}
use fastapi_url_shortener.Formats.{Formats, JsonObject}
use fastapi_url_shortener.Redis.{Redis}

-- `_key` and `_hot_key`
unfoldable pub key : String → String
key short_code = "url:" ++ short_code

unfoldable pub hot_key : String → String
hot_key short_code = "hot:" ++ short_code

-- `ttl or settings.URL_CACHE_TTL`
abbrev pub ttl_or : Option ℕ → ℕ → ℕ
ttl_or none default = default
ttl_or (some zero) default = default
ttl_or (some (suc n)) default = suc n

-- `json.loads(raw)` of what GET returned
abbrev pub loaded : Formats → Option String → Result (Option JsonObject)
loaded f none = ok none
loaded f (some raw) = elim (f.loads raw) [ none ↦ err value_error | some d ↦ ok (some d) ]

module _ ⦃r : Redis⦄ ⦃f : Formats⦄ (settings : Settings) where
  -- `URLCache.get`
  unfoldable pub get : String → Action r.Store (Option JsonObject)
  get short_code = reads (λ s. loaded f (r.get (key short_code) s))

  -- `URLCache.set`
  unfoldable pub set : String → JsonObject → Option ℕ → Action r.Store Unit
  set short_code d ttl =
      modify (r.setex (key short_code) (ttl_or ttl settings.url_cache_ttl) (f.dumps d))

  -- `URLCache.delete`
  unfoldable pub delete : String → Action r.Store Unit
  delete short_code = modify (r.delete (key short_code ∷ hot_key short_code ∷ []))

  -- `URLCache.track_click`
  unfoldable pub track_click : String → Action r.Store ℕ
  track_click short_code s =
      let (count, s₁) = r.incr (hot_key short_code) s in
      let s₂ = r.expire (hot_key short_code) 3600 s₁ in
      (
        ok count,
        if leb settings.hot_url_click_threshold count
            then r.expire (key short_code) (settings.url_cache_ttl * 2) s₂
            else s₂,
      )

  -- `URLCache.invalidate_many`
  unfoldable pub invalidate_many : List String → Action r.Store Unit
  invalidate_many [] s = (ok tt, s)
  invalidate_many (c ∷ cs) s =
      (ok tt, r.delete (append (map key (c ∷ cs)) (map hot_key (c ∷ cs))) s)
