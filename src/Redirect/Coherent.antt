-- ===== src/Redirect/Coherent.antt =====
-- A write to the cache of app/cache/url_cache.py beside the links of the database.
use fastapi_url_shortener.Base.{
  ℕ, ◌<◌, String, ◌≡◌, true, some, arith, ◌==◌, string_eq, eq_iff, inl, inr, Bool-cases,
}
use fastapi_url_shortener.Core.World.{World}
use fastapi_url_shortener.Models.{ShortUrl}
use fastapi_url_shortener.Postgres.{Postgres}
use fastapi_url_shortener.Redis.{Redis}
use fastapi_url_shortener.Redis.Laws.{IsTextStore}
use fastapi_url_shortener.Formats.{Formats}
use fastapi_url_shortener.Repositories.ShortUrls.Lookup.{link_of}
use fastapi_url_shortener.Cache.UrlCache.{key}
use fastapi_url_shortener.Cache.UrlCache.Keys.{key-injective}
use fastapi_url_shortener.UrlService.{serialize}
use fastapi_url_shortener.Redirect.Resolve.{IsCoherent}

module _ ⦃pg : Postgres⦄ ⦃r : Redis⦄ ⦃f : Formats⦄ (texts : IsTextStore r) (w : World pg r)
    (coherent : IsCoherent f w) where
  -- SETEX of the payload of the active link `u` at its code, where every other link that was found
  -- by a code is still found.
  pub IsCoherent-setex :
      (db' : pg.Db) (code : String) (ttl : ℕ) (u : ShortUrl)
      → 0 < ttl
      → link_of code (pg.short_urls.rows db') ≡ some u
      → u.is_active ≡ true
      → ((c : String) (x : ShortUrl)
          → link_of c (pg.short_urls.rows w.db) ≡ some x
          → link_of c (pg.short_urls.rows db') ≡ some x)
      → IsCoherent {pg = pg} {r = r} f
          (record { db = db'; store = r.setex (key code) ttl (f.dumps (serialize f u)) w.store })
  IsCoherent-setex db' code ttl u lives found active kept = record {
    at = λ c raw hit. elim (Bool-cases (key code == key c)) [
      | inl same ↦
          let e : code ≡ c = key-injective code c ((eq_iff (key code) (key c)).0 same) in
          (
            u,
            rw (← e) found,
            ground
                (arith, texts.get-setex (key c) (key code) (f.dumps (serialize f u)) ttl w.store),
            active,
          )
      | inr other ↦
          let (x, link, payload, live) = coherent.at c raw (
            ground
              (arith, texts.get-setex (key c) (key code) (f.dumps (serialize f u)) ttl w.store)) in
          (x, kept c x link, payload, live)
    ];
  }
