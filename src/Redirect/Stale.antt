-- ===== src/Redirect/Stale.antt =====
-- The background task of app/services/redirect.py that warms the cache.
use fastapi_url_shortener.Base.{ℕ, ◌*◌, ◌<◌, String, ◌≡◌, true, some, string_eq}
use fastapi_url_shortener.Core.Settings.{Settings}
use fastapi_url_shortener.Core.World.{World}
use fastapi_url_shortener.Models.{DateTime, second, ShortUrl}
use fastapi_url_shortener.Postgres.{Postgres}
use fastapi_url_shortener.Redis.{Redis}
use fastapi_url_shortener.Redis.Laws.{IsTextStore}
use fastapi_url_shortener.Redis.Deadlines.{setex-wait}
use fastapi_url_shortener.Formats.{Formats, IsFormats}
use fastapi_url_shortener.Repositories.ShortUrls.{unexpired}
use fastapi_url_shortener.Cache.UrlCache
use fastapi_url_shortener.Cache.UrlCache.{key}
use fastapi_url_shortener.UrlService.{serialize}
use fastapi_url_shortener.Utils.UserAgent.{UserAgents}
use fastapi_url_shortener.Redirect.{Visitor, set_cache, run_task, resolve}
use fastapi_url_shortener.Redirect.Resolve.{answer, resolve-hit, resolve_cached-serialize}

module _ ⦃pg : Postgres⦄ ⦃r : Redis⦄ ⦃f : Formats⦄ ⦃a : UserAgents⦄ (formats : IsFormats f)
    (texts : IsTextStore r) (settings : Settings) where
  -- The task of an earlier request writes the link `u` as it was then, and time passes; meanwhile
  -- the database has changed to `db`.
  abbrev pub warmed : DateTime → String → ShortUrl → ℕ → pg.Db → r.Store → World pg r
  warmed now code u d db s = record {
    db = db;
    store = r.wait d (run_task settings now (set_cache code (serialize f u)) s).1;
  }

  warmed-hit :
      (now : DateTime) (code : String) (u : ShortUrl) (d : ℕ) (db : pg.Db) (s : r.Store)
      → 0 < settings.url_cache_ttl
      → d < settings.url_cache_ttl * second
      → r.get (key code) (warmed now code u d db s).store ≡ some (f.dumps (serialize f u))
  unfolding run_task UrlCache.set
  warmed-hit now code u d db s lives within =
      setex-wait texts (key code) (f.dumps (serialize f u)) settings.url_cache_ttl d s lives within

  -- Once the task of an earlier request has written the link `u` as it was then, `resolve` answers
  -- with the URL of `u` as long as `u` has not expired and the time to live of the entry is not
  -- over, whatever the database holds by now: also where the link has been deactivated or deleted,
  -- and its cache entry removed, before the task ran.
  pub warm-resolve :
      (now later : DateTime) (code : String) (v : Visitor) (u : ShortUrl) (d : ℕ) (db : pg.Db)
      (s : r.Store)
      → 0 < settings.url_cache_ttl
      → d < settings.url_cache_ttl * second
      → unexpired later u.expires_at ≡ true
      → answer (resolve settings later code v (warmed now code u d db s)).0 ≡ some u.original_url
  warm-resolve now later code v u d db s lives within fresh = rw (
    resolve-hit formats settings later code v (warmed now code u d db s) u
        (warmed-hit now code u d db s lives within),
    resolve_cached-serialize formats settings later code v u,
    fresh,
  )
