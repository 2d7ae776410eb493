-- ===== src/Redirect/Resolve.antt =====
-- `resolve` of app/services/redirect.py with its cache, beside the query of the live link.
use mathlib.Core.Option
use fastapi_url_shortener.Base.{
  String, ◌≡◌, ap, ◌∙◌, true, Option, none, some, List, [], ◌∷◌, arith, string_eq, if◌then◌else◌,
  inl, inr, Option-cases,
}
use fastapi_url_shortener.Core.Errors.{url_expired_error, url_not_found_error}
use fastapi_url_shortener.Core.Action.{Result, ok, err}
use fastapi_url_shortener.Core.Settings.{Settings}
use fastapi_url_shortener.Core.World.{World}
use fastapi_url_shortener.Models.{DateTime, ShortUrl}
use fastapi_url_shortener.Postgres.{Postgres}
use fastapi_url_shortener.Redis.{Redis}
use fastapi_url_shortener.Formats.{Formats, IsFormats}
use fastapi_url_shortener.Repositories.ShortUrls.{has_code, is_live, unexpired}
use fastapi_url_shortener.Repositories.ShortUrls.WellFormed.{IsWellFormed}
use fastapi_url_shortener.Repositories.ShortUrls.Lookup.{
  link_of, live_link_of, first_where-and, get_active_by_code_lem,
}
use fastapi_url_shortener.Cache.UrlCache
use fastapi_url_shortener.Cache.UrlCache.{key}
use fastapi_url_shortener.UrlService.{serialize}
use fastapi_url_shortener.Redirect.{
  Visitor, Task, track_click, enqueue_click, set_cache, guard_expiry, cached_target, resolve_cached,
  resolve_stored, resolve,
}

-- Where the visitor is sent.
abbrev pub answer : Result (String × List Task) → Option String
answer (ok (url, tasks)) = some url
answer (err e) = none

-- Every cached link is the active link of its code, as it is in the database.
pub record IsCoherent {pg : Postgres} {r : Redis} (f : Formats) (w : World pg r) : Type 0 where
  pub at :
      (code raw : String)
      → r.get (key code) w.store ≡ some raw
      → (u : ShortUrl) × (link_of code (pg.short_urls.rows w.db) ≡ some u)
        × (raw ≡ f.dumps (serialize f u))
        × (u.is_active ≡ true)

module _ ⦃pg : Postgres⦄ ⦃r : Redis⦄ ⦃f : Formats⦄ (formats : IsFormats f) (settings : Settings)
    (now : DateTime) (code : String) (v : Visitor) where
  -- The `if cached` branch on a link that `_serialize` wrote.
  pub resolve_cached-serialize :
      (u : ShortUrl)
      → resolve_cached settings now code v (serialize f u) ≡ (
          if unexpired now u.expires_at
          then ok (u.original_url, track_click code ∷ enqueue_click u.id v ∷ [])
          else err url_expired_error)
  unfolding resolve_cached guard_expiry cached_target serialize
  resolve_cached-serialize u = elim (Option-cases u.expires_at) [
    | inl never ↦ ground (arith, formats.uuid_parse-uuid_str u.id)
    | inr (t, e) ↦ ground (
      arith,
      formats.uuid_parse-uuid_str u.id,
      formats.fromisoformat-isoformat t,
      formats.isoformat_nonempty t,
    )
  ]

  -- The `else` branch.
  pub resolve_stored_lem :
      (db : pg.Db)
      → IsWellFormed (pg.short_urls.rows db)
      → resolve_stored settings now code v db ≡ (
        elim (live_link_of now code (pg.short_urls.rows db)) [
          | none ↦ err url_not_found_error
          | some u ↦ ok (
            u.original_url,
            set_cache code (serialize f u) ∷ track_click code ∷ enqueue_click u.id v ∷ [],
          )
        ],
        db,
      )
  unfolding resolve_stored
  resolve_stored_lem db wf = ground (arith, get_active_by_code_lem db wf now code)

  -- A miss of the cache.
  pub resolve-miss :
      (w : World pg r)
      → r.get (key code) w.store ≡ none
      → resolve settings now code v w
        ≡ (let (a, db) = resolve_stored settings now code v w.db in (a, record w { db = db }))
  unfolding resolve UrlCache.get
  resolve-miss w miss = rw miss

  -- A hit on a link that `_serialize` wrote.
  pub resolve-hit :
      (w : World pg r) (u : ShortUrl)
      → r.get (key code) w.store ≡ some (f.dumps (serialize f u))
      → resolve settings now code v w ≡ (resolve_cached settings now code v (serialize f u), w)
  unfolding resolve UrlCache.get serialize
  resolve-hit w u hit = rw (hit, UrlCache.loaded, formats.loads-dumps (serialize f u))

  live_link_of_link :
      (urls : List ShortUrl) (u : ShortUrl)
      → IsWellFormed urls
      → link_of code urls ≡ some u
      → u.is_active ≡ true
      → live_link_of now code urls ≡ (if unexpired now u.expires_at then some u else none)
  unfolding is_live
  live_link_of_link urls u wf link active =
      first_where-and (has_code code) (is_live now) urls (wf.unique_codes code) ∙ rw (link, active)

  -- With a cache that is coherent with a well-formed table of links, `resolve` sends the visitor to
  -- the URL of the active, unexpired link of the code, whether the link is cached or not, and to no
  -- URL where there is no such link; it changes neither the database nor the cache.
  pub resolve_lem :
      (w : World pg r)
      → IsWellFormed (pg.short_urls.rows w.db)
      → IsCoherent f w
      → (answer (resolve settings now code v w).0
          ≡ Option.map (λ u. u.original_url) (live_link_of now code (pg.short_urls.rows w.db)))
        × ((resolve settings now code v w).1 ≡ w)
  resolve_lem w wf coherent = elim (Option-cases (r.get (key code) w.store)) [
    | inl miss ↦ ground (arith, resolve-miss w miss, resolve_stored_lem w.db wf)
    | inr (raw, hit) ↦
        let (u, link, same, active) = coherent.at code raw hit in
        ground (
          arith,
          resolve-hit w u (hit ∙ ap some same),
          resolve_cached-serialize u,
          live_link_of_link (pg.short_urls.rows w.db) u wf link active,
        )
  ]
