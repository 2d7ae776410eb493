-- ===== src/Tests/History.antt =====
-- A history of the service at concrete inputs.
use mathlib.Core.Option
use fastapi_url_shortener.Base.{
  ◌≡◌, refl, arith, true, none, some, contains, string_eq, if◌then◌else◌,
}
use fastapi_url_shortener.Core.Settings.{default_settings}
use fastapi_url_shortener.Core.World.{World}
use fastapi_url_shortener.Formats.Memory.{memory_formats, memory_formats-IsFormats}
use fastapi_url_shortener.Postgres.Memory.{memory, memory-IsPostgres}
use fastapi_url_shortener.Redis.Memory.{memory_redis, memory-IsTextStore, memory-IsTypedStore}
use fastapi_url_shortener.Repositories.ShortUrls.Lookup.{live_link_of}
use fastapi_url_shortener.UrlService.{UrlCreateRequest, is_valid_create}
use fastapi_url_shortener.Endpoints.Urls.{create_url}
use fastapi_url_shortener.Redirect.{visit, resolve, reserved, redirect}
use fastapi_url_shortener.Redirect.Request.{Request}
use fastapi_url_shortener.Redirect.Resolve.{answer}
use fastapi_url_shortener.QrService.{get_qr_code}
use fastapi_url_shortener.Tests.Pictures.{plain_pictures}
use fastapi_url_shortener.Tests.Summaries.{flat_json, flat_model, nearest_tenths}
use fastapi_url_shortener.System.Sound.{IsSound}
use fastapi_url_shortener.System.History.{
  Reach, start, next, create, follow, picture, Reach-IsSound, Reach-resolve, Reach-redirect,
}
use fastapi_url_shortener.Tests.Data.{no_links, two_urls, world_of, no_agents, visitor}
use fastapi_url_shortener.Tests.Tokens.{json_crypto}

abbrev asked : UrlCreateRequest
asked = record {
  original_url = "https://example.com/a";
  custom_alias = none;
  title = none;
  expires_at = some 9;
  is_public = true;
}

asked-valid : is_valid_create 3 asked ≡ true
unfolding is_valid_create
asked-valid = refl

abbrev request : Request
request = record {
  x_forwarded_for = none;
  user_agent = none;
  referer = none;
  client_host = some "10.0.0.1";
}

abbrev created : World memory memory_redis
created =
    (create_url default_settings none 3 asked request "request" 2 (λ i. "abc1234")
      (world_of no_links)).1

abbrev visited : World memory memory_redis
visited = (visit default_settings 4 5 "abc1234" visitor created).1

-- The picture of the link is drawn in between.
abbrev pictured : World memory memory_redis
pictured = (get_qr_code default_settings "abc1234" visited).1

visited-Reach : Reach flat_model nearest_tenths default_settings visited
visited-Reach =
    next created visited
      (next (world_of no_links) created
        (start (world_of no_links)
          (record { no_links = refl; no_clicks = refl; no_cache = λ c. refl }))
        (create none 3 asked request "request" 2 (λ i. "abc1234") asked-valid))
      (follow 4 5 "abc1234" visitor)

pictured-Reach : Reach flat_model nearest_tenths default_settings pictured
pictured-Reach = next visited pictured visited-Reach (picture "abc1234")

Reach-IsSound_example : IsSound memory_formats pictured
Reach-IsSound_example =
    Reach-IsSound flat_model nearest_tenths default_settings memory-IsPostgres
      memory_formats-IsFormats memory-IsTextStore memory-IsTypedStore (omega arith) (omega arith)
      (omega arith) pictured pictured-Reach

Reach-resolve_example :
    (answer (resolve default_settings 8 "abc1234" visitor pictured).0
      ≡ Option.map (λ u. u.original_url) (live_link_of 8 "abc1234" pictured.db.short_urls))
    × ((resolve default_settings 8 "abc1234" visitor pictured).1 ≡ pictured)
Reach-resolve_example =
    Reach-resolve flat_model nearest_tenths default_settings memory-IsPostgres
      memory_formats-IsFormats memory-IsTextStore memory-IsTypedStore (omega arith) (omega arith)
      (omega arith) pictured 8 "abc1234" visitor pictured-Reach

-- A link with the alias docs is stored and live, and no visitor reaches it.
abbrev docs_world : World memory memory_redis
docs_world =
    (create_url default_settings none 3 (record asked { custom_alias = some "docs" }) request
      "request" 2 (λ i. "abc1234") (world_of no_links)).1

docs-valid : is_valid_create 3 (record asked { custom_alias = some "docs" }) ≡ true
unfolding is_valid_create
docs-valid = refl

docs-Reach : Reach flat_model nearest_tenths default_settings docs_world
docs-Reach =
    next (world_of no_links) docs_world
      (start (world_of no_links)
        (record { no_links = refl; no_clicks = refl; no_cache = λ c. refl }))
      (create none 3 (record asked { custom_alias = some "docs" }) request "request" 2
        (λ i. "abc1234") docs-valid)

Reach-redirect_example : answer (redirect default_settings 8 "docs" visitor docs_world).0 ≡ (
    if contains (reserved default_settings) "docs"
    then none
    else Option.map (λ u. u.original_url) (live_link_of 8 "docs" docs_world.db.short_urls))
Reach-redirect_example =
    Reach-redirect flat_model nearest_tenths default_settings memory-IsPostgres
      memory_formats-IsFormats memory-IsTextStore memory-IsTypedStore (omega arith) (omega arith)
      (omega arith) docs_world 8 "docs" visitor docs-Reach
