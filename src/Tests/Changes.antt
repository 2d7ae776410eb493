-- ===== src/Tests/Changes.antt =====
-- Changes of a link at concrete inputs, and a late write to the cache.
use fastapi_url_shortener.Base.{◌+◌, ◌*◌, ◌≡◌, refl, arith, none, some, false}
use fastapi_url_shortener.Models.{ShortUrl, second}
use fastapi_url_shortener.Core.Settings.{default_settings}
use fastapi_url_shortener.Formats.Memory.{memory_formats, memory_formats-IsFormats}
use fastapi_url_shortener.Postgres.Memory.{memory, empty_db, memory-IsPostgres}
use fastapi_url_shortener.Redis.Memory.{memory_redis, memory-IsTextStore}
use fastapi_url_shortener.UrlService.{UrlUpdateRequest, get_by_id, update, delete}
use fastapi_url_shortener.UrlService.Get.{visible, get_by_id-visible}
use fastapi_url_shortener.UrlService.Update.{Updated, update_lem}
use fastapi_url_shortener.UrlService.Delete.{Deleted, delete_lem}
use fastapi_url_shortener.Redirect.{resolve}
use fastapi_url_shortener.Redirect.Resolve.{answer}
use fastapi_url_shortener.Redirect.Stale.{warmed, warm-resolve}
use fastapi_url_shortener.Tests.Data.{
  one_link-IsWellFormed, empty-IsCoherent, no_agents, visitor, link, one_link, world_of,
}

abbrev deactivation : UrlUpdateRequest
deactivation = record { title = none; expires_at = none; is_active = some false; is_public = none }

update_lem_example :
    Updated memory-IsPostgres memory-IsTextStore default_settings
      (world_of one_link)
      one_link-IsWellFormed
      (empty-IsCoherent one_link)
      2
      1
      false
      deactivation
      3
      (update default_settings 2 deactivation 1 false 3 (world_of one_link))
update_lem_example =
    update_lem memory-IsPostgres memory-IsTextStore default_settings (world_of one_link)
      one_link-IsWellFormed (empty-IsCoherent one_link) 2 1 false deactivation 3

delete_lem_example :
    Deleted memory-IsPostgres memory-IsTextStore default_settings
      (world_of one_link)
      one_link-IsWellFormed
      (empty-IsCoherent one_link)
      2
      1
      false
      (delete default_settings 2 1 false (world_of one_link))
delete_lem_example =
    delete_lem memory-IsPostgres memory-IsTextStore default_settings (world_of one_link)
      one_link-IsWellFormed (empty-IsCoherent one_link) 2 1 false

abbrev lasting : ShortUrl
lasting = record link { expires_at = none }

-- The link is gone from the database, and ten minutes have passed.
warm-resolve_example :
    answer
      (resolve default_settings (600 * second + 5) "abc1234" visitor (
        warmed memory_formats-IsFormats memory-IsTextStore default_settings 3 "abc1234" lasting
          (600 * second)
          empty_db
          (world_of one_link).store)).0
    ≡ some "https://example.com/a"
warm-resolve_example =
    warm-resolve memory_formats-IsFormats memory-IsTextStore default_settings 3 (600 * second + 5)
      "abc1234" visitor lasting (600 * second) empty_db (world_of one_link).store (omega arith)
      (omega arith) refl

get_by_id-visible_example : get_by_id default_settings 2 (some 4) (world_of one_link) ≡ (
  visible default_settings (world_of one_link) one_link-IsWellFormed 2 (some 4) (some link),
  world_of one_link,
)
get_by_id-visible_example =
    get_by_id-visible default_settings (world_of one_link) one_link-IsWellFormed 2 (some 4)
