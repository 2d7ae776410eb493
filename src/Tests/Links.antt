-- ===== src/Tests/Links.antt =====
-- Links at concrete inputs: creating one, resolving it, and the URLs that are let through.
use mathlib.Core.Option
use fastapi_url_shortener.Base.{
  suc, ◌≤◌, ◌<◌, ◌↔◌, [], ◌∷◌, map, length, ℕ, String, ◌≡◌, arith, none, some, true,
}
use fastapi_url_shortener.Core.Settings.{default_settings}
use fastapi_url_shortener.Formats.Memory.{memory_formats, memory_formats-IsFormats}
use fastapi_url_shortener.Postgres.Memory.{MemoryDb, memory, memory-IsPostgres}
use fastapi_url_shortener.Redis.Memory.{memory_redis, memory-IsTextStore}
use fastapi_url_shortener.Repositories.ShortUrls.Lookup.{live_link_of}
use fastapi_url_shortener.UrlService.{
  UrlCreateRequest, is_valid_create, create, generate_unique_code, UrlListResponse, list_by_owner,
  to_response,
}
use fastapi_url_shortener.Repositories.Ordered.{IsDescending}
use fastapi_url_shortener.UrlService.Pages.{
  newest_first, first_pages, first_pages-pages, list_by_owner-IsPage,
}
use fastapi_url_shortener.UrlService.Codes.{Outcome, generate_unique_code_lem}
use fastapi_url_shortener.UrlService.Create.{Finished, create_lem}
use fastapi_url_shortener.Redirect.{resolve}
use fastapi_url_shortener.Redirect.Resolve.{answer, resolve_lem}
use fastapi_url_shortener.Tests.Data.{
  one_link-IsWellFormed, empty-IsCoherent, visitor, link, one_link, world_of, two_urls,
}

resolve_lem_example :
    (answer (resolve default_settings 3 "abc1234" visitor (world_of one_link)).0
      ≡ Option.map (λ u. u.original_url) (live_link_of 3 "abc1234" one_link.short_urls))
    × ((resolve default_settings 3 "abc1234" visitor (world_of one_link)).1 ≡ world_of one_link)
resolve_lem_example =
    resolve_lem memory_formats-IsFormats default_settings 3 "abc1234" visitor (world_of one_link)
      one_link-IsWellFormed (empty-IsCoherent one_link)

abbrev request : UrlCreateRequest
request = record {
  original_url = "https://example.com/a";
  custom_alias = some "my_link";
  title = none;
  expires_at = none;
  is_public = true;
}

request-valid : is_valid_create 3 request ≡ true
unfolding is_valid_create
request-valid = ground arith

create_lem_example :
    Finished memory-IsPostgres memory-IsTextStore default_settings
      (world_of one_link)
      one_link-IsWellFormed
      (empty-IsCoherent one_link)
      (omega arith)
      request
      (some 1)
      7
      3
      (λ i. "aaaaaaa")
      (create default_settings request (some 1) 7 3 (λ i. "aaaaaaa") (world_of one_link))
create_lem_example =
    create_lem memory-IsPostgres memory-IsTextStore default_settings (world_of one_link)
      one_link-IsWellFormed (empty-IsCoherent one_link) (omega arith) request (some 1) 7 3
      (λ i. "aaaaaaa") request-valid

-- The first candidate is taken, and the second is free.
abbrev candidates : ℕ → String
candidates ℕ.zero = "abc1234"
candidates (ℕ.suc i) = "bbbbbbb"

generate_unique_code_lem_example :
    Outcome one_link one_link-IsWellFormed 5 0 candidates
      (generate_unique_code 5 0 candidates one_link).0
    × ((generate_unique_code 5 0 candidates one_link).1 ≡ one_link)
generate_unique_code_lem_example =
    generate_unique_code_lem one_link one_link-IsWellFormed 5 0 candidates

abbrev two_links : MemoryDb
two_links = record one_link {
  short_urls = link ∷ record link { id = 3; short_code = "xyz7890"; created_at = 2 } ∷ [];
}

first_pages-pages_example :
    first_pages default_settings 1 two_links
      (λ n u. u.id)
      1
      (list_by_owner default_settings (λ u. 0) 1 7 1 two_links).pages
    ≡ map (to_response default_settings) (newest_first default_settings 1 two_links)
first_pages-pages_example =
    first_pages-pages default_settings 1 two_links 1 ((omega arith, tt), (tt, tt)) (omega arith)
      (λ n u. u.id) (λ u. 0) 7

-- The second page of two links of the same time.
abbrev twins : MemoryDb
twins = record one_link { short_urls = link ∷ record link { id = 3; short_code = "xyz7890" } ∷ [] }

abbrev second_page : UrlListResponse
second_page = list_by_owner default_settings (λ u. u.id) 1 (suc 1) 1 twins

list_by_owner-IsPage_example :
    (length second_page.items ≤ 1)
    × IsDescending (λ u. u.created_at) second_page.items
    × ((suc 1 ≤ second_page.pages) ↔ (0 < length second_page.items))
list_by_owner-IsPage_example =
    list_by_owner-IsPage default_settings 1 twins 1 (λ u. u.id) 1 (omega arith)
