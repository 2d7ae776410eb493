-- ===== src/Endpoints/Urls.antt =====
-- app/api/v1/endpoints/urls.py
use fastapi_url_shortener.Base.{ℕ, String, Bool, Option, none, some, ◌==◌, string_eq}
use fastapi_url_shortener.Core.Action.{Action, reads, ok, ◌>>=◌, ◌>>◌}
use fastapi_url_shortener.Core.Security.{Crypto}
use fastapi_url_shortener.Core.Settings.{Settings}
use fastapi_url_shortener.Core.World.{World, on_db, on_store}
use fastapi_url_shortener.Models.{Uuid, DateTime, User, ShortUrl}
use fastapi_url_shortener.Postgres.{Postgres}
use fastapi_url_shortener.Redis.{Redis}
use fastapi_url_shortener.Formats.{Formats}
use fastapi_url_shortener.Dependencies.{get_current_user, get_optional_user}
use fastapi_url_shortener.Endpoints.{in_session, limited}
use fastapi_url_shortener.Redirect.Request.{Request, client_ip}
use fastapi_url_shortener.UrlService as Service
use fastapi_url_shortener.UrlService.{
  UrlCreateRequest, UrlUpdateRequest, UrlResponse, UrlListResponse,
}
use fastapi_url_shortener.Utils.UrlValidator.{UrlParsers}

-- `str(user.id) if user else _client_ip(request)`
abbrev pub identifier : Formats → Option User → Request → String
identifier f none q = client_ip q
identifier f (some u) q = f.uuid_str u.id

-- `100 if user else 10`
abbrev pub creation_limit : Option User → ℕ
creation_limit none = 10
creation_limit (some u) = 100

-- `user.id if user else None`
abbrev pub id_of : Option User → Option Uuid
id_of none = none
id_of (some u) = some u.id

-- `user.role == "admin"`
abbrev pub is_admin : User → Bool
is_admin u = u.role == "admin"

module _ ⦃pg : Postgres⦄ ⦃r : Redis⦄ ⦃f : Formats⦄ ⦃y : Crypto⦄ (settings : Settings)
    (credentials : Option String) (now : DateTime) where
  -- `create_url`, with the request id of the limiter, the id of the row and the generated codes
  unfoldable pub create_url :
      ⦃p : UrlParsers⦄
      → UrlCreateRequest
      → Request
      → String
      → Uuid
      → (ℕ → String)
      → Action (World pg r) UrlResponse
  create_url d q req_id id candidate = in_session (do
    u ← on_db (get_optional_user settings now credentials)
    on_store (
        limited (identifier f u q) (creation_limit u) 3600 "create_url"
          "URL creation rate limit exceeded" now req_id)
    Service.create settings d (id_of u) id now candidate)

  -- `list_urls`, with the order of the links that were created at the same time
  unfoldable pub list_urls : (ShortUrl → ℕ) → ℕ → ℕ → Action (World pg r) UrlListResponse
  list_urls ties page size = in_session (do
    u ← on_db (get_current_user settings now credentials)
    on_db (reads (λ db. ok (Service.list_by_owner settings ties u.id page size db))))

  -- `get_url`
  unfoldable pub get_url : Uuid → Action (World pg r) UrlResponse
  get_url url_id = in_session (do
    u ← on_db (get_optional_user settings now credentials)
    Service.get_by_id settings url_id (id_of u))

  -- `update_url`
  unfoldable pub update_url : Uuid → UrlUpdateRequest → Action (World pg r) UrlResponse
  update_url url_id d = in_session (do
    u ← on_db (get_current_user settings now credentials)
    Service.update settings url_id d u.id (is_admin u) now)

  -- `delete_url`
  unfoldable pub delete_url : Uuid → Action (World pg r) Unit
  delete_url url_id = in_session (do
    u ← on_db (get_current_user settings now credentials)
    Service.delete settings url_id u.id (is_admin u))
