-- ===== src/Repositories/ShortUrls.antt =====
-- app/repositories/url.py
pub mod WellFormed
pub mod Counted
pub mod Lookup
use fastapi_url_shortener.Base.{
  ℕ, ◌+◌, String, Bool, true, false, ◌&&◌, ◌||◌, Option, none, some, List, ltb, ◌==◌, nat_eq,
  string_eq, option_eq, length, select,
}
use fastapi_url_shortener.Core.Action.{Action, pure, modify, ◌>>=◌}
use fastapi_url_shortener.Models.{Uuid, DateTime, ShortUrl}
use fastapi_url_shortener.Postgres.{Postgres}
use fastapi_url_shortener.Repositories.BaseRepository as Base
use fastapi_url_shortener.Repositories.Query.{order_by_desc, order_by, offset_limit}

-- `or_(ShortURL.short_code == code, ShortURL.custom_alias == code)`
unfoldable pub has_code : String → ShortUrl → Bool
has_code code u = u.short_code == code || u.custom_alias == some code

-- `or_(ShortURL.expires_at.is_(None), ShortURL.expires_at > now)`
abbrev pub unexpired : DateTime → Option DateTime → Bool
unexpired now none = true
unexpired now (some t) = ltb now t

unfoldable pub is_live : DateTime → ShortUrl → Bool
is_live now u = u.is_active && unexpired now u.expires_at

-- `is not None`
abbrev pub is_some : {A : Type 0} → Option A → Bool
is_some none = false
is_some (some a) = true

module _ ⦃pg : Postgres⦄ where
  unfoldable pub find_one : (ShortUrl → Bool) → Action pg.Db (Option ShortUrl)
  find_one = Base.find_one pg.short_urls

  -- the methods of `BaseRepository`
  unfoldable pub get_by_id : Uuid → Action pg.Db (Option ShortUrl)
  get_by_id id = find_one (λ u. u.id == id)

  unfoldable pub create : ShortUrl → Action pg.Db ShortUrl
  unfolding Base.create
  create = Base.create pg.short_urls

  unfoldable pub update : ShortUrl → (ShortUrl → ShortUrl) → Action pg.Db ShortUrl
  unfolding Base.update
  update = Base.update pg.short_urls (λ u. u.id)

  unfoldable pub delete : ShortUrl → Action pg.Db Unit
  unfolding Base.delete
  delete = Base.delete pg.short_urls (λ u. u.id)

  unfoldable pub get_by_short_code : String → Action pg.Db (Option ShortUrl)
  get_by_short_code code = find_one (λ u. u.short_code == code)

  unfoldable pub get_by_alias : String → Action pg.Db (Option ShortUrl)
  get_by_alias alias = find_one (λ u. u.custom_alias == some alias)

  unfoldable pub short_code_exists : String → Action pg.Db Bool
  short_code_exists code = do found ← find_one (has_code code); pure (is_some found)

  unfoldable pub get_active_by_code : DateTime → String → Action pg.Db (Option ShortUrl)
  get_active_by_code now code = find_one (λ u. has_code code u && is_live now u)

  -- The query orders by `created_at` alone. How this run of it orders the rows of one time is up to
  -- PostgreSQL, and is the argument `ties`.
  unfoldable pub get_by_owner : (ShortUrl → ℕ) → Uuid → ℕ → ℕ → pg.Db → List ShortUrl × ℕ
  get_by_owner ties owner_id offset limit db =
      let owned = select (λ u. u.owner_id == some owner_id) (pg.short_urls.rows db) in
      (
        offset_limit offset limit (order_by_desc (λ u. u.created_at) (order_by ties owned)),
        length owned,
      )

  -- `onupdate` writes the time to `updated_at`
  unfoldable pub increment_click_count : Uuid → ℕ → DateTime → Action pg.Db Unit
  increment_click_count url_id by now = modify (
      pg.short_urls.update (λ u. u.id == url_id)
        (λ u. record u { updated_at = now; click_count = u.click_count + by }))
