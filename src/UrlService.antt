-- ===== src/UrlService.antt =====
-- app/services/url.py, with the schemas of app/schemas/url.py.
pub mod Codes
pub mod Create
pub mod Invalidation
pub mod Get
pub mod Update
pub mod Delete
pub mod Touched
pub mod Pages
use Prim.Native.Char.{Char, code}
use Prim.Native.String.{◌++◌, count}
use fastapi_url_shortener.Utils.ShortCode.{is_alphanumeric}
use fastapi_url_shortener.Base.{
  leb, ◌||◌, ℕ, zero, suc, ◌+◌, ◌-◌, ◌*◌, ◌/◌, String, Bool, true, false, not, ◌&&◌, Option, none,
  some, List, [], ◌∷◌, map, ◌==◌, nat_eq, string_eq, option_eq, if◌then◌else◌,
}
use fastapi_url_shortener.Core.Errors.{
  Error, not_found_error, conflict_error, authorization_error, validation_error,
  short_code_collision_error,
}
use fastapi_url_shortener.Core.Action.{
  Result, ok, err, Action, pure, raise, lift, or_raise, raise_if, resume, ◌>>=◌, ◌>>◌,
}
use fastapi_url_shortener.Core.Settings.{Settings}
use fastapi_url_shortener.Core.World.{World, on_db, on_store}
use fastapi_url_shortener.Models.{Uuid, DateTime, ShortUrl, fits}
use fastapi_url_shortener.Postgres.{Postgres}
use fastapi_url_shortener.Redis.{Redis}
use fastapi_url_shortener.Formats.{Formats, JsonObject, Scalar, bool, text, null, optional_text}
use fastapi_url_shortener.Repositories.ShortUrls as Repo
use fastapi_url_shortener.Cache.UrlCache
use fastapi_url_shortener.Utils.UrlValidator.{UrlParsers, is_safe_url}

pub record UrlCreateRequest : Type 0 where
  pub original_url : String
  pub custom_alias : Option String
  pub title : Option String
  pub expires_at : Option DateTime
  pub is_public : Bool

-- The characters of `^[a-zA-Z0-9_-]+$`
abbrev pub all_chars : (Char → Bool) → String → Bool
all_chars p String.[] = true
all_chars p (String.◌∷◌ c s) = p c && all_chars p s

abbrev pub is_code_char : Char → Bool
is_code_char c = is_alphanumeric c || code c == b'_' || code c == b'-'

abbrev pub alias_valid : Option String → Bool
alias_valid none = true
alias_valid (some a) = leb 3 (count a) && leb (count a) 50 && all_chars is_code_char a

-- `expiry_must_be_future`
abbrev pub expiry_valid : DateTime → Option DateTime → Bool
expiry_valid now none = true
expiry_valid now (some t) = not (leb t now)

-- What the schema accepts of the optional fields.
unfoldable pub is_valid_create : DateTime → UrlCreateRequest → Bool
is_valid_create now d =
    alias_valid d.custom_alias && fits 255 d.title && expiry_valid now d.expires_at

pub record UrlUpdateRequest : Type 0 where
  pub title : Option String
  pub expires_at : Option DateTime
  pub is_active : Option Bool
  pub is_public : Option Bool

pub record UrlResponse : Type 0 where
  pub id : Uuid
  pub original_url : String
  pub short_code : String
  pub custom_alias : Option String
  pub title : Option String
  pub short_url : String
  pub owner_id : Option Uuid
  pub is_active : Bool
  pub is_public : Bool
  pub expires_at : Option DateTime
  pub click_count : ℕ
  pub created_at : DateTime
  pub updated_at : DateTime

pub record UrlListResponse : Type 0 where
  pub items : List UrlResponse
  pub total : ℕ
  pub page : ℕ
  pub size : ℕ
  pub pages : ℕ

-- `if s:` for a text that may be None
abbrev pub truthy : Option String → Bool
truthy none = false
truthy (some s) = not (s == "")

-- `url.custom_alias or url.short_code`
abbrev pub alias_or_code : ShortUrl → String
alias_or_code u = elim u.custom_alias [
  | none ↦ u.short_code
  | some a ↦ if a == "" then u.short_code else a
]

-- `_to_response`
unfoldable pub to_response : Settings → ShortUrl → UrlResponse
to_response settings u = record {
  id = u.id;
  original_url = u.original_url;
  short_code = u.short_code;
  custom_alias = u.custom_alias;
  title = u.title;
  short_url = settings.base_url ++ "/" ++ alias_or_code u;
  owner_id = u.owner_id;
  is_active = u.is_active;
  is_public = u.is_public;
  expires_at = u.expires_at;
  click_count = u.click_count;
  created_at = u.created_at;
  updated_at = u.updated_at;
}

-- `x if x is not None else y`
abbrev pub given : {A : Type 0} → Option A → A → A
given none old = old
given (some new) old = new

abbrev pub given_some : {A : Type 0} → Option A → Option A → Option A
given_some none old = old
given_some (some new) old = some new

abbrev same_flag : Bool → Bool → Bool
same_flag true b = b
same_flag false b = not b

-- No attribute gets another value, and SQLAlchemy emits no UPDATE.
unfoldable pub changes_nothing : UrlUpdateRequest → ShortUrl → Bool
changes_nothing d u =
    (given_some d.title u.title == u.title)
    && (given_some d.expires_at u.expires_at == u.expires_at)
    && same_flag (given d.is_active u.is_active) u.is_active
    && same_flag (given d.is_public u.is_public) u.is_public

-- `data.model_dump(exclude_none=True)`, set on the row at the time `now`: a field that is None
-- stays, and `onupdate` writes the time where an UPDATE is emitted.
unfoldable pub set_fields : DateTime → UrlUpdateRequest → ShortUrl → ShortUrl
set_fields now d u = record u {
  updated_at = if changes_nothing d u then u.updated_at else now;
  title = given_some d.title u.title;
  expires_at = given_some d.expires_at u.expires_at;
  is_active = given d.is_active u.is_active;
  is_public = given d.is_public u.is_public;
}

-- `url.expires_at.isoformat() if url.expires_at else None`
abbrev pub iso_or_null : Formats → Option DateTime → Scalar
iso_or_null f none = null
iso_or_null f (some t) = text (f.isoformat t)

-- `_serialize`
unfoldable pub serialize : Formats → ShortUrl → JsonObject
serialize f u =
    ("id", text (f.uuid_str u.id))
    ∷ ("original_url", text u.original_url)
    ∷ ("short_code", text u.short_code)
    ∷ ("custom_alias", optional_text u.custom_alias)
    ∷ ("is_active", bool u.is_active)
    ∷ ("expires_at", iso_or_null f u.expires_at)
    ∷ []

-- `math.ceil(total / size) if total else 0`, for a positive size
unfoldable pub page_count : ℕ → ℕ → ℕ
page_count total size = if total == 0 then 0 else (total + (size - 1)) / size

module _ ⦃pg : Postgres⦄ where
  -- `_generate_unique_code`: `candidate i` is the code that the attempt i generates
  unfoldable pub generate_unique_code : ℕ → ℕ → (ℕ → String) → Action pg.Db String
  generate_unique_code zero i candidate = raise short_code_collision_error
  generate_unique_code (suc retries) i candidate =
      let retry = generate_unique_code retries (suc i) candidate in
      Repo.short_code_exists (candidate i) >>= λ taken. if taken then retry else pure (candidate i)

  -- the short code of `create`: the alias, or a generated code
  unfoldable pub choose_code : Settings → Option String → (ℕ → String) → Action pg.Db String
  unfolding generate_unique_code
  choose_code settings none candidate =
      generate_unique_code settings.max_collision_retries 0 candidate
  choose_code settings (some alias) candidate =
      if alias == "" then generate_unique_code settings.max_collision_retries 0 candidate else do
        taken ← Repo.short_code_exists alias
        raise_if taken (conflict_error ("Alias '" ++ alias ++ "' is already taken"))
        pure alias

-- The row that `create` adds, with the defaults of the columns.
abbrev pub new_row : Uuid → DateTime → Option Uuid → UrlCreateRequest → String → ShortUrl
new_row id now owner_id d short_code = record {
  id = id;
  created_at = now;
  updated_at = now;
  original_url = d.original_url;
  short_code = short_code;
  custom_alias = d.custom_alias;
  title = d.title;
  owner_id = owner_id;
  is_active = true;
  is_public = d.is_public;
  expires_at = d.expires_at;
  click_count = 0;
}

-- `if not url: raise NotFoundError("URL")`
abbrev pub found : {S : Type 0} → Option ShortUrl → Action S ShortUrl
found u = or_raise u (not_found_error "URL")

module _ ⦃pg : Postgres⦄ ⦃r : Redis⦄ ⦃f : Formats⦄ (settings : Settings) where
  -- the end of `create`: the row goes in, and its payload into the cache
  unfoldable pub store_link :
      UrlCreateRequest → Option Uuid → Uuid → DateTime → String → Action (World pg r) UrlResponse
  store_link d owner_id id now short_code = do
    u ← on_db (Repo.create (new_row id now owner_id d short_code))
    on_store (UrlCache.set settings short_code (serialize f u) none)
    pure (to_response settings u)

  -- `create`, with the fresh id of the row and the server's time
  unfoldable pub create :
      ⦃p : UrlParsers⦄
      → UrlCreateRequest
      → Option Uuid
      → Uuid
      → DateTime
      → (ℕ → String)
      → Action (World pg r) UrlResponse
  create d owner_id id now candidate = do
    raise_if (not (is_safe_url d.original_url))
        (validation_error "URL is not allowed (blocked host or scheme)")
    short_code ← on_db (choose_code settings d.custom_alias candidate)
    store_link d owner_id id now short_code

  -- `get_by_id`
  unfoldable pub get_by_id : Uuid → Option Uuid → Action (World pg r) UrlResponse
  get_by_id url_id requester_id = do
    u ← found (← on_db (Repo.get_by_id url_id))
    raise_if (not u.is_public && not (u.owner_id == requester_id))
        (authorization_error "This link is private")
    pure (to_response settings u)

  -- `list_by_owner`
  unfoldable pub list_by_owner : (ShortUrl → ℕ) → Uuid → ℕ → ℕ → pg.Db → UrlListResponse
  unfolding page_count
  list_by_owner ties owner_id page size db =
      let (urls, total) = Repo.get_by_owner ties owner_id ((page - 1) * size) size db in
      record {
        items = map (to_response settings) urls;
        total = total;
        page = page;
        size = size;
        pages = page_count total size;
      }

  -- the invalidation that `update` and `delete` make
  unfoldable pub invalidate : ShortUrl → Action r.Store Unit
  invalidate u = UrlCache.delete settings u.short_code >> (elim u.custom_alias [
    | none ↦ pure tt
    | some a ↦ if a == "" then pure tt else UrlCache.delete settings a
  ])

  -- `update`
  unfoldable pub update :
      Uuid → UrlUpdateRequest → Uuid → Bool → DateTime → Action (World pg r) UrlResponse
  unfolding invalidate
  update url_id d requester_id is_admin now = do
    u ← found (← on_db (Repo.get_by_id url_id))
    raise_if (not is_admin && not (u.owner_id == some requester_id))
        (authorization_error "You don't own this link")
    changed ← on_db (Repo.update u (set_fields now d))
    on_store (invalidate changed)
    pure (to_response settings changed)

  -- `delete`
  unfoldable pub delete : Uuid → Uuid → Bool → Action (World pg r) Unit
  unfolding invalidate
  delete url_id requester_id is_admin = do
    u ← found (← on_db (Repo.get_by_id url_id))
    raise_if (not is_admin && not (u.owner_id == some requester_id))
        (authorization_error "You don't own this link")
    on_store (invalidate u)
    on_db (Repo.delete u)
