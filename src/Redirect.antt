-- ===== src/Redirect.antt =====
-- app/services/redirect.py and the redirect endpoint of app/main.py. Background tasks are values
-- that run after the response.
pub mod Request
pub mod Resolve
pub mod Coherent
pub mod Stale
use fastapi_url_shortener.Base.{
  ℕ, String, Bool, true, false, ◌||◌, Option, none, some, List, [], ◌∷◌, leb, ◌==◌, string_eq,
  if◌then◌else◌, contains,
}
use fastapi_url_shortener.Core.Errors.{
  Error, url_expired_error, url_not_found_error, value_error, key_error, http_exception,
}
use fastapi_url_shortener.Core.Action.{
  Result, ok, err, Action, pure, raise, lift, or_raise, raise_if, resume, try_except, ◌>>=◌, ◌>>◌,
}
use fastapi_url_shortener.Core.Settings.{Settings}
use fastapi_url_shortener.Core.World.{World, on_db, on_store}
use fastapi_url_shortener.Models.{Uuid, DateTime, ShortUrl}
use fastapi_url_shortener.Postgres.{Postgres}
use fastapi_url_shortener.Redis.{Redis}
use fastapi_url_shortener.Formats.{Formats, JsonObject, Scalar, text, get, as_text}
use fastapi_url_shortener.Repositories.ShortUrls.{get_active_by_code}
use fastapi_url_shortener.Cache.UrlCache
use fastapi_url_shortener.Cache.AnalyticsCache.{push_event}
use fastapi_url_shortener.Analytics.Events.{Click, to_dict}
use fastapi_url_shortener.UrlService.{serialize}
use fastapi_url_shortener.Utils.UserAgent.{UserAgents, ParsedUa, parse_user_agent}

-- What a request says of its visitor.
pub record Visitor : Type 0 where
  pub ip_address : Option String
  pub user_agent : Option String
  pub referrer : Option String

-- The calls that `resolve` adds to `background_tasks`.
pub data Task : Type 0 where
  set_cache : String → JsonObject → Task
  track_click : String → Task
  enqueue_click : Uuid → Visitor → Task

-- `_guard_expiry`: the expiry of a cached link, where it has one
abbrev pub guard_time : Option DateTime → DateTime → Result Unit
guard_time none now = err value_error
guard_time (some expiry) now = if leb expiry now then err url_expired_error else ok tt

unfoldable pub guard_expiry : Formats → DateTime → JsonObject → Result Unit
guard_expiry f now cached = elim (as_text (get "expires_at" cached)) [
  | none ↦ ok tt
  | some s ↦ if s == "" then ok tt else guard_time (f.fromisoformat s) now
]

-- `uuid.UUID(cached["id"])` and `cached["original_url"]`; a field that is missing, or no text,
-- raises
abbrev pub target_of : Option Uuid → Option String → Result (Uuid × String)
target_of none url = err value_error
target_of (some id) none = err key_error
target_of (some id) (some url) = ok (id, url)

unfoldable pub cached_target : Formats → JsonObject → Result (Uuid × String)
cached_target f cached = elim (as_text (get "id" cached)) [
  | none ↦ err key_error
  | some s ↦ target_of (f.uuid_parse s) (as_text (get "original_url" cached))
]

module _ ⦃r : Redis⦄ ⦃f : Formats⦄ ⦃u : UserAgents⦄ (settings : Settings) where
  -- `_enqueue_click`, at the time of the event's default timestamp
  unfoldable pub enqueue : DateTime → Uuid → Visitor → Action r.Store Unit
  enqueue now url_id v =
      let ua = parse_user_agent v.user_agent in
      try_except
        (push_event (
          to_dict f (record {
            short_url_id = url_id;
            timestamp = now;
            ip_address = v.ip_address;
            user_agent = v.user_agent;
            referrer = v.referrer;
            country = none;
            city = none;
            browser = some ua.browser;
            os = some ua.os;
            device = some ua.device;
          })))
        (λ e. pure tt)

  -- A background task.
  unfoldable pub run_task : DateTime → Task → Action r.Store Unit
  run_task now (set_cache code payload) = UrlCache.set settings code payload none
  run_task now (track_click code) = UrlCache.track_click settings code >> pure tt
  run_task now (enqueue_click url_id v) = enqueue now url_id v

  -- The tasks run in order; one that raises ends them.
  unfoldable pub run_tasks : DateTime → List Task → Action r.Store Unit
  run_tasks now [] = pure tt
  run_tasks now (t ∷ ts) = run_task now t >> run_tasks now ts

module _ ⦃pg : Postgres⦄ ⦃r : Redis⦄ ⦃f : Formats⦄ (settings : Settings) where
  -- the `if cached` branch of `resolve`
  unfoldable pub resolve_cached :
      DateTime → String → Visitor → JsonObject → Result (String × List Task)
  resolve_cached now code v cached = elim (guard_expiry f now cached) [
    | err e ↦ err e
    | ok _ ↦ elim (cached_target f cached) [
      | err e ↦ err e
      | ok (id, url) ↦ ok (url, track_click code ∷ enqueue_click id v ∷ [])
    ]
  ]

  -- the `else` branch
  unfoldable pub resolve_stored : DateTime → String → Visitor → Action pg.Db (String × List Task)
  resolve_stored now code v = do
    u ← or_raise (← get_active_by_code now code) url_not_found_error
    pure (
      u.original_url,
      set_cache code (serialize f u) ∷ track_click code ∷ enqueue_click u.id v ∷ [],
    )

  -- `if cached`: a miss and an empty object are false
  abbrev pub branch :
      DateTime → String → Visitor → Option JsonObject → Action (World pg r) (String × List Task)
  branch now code v none = on_db (resolve_stored now code v)
  branch now code v (some []) = on_db (resolve_stored now code v)
  branch now code v (some (field ∷ fields)) = lift (resolve_cached now code v (field ∷ fields))

  -- `resolve`: the URL and the tasks
  unfoldable pub resolve : DateTime → String → Visitor → Action (World pg r) (String × List Task)
  resolve now code v = do cached ← on_store (UrlCache.get settings code); branch now code v cached

  abbrev pub reserved : List String
  reserved = "docs" ∷ "redoc" ∷ "openapi.json" ∷ "health" ∷ "favicon.ico" ∷ []

  -- the endpoint `redirect`: the target of the 302 response, and the tasks
  unfoldable pub redirect : DateTime → String → Visitor → Action (World pg r) (String × List Task)
  redirect now short_code v =
      raise_if (contains reserved short_code) (http_exception 404 "Not Found")
      >> resolve now short_code v

module _ ⦃pg : Postgres⦄ ⦃r : Redis⦄ ⦃f : Formats⦄ ⦃u : UserAgents⦄ (settings : Settings) where
  abbrev pub respond :
      DateTime → Result (String × List Task) × World pg r → Result String × World pg r
  respond later (err e, w) = (err e, w)
  respond later (ok (url, tasks), w) =
      (ok url, record w { store = (run_tasks settings later tasks w.store).1 })

  -- A request whole: the tasks run at the time `later`, after the response, and not where the
  -- endpoint raised.
  unfoldable pub visit :
      DateTime → DateTime → String → Visitor → World pg r → Result String × World pg r
  visit now later short_code v w = respond later (redirect settings now short_code v w)
