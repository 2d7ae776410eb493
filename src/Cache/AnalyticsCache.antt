-- ===== src/Cache/AnalyticsCache.antt =====
-- app/cache/analytics_cache.py: the queue of click events, and the cached summaries.
use Prim.Native.String.{◌++◌}
use fastapi_url_shortener.Base.{
  ◌==◌, string_eq, if◌then◌else◌, ℕ, String, Option, none, some, List, [], ◌∷◌,
}
use fastapi_url_shortener.Core.Errors.{redis_error, value_error}
use fastapi_url_shortener.Core.Action.{Result, ok, err, Action, attempt, reads, modify}
use fastapi_url_shortener.Core.Settings.{Settings}
use fastapi_url_shortener.Formats.{Formats, JsonObject, NestedJson}
use fastapi_url_shortener.Redis.{Redis}

abbrev pub queue_key : String
queue_key = "analytics:queue"

-- `[json.loads(e) for e in raw_events]`
abbrev pub cons_loaded : Option JsonObject → Result (List JsonObject) → Result (List JsonObject)
cons_loaded none rest = err value_error
cons_loaded (some d) (ok ds) = ok (d ∷ ds)
cons_loaded (some d) (err e) = err e

unfoldable pub load_all : Formats → List String → Result (List JsonObject)
load_all f [] = ok []
load_all f (raw ∷ raws) = cons_loaded (f.loads raw) (load_all f raws)

module _ ⦃r : Redis⦄ ⦃f : Formats⦄ where
  unfoldable pub push_event : JsonObject → Action r.Store Unit
  push_event event = attempt (r.rpush queue_key (f.dumps event)) redis_error

  -- the result of LMPOP and the store after it
  abbrev pub loaded_batch :
      Option (List String × r.Store) → r.Store → Result (List JsonObject) × r.Store
  loaded_batch none s = (ok [], s)
  loaded_batch (some (raws, s')) s = (load_all f raws, s')

  unfoldable pub pop_events : ℕ → Action r.Store (List JsonObject)
  pop_events count s = loaded_batch (r.lmpop_left queue_key count s) s

  unfoldable pub queue_length : r.Store → ℕ
  queue_length s = r.llen queue_key s

-- `f"{_SUMMARY_PREFIX}{short_code}"`
unfoldable pub summary_key : String → String
summary_key short_code = "analytics:summary:" ++ short_code

-- `json.loads(raw) if raw else None`
abbrev pub loaded_summary : (j : NestedJson) → Option String → Result (Option j.Dict)
loaded_summary j none = ok none
loaded_summary j (some raw) =
    if raw == ""
    then ok none
    else elim (j.loads raw) [ none ↦ err value_error | some d ↦ ok (some d) ]

module _ ⦃r : Redis⦄ ⦃j : NestedJson⦄ where
  unfoldable pub get_summary : String → Action r.Store (Option j.Dict)
  get_summary short_code = reads (λ s. loaded_summary j (r.get (summary_key short_code) s))

  unfoldable pub set_summary : Settings → String → j.Dict → Action r.Store Unit
  set_summary settings short_code d =
      modify (r.setex (summary_key short_code) settings.analytics_cache_ttl (j.dumps d))

  unfoldable pub invalidate_summary : String → Action r.Store Unit
  invalidate_summary short_code = modify (r.delete (summary_key short_code ∷ []))
