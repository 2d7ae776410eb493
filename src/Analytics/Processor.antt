-- ===== src/Analytics/Processor.antt =====
-- app/analytics/processor.py: a flush takes a batch from the queue and writes it to the database in
-- one transaction.
pub mod Counts
pub mod Flush
pub mod Queue
pub mod Drain
use fastapi_url_shortener.Base.{
  ℕ, zero, suc, ◌+◌, String, Option, none, some, List, [], ◌∷◌, map, ◌==◌, nat_eq, if◌then◌else◌,
}
use fastapi_url_shortener.Core.Action.{
  Result, ok, err, Action, pure, reads, resume, try_except, for_each, ◌>>=◌, ◌>>◌,
}
use fastapi_url_shortener.Core.Session.{with_session}
use fastapi_url_shortener.Core.World.{World, on_db, on_store}
use fastapi_url_shortener.Core.Settings.{Settings}
use fastapi_url_shortener.Models.{Uuid, DateTime, ClickEvent}
use fastapi_url_shortener.Postgres.{Postgres}
use fastapi_url_shortener.Redis.{Redis}
use fastapi_url_shortener.Formats.{Formats, JsonObject, get, as_text}
use fastapi_url_shortener.Cache.AnalyticsCache.{push_event, pop_events, queue_length}
use fastapi_url_shortener.Repositories.ClickEvents.{bulk_insert}
use fastapi_url_shortener.Repositories.ShortUrls.{increment_click_count}

-- The row for an event, or none where the `try` block raises: a missing or malformed UUID or time.
unfoldable pub row_of : JsonObject → Option Uuid → Option DateTime → Option ClickEvent
row_of raw (some url_id) (some t) = some (record {
  short_url_id = url_id;
  created_at = t;
  visitor_hash = as_text (get "visitor_hash" raw);
  country = as_text (get "country" raw);
  city = as_text (get "city" raw);
  referrer = as_text (get "referrer" raw);
  user_agent = as_text (get "user_agent" raw);
  browser = as_text (get "browser" raw);
  os = as_text (get "os" raw);
  device = as_text (get "device" raw);
})
row_of raw _ _ = none

-- A field that is a text with a meaning: none for a missing field, another value or a bad text.
abbrev pub parsed : {A : Type 0} → (String → Option A) → Option String → Option A
parsed p none = none
parsed p (some s) = p s

unfoldable pub parse_event : Formats → JsonObject → Option ClickEvent
unfolding row_of
parse_event f raw =
    row_of raw (parsed f.uuid_parse (as_text (get "short_url_id" raw)))
      (parsed f.fromisoformat (as_text (get "timestamp" raw)))

-- `db_events`: an event that does not parse is logged and left out
abbrev pub cons_some : {A : Type 0} → Option A → List A → List A
cons_some none xs = xs
cons_some (some x) xs = x ∷ xs

unfoldable pub parse_events : Formats → List JsonObject → List ClickEvent
parse_events f [] = []
parse_events f (raw ∷ raws) = cons_some (parse_event f raw) (parse_events f raws)

-- `Counter`, in the order of first occurrence
unfoldable pub count_up : Uuid → List (Uuid × ℕ) → List (Uuid × ℕ)
count_up i [] = (i, 1) ∷ []
count_up i ((j, n) ∷ counts) =
    let rest = count_up i counts in if j == i then (j, n + 1) ∷ counts else (j, n) ∷ rest

unfoldable pub count_all : List (Uuid × ℕ) → List Uuid → List (Uuid × ℕ)
unfolding count_up
count_all counts [] = counts
count_all counts (i ∷ is) = count_all (count_up i counts) is

unfoldable pub counter : List Uuid → List (Uuid × ℕ)
unfolding count_all
counter = count_all []

module _ ⦃pg : Postgres⦄ where
  -- `if db_events: await click_repo.bulk_insert(db_events)`
  unfoldable pub insert_events : List ClickEvent → Action pg.Db Unit
  insert_events [] = pure tt
  insert_events (e ∷ es) = bulk_insert (e ∷ es)

  -- the loop over `click_counts.items()`
  unfoldable pub increment_all : DateTime → List (Uuid × ℕ) → Action pg.Db Unit
  increment_all now counts = for_each counts (λ c. increment_click_count c.0 c.1 now)

  -- the `session` block of `_flush`, up to its commit
  unfoldable pub persist : DateTime → List ClickEvent → Action pg.Db Unit
  persist now db_events =
      insert_events db_events >> increment_all now (counter (map (λ e. e.short_url_id) db_events))

module _ ⦃pg : Postgres⦄ ⦃r : Redis⦄ ⦃f : Formats⦄ (settings : Settings) (now : DateTime) where
  -- `_flush`
  unfoldable pub flush_events : List JsonObject → Action (World pg r) Unit
  flush_events [] = pure tt
  flush_events (e ∷ events) = on_db (with_session (persist now (parse_events f (e ∷ events))))

  unfoldable pub flush : Action (World pg r) Unit
  flush w =
      if queue_length w.store == 0
      then (ok tt, w)
      else (on_store (pop_events settings.analytics_batch_size) >>= flush_events) w

  -- a round of `_run`: an exception is logged, and the loop goes on
  unfoldable pub run_once : Action (World pg r) Unit
  run_once = try_except flush (λ e. pure tt)

module _ ⦃pg : Postgres⦄ ⦃r : Redis⦄ ⦃f : Formats⦄ (settings : Settings) where
  -- The rounds of the worker, each ended normally or by an exception; `times n` is the time of the
  -- round that has n more behind it.
  unfoldable pub rounds : (ℕ → DateTime) → ℕ → World pg r → World pg r
  rounds times zero w = w
  rounds times (suc n) w = rounds times n (run_once settings (times n) w).1

  -- `stop`, once the task of `_run` is cancelled between two rounds: the final flush
  unfoldable pub stop : DateTime → Action (World pg r) Unit
  stop now = flush settings now
