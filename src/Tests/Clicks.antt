-- ===== src/Tests/Clicks.antt =====
-- The click pipeline at concrete queues.
use fastapi_url_shortener.Base.{
  if◌then◌else◌, ◌==◌, string_eq, map, ℕ, String, ◌≡◌, ◌≢◌, refl, arith, List, [], ◌∷◌, none, some,
  true, false, take, drop,
}
use fastapi_url_shortener.Core.Errors.{dbapi_error}
use fastapi_url_shortener.Core.Action.{ok, err}
use fastapi_url_shortener.Core.World.{World}
use fastapi_url_shortener.Core.Settings.{default_settings}
use fastapi_url_shortener.Models.{admits_click_event}
use fastapi_url_shortener.Formats.{JsonObject, text}
use fastapi_url_shortener.Formats.Memory.{memory_formats, memory_formats-IsFormats}
use fastapi_url_shortener.Postgres.Memory.{memory, memory-IsPostgres}
use fastapi_url_shortener.Redis.Memory.{memory_redis, memory-IsListStore}
use fastapi_url_shortener.Analytics.Events.{Click, to_dict}
use fastapi_url_shortener.Analytics.Processor.{
  rounds, stop, parse_events, parse_event, row_of, flush,
}
use fastapi_url_shortener.Analytics.RoundTrip.{stored_click, parse_event-to_dict}
use fastapi_url_shortener.Analytics.Processor.Flush.{accepted, IsPersisted, CountsAgree}
use fastapi_url_shortener.Analytics.Processor.Drain.{rounds-stop_drains}
use fastapi_url_shortener.Analytics.Processor.Queue.{
  rounds-CountsAgree, flush-accepted, flush_loses_batch,
}
use fastapi_url_shortener.Cache.AnalyticsCache.{queue_key, load_all}
use fastapi_url_shortener.Tests.Data.{one_link, world_of}

-- A click on the link with the id n.
abbrev click_of : ℕ → JsonObject
click_of n =
    ("short_url_id", text (memory_formats.uuid_str n))
    ∷ ("timestamp", text (memory_formats.isoformat 3))
    ∷ []

-- A database with one link, and a queue of clicks.
abbrev queue_of : List JsonObject → World memory memory_redis
queue_of clicks = record {
  db = one_link;
  store = record (world_of one_link).store {
    lists = λ k. if k == queue_key then map memory_formats.dumps clicks else [];
  };
}

-- A click on the link, and an object that is no click.
abbrev good : List JsonObject
good = click_of 2 ∷ (("timestamp", text "") ∷ []) ∷ []

-- A click on the link, and one on a link that is gone.
abbrev mixed : List JsonObject
mixed = click_of 2 ∷ click_of 5 ∷ []

rounds-CountsAgree_example : CountsAgree (rounds default_settings (λ n. 4) 2 (queue_of mixed)).db
rounds-CountsAgree_example =
    rounds-CountsAgree memory-IsPostgres default_settings (λ n. 4) 2 (queue_of mixed) (refl, tt)

abbrev queued : World memory memory_redis → List String
queued w = memory_redis.lrange queue_key w.store

good-busy : queued (queue_of good) ≢ []
good-busy = λ e. cc

mixed-busy : queued (queue_of mixed) ≢ []
mixed-busy = λ e. cc

good-parsed :
    load_all memory_formats (take default_settings.analytics_batch_size (queued (queue_of good)))
    ≡ ok good
unfolding load_all
good-parsed = refl

mixed-parsed :
    load_all memory_formats (take default_settings.analytics_batch_size (queued (queue_of mixed)))
    ≡ ok mixed
unfolding load_all
mixed-parsed = refl

good-accepted : accepted (parse_events memory_formats good) one_link ≡ true
unfolding parse_events parse_event row_of admits_click_event
good-accepted = ground arith

mixed-refused : accepted (parse_events memory_formats mixed) one_link ≡ false
unfolding parse_events parse_event row_of admits_click_event
mixed-refused = ground arith

flush-accepted_example :
    (w' : World memory memory_redis) × (flush default_settings 4 (queue_of good) ≡ (ok tt, w'))
    × (queued w' ≡ drop default_settings.analytics_batch_size (queued (queue_of good)))
    × IsPersisted 4 (parse_events memory_formats good) one_link w'.db
flush-accepted_example =
    flush-accepted memory-IsPostgres memory-IsListStore default_settings 4 good (queue_of good)
      (omega arith) good-busy good-parsed good-accepted

flush_loses_batch_example :
    (w' : World memory memory_redis) × (flush default_settings 4 (queue_of mixed)
      ≡ (err dbapi_error, w'))
    × (queued w' ≡ drop default_settings.analytics_batch_size (queued (queue_of mixed)))
    × (w'.db ≡ one_link)
flush_loses_batch_example =
    flush_loses_batch memory-IsPostgres memory-IsListStore default_settings 4 mixed (queue_of mixed)
      (omega arith) mixed-busy mixed-parsed mixed-refused

abbrev click : Click
click = record {
  short_url_id = 2;
  timestamp = 3;
  ip_address = some "10.0.0.1";
  user_agent = some "curl";
  referrer = none;
  country = none;
  city = none;
  browser = some "Unknown";
  os = none;
  device = none;
}

parse_event-to_dict_example :
    parse_event memory_formats (to_dict memory_formats click)
    ≡ some (stored_click memory_formats click)
parse_event-to_dict_example = parse_event-to_dict memory_formats click memory_formats-IsFormats

rounds-stop_drains_example :
    queued (stop default_settings 6 (rounds default_settings (λ n. 4) 2 (queue_of mixed))).1 ≡ []
rounds-stop_drains_example =
    rounds-stop_drains memory-IsListStore default_settings (λ n. 4) 6 2 (queue_of mixed)
      (omega arith)
