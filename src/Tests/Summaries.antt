-- ===== src/Tests/Summaries.antt =====
-- The summaries at concrete inputs, with summaries that are written as rows of fields.
use native.Mathlib.Nat.{mul-div-le, lt-mul-div-succ}
use fastapi_url_shortener.Base.{
  ℕ, ◌+◌, ◌*◌, ◌/◌, ◌<◌, String, ◌≡◌, refl, ap, ◌∙◌, Bool, true, false, Option, none, some, List,
  [], ◌∷◌, map, arith, ◌==◌, string_eq, inl, inr, Bool-cases, eq_iff,
}
use fastapi_url_shortener.Core.Action.{ok}
use fastapi_url_shortener.Core.Settings.{default_settings}
use fastapi_url_shortener.Core.World.{World}
use fastapi_url_shortener.Formats.{JsonObject, null, bool, text, NestedJson, IsNestedJson}
use fastapi_url_shortener.Formats.Memory.{memory_formats, memory_formats-IsFormats}
use fastapi_url_shortener.Models.{DateTime, second, ShortUrl, ClickEvent}
use fastapi_url_shortener.Repositories.BaseRepository as Base
use fastapi_url_shortener.Repositories.Query.{scalar_one_or_none}
use fastapi_url_shortener.Repositories.ShortUrls.{find_one, get_by_short_code, has_code}
use fastapi_url_shortener.Repositories.ShortUrls.WellFormed.{IsWellFormed}
use fastapi_url_shortener.Cache.AnalyticsCache as Cache
use fastapi_url_shortener.Postgres.Memory.{MemoryDb, memory}
use fastapi_url_shortener.Redis.Memory.{memory_redis, memory-IsTextStore}
use fastapi_url_shortener.AnalyticsService.{
  DimensionBreakdown, DailyClickStat, AnalyticsSummary, Rounding, SummaryModel, summarize,
  compute_summary, get_summary,
}
use fastapi_url_shortener.AnalyticsService.Bounds.{IsRounding}
use fastapi_url_shortener.AnalyticsService.Summary.{IsBounded, by_short_code, get_summary-IsBounded}
use fastapi_url_shortener.AnalyticsService.Cached.{IsSummaryModel, get_summary-again}
use fastapi_url_shortener.Tests.Data.{link, one_link, world_of}

-- A number as a text, and back.
abbrev num : ℕ → String
num = memory_formats.isoformat

abbrev number_of : Option ℕ → ℕ
number_of none = 0
number_of (some n) = n

abbrev number : String → ℕ
number s = number_of (memory_formats.fromisoformat s)

number-num : (n : ℕ) → number (num n) ≡ n
number-num n = ap number_of (memory_formats-IsFormats.fromisoformat-isoformat n)

abbrev Row : Type 0
Row = String × ℕ × ℕ

abbrev put_rows : List Row → JsonObject → JsonObject
put_rows [] rest = ("", null) ∷ rest
put_rows ((s, m, n) ∷ rows) rest = (s, text (num m)) ∷ ("", text (num n)) ∷ put_rows rows rest

abbrev take_rows : JsonObject → List Row × JsonObject
take_rows [] = ([], [])
take_rows ((s, null) ∷ d) = ([], d)
take_rows ((s, bool b) ∷ d) = ([], d)
take_rows ((s, text m) ∷ []) = ([], [])
take_rows ((s, text m) ∷ (t, null) ∷ d) = ([], d)
take_rows ((s, text m) ∷ (t, bool b) ∷ d) = ([], d)
take_rows ((s, text m) ∷ (t, text n) ∷ d) =
    let (rows, rest) = take_rows d in ((s, number m, number n) ∷ rows, rest)

take_rows-put_rows :
    (rows : List Row) (rest : JsonObject) → take_rows (put_rows rows rest) ≡ (rows, rest)
take_rows-put_rows [] rest = refl
take_rows-put_rows ((s, m, n) ∷ rows) rest =
    rw (take_rows-put_rows rows rest, number-num m, number-num n) refl

abbrev row_of_breakdown : DimensionBreakdown → Row
row_of_breakdown b = (b.label, b.count, b.percentage)

abbrev breakdown_of_row : Row → DimensionBreakdown
breakdown_of_row r = record { label = r.0; count = r.1; percentage = r.2 }

abbrev row_of_day : DailyClickStat → Row
row_of_day d = (num d.date, d.clicks, d.unique_visitors)

abbrev day_of_row : Row → DailyClickStat
day_of_row r = record { date = number r.0; clicks = r.1; unique_visitors = r.2 }

breakdowns-again :
    (bs : List DimensionBreakdown) → map breakdown_of_row (map row_of_breakdown bs) ≡ bs
breakdowns-again [] = refl
breakdowns-again (b ∷ bs) = ap (◌∷◌ b) (breakdowns-again bs)

days-again : (ds : List DailyClickStat) → map day_of_row (map row_of_day ds) ≡ ds
days-again [] = refl
days-again (d ∷ ds) = rw (number-num d.date, days-again ds) refl

abbrev put_breakdowns : List DimensionBreakdown → JsonObject → JsonObject
put_breakdowns bs = put_rows (map row_of_breakdown bs)

instance abbrev pub flat_json : NestedJson
flat_json = record {
  Dict = JsonObject;
  dumps = λ d. String.◌∷◌ "j" (memory_formats.dumps d);
  loads = λ s. elim s [ String.[] ↦ none | String.◌∷◌ c rest ↦ memory_formats.loads rest ];
}

abbrev dump : AnalyticsSummary → JsonObject
dump s =
    put_rows ((s.short_code, s.total_clicks, s.unique_visitors) ∷ ("", s.period_days, 0) ∷ []) (
      put_breakdowns s.top_countries (
        put_breakdowns s.top_browsers (
          put_breakdowns s.top_os (
            put_breakdowns s.top_devices
              (put_breakdowns s.top_referrers (put_rows (map row_of_day s.daily_stats) []))))))

abbrev headed :
    List Row
    → (List DimensionBreakdown
        × List DimensionBreakdown
        × List DimensionBreakdown
        × List DimensionBreakdown
        × List DimensionBreakdown)
    → List DailyClickStat
    → Option AnalyticsSummary
headed ((code, total, unique) ∷ (_, days, _) ∷ _) (a, b, c, d, e) daily = some (record {
  short_code = code;
  total_clicks = total;
  unique_visitors = unique;
  top_countries = a;
  top_browsers = b;
  top_os = c;
  top_devices = d;
  top_referrers = e;
  daily_stats = daily;
  period_days = days;
})
headed _ parts daily = none

abbrev construct : JsonObject → Option AnalyticsSummary
construct d₀ =
    let (head, d₁) = take_rows d₀ in
    let (a, d₂) = take_rows d₁ in
    let (b, d₃) = take_rows d₂ in
    let (c, d₄) = take_rows d₃ in
    let (d, d₅) = take_rows d₄ in
    let (e, d₆) = take_rows d₅ in
    let (daily, d₇) = take_rows d₆ in
    headed head
      (
        map breakdown_of_row a,
        map breakdown_of_row b,
        map breakdown_of_row c,
        map breakdown_of_row d,
        map breakdown_of_row e,
      )
      (map day_of_row daily)

abbrev filled : JsonObject → Bool
filled [] = false
filled (x ∷ d) = true

abbrev pub flat_model : SummaryModel flat_json
flat_model = record { model_dump = dump; construct = construct; truth = filled }

-- What is read of the fields that a summary is written as.
taken :
    (s : AnalyticsSummary)
    → construct (dump s)
      ≡ headed
          ((s.short_code, s.total_clicks, s.unique_visitors) ∷ ("", s.period_days, 0) ∷ [])
          (
            map breakdown_of_row (map row_of_breakdown s.top_countries),
            map breakdown_of_row (map row_of_breakdown s.top_browsers),
            map breakdown_of_row (map row_of_breakdown s.top_os),
            map breakdown_of_row (map row_of_breakdown s.top_devices),
            map breakdown_of_row (map row_of_breakdown s.top_referrers),
          )
          (map day_of_row (map row_of_day s.daily_stats))
taken s =
    let rest₆ = put_rows (map row_of_day s.daily_stats) [] in
    let rest₅ = put_breakdowns s.top_referrers rest₆ in
    let rest₄ = put_breakdowns s.top_devices rest₅ in
    let rest₃ = put_breakdowns s.top_os rest₄ in
    let rest₂ = put_breakdowns s.top_browsers rest₃ in
    rw
      (
        number-num s.total_clicks,
        number-num s.unique_visitors,
        number-num s.period_days,
        take_rows-put_rows (map row_of_breakdown s.top_countries) rest₂,
        take_rows-put_rows (map row_of_breakdown s.top_browsers) rest₃,
        take_rows-put_rows (map row_of_breakdown s.top_os) rest₄,
        take_rows-put_rows (map row_of_breakdown s.top_devices) rest₅,
        take_rows-put_rows (map row_of_breakdown s.top_referrers) rest₆,
        take_rows-put_rows (map row_of_day s.daily_stats) [],
      )
      refl

flat_model-IsSummaryModel : IsSummaryModel flat_model
flat_model-IsSummaryModel = record {
  construct-model_dump = λ s.
      taken s
      ∙ rw
          (
            breakdowns-again s.top_countries,
            breakdowns-again s.top_browsers,
            breakdowns-again s.top_os,
            breakdowns-again s.top_devices,
            breakdowns-again s.top_referrers,
            days-again s.daily_stats,
          )
          refl;
  truth-model_dump = λ s. refl;
}

abbrev measure : String → ℕ
measure String.[] = 0
measure (String.◌∷◌ c s) = 1

marked : (s : String) → (String.◌∷◌ "j" s == "") ≡ false
marked s = elim (Bool-cases (String.◌∷◌ "j" s == "")) [
  | inl empty ↦ ground (arith, ap measure ((eq_iff (String.◌∷◌ "j" s) "").0 empty))
  | inr other ↦ other
]

flat_json-IsNestedJson : IsNestedJson flat_json
flat_json-IsNestedJson = record {
  loads-dumps = λ d. memory_formats-IsFormats.loads-dumps d;
  dumps_nonempty = λ d. marked (memory_formats.dumps d);
}

abbrev pub nearest_tenths : Rounding
nearest_tenths = record { tenths = λ n total. (2000 * n + total) / (2 * total) }

nearest_tenths-IsRounding : IsRounding nearest_tenths
nearest_tenths-IsRounding = record {
  nearest = λ n total busy part small.
      let positive : 0 < 2 * total = omega (arith, busy) in
      (
        omega (arith, mul-div-le (2000 * n + total) (2 * total)),
        omega (arith, lt-mul-div-succ (2000 * n + total) positive),
      );
}

abbrev click_at : DateTime → ClickEvent
click_at t = record {
  short_url_id = 2;
  created_at = t;
  visitor_hash = some "v";
  country = none;
  city = none;
  referrer = none;
  user_agent = some "curl";
  browser = some "Unknown";
  os = none;
  device = none;
}

abbrev clicked : MemoryDb
clicked = record one_link {
  short_urls = record link { click_count = 2 } ∷ [];
  click_events = click_at 3 ∷ click_at 4 ∷ [];
}

clicked-IsWellFormed : IsWellFormed clicked.short_urls
unfolding has_code
clicked-IsWellFormed = record {
  unique_codes = λ c. ground arith;
  unique_ids = λ i. ground arith;
  aliases = (inl refl, tt);
}

abbrev first : World memory memory_redis
first = (get_summary flat_model nearest_tenths default_settings 5 "abc1234" 30 (world_of clicked)).1

abbrev summary : AnalyticsSummary
summary = summarize nearest_tenths 5 "abc1234" 30 (record link { click_count = 2 }) clicked

summarized :
    (get_summary flat_model nearest_tenths default_settings 5 "abc1234" 30 (world_of clicked)).0
    ≡ ok summary
unfolding get_summary compute_summary Cache.get_summary Cache.set_summary get_by_short_code find_one
    Base.find_one scalar_one_or_none
summarized = refl

get_summary-IsBounded_example :
    IsBounded summary
    × ((u : ShortUrl) × (by_short_code flat_model nearest_tenths default_settings 5 "abc1234" 30
            (world_of clicked)
          ≡ some u)
        × (summary ≡ summarize nearest_tenths 5 "abc1234" 30 u clicked))
get_summary-IsBounded_example =
    get_summary-IsBounded flat_model nearest_tenths default_settings 5 "abc1234" 30
      (world_of clicked) summary nearest_tenths-IsRounding clicked-IsWellFormed (refl, tt)
      (omega arith, tt) refl summarized

-- Two minutes later, when the click is gone from the database.
abbrev later_world : World memory memory_redis
later_world = record { db = one_link; store = memory_redis.wait (120 * second) first.store }

get_summary-again_example :
    get_summary flat_model nearest_tenths default_settings
      (120 * second + 5)
      "abc1234"
      7
      later_world
    ≡ (ok summary, later_world)
get_summary-again_example =
    get_summary-again memory-IsTextStore flat_json-IsNestedJson flat_model flat_model-IsSummaryModel
      nearest_tenths default_settings (omega arith) "abc1234" summary 5 (120 * second + 5) 30 7
      (120 * second) (world_of clicked) one_link summarized (inr (refl, omega arith))
