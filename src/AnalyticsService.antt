-- ===== src/AnalyticsService.antt =====
-- app/services/analytics.py, with the schemas of app/schemas/analytics.py and the endpoint of
-- app/api/v1/endpoints/analytics.py. A date is the number of its day; a percentage is a number of
-- tenths. The rounding of a percentage, and the reading and writing of a summary as an object, are
-- parameters.
pub mod Bounds
pub mod Summary
pub mod Cached
use fastapi_url_shortener.Base.{
  ℕ, ◌-◌, ◌*◌, String, Bool, Option, none, some, List, [], ◌∷◌, map, ◌==◌, nat_eq, if◌then◌else◌,
}
use fastapi_url_shortener.Core.Errors.{validation_error, not_found_error, value_error}
use fastapi_url_shortener.Core.Action.{
  Result, ok, err, Action, pure, reads, or_raise, resume, ◌>>=◌, ◌>>◌,
}
use fastapi_url_shortener.Core.Security.{Crypto}
use fastapi_url_shortener.Core.Settings.{Settings}
use fastapi_url_shortener.Core.World.{World, on_db, on_store}
use fastapi_url_shortener.Models.{DateTime, second, ShortUrl, ClickEvent}
use fastapi_url_shortener.Postgres.{Postgres}
use fastapi_url_shortener.Redis.{Redis}
use fastapi_url_shortener.Formats.{Formats, NestedJson}
use fastapi_url_shortener.Repositories.ClickEvents.{
  count_unique_visitors, get_dimension_counts, get_daily_stats,
}
use fastapi_url_shortener.Repositories.ShortUrls.{get_by_short_code}
use fastapi_url_shortener.Cache.AnalyticsCache as Cache
use fastapi_url_shortener.Dependencies.{get_current_user}
use fastapi_url_shortener.Endpoints.{in_session}

pub record DimensionBreakdown : Type 0 where
  pub label : String
  pub count : ℕ
  pub percentage : ℕ

pub record DailyClickStat : Type 0 where
  pub date : ℕ
  pub clicks : ℕ
  pub unique_visitors : ℕ

pub record AnalyticsSummary : Type 0 where
  pub short_code : String
  pub total_clicks : ℕ
  pub unique_visitors : ℕ
  pub top_countries : List DimensionBreakdown
  pub top_browsers : List DimensionBreakdown
  pub top_os : List DimensionBreakdown
  pub top_devices : List DimensionBreakdown
  pub top_referrers : List DimensionBreakdown
  pub daily_stats : List DailyClickStat
  pub period_days : ℕ

-- `round(count / total * 100, 1)`, in tenths
pub record Rounding : Type 0 where
  pub tenths : ℕ → ℕ → ℕ

pub record SummaryModel (j : NestedJson) : Type 0 where
  -- `summary.model_dump(mode="json")`
  pub model_dump : AnalyticsSummary → j.Dict
  -- `AnalyticsSummary(**d)`, none where it raises ValidationError
  pub construct : j.Dict → Option AnalyticsSummary
  -- `bool(d)`: an empty object is false
  pub truth : j.Dict → Bool

-- `to_breakdown`
abbrev pub breakdown_of : Rounding → ℕ → String × ℕ → DimensionBreakdown
breakdown_of o total r = record {
  label = r.0;
  count = r.1;
  percentage = if total == 0 then 0 else o.tenths r.1 total;
}

unfoldable pub to_breakdown : Rounding → List (String × ℕ) → ℕ → List DimensionBreakdown
to_breakdown o rows total = map (breakdown_of o total) rows

module _ ⦃pg : Postgres⦄ (o : Rounding) where
  -- the breakdown of a column
  abbrev pub top_of :
      ShortUrl → Option DateTime → (ClickEvent → Option String) → pg.Db → List DimensionBreakdown
  top_of url since dimension_col db =
      to_breakdown o (get_dimension_counts url.id dimension_col since 10 db) url.click_count

  -- the summary of a link, from the database
  unfoldable pub summarize : DateTime → String → ℕ → ShortUrl → pg.Db → AnalyticsSummary
  summarize now short_code days url db =
      let since = some (now - days * 86400 * second) in
      record {
        short_code = short_code;
        total_clicks = url.click_count;
        unique_visitors = count_unique_visitors url.id since db;
        top_countries = top_of url since (λ e. e.country) db;
        top_browsers = top_of url since (λ e. e.browser) db;
        top_os = top_of url since (λ e. e.os) db;
        top_devices = top_of url since (λ e. e.device) db;
        top_referrers = top_of url since (λ e. e.referrer) db;
        daily_stats =
            map (λ r. record { date = r.0; clicks = r.1; unique_visitors = r.2 })
              (get_daily_stats url.id days now db);
        period_days = days;
      }

module _ ⦃pg : Postgres⦄ ⦃r : Redis⦄ ⦃j : NestedJson⦄ (m : SummaryModel j) (o : Rounding)
    (settings : Settings) (now : DateTime) where
  -- `get_summary`, where the cache has none
  unfoldable pub compute_summary : String → ℕ → Action (World pg r) AnalyticsSummary
  compute_summary short_code days = do
    url ← or_raise (← on_db (get_by_short_code short_code)) (not_found_error "Short URL")
    summary ← on_db (reads (λ db. ok (summarize o now short_code days url db)))
    on_store (Cache.set_summary settings short_code (m.model_dump summary))
    pure summary

  -- `if cached: return AnalyticsSummary(**cached)`
  abbrev pub cached_or :
      Option j.Dict → Action (World pg r) AnalyticsSummary → Action (World pg r) AnalyticsSummary
  cached_or none compute = compute
  cached_or (some d) compute = if m.truth d then or_raise (m.construct d) value_error else compute

  -- `get_summary`
  unfoldable pub get_summary : String → ℕ → Action (World pg r) AnalyticsSummary
  get_summary short_code days = do
    cached ← on_store (Cache.get_summary short_code)
    cached_or cached (compute_summary short_code days)

  -- the endpoint `get_analytics_summary`, for the days that its query admits
  unfoldable pub get_analytics_summary :
      ⦃f : Formats⦄ ⦃y : Crypto⦄ → Option String → String → ℕ → Action (World pg r) AnalyticsSummary
  get_analytics_summary credentials short_code days =
      in_session (do on_db (get_current_user settings now credentials); get_summary short_code days)
