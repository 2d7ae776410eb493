-- ===== src/AnalyticsService/Summary.antt =====
-- `get_summary` of app/services/analytics.py, where the cache has no summary.
use fastapi_url_shortener.Base.{
  ℕ, ◌-◌, ◌*◌, ◌^◌, ◌≤◌, ◌<◌, String, ◌≡◌, sym, Option, none, some, arith, ◌==◌, string_eq, nat_eq,
  option_eq, count_where, All, inl, inr, subst, Option-cases,
}
use fastapi_url_shortener.Core.Errors.{not_found_error}
use fastapi_url_shortener.Core.Action.{ok, err}
use fastapi_url_shortener.Core.Settings.{Settings}
use fastapi_url_shortener.Core.World.{World}
use fastapi_url_shortener.Models.{DateTime, second, ShortUrl}
use fastapi_url_shortener.Postgres.{Postgres}
use fastapi_url_shortener.Redis.{Redis}
use fastapi_url_shortener.Formats.{NestedJson}
use fastapi_url_shortener.Repositories.Query.{first_where, All-first_where}
use fastapi_url_shortener.Repositories.Ordered.{total_of, All-map, total_of-map}
use fastapi_url_shortener.Repositories.ShortUrls.Lookup.{get_by_short_code_lem}
use fastapi_url_shortener.Repositories.ShortUrls.WellFormed.{IsWellFormed}
use fastapi_url_shortener.Repositories.ClickEvents.{get_daily_stats}
use fastapi_url_shortener.Cache.AnalyticsCache as Cache
use fastapi_url_shortener.Cache.AnalyticsCache.{summary_key}
use fastapi_url_shortener.Analytics.Processor.Flush.{CountsAgree}
use fastapi_url_shortener.AnalyticsService.{
  AnalyticsSummary, DailyClickStat, Rounding, SummaryModel, summarize, compute_summary, get_summary,
}
use fastapi_url_shortener.AnalyticsService.Bounds.{
  IsRounding, IsBreakdown, top_of-IsBreakdown, count_unique_visitors-le, get_daily_stats-le,
}

-- The numbers of a summary fit one another: no more visitors than clicks, and what is counted by
-- column or by day adds up to the clicks at most.
pub record IsBounded (s : AnalyticsSummary) : Type 0 where
  pub visitors : s.unique_visitors ≤ s.total_clicks
  pub countries : IsBreakdown s.total_clicks s.top_countries
  pub browsers : IsBreakdown s.total_clicks s.top_browsers
  pub os : IsBreakdown s.total_clicks s.top_os
  pub devices : IsBreakdown s.total_clicks s.top_devices
  pub referrers : IsBreakdown s.total_clicks s.top_referrers
  pub daily : total_of (λ d. d.clicks) s.daily_stats ≤ s.total_clicks
  pub daily_visitors : All (λ d. d.unique_visitors ≤ d.clicks) s.daily_stats

ok-injective : {A : Type 0} {x y : A} → ok x ≡ ok y → x ≡ y
ok-injective h = cc

module _ ⦃pg : Postgres⦄ (o : Rounding) (rounding : IsRounding o) (url : ShortUrl) (db : pg.Db)
    (small : url.click_count < 2 ^ 40)
    (agree : url.click_count
      ≡ count_where (λ e. e.short_url_id == url.id) (pg.click_events.rows db)) where
  summarize-IsBounded :
      (now : DateTime) (short_code : String) (days : ℕ)
      → IsBounded (summarize o now short_code days url db)
  unfolding summarize
  summarize-IsBounded now short_code days =
      let since = some (now - days * 86400 * second) in
      let (daily, per_day) = get_daily_stats-le o rounding url db small agree days now in
      let stat : ℕ × ℕ × ℕ → DailyClickStat =
        λ r. record { date = r.0; clicks = r.1; unique_visitors = r.2 } in
      let days_of = get_daily_stats url.id days now db in
      record {
        visitors = count_unique_visitors-le o rounding url db small agree since;
        countries = top_of-IsBreakdown o rounding url db small agree since (λ e. e.country);
        browsers = top_of-IsBreakdown o rounding url db small agree since (λ e. e.browser);
        os = top_of-IsBreakdown o rounding url db small agree since (λ e. e.os);
        devices = top_of-IsBreakdown o rounding url db small agree since (λ e. e.device);
        referrers = top_of-IsBreakdown o rounding url db small agree since (λ e. e.referrer);
        daily = omega (arith, daily, total_of-map stat (λ d. d.clicks) days_of);
        daily_visitors = All-map stat (λ d. d.unique_visitors ≤ d.clicks) days_of per_day;
      }

module _ ⦃pg : Postgres⦄ ⦃r : Redis⦄ ⦃j : NestedJson⦄ (m : SummaryModel j) (o : Rounding)
    (settings : Settings) (now : DateTime) (code : String) (days : ℕ) (w : World pg r) where
  abbrev pub by_short_code : Option ShortUrl
  by_short_code = first_where (λ u. u.short_code == code) (pg.short_urls.rows w.db)

  -- What is computed for a link, and what is raised where there is none.
  pub compute_summary_lem :
      IsWellFormed (pg.short_urls.rows w.db)
      → (compute_summary m o settings now code days w).0 ≡ (elim by_short_code [
        | none ↦ err (not_found_error "Short URL")
        | some u ↦ ok (summarize o now code days u w.db)
      ])
  unfolding compute_summary Cache.set_summary
  compute_summary_lem wf = elim (Option-cases by_short_code) [
    | inl missing ↦ rw (get_by_short_code_lem w.db wf code, missing)
    | inr (u, found) ↦ rw (get_by_short_code_lem w.db wf code, found)
  ]

  get_summary-miss :
      r.get (summary_key code) w.store ≡ none
      → get_summary m o settings now code days w ≡ compute_summary m o settings now code days w
  unfolding get_summary Cache.get_summary
  get_summary-miss miss = rw miss

  -- A summary that is computed because the cache has none is that of the link with the short code,
  -- counts all clicks of that link, and its numbers fit one another: no more visitors than clicks,
  -- at most ten rows in a breakdown, the greatest count first, whose counts add up to the clicks at
  -- most and whose percentages are 100 at most; and so for the days. The click counts agree with
  -- the stored events, percentages are rounded to a nearest tenth, and a link has fewer than 2 ^ 40
  -- clicks.
  pub get_summary-IsBounded :
      (s : AnalyticsSummary)
      → IsRounding o
      → IsWellFormed (pg.short_urls.rows w.db)
      → CountsAgree w.db
      → All (λ u. u.click_count < 2 ^ 40) (pg.short_urls.rows w.db)
      → r.get (summary_key code) w.store ≡ none
      → (get_summary m o settings now code days w).0 ≡ ok s
      → IsBounded s
        × ((u : ShortUrl) × (by_short_code ≡ some u) × (s ≡ summarize o now code days u w.db))
  get_summary-IsBounded s rounding wf agree small miss h =
      let answer = rw (get_summary-miss miss, compute_summary_lem wf) at h in
      elim (Option-cases by_short_code) [
        | inl missing ↦ cc (rw missing at answer)
        | inr (u, found) ↦
            let same : summarize o now code days u w.db ≡ s = ok-injective (rw found at answer) in
            let bounded =
              summarize-IsBounded o rounding u w.db
                (All-first_where (λ v. v.click_count < 2 ^ 40) (λ v. v.short_code == code)
                  (pg.short_urls.rows w.db) small found)
                (All-first_where
                  (λ v.
                    v.click_count
                    ≡ count_where (λ e. e.short_url_id == v.id) (pg.click_events.rows w.db))
                  (λ v. v.short_code == code) (pg.short_urls.rows w.db) agree found)
                now code days in
            (subst IsBounded same bounded, (u, found, sym same))
      ]
