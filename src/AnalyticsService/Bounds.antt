-- ===== src/AnalyticsService/Bounds.antt =====
-- The numbers of a summary of app/services/analytics.py, from the repositories.
use fastapi_url_shortener.Base.{
  ℕ, ◌+◌, ◌-◌, ◌*◌, ◌^◌, ◌≤◌, ◌<◌, String, ◌≡◌, ◌&&◌, Option, some, List, [], ◌∷◌, map, arith, ◌==◌,
  leb, string_eq, nat_eq, if◌then◌else◌, length, take, select, count_where, count_where_mono,
  length-select, length-take-le, All, inl, inr, Bool-cases,
}
use native.Mathlib.Nat.{mul-le-mul_right}
use fastapi_url_shortener.Models.{DateTime, second, ShortUrl, ClickEvent}
use fastapi_url_shortener.Postgres.{Postgres}
use fastapi_url_shortener.Repositories.ClickEvents.{
  is_since, clicks_since, distinct, not_null, group_counts, count_unique_visitors,
  get_dimension_counts, get_daily_stats, day_of, day_stats,
}
use fastapi_url_shortener.Repositories.Groups.{
  length-distinct-le, length-not_null-le, group_counts-le, grouped-le,
}
use fastapi_url_shortener.Repositories.Ordered.{
  total_of, IsDescending, total_of-take-le, All-le-total, IsDescending-take, IsDescending-map,
  All-map, length-map, total_of-map, order_by_desc-IsDescending, total_of-order_by, All-order_by,
}
use fastapi_url_shortener.AnalyticsService.{
  DimensionBreakdown, Rounding, breakdown_of, to_breakdown, top_of,
}

-- `round(count / total * 100, 1)` is a nearest tenth, for numbers whose quotients floating-point
-- numbers tell apart.
pub record IsRounding (o : Rounding) : Type 0 where
  pub nearest :
      (count total : ℕ)
      → 0 < total
      → count ≤ total
      → total < 2 ^ 40
      → (2 * (o.tenths count total * total) ≤ 2000 * count + total)
        × (2000 * count ≤ 2 * (o.tenths count total * total) + total)

-- What a breakdown of a column is to `total` clicks.
pub record IsBreakdown (total : ℕ) (rows : List DimensionBreakdown) : Type 0 where
  pub few : length rows ≤ 10
  pub counted : total_of (λ b. b.count) rows ≤ total
  pub ordered : IsDescending (λ b. b.count) rows
  pub percentages : All (λ b. b.percentage ≤ 1000) rows

-- A number of tenths that fits a part of the whole is at most 1000.
tenths-le : (t total : ℕ) → 0 < total → 2 * (t * total) ≤ 2001 * total → t ≤ 1000
tenths-le t total busy h = elim (Bool-cases (leb t 1000)) [
  | inl fits ↦ ground arith
  | inr over ↦
      let many : 1001 ≤ t = ground arith in absurd (omega (arith, mul-le-mul_right total many))
]

module _ (o : Rounding) (rounding : IsRounding o) (total : ℕ) (small : total < 2 ^ 40) where
  percentage-le :
      (count : ℕ) → count ≤ total → (if total == 0 then 0 else o.tenths count total) ≤ 1000
  percentage-le count part = elim (Bool-cases (total == 0)) [
    | inl nothing ↦ rw nothing (omega arith)
    | inr busy ↦
        let some_clicks : 0 < total = ground arith in
        rw busy (
          tenths-le (o.tenths count total) total some_clicks
            (omega (arith, (rounding.nearest count total some_clicks part small).0)))
  ]

  percentages-le :
      (rows : List (String × ℕ))
      → All (λ g. g.1 ≤ total) rows
      → All (λ g. (breakdown_of o total g).percentage ≤ 1000) rows
  percentages-le [] h = tt
  percentages-le (g ∷ rows) h = (percentage-le g.1 h.0, percentages-le rows h.1)

  to_breakdown-IsBreakdown :
      (labels : List String)
      → length labels ≤ total
      → IsBreakdown total (to_breakdown o (take 10 (group_counts labels)) total)
  unfolding to_breakdown group_counts
  to_breakdown-IsBreakdown labels h =
      let groups = group_counts labels in
      let rows = take 10 groups in
      let counted : total_of (λ (g : String × ℕ). g.1) rows ≤ total =
        omega (
          arith,
          h,
          group_counts-le labels,
          total_of-take-le (λ (g : String × ℕ). g.1) 10 groups,
        ) in
      record {
        few = omega (arith, length-map (breakdown_of o total) rows, length-take-le 10 groups);
        counted = omega (arith, counted, total_of-map (breakdown_of o total) (λ b. b.count) rows);
        ordered =
            IsDescending-map (breakdown_of o total) (λ b. b.count) rows
              (IsDescending-take (λ g. g.1) 10 groups
                (order_by_desc-IsDescending (λ g. g.1)
                  (map (λ l. (l, length (select (λ m. m == l) labels))) (distinct labels))));
        percentages =
            All-map (breakdown_of o total) (λ b. b.percentage ≤ 1000) rows
              (percentages-le rows (All-le-total (λ g. g.1) total rows counted));
      }

visitors-le :
    (rows : List ClickEvent) (dates : List ℕ)
    → All (λ d. (day_stats rows d).2 ≤ (day_stats rows d).1) dates
visitors-le rows [] = tt
visitors-le rows (d ∷ dates) =
    let of_day = select (λ e. day_of e.created_at == d) rows in
    let hashes = not_null (map (λ e. e.visitor_hash) of_day) in
    (
      omega (
        arith,
        length-distinct-le hashes,
        length-not_null-le (map (λ e. e.visitor_hash) of_day),
        length-map (λ (e : ClickEvent). e.visitor_hash) of_day,
      ),
      visitors-le rows dates,
    )

module _ ⦃pg : Postgres⦄ (o : Rounding) (rounding : IsRounding o) (url : ShortUrl) (db : pg.Db)
    (small : url.click_count < 2 ^ 40)
    (agree : url.click_count
      ≡ count_where (λ e. e.short_url_id == url.id) (pg.click_events.rows db)) where
  clicks_since-le :
      (since : Option DateTime)
      → length (clicks_since url.id since (pg.click_events.rows db)) ≤ url.click_count
  unfolding clicks_since
  clicks_since-le since = omega (
    arith,
    agree,
    length-select (λ e. e.short_url_id == url.id && is_since since e.created_at)
        (pg.click_events.rows db),
    count_where_mono (λ e. e.short_url_id == url.id && is_since since e.created_at)
        (λ e. e.short_url_id == url.id) (λ e h. ground arith) (pg.click_events.rows db),
  )

  pub top_of-IsBreakdown :
      (since : Option DateTime) (col : ClickEvent → Option String)
      → IsBreakdown url.click_count (top_of o url since col db)
  unfolding get_dimension_counts
  top_of-IsBreakdown since col =
      let clicks = clicks_since url.id since (pg.click_events.rows db) in
      to_breakdown-IsBreakdown o rounding url.click_count small (not_null (map col clicks)) (
        omega (
          arith,
          clicks_since-le since,
          length-not_null-le (map col clicks),
          length-map col clicks,
        ))

  pub count_unique_visitors-le :
      (since : Option DateTime) → count_unique_visitors url.id since db ≤ url.click_count
  unfolding count_unique_visitors
  count_unique_visitors-le since =
      let clicks = clicks_since url.id since (pg.click_events.rows db) in
      let hashes = not_null (map (λ e. e.visitor_hash) clicks) in
      omega (
        arith,
        clicks_since-le since,
        length-distinct-le hashes,
        length-not_null-le (map (λ e. e.visitor_hash) clicks),
        length-map (λ (e : ClickEvent). e.visitor_hash) clicks,
      )

  -- The clicks of the days add up to the clicks of the link at most, and a day has no more visitors
  -- than clicks.
  pub get_daily_stats-le :
      (days : ℕ) (now : DateTime)
      → (total_of (λ g. g.1) (get_daily_stats url.id days now db) ≤ url.click_count)
        × All (λ g. g.2 ≤ g.1) (get_daily_stats url.id days now db)
  unfolding get_daily_stats distinct
  get_daily_stats-le days now =
      let rows =
        clicks_since url.id (some (now - days * 86400 * second)) (pg.click_events.rows db) in
      let dates = distinct (map (λ e. day_of e.created_at) rows) in
      (
        omega (
          arith,
          clicks_since-le (some (now - days * 86400 * second)),
          grouped-le (λ (e : ClickEvent). day_of e.created_at) rows,
          total_of-order_by (λ (g : ℕ × ℕ × ℕ). g.0) (λ g. g.1) (map (day_stats rows) dates),
          total_of-map (day_stats rows) (λ g. g.1) dates,
        ),
        All-order_by (λ (g : ℕ × ℕ × ℕ). g.0) (λ g. g.2 ≤ g.1) (map (day_stats rows) dates)
            (All-map (day_stats rows) (λ g. g.2 ≤ g.1) dates (visitors-le rows dates)),
      )
