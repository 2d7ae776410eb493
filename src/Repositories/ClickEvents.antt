-- ===== src/Repositories/ClickEvents.antt =====
-- app/repositories/click_event.py
use fastapi_url_shortener.Base.{
  ℕ, ◌*◌, ◌-◌, ◌/◌, String, Bool, true, ◌&&◌, Option, none, some, List, [], ◌∷◌, map, leb, ◌==◌,
  nat_eq, string_eq, option_eq, if◌then◌else◌, length, take, select, contains, Comparable,
}
use fastapi_url_shortener.Core.Errors.{dbapi_error}
use fastapi_url_shortener.Core.Action.{Action, attempt}
use fastapi_url_shortener.Models.{Uuid, DateTime, second, ClickEvent}
use fastapi_url_shortener.Postgres.{Postgres}
use fastapi_url_shortener.Repositories.Query.{order_by_desc, order_by}

-- The distinct values, the last occurrence of each.
module _ {A : Type 0} ⦃e : Comparable A⦄ where
  unfoldable pub distinct : List A → List A
  distinct [] = []
  distinct (x ∷ xs) = let rest = distinct xs in if contains xs x then rest else x ∷ rest

-- The texts that are not NULL.
unfoldable pub not_null : List (Option String) → List String
not_null [] = []
not_null (none ∷ xs) = not_null xs
not_null (some x ∷ xs) = x ∷ not_null xs

-- `created_at >= since`, where `since` is given
abbrev pub is_since : Option DateTime → DateTime → Bool
is_since none t = true
is_since (some since) t = leb since t

-- The rows of a link since a time.
unfoldable pub clicks_since : Uuid → Option DateTime → List ClickEvent → List ClickEvent
clicks_since url_id since = select (λ e. e.short_url_id == url_id && is_since since e.created_at)

-- `select(col, count()).group_by(col).order_by(count().desc())` over the values of a column
unfoldable pub group_counts : List String → List (String × ℕ)
unfolding distinct
group_counts labels =
    order_by_desc (λ g. g.1)
      (map (λ l. (l, length (select (λ m. m == l) labels))) (distinct labels))

-- `func.date(created_at)`, as the number of the day (UTC)
abbrev pub day_of : DateTime → ℕ
day_of t = t / (86400 * second)

-- A row of the statistics: a day, the number of its clicks, and of its distinct visitors.
abbrev pub day_stats : List ClickEvent → ℕ → ℕ × ℕ × ℕ
day_stats rows d =
    let of_day = select (λ e. day_of e.created_at == d) rows in
    (d, length of_day, length (distinct (not_null (map (λ e. e.visitor_hash) of_day))))

module _ ⦃pg : Postgres⦄ where
  unfoldable pub bulk_insert : List ClickEvent → Action pg.Db Unit
  bulk_insert events = attempt (pg.add_all_click_events events) dbapi_error

  unfoldable pub get_by_url : Uuid → Option DateTime → ℕ → pg.Db → List ClickEvent
  unfolding clicks_since
  get_by_url url_id since limit db =
      take limit
        (order_by_desc (λ e. e.created_at) (clicks_since url_id since (pg.click_events.rows db)))

  unfoldable pub count_unique_visitors : Uuid → Option DateTime → pg.Db → ℕ
  unfolding clicks_since distinct not_null
  count_unique_visitors url_id since db = length (
      distinct (
        not_null (map (λ e. e.visitor_hash) (clicks_since url_id since (pg.click_events.rows db)))))

  unfoldable pub get_dimension_counts :
      Uuid → (ClickEvent → Option String) → Option DateTime → ℕ → pg.Db → List (String × ℕ)
  unfolding clicks_since group_counts not_null
  get_dimension_counts url_id dimension_col since limit db = take limit (
      group_counts
        (not_null (map dimension_col (clicks_since url_id since (pg.click_events.rows db)))))

  -- `get_daily_stats` at the time `now`: for each day with a click, its clicks and its visitors
  unfoldable pub get_daily_stats : Uuid → ℕ → DateTime → pg.Db → List (ℕ × ℕ × ℕ)
  unfolding clicks_since distinct not_null
  get_daily_stats url_id days now db =
      let rows =
        clicks_since url_id (some (now - days * 86400 * second)) (pg.click_events.rows db) in
      order_by (λ g. g.0) (map (day_stats rows) (distinct (map (λ e. day_of e.created_at) rows)))
